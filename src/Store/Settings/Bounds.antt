-- ===== src/Store/Settings/Bounds.antt =====
-- What the check of numeric settings accepts, and what the reading of numbers makes of it.
use registry_ui_go.Base.{
  ℕ, ◌≡◌, refl, true, false, Option, none, some, Text, arith, Bool-cases, atoi, ℤ, pos, negsuc,
  text_eq_refl, is_empty, trim_space, ◌≤◌, inl, inr,
}
use registry_ui_go.Store.{Db}
use registry_ui_go.Store.Settings.{
  set_setting, get_setting_int, int_value, valid_setting_value, numeric_setting_bounds, within,
}
use registry_ui_go.Store.Settings.Cache.{Coherent, get_setting-set_setting}

within_sound :
    (least greatest : ℕ) (o : Option ℤ)
    → within (least, greatest) o ≡ true
    → (n : ℕ) × (o ≡ some (pos n)) × (least ≤ n) × (n ≤ greatest)
unfolding within
within_sound least greatest none h = cc
within_sound least greatest (some (pos n)) h = (n, refl, ground arith, ground arith)
within_sound least greatest (some (negsuc n)) h = cc

-- A value that the check accepts for a key with bounds is, without the white space around it, a
-- number within them.
pub valid_setting_value_sound :
    (key value : Text) (least greatest : ℕ)
    → numeric_setting_bounds key ≡ some (least, greatest)
    → valid_setting_value key value ≡ true
    → (n : ℕ) × (atoi (trim_space value) ≡ some (pos n)) × (least ≤ n) × (n ≤ greatest)
unfolding valid_setting_value
valid_setting_value_sound key value least greatest bounds h =
    within_sound least greatest (atoi (trim_space value)) (rw (bounds, valid_setting_value) at h)

-- The number of a setting is read without trimming: a value that is accepted but that Atoi cannot
-- read as it stands, such as " 7", is stored, and the default is what the server then works with.
pub get_setting_int-set_setting :
    (key value : Text) (def : ℤ) (d : Db)
    → Coherent d
    → ((n : ℕ) → d.fails n ≡ false)
    → valid_setting_value key value ≡ true
    → atoi value ≡ none
    → (get_setting_int key def (set_setting key value d).1).0 ≡ def
unfolding get_setting_int int_value
get_setting_int-set_setting key value def d h works valid unread =
    rw (get_setting-set_setting key value key d h works (inr valid)) (
      rw (text_eq_refl key)
        (elim (Bool-cases (is_empty value)) [ inl e ↦ rw e | inr n ↦ rw n (rw unread) ]))
