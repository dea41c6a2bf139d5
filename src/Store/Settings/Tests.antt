-- ===== src/Store/Settings/Tests.antt =====
-- Settings at a database whose statements work.
use registry_ui_go.Base.{
  ℕ, inr, ◌≡◌, refl, ◌≤◌, true, some, Text, codes, atoi, itoa, ℤ, pos, text_eq, lookup, trim_space,
}
use registry_ui_go.Store.{ok}
use registry_ui_go.Samples.{empty_db}
use registry_ui_go.Store.Settings.{
  set_setting, get_setting, get_setting_int, valid_setting_value, numeric_setting_bounds, within,
}
use registry_ui_go.Store.Settings.Cache.{Coherent, get_setting-set_setting}
use registry_ui_go.Store.Settings.Bounds.{valid_setting_value_sound, get_setting_int-set_setting}

abbrev days : Text
days = codes "recycleGCDays"

abbrev padded : Text
padded = codes " 7"

checks : Unit {0}
unfolding valid_setting_value numeric_setting_bounds within atoi trim_space text_eq lookup itoa
checks = tt

numbers : (atoi (codes "-12") ≡ some (ℤ.negsuc 11)) × (itoa 3650 ≡ codes "3650")
unfolding checks
numbers = (refl, refl)

padded_is_valid : valid_setting_value days padded ≡ true
unfolding checks
padded_is_valid = refl

empty_db-Coherent : Coherent empty_db
unfolding lookup
empty_db-Coherent = record { at_key = λ key. tt }

get_setting-set_setting_example :
    (get_setting days (set_setting days padded empty_db).1).0 ≡ ok padded
unfolding checks
get_setting-set_setting_example =
    get_setting-set_setting days padded days empty_db empty_db-Coherent (λ n. refl)
      (inr padded_is_valid)

valid_setting_value_sound_example :
    (n : ℕ) × (atoi (trim_space padded) ≡ some (pos n)) × (0 ≤ n) × (n ≤ 3650)
unfolding checks
valid_setting_value_sound_example =
    valid_setting_value_sound days padded 0 3650 refl padded_is_valid

get_setting_int-set_setting_example :
    (get_setting_int days (pos 30) (set_setting days padded empty_db).1).0 ≡ pos 30
unfolding checks
get_setting_int-set_setting_example =
    get_setting_int-set_setting days padded (pos 30) empty_db empty_db-Coherent (λ n. refl)
      padded_is_valid refl
