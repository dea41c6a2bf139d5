-- ===== src/Admin/Settings/Whitelist.antt =====
-- A PUT of settings leaves the keys alone that are not settable.
use registry_ui_go.Base.{
  ◌≡◌, refl, subst, ◌∙◌, Bool, true, false, Option, none, some, List, [], ◌∷◌, if_false, Text,
  text_eq, text_eq_iff, text_eq_instance, contains, lookup, lookup-insert, lookup-remove_key,
  is_empty, insert, remove_key, Bool-cases, inl, inr,
}
use registry_ui_go.Store.{
  Db, DbError, io, no_rows, unique_violation, foreign_key_violation, invalid_setting, User, err,
}
use registry_ui_go.Store.Run.{Keeps, Keeps-pure, Keeps-execute, Keeps-if, Keeps-on}
use registry_ui_go.Store.Settings.{set_setting, forget_setting, store_setting, valid_setting_value}
use registry_ui_go.Http.{forbidden}
use registry_ui_go.Admin.Settings.{
  settable_settings, set_settings, put_settings, setting_failed, is_turned_away,
}

apart :
    (b : Bool) (other key : Text)
    → text_eq other key ≡ b
    → contains settable_settings other ≡ true
    → contains settable_settings key ≡ false
    → b ≡ false
apart false other key e settable kept = refl
apart true other key e settable kept = absurd (
    never key
      (subst (λ k. contains settable_settings k ≡ true) ((text_eq_iff other key).0 e) settable)
      kept)
  where
    never :
        (key : Text)
        → contains settable_settings key ≡ true
        → contains settable_settings key ≡ false
        → ⊥
    never key h k = cc

module _ (key : Text) (v : Option Text) where
  abbrev Stays : Db → Type 0
  Stays d = lookup key d.settings ≡ v

  set_setting-Stays :
      (other value : Text) → text_eq other key ≡ false → Keeps Stays (set_setting other value)
  unfolding set_setting forget_setting store_setting
  set_setting-Stays other value away =
      Keeps-if Stays (is_empty value) (forget_setting other) _
        (Keeps-execute Stays (λ d h. h)
          (λ d. record d {
            settings = remove_key other d.settings;
            cache = remove_key other d.cache;
          })
          (λ d h.
            lookup-remove_key other key d.settings
            ∙ if_false (text_eq other key) none (lookup key d.settings) away
            ∙ h))
        (Keeps-if Stays (valid_setting_value other value) (store_setting other value) _
          (Keeps-execute Stays (λ d h. h)
            (λ d. record d {
              settings = insert other value d.settings;
              cache = insert other value d.cache;
            })
            (λ d h.
              lookup-insert other key value d.settings
              ∙ if_false (text_eq other key) (some value) (lookup key d.settings) away
              ∙ h))
          (Keeps-pure Stays (err invalid_setting)))

  setting_failed-Stays : (e : DbError) → Keeps Stays (setting_failed e)
  setting_failed-Stays io = Keeps-pure Stays _
  setting_failed-Stays no_rows = Keeps-pure Stays _
  setting_failed-Stays unique_violation = Keeps-pure Stays _
  setting_failed-Stays foreign_key_violation = Keeps-pure Stays _
  setting_failed-Stays invalid_setting = Keeps-pure Stays _

  set_settings-Stays :
      (body : List (Text × Text))
      → contains settable_settings key ≡ false
      → Keeps Stays (set_settings body)
  unfolding set_settings
  set_settings-Stays [] kept = Keeps-pure Stays _
  set_settings-Stays ((other, value) ∷ rest) kept =
      elim (Bool-cases (contains settable_settings other)) [
        | inr refused ↦ rw refused (Keeps-pure Stays _)
        | inl settable ↦ rw settable (
            Keeps-on Stays (set_setting other value) setting_failed (λ _. set_settings rest)
              (set_setting-Stays other value
                (apart (text_eq other key) other key refl settable kept))
              setting_failed-Stays (λ _. set_settings-Stays rest kept))
      ]

-- A PUT of settings leaves the stored value of every key as it is that the whitelist does not name,
-- whoever sends it, whatever else the body holds, and whichever statements fail.
pub put_settings_kept :
    (user : Option User) (body : List (Text × Text)) (key : Text) (d : Db)
    → contains settable_settings key ≡ false
    → lookup key (put_settings user body d).1.settings ≡ lookup key d.settings
unfolding put_settings
put_settings_kept user body key d kept =
    (Keeps-if (Stays key (lookup key d.settings)) (is_turned_away user) forbidden
        (set_settings body) (Keeps-pure (Stays key (lookup key d.settings)) _)
        (set_settings-Stays key (lookup key d.settings) body kept)).at
      d refl
