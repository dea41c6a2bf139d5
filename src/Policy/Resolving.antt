-- ===== src/Policy/Resolving.antt =====
-- Reading the protection mode and the overwrite action gives what their fields show.
use registry_ui_go.Base.{
  ℕ, ◌≡◌, refl, ◌∙◌, ap, inl, inr, false, Option, none, some, ◌∷◌, ◌++◌, Text, arith, codes,
  is_empty, text_eq_instance,
}
use registry_ui_go.Store.{Db, Result, Repository}
use registry_ui_go.Store.Run.{M, tick, ◌>>=◌}
use registry_ui_go.Store.Settings.Cache.{get_setting_lem}
use registry_ui_go.Store.Repositories.{
  find_repo, column, get_repo_protection_mode, get_repo_overwrite_action,
}
use registry_ui_go.Policy.{
  parts, row_code, set_code, code_or_settings, from_settings, when_set, resolve_protection_mode,
  resolve_overwrite_action, protection_code_to_string, overwrite_code_to_string,
}
use registry_ui_go.Policy.Saving.{Good, code_at, setting_at, Shows}
use registry_ui_go.Policy.Reading.{flat-column, tick-Good}

module _ (col : Repository → Option ℕ) (get : Text → Text → M (Result (Option ℕ)))
    (reads : (ns repo : Text) (d : Db)
      → Good d
      → ((get ns repo d).0 ≡ column col (find_repo ns repo d)) × ((get ns repo d).1 ≡ tick d))
    (found : (ns repo : Text) (d : Db)
      → set_code (column col (find_repo ns repo d)) ≡ code_at col (ns, some repo) d) where
  row_lem :
      (p : Text × Option Text) (d : Db)
      → Good d
      → ((row_code get p d).0 ≡ code_at col p d)
        × Good (row_code get p d).1
        × ((key : Text) → setting_at key (row_code get p d).1 ≡ setting_at key d)
  unfolding row_code
  row_lem (ns, none) d g = (refl, g, λ key. refl)
  row_lem (ns, some repo) d g =
      let (value, after) = reads ns repo d g in
      (ap set_code value ∙ found ns repo d, rw after (tick-Good d g), λ key. rw after refl)

  -- The three tiers give what shows in the first or in the second.
  resolve_lem :
      (name key default : Text) (show : ℕ → Text) (c : ℕ) (d : Db)
      → Good d
      → is_empty (show c) ≡ false
      → Shows col (key ++ b':' ∷ name) (parts name) c (show c) d
      → ((row_code get (parts name) >>= code_or_settings show key name default) d).0 ≡ show c
  unfolding code_or_settings from_settings when_set
  resolve_lem name key default show c d g filled (inl x) =
      let (value, good, same) = row_lem (parts name) d g in rw (value ∙ x) refl
  resolve_lem name key default show c d g filled (inr (x, y)) =
      let (value, good, same) = row_lem (parts name) d g in
      rw (value ∙ x) (
        rw
          (get_setting_lem (key ++ b':' ∷ name) (row_code get (parts name) d).1 good.coherent
            (good.works _))
          (rw (same (key ++ b':' ∷ name) ∙ y) (rw filled refl)))

abbrev pub mode_key : Text → Text
mode_key name = codes "protection_mode:" ++ name

abbrev pub action_key : Text → Text
action_key name = codes "overwrite_action:" ++ name

mode_filled : (c : ℕ) → is_empty (protection_code_to_string c) ≡ false
unfolding protection_code_to_string
mode_filled c = ground arith

action_filled : (c : ℕ) → is_empty (overwrite_code_to_string c) ≡ false
unfolding overwrite_code_to_string
action_filled c = ground arith

reads_protection :
    (ns repo : Text) (d : Db)
    → Good d
    → ((get_repo_protection_mode ns repo d).0
        ≡ column (λ r. r.protection_mode) (find_repo ns repo d))
      × ((get_repo_protection_mode ns repo d).1 ≡ tick d)
unfolding get_repo_protection_mode find_repo
reads_protection ns repo d g = rw (g.works d.clock) (refl, refl)

reads_overwrite :
    (ns repo : Text) (d : Db)
    → Good d
    → ((get_repo_overwrite_action ns repo d).0
        ≡ column (λ r. r.overwrite_action) (find_repo ns repo d))
      × ((get_repo_overwrite_action ns repo d).1 ≡ tick d)
unfolding get_repo_overwrite_action find_repo
reads_overwrite ns repo d g = rw (g.works d.clock) (refl, refl)

found_lem :
    (col : Repository → Option ℕ) (ns repo : Text) (d : Db)
    → set_code (column col (find_repo ns repo d)) ≡ code_at col (ns, some repo) d
unfolding find_repo
found_lem col ns repo d = flat-column col _

pub resolve_protection_lem :
    (name : Text) (c : ℕ) (d : Db)
    → Good d
    → Shows (λ r. r.protection_mode) (mode_key name) (parts name) c (protection_code_to_string c) d
    → (resolve_protection_mode name d).0 ≡ protection_code_to_string c
unfolding resolve_protection_mode
resolve_protection_lem name c d g h =
    resolve_lem (λ r. r.protection_mode) get_repo_protection_mode reads_protection
      (found_lem (λ r. r.protection_mode)) name (codes "protection_mode") (codes "rules")
      protection_code_to_string c d g (mode_filled c) h

pub resolve_overwrite_lem :
    (name : Text) (c : ℕ) (d : Db)
    → Good d
    → Shows
        (λ r. r.overwrite_action)
        (action_key name)
        (parts name)
        c
        (overwrite_code_to_string c)
        d
    → (resolve_overwrite_action name d).0 ≡ overwrite_code_to_string c
unfolding resolve_overwrite_action
resolve_overwrite_lem name c d g h =
    resolve_lem (λ r. r.overwrite_action) get_repo_overwrite_action reads_overwrite
      (found_lem (λ r. r.overwrite_action)) name (codes "overwrite_action") (codes "recycle")
      overwrite_code_to_string c d g (action_filled c) h
