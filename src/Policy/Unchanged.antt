-- ===== src/Policy/Unchanged.antt =====
-- Reading the policy of a repository keeps whatever the clock and the cache of the settings leave
-- alone.
use registry_ui_go.Base.{
  ℕ, Bool, true, false, Option, none, some, ◌++◌, ◌∷◌, Text, codes, Bool-cases, inl, inr, lookup,
  insert, List, nat_eq_instance, is_empty, ◌==◌, text_eq_instance,
}
use registry_ui_go.Store.{Db, Result}
use registry_ui_go.Store.Run.{
  M, tick, pure, ◌>>=◌, Keeps, Keeps-pure, Keeps-bind, Keeps-if, Keeps-query,
}
use registry_ui_go.Store.Settings.{
  get_setting, get_setting_bool, cached, load_setting, text_of, bool_value, or_empty,
}
use registry_ui_go.Store.Repositories.{
  find_repo, column, is_repo_anonymous_pull_allowed, get_repo_push_create, get_repo_protection_mode,
  get_repo_overwrite_action,
}
use registry_ui_go.Policy.{
  parts, found, row_code, row_flag, flag_or, anonymous_from, is_anonymous_pull_allowed, set_code,
  when_set, from_settings, code_or_settings, resolve_protection_mode, resolve_overwrite_action,
  protection_code_to_string, overwrite_code_to_string, push_create_from, push_create_allowed,
}

module _ {κ} (P : Db → Type κ) (ticks : (d : Db) → P d → P (tick d)) where
  -- Loading a setting writes the cache only.
  module _ (caches : (d : Db) (c : List (Text × Text)) → P d → P (record d { cache = c })) where
    load_setting-Keeps : (key : Text) → Keeps P (load_setting key)
    unfolding load_setting
    load_setting-Keeps key = record {
      at = λ d h. elim (Bool-cases (d.fails d.clock)) [
        | inl fails ↦ rw fails (ticks d h)
        | inr works ↦
            rw works
              (caches (tick d) (insert key (or_empty (lookup key d.settings)) d.cache) (ticks d h))
      ];
    }

    cached-Keeps : (o : Option Text) (key : Text) → Keeps P (cached o key)
    unfolding cached
    cached-Keeps none key = record { at = λ d h. (load_setting-Keeps key).at d h }
    cached-Keeps (some v) key = record { at = λ d h. h }

    pub get_setting-Keeps : (key : Text) → Keeps P (get_setting key)
    unfolding get_setting
    get_setting-Keeps key = record { at = λ d h. (cached-Keeps (lookup key d.cache) key).at d h }

  module _ (gets : (key : Text) → Keeps P (get_setting key)) where
    get_setting_bool-Keeps : (key : Text) (def : Bool) → Keeps P (get_setting_bool key def)
    unfolding get_setting_bool
    get_setting_bool-Keeps key def =
        Keeps-bind P (get_setting key) (λ r. pure (bool_value def (text_of r))) (gets key)
          (λ r. Keeps-pure P (bool_value def (text_of r)))

    flag_or-Keeps : (v key : Text) (default : Bool) → Keeps P (flag_or v key default)
    unfolding flag_or
    flag_or-Keeps v key default =
        Keeps-if P (is_empty v) (get_setting_bool key default) (pure (v == codes "true"))
          (get_setting_bool-Keeps key default) (Keeps-pure P (v == codes "true"))

    row_flag-Keeps : (p : Text × Option Text) → Keeps P (row_flag p)
    unfolding row_flag is_repo_anonymous_pull_allowed
    row_flag-Keeps (ns, none) = Keeps-pure P none
    row_flag-Keeps (ns, some repo) =
        Keeps-bind P (is_repo_anonymous_pull_allowed ns repo) (λ r. pure (found r))
          (Keeps-query P ticks (λ d. column (λ r. r.anonymous_pull) (find_repo ns repo d)))
          (λ r. Keeps-pure P (found r))

    anonymous_from-Keeps : (name : Text) (flag : Option Bool) → Keeps P (anonymous_from name flag)
    unfolding anonymous_from
    anonymous_from-Keeps name (some b) = Keeps-pure P b
    anonymous_from-Keeps name none =
        Keeps-bind P (get_setting (codes "allow_anonymous_pull:" ++ name))
          (λ own. flag_or (text_of own) (codes "allow_anonymous_pull") false)
          (gets (codes "allow_anonymous_pull:" ++ name))
          (λ own. flag_or-Keeps (text_of own) (codes "allow_anonymous_pull") false)

    pub is_anonymous_pull_allowed-Keeps : (name : Text) → Keeps P (is_anonymous_pull_allowed name)
    unfolding is_anonymous_pull_allowed
    is_anonymous_pull_allowed-Keeps name =
        Keeps-bind P (row_flag (parts name)) (anonymous_from name) (row_flag-Keeps (parts name))
          (anonymous_from-Keeps name)

    when_set-Keeps : (v : Text) (rest : M Text) → Keeps P rest → Keeps P (when_set v pure rest)
    unfolding when_set
    when_set-Keeps v rest h = Keeps-if P (is_empty v) rest (pure v) h (Keeps-pure P v)

    from_settings-Keeps : (key name default : Text) → Keeps P (from_settings key name default)
    unfolding from_settings
    from_settings-Keeps key name default =
        Keeps-bind P (get_setting (key ++ b':' ∷ name))
          (λ own.
            when_set (text_of own) pure
              (get_setting key >>= (λ global. when_set (text_of global) pure (pure default))))
          (gets (key ++ b':' ∷ name))
          λ own. when_set-Keeps (text_of own) _ (
            Keeps-bind P (get_setting key) (λ global. when_set (text_of global) pure (pure default))
              (gets key)
              (λ global. when_set-Keeps (text_of global) (pure default) (Keeps-pure P default)))

    code_or_settings-Keeps :
        (show : ℕ → Text) (key name default : Text) (code : Option ℕ)
        → Keeps P (code_or_settings show key name default code)
    unfolding code_or_settings
    code_or_settings-Keeps show key name default (some code) = Keeps-pure P (show code)
    code_or_settings-Keeps show key name default none = from_settings-Keeps key name default

    row_code-Keeps :
        (get : Text → Text → M (Result (Option ℕ)))
        → ((ns repo : Text) → Keeps P (get ns repo))
        → (p : Text × Option Text) → Keeps P (row_code get p)
    unfolding row_code
    row_code-Keeps get reads (ns, none) = Keeps-pure P none
    row_code-Keeps get reads (ns, some repo) =
        Keeps-bind P (get ns repo) (λ r. pure (set_code r)) (reads ns repo)
          (λ r. Keeps-pure P (set_code r))

    mode_row : (ns repo : Text) → Keeps P (get_repo_protection_mode ns repo)
    unfolding get_repo_protection_mode
    mode_row ns repo =
        Keeps-query P ticks (λ d. column (λ r. r.protection_mode) (find_repo ns repo d))

    action_row : (ns repo : Text) → Keeps P (get_repo_overwrite_action ns repo)
    unfolding get_repo_overwrite_action
    action_row ns repo =
        Keeps-query P ticks (λ d. column (λ r. r.overwrite_action) (find_repo ns repo d))

    create_row : (ns repo : Text) → Keeps P (get_repo_push_create ns repo)
    unfolding get_repo_push_create
    create_row ns repo =
        Keeps-query P ticks (λ d. column (λ r. r.push_create_repo) (find_repo ns repo d))

    pub resolve_protection_mode-Keeps : (name : Text) → Keeps P (resolve_protection_mode name)
    unfolding resolve_protection_mode
    resolve_protection_mode-Keeps name =
        Keeps-bind P (row_code get_repo_protection_mode (parts name))
          (code_or_settings protection_code_to_string (codes "protection_mode") name
            (codes "rules"))
          (row_code-Keeps get_repo_protection_mode mode_row (parts name))
          (code_or_settings-Keeps protection_code_to_string (codes "protection_mode") name
            (codes "rules"))

    pub resolve_overwrite_action-Keeps : (name : Text) → Keeps P (resolve_overwrite_action name)
    unfolding resolve_overwrite_action
    resolve_overwrite_action-Keeps name =
        Keeps-bind P (row_code get_repo_overwrite_action (parts name))
          (code_or_settings overwrite_code_to_string (codes "overwrite_action") name
            (codes "recycle"))
          (row_code-Keeps get_repo_overwrite_action action_row (parts name))
          (code_or_settings-Keeps overwrite_code_to_string (codes "overwrite_action") name
            (codes "recycle"))

    push_create_from-Keeps : (name : Text) (v : Option ℕ) → Keeps P (push_create_from name v)
    unfolding push_create_from
    push_create_from-Keeps name (some v) = Keeps-pure P (v == 1)
    push_create_from-Keeps name none =
        Keeps-bind P (get_setting (codes "push_create_repo:" ++ name))
          (λ own. flag_or (text_of own) (codes "push_create_repo") true)
          (gets (codes "push_create_repo:" ++ name))
          (λ own. flag_or-Keeps (text_of own) (codes "push_create_repo") true)

    pub push_create_allowed-Keeps : (name : Text) → Keeps P (push_create_allowed name)
    unfolding push_create_allowed
    push_create_allowed-Keeps name =
        Keeps-bind P (row_code get_repo_push_create (parts name)) (push_create_from name)
          (row_code-Keeps get_repo_push_create create_row (parts name))
          (push_create_from-Keeps name)
