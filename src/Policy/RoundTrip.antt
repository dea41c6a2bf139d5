-- ===== src/Policy/RoundTrip.antt =====
-- The PUT of the policy and what is read after it.
use registry_ui_go.Base.{
  ℕ, ◌≡◌, refl, ◌∙◌, false, Option, some, List, [], ◌∷◌, Text, codes, text_eq, text_eq_instance,
  text_eq_iff, arith, contains, if◌then◌else◌,
}
use registry_ui_go.Store.{Db, Repository}
use registry_ui_go.Store.Settings.{valid_setting_value, numeric_setting_bounds}
use registry_ui_go.Store.Settings.Cache.{Coherent}
use registry_ui_go.Store.Repositories.{
  set_repository_protection_mode, set_repository_overwrite_action, set_repository_push_create,
  set_repository_anonymous_pull,
}
use registry_ui_go.Http.{Method}
use registry_ui_go.Policy.{
  PolicyRequest, parts, code_or, resolve_protection_mode, resolve_overwrite_action,
  protection_code_to_string, protection_string_to_code, overwrite_code_to_string,
  overwrite_string_to_code, save_protection, save_overwrite, save_keep_count, save_flag,
  save_policy, handle_repo_tag_policy, push_code,
}
use registry_ui_go.Policy.Saving.{Good, Spares}
use registry_ui_go.Policy.Reading.{save_field-Good, save_field-Shows}
use registry_ui_go.Policy.Resolving.{
  mode_key, action_key, resolve_protection_lem, resolve_overwrite_lem,
}
use registry_ui_go.Policy.Keeping.{
  Keeping, keep_field, keep_keep_count, keep_flag_anonymous, keep_flag_push,
}

-- An update of one column spares another.
abbrev spares :
    (f : Repository → Repository) (col : Repository → Option ℕ)
    → ((r : Repository) → (f r).namespace_id ≡ r.namespace_id)
    → ((r : Repository) → (f r).name ≡ r.name)
    → ((r : Repository) → col (f r) ≡ col r)
    → Spares f col
spares f col a b c = record { same_namespace = a; same_name = b; same_column = c }

-- After the first save, and then after the second.
abbrev after_mode : Text → PolicyRequest → Db → Db
after_mode name req d = (save_protection name req.protection_mode d).1

abbrev after_action : Text → PolicyRequest → Db → Db
after_action name req d = (save_overwrite name req.overwrite_action (after_mode name req d)).1

abbrev mode_of : PolicyRequest → ℕ
mode_of req = code_or 0 (protection_string_to_code req.protection_mode)

abbrev action_of : PolicyRequest → ℕ
action_of req = code_or 0 (overwrite_string_to_code req.overwrite_action)

mode_saved :
    (name : Text) (req : PolicyRequest) (d : Db)
    → Good d
    → Keeping
        (λ r. r.protection_mode)
        (mode_key name)
        (parts name)
        (mode_of req)
        (protection_code_to_string (mode_of req))
        (after_mode name req d)
unfolding save_protection set_repository_protection_mode valid_setting_value numeric_setting_bounds
    text_eq
mode_saved name req d g = record {
  good = save_field-Good _ _ _ _ d g;
  shows =
      save_field-Shows (λ r. record r { protection_mode = some (mode_of req) })
        (λ r. r.protection_mode) (mode_key name) _ (parts name) (mode_of req) d g
        (spares _ _ (λ r. refl) (λ r. refl) (λ r. refl)) (λ r. refl) (λ w. refl);
}

action_saved :
    (name : Text) (req : PolicyRequest) (d : Db)
    → Good d
    → Keeping
        (λ r. r.overwrite_action)
        (action_key name)
        (parts name)
        (action_of req)
        (overwrite_code_to_string (action_of req))
        (save_overwrite name req.overwrite_action d).1
unfolding save_overwrite set_repository_overwrite_action valid_setting_value numeric_setting_bounds
    text_eq
action_saved name req d g = record {
  good = save_field-Good _ _ _ _ d g;
  shows =
      save_field-Shows (λ r. record r { overwrite_action = some (action_of req) })
        (λ r. r.overwrite_action) (action_key name) _ (parts name) (action_of req) d g
        (spares _ _ (λ r. refl) (λ r. refl) (λ r. refl)) (λ r. refl) (λ w. refl);
}

mode_kept :
    (name : Text) (req : PolicyRequest) (d : Db)
    → Good d
    → Keeping
        (λ r. r.protection_mode)
        (mode_key name)
        (parts name)
        (mode_of req)
        (protection_code_to_string (mode_of req))
        (after_action name req d)
unfolding save_overwrite set_repository_overwrite_action valid_setting_value numeric_setting_bounds
    text_eq
mode_kept name req d g =
    keep_field (λ r. r.protection_mode) name (parts name) (mode_key name)
      (protection_code_to_string (mode_of req)) (mode_of req)
      (λ r. record r { overwrite_action = some (action_of req) }) (action_key name) _ (parts name)
      (after_mode name req d) (spares _ _ (λ r. refl) (λ r. refl) (λ r. refl)) (λ w. refl) refl
      (mode_saved name req d g)

-- The rest of the PUT.
abbrev rest : Text → PolicyRequest → Db → Db
rest name req d =
    let a = (save_keep_count name req.keep_count (parts name) d).1 in
    let b =
      (save_flag set_repository_anonymous_pull (codes "allow_anonymous_pull:") name
        req.anonymous_pull a).1 in
    (save_flag (λ ns repo b. set_repository_push_create ns repo (some (push_code b)))
      (codes "push_create_repo:") name req.push_create_repo b).1

module _ (name : Text) (req : PolicyRequest) (d : Db) where
  mode_rest :
      (c : ℕ) (v : Text)
      → Keeping (λ r. r.protection_mode) (mode_key name) (parts name) c v d
      → Keeping (λ r. r.protection_mode) (mode_key name) (parts name) c v (rest name req d)
  unfolding valid_setting_value numeric_setting_bounds text_eq
  mode_rest c v k =
      keep_flag_push _ name _ _ _ _ req.push_create_repo _
        (λ b. spares _ _ (λ r. refl) (λ r. refl) (λ r. refl)) (λ w. refl) refl
        (keep_flag_anonymous _ name _ _ _ _ req.anonymous_pull _
          (λ b. spares _ _ (λ r. refl) (λ r. refl) (λ r. refl)) (λ w. refl) refl
          (keep_keep_count _ name _ _ _ _ req.keep_count (parts name) d
            (spares _ _ (λ r. refl) (λ r. refl) (λ r. refl)) (λ w. refl) refl k))

  action_rest :
      (c : ℕ) (v : Text)
      → Keeping (λ r. r.overwrite_action) (action_key name) (parts name) c v d
      → Keeping (λ r. r.overwrite_action) (action_key name) (parts name) c v (rest name req d)
  unfolding valid_setting_value numeric_setting_bounds text_eq
  action_rest c v k =
      keep_flag_push _ name _ _ _ _ req.push_create_repo _
        (λ b. spares _ _ (λ r. refl) (λ r. refl) (λ r. refl)) (λ w. refl) refl
        (keep_flag_anonymous _ name _ _ _ _ req.anonymous_pull _
          (λ b. spares _ _ (λ r. refl) (λ r. refl) (λ r. refl)) (λ w. refl) refl
          (keep_keep_count _ name _ _ _ _ req.keep_count (parts name) d
            (spares _ _ (λ r. refl) (λ r. refl) (λ r. refl)) (λ w. refl) refl k))

good : {d : Db} → ((n : ℕ) → d.fails n ≡ false) → Coherent d → Good d
good works coherent = record { works = works; coherent = coherent }

-- The requested word, where it is one of those that mean something, and else the default.
abbrev pub one_of : List Text → Text → Text → Text
one_of words default s = if contains words s then s else default

abbrev pub requested_mode : Text → Text
requested_mode = one_of (codes "overwrite" ∷ codes "immutable" ∷ codes "rules" ∷ []) (codes "rules")

abbrev pub requested_action : Text → Text
requested_action = one_of (codes "keep" ∷ codes "recycle" ∷ []) (codes "recycle")

requested_mode_lem :
    (s : Text)
    → protection_code_to_string (code_or 0 (protection_string_to_code s)) ≡ requested_mode s
unfolding protection_code_to_string protection_string_to_code contains
requested_mode_lem s = ground (
  arith,
  text_eq_iff s (codes "overwrite"),
  text_eq_iff s (codes "immutable"),
  text_eq_iff s (codes "rules"),
  text_eq_iff (codes "overwrite") s,
  text_eq_iff (codes "immutable") s,
  text_eq_iff (codes "rules") s,
)

requested_action_lem :
    (s : Text)
    → overwrite_code_to_string (code_or 0 (overwrite_string_to_code s)) ≡ requested_action s
unfolding overwrite_code_to_string overwrite_string_to_code contains
requested_action_lem s = ground (
  arith,
  text_eq_iff s (codes "keep"),
  text_eq_iff s (codes "recycle"),
  text_eq_iff (codes "keep") s,
  text_eq_iff (codes "recycle") s,
)

-- From a cache that agrees with the settings and with no failing statement: after a PUT of the
-- policy, whether the repository has a row, none, or a name without a slash, the protection mode and
-- the overwrite action in force are the requested ones, and "rules" and "recycle" for a text that
-- names no mode and no action.
pub resolve-put_policy :
    (name : Text) (req : PolicyRequest) (d : Db)
    → ((n : ℕ) → d.fails n ≡ false)
    → Coherent d
    → ((resolve_protection_mode name (handle_repo_tag_policy name Method.put (some req) d).1).0
        ≡ requested_mode req.protection_mode)
      × ((resolve_overwrite_action name (handle_repo_tag_policy name Method.put (some req) d).1).0
          ≡ requested_action req.overwrite_action)
unfolding handle_repo_tag_policy save_policy
resolve-put_policy name req d works coherent =
    let m =
      mode_rest name req (after_action name req d) (mode_of req) _
        (mode_kept name req d (good works coherent)) in
    let a = action_rest name req (after_action name req d) (action_of req) _ (
      action_saved name req (after_mode name req d)
        (mode_saved name req d (good works coherent)).good) in
    (
      resolve_protection_lem name (mode_of req) _ m.good m.shows
          ∙ requested_mode_lem req.protection_mode,
      resolve_overwrite_lem name (action_of req) _ a.good a.shows
          ∙ requested_action_lem req.overwrite_action,
    )
