-- ===== src/Policy/Tests.antt =====
-- The policy of a repository with a row, and of one without.
use registry_ui_go.Base.{
  contains, ◌≡◌, refl, true, none, some, [], ◌∷◌, codes, pos, lookup, text_eq,
}
use registry_ui_go.Store.{Db}
use registry_ui_go.Store.Repositories.{new_repository}
use registry_ui_go.Store.Settings.Cache.{Coherent}
use registry_ui_go.Samples.{empty_db}
use registry_ui_go.Http.{Method}
use registry_ui_go.Policy.{
  PolicyRequest, handle_repo_tag_policy, resolve_protection_mode, resolve_overwrite_action,
  protection_code_to_string, protection_string_to_code, code_or,
}
use registry_ui_go.Policy.RoundTrip.{resolve-put_policy}

abbrev one_repo : Db
one_repo = record empty_db {
  namespaces = record { id = 1; name = codes "team" } ∷ [];
  repositories = new_repository 1 1 (codes "api") ∷ [];
}

abbrev keep_immutable : PolicyRequest
keep_immutable = record {
  protection_mode = codes "immutable";
  overwrite_action = codes "keep";
  keep_count = pos 3;
  anonymous_pull = some true;
  push_create_repo = none;
}

one_repo-Coherent : Coherent one_repo
unfolding lookup
one_repo-Coherent = record { at_key = λ key. tt }

resolve-put_policy_example :
    ((resolve_protection_mode
        (codes "team/api")
        (handle_repo_tag_policy (codes "team/api") Method.put (some keep_immutable) one_repo).1).0
      ≡ codes "immutable")
    × ((resolve_overwrite_action
          (codes "team/api")
          (handle_repo_tag_policy (codes "team/api") Method.put (some keep_immutable) one_repo).1).0
        ≡ codes "keep")
unfolding text_eq contains
resolve-put_policy_example =
    resolve-put_policy (codes "team/api") keep_immutable one_repo (λ _. refl) one_repo-Coherent

codes_of_modes :
    protection_code_to_string (code_or 0 (protection_string_to_code (codes "immutable")))
    ≡ codes "immutable"
unfolding protection_code_to_string protection_string_to_code text_eq
codes_of_modes = refl
