-- ===== src/Auth/Presented/Reaching.antt =====
-- withAuth and the namespace permissions together.
use registry_ui_go.Base.{
  ◌≡◌, refl, ◌∙◌, ap, inl, inr, Bool, true, false, Option, none, some, [], ◌∷◌, Text, codes,
  Bool-cases, ◌||◌, ◌==◌, text_eq_instance, text_eq, text_eq_iff, is_empty, has_prefix,
  if◌then◌else◌, if_cases, strip_prefix, trim_prefix, trim_space,
}
use registry_ui_go.Store.{Db, User, Result, ok, err}
use registry_ui_go.Store.Users.{get_user_by_username}
use registry_ui_go.RepoPath.{extract_v2_repo_path}
use registry_ui_go.Auth.{
  Config, Request, Draws, Web, W, store, ◌>=>◌, Outcome, passes, auth_enabled, challenge,
  v2_auth_mode_of,
}
use registry_ui_go.Auth.Passwords.{Crypto}
use registry_ui_go.Auth.ApiTokens.{check_api_token_auth, bearer}
use registry_ui_go.Auth.BearerTokens.{
  V2Outcome, authenticate_v2_bearer, by_name, by_account, by_api_token, anonymous_v2_pull,
  is_pull_method, validate_v2_token,
}
use registry_ui_go.Auth.Middleware.{
  is_open_path, checks_v2, no_header, anonymous_token, bearer_outcome, checked_v2, v2_request,
  with_auth,
}
use registry_ui_go.Auth.Presented.Lookups.{
  anonymous_v2_pull-Reads, check_api_token_auth-Reads, get_user_by_username-tick,
}
use registry_ui_go.Auth.Presented.Steps.{challenge-Holds}
use registry_ui_go.Auth.Presented.Admission.{enforce_password_change-Holds, holds_of}
use registry_ui_go.Auth.Presented.Rights.{Same, require_ui_auth-Same}
use registry_ui_go.Auth.Presented.Writing.{
  Right, Righted, require_ui_auth-Somebody, then_rights-Righted,
}

pulls : (r : Request) (d : Db) → (anonymous_v2_pull r d).0 ≡ true → is_pull_method r.method ≡ true
unfolding anonymous_v2_pull
pulls r d e = elim (Bool-cases (is_pull_method r.method)) [
  | inl reads ↦ reads
  | inr writes ↦ unless (rw writes at e)
]
  where
    unless : false ≡ true → is_pull_method r.method ≡ true
    unless e = cc

-- The ping of the registry API names no repository.
slash_names : is_empty (extract_v2_repo_path (codes "/v2/")) ≡ true
unfolding extract_v2_repo_path has_prefix trim_prefix strip_prefix
slash_names = refl

bare_names : is_empty (extract_v2_repo_path (codes "/v2")) ≡ true
unfolding extract_v2_repo_path has_prefix strip_prefix
bare_names = refl

ping_names :
    (path : Text)
    → path == codes "/v2/" || path == codes "/v2" ≡ true
    → is_empty (extract_v2_repo_path path) ≡ true
ping_names path e = elim (Bool-cases (text_eq path (codes "/v2/"))) [
  | inl slash ↦
      ap (λ p. is_empty (extract_v2_repo_path p)) ((text_eq_iff path (codes "/v2/")).0 slash)
      ∙ slash_names
  | inr other ↦
      ap (λ p. is_empty (extract_v2_repo_path p))
        ((text_eq_iff path (codes "/v2")).0 (rw other at e))
      ∙ bare_names
]

different : {A : Type 0} (b : Bool) → b ≡ true → b ≡ false → A
different true h g = cc
different false h g = cc

module _ (crypto : Crypto) (config : Config) (r : Request) (draws : Draws) (w0 : Web) where
  abbrev Ok : Outcome → Type 0
  Ok = Righted crypto config r draws w0.db

  module _ (enabled : auth_enabled config ≡ true)
      (named : is_empty (extract_v2_repo_path r.path) ≡ false) where
    with_rights : (w : Web) → Same w0.db w → Ok (no_header crypto config r draws false w).0
    unfolding no_header
    with_rights w same =
        enforce_password_change-Holds (Right r (extract_v2_repo_path r.path) w0.db) r _ (
          then_rights-Righted crypto config r draws w0.db _ _ named
            (require_ui_auth-Somebody crypto config r draws w enabled)
            (require_ui_auth-Same crypto config r draws w0.db w same))

    pull_or_rights : Ok ((store (anonymous_v2_pull r) >=> no_header crypto config r draws) w0).0
    unfolding no_header
    pull_or_rights = by_answer (anonymous_v2_pull r w0.db).0 refl
      where
        by_answer :
            (b : Bool)
            → (anonymous_v2_pull r w0.db).0 ≡ b
            → Ok (no_header crypto config r draws b (store (anonymous_v2_pull r) w0).1).0
        by_answer true e = pulls r w0.db e
        by_answer false e =
            with_rights (store (anonymous_v2_pull r) w0).1
              (((anonymous_v2_pull-Reads w0.db r).at w0.db (refl, refl, refl)).2)

    anonymous_token-Ok :
        (b : Bool) (w : Web)
        → (b ≡ true → is_pull_method r.method ≡ true)
        → Ok (anonymous_token crypto config r draws b w).0
    unfolding anonymous_token
    anonymous_token-Ok true w reads = reads refl
    anonymous_token-Ok false w reads =
        if_cases Ok (r.path == codes "/v2/" || r.path == codes "/v2") (passes none) (challenge r)
          (λ e. different (is_empty (extract_v2_repo_path r.path)) (ping_names r.path e) named)
          (λ _. challenge-Holds (Right r (extract_v2_repo_path r.path) w0.db) r)

    bearer_outcome-Ok :
        (v : V2Outcome) (w : Web) → Same w0.db w → Ok (bearer_outcome crypto config r draws v w).0
    unfolding bearer_outcome
    bearer_outcome-Ok V2Outcome.rejected w same =
        challenge-Holds (Right r (extract_v2_repo_path r.path) w0.db) r
    bearer_outcome-Ok V2Outcome.anonymous w same =
        anonymous_token-Ok (anonymous_v2_pull r w.db).0 _ (pulls r w.db)
    bearer_outcome-Ok (V2Outcome.user u) w same =
        enforce_password_change-Holds (Right r (extract_v2_repo_path r.path) w0.db) r _
          (then_rights-Righted crypto config r draws w0.db (passes (some u)) w named tt same)

    by_account-Same :
        (a : Result User) (d : Db)
        → d.permissions ≡ w0.db.permissions
        → (by_account crypto a d).1.permissions ≡ w0.db.permissions
    unfolding by_account
    by_account-Same (err e) d h = h
    by_account-Same (ok u) d h = h

    by_name-Same :
        (o : Option Text) (d : Db)
        → d.permissions ≡ w0.db.permissions
        → (by_name crypto o d).1.permissions ≡ w0.db.permissions
    unfolding by_name
    by_name-Same none d h = h
    by_name-Same (some []) d h = h
    by_name-Same (some (c ∷ name)) d h =
        by_account-Same (get_user_by_username (c ∷ name) d).0 (get_user_by_username (c ∷ name) d).1
          (rw (get_user_by_username-tick (c ∷ name) d) h)

    bearer_read : Same w0.db (store (authenticate_v2_bearer crypto r) w0).1
    unfolding authenticate_v2_bearer
    bearer_read =
        if_cases (λ (x : V2Outcome × Db). x.1.permissions ≡ w0.db.permissions)
          (has_prefix (trim_space (trim_prefix r.authorization bearer)) (codes "ru_"))
          (
            by_api_token crypto (check_api_token_auth crypto r w0.db).0,
            (check_api_token_auth crypto r w0.db).1,
          )
          (by_name crypto
            (validate_v2_token crypto (trim_space (trim_prefix r.authorization bearer)) w0.db.now)
            w0.db)
          (λ _. ((check_api_token_auth-Reads w0.db crypto r).at w0.db (refl, refl, refl)).2)
          (λ _. by_name-Same _ w0.db refl)

    checked_v2-Ok : Ok (checked_v2 crypto config r draws w0).0
    unfolding checked_v2
    checked_v2-Ok =
        if_cases (λ (m : W Outcome). Ok (m w0).0) (is_empty r.authorization)
          (store (anonymous_v2_pull r) >=> no_header crypto config r draws)
          (if has_prefix r.authorization bearer
            then store (authenticate_v2_bearer crypto r) >=> bearer_outcome crypto config r draws
            else no_header crypto config r draws false)
          (λ _. pull_or_rights)
          λ _.
            if_cases (λ (m : W Outcome). Ok (m w0).0) (has_prefix r.authorization bearer)
              (store (authenticate_v2_bearer crypto r) >=> bearer_outcome crypto config r draws)
              (no_header crypto config r draws false) (λ _. bearer_outcome-Ok _ _ bearer_read)
              (λ _. with_rights w0 refl)

    with_auth-Ok :
        has_prefix r.path (codes "/v2/") ≡ true
        → is_open_path r.path ≡ false
        → checks_v2 (v2_auth_mode_of config) ≡ true
        → Ok (with_auth crypto config r draws w0).0
    unfolding with_auth v2_request
    with_auth-Ok api closed checks = rw (enabled, closed, api, checks) checked_v2-Ok

-- Where authentication is on and the server checks the registry API, a request for a repository,
-- whose path is none of those that are always open, reaches the registry with a user only if that
-- user is an administrator or the permissions table lets them read the repository, and write it too
-- where the request changes something; without a user only if it is a GET or a HEAD.
pub with_auth-Right :
    (crypto : Crypto) (config : Config) (r : Request) (draws : Draws) (w : Web) (u : Option User)
    → auth_enabled config ≡ true
    → checks_v2 (v2_auth_mode_of config) ≡ true
    → has_prefix r.path (codes "/v2/") ≡ true
    → is_open_path r.path ≡ false
    → is_empty (extract_v2_repo_path r.path) ≡ false
    → (with_auth crypto config r draws w).0 ≡ passes u
    → Right r (extract_v2_repo_path r.path) w.db u
with_auth-Right crypto config r draws w u enabled checks api closed named e =
    holds_of (Right r (extract_v2_repo_path r.path) w.db) _
      (with_auth-Ok crypto config r draws w enabled named api closed checks) u e
