-- ===== src/Auth/Middleware.antt =====
-- auth.go: withAuth, through which every request goes before its handler.
use registry_ui_go.Base.{
  Bool, true, false, Option, none, some, [], ◌∷◌, List, if◌then◌else◌, Text, codes, ◌==◌,
  text_eq_instance, ◌||◌, not, is_empty, has_prefix, has_suffix, any,
}
use registry_ui_go.Store.{User}
use registry_ui_go.Http.{reply, is_mutating_method}
use registry_ui_go.Access.{user_can_access_repo, user_can_write_repo}
use registry_ui_go.RepoPath.{extract_v2_repo_path}
use registry_ui_go.Auth.{
  Config, Request, Draws, W, give, store, ◌>=>◌, Outcome, passes, stops, auth_enabled, challenge,
  v2_auth_mode_of,
}
use registry_ui_go.Auth.Passwords.{Crypto}
use registry_ui_go.Auth.ApiTokens.{check_api_token_auth, bearer}
use registry_ui_go.Auth.BearerTokens.{V2Outcome, authenticate_v2_bearer, anonymous_v2_pull}
use registry_ui_go.Auth.Basic.{require_ui_auth, enforce_password_change}

abbrev pub asset_suffixes : List Text
asset_suffixes = codes ".css" ∷ codes ".js" ∷ codes ".html" ∷ codes ".svg" ∷ codes ".png" ∷ []

-- What is served without authentication.
unfoldable pub is_open_path : Text → Bool
is_open_path path =
    path == codes "/login"
    || path == codes "/login.html"
    || path == codes "/api/login"
    || path == codes "/v2/token"
    || has_prefix path (codes "/uploads/")
    || any (has_suffix path) asset_suffixes

abbrev pub checks_v2 : Text → Bool
checks_v2 mode = mode == codes "ui" || mode == codes "basic" || mode == codes "same"

abbrev pub leaves_v2 : Text → Bool
leaves_v2 mode = mode == codes "registry" || mode == codes "proxy" || mode == codes "off"

abbrev pub denied : Outcome
denied = stops (reply 403 (codes "DENIED"))

module _ (crypto : Crypto) (config : Config) (r : Request) (draws : Draws) where
  unfoldable pub write_right : Text → Option User → Bool → W Outcome
  write_right repo u false = give denied
  write_right repo u true =
      if is_mutating_method r.method
      then store (user_can_write_repo u repo) >=> (λ b. give (if b then passes u else denied))
      else give (passes u)

  -- The namespace permissions, where the path names a repository.
  unfoldable pub repo_rights : Text → Option User → W Outcome
  repo_rights repo u =
      if is_empty repo
      then give (passes u)
      else store (user_can_access_repo u repo) >=> write_right repo u

  unfoldable pub then_rights : Outcome → W Outcome
  then_rights (passes u) = repo_rights (extract_v2_repo_path r.path) u
  then_rights (stops answer) = give (stops answer)

  -- A request without an Authorization header.
  unfoldable pub no_header : Bool → W Outcome
  no_header true = give (passes none)
  no_header false =
      require_ui_auth crypto config r draws
      >=> then_rights
      >=> (λ o. give (enforce_password_change r o))

  unfoldable pub anonymous_token : Bool → W Outcome
  anonymous_token true = give (passes none)
  anonymous_token false =
      give (if r.path == codes "/v2/" || r.path == codes "/v2" then passes none else challenge r)

  unfoldable pub bearer_outcome : V2Outcome → W Outcome
  bearer_outcome V2Outcome.rejected = give (challenge r)
  bearer_outcome V2Outcome.anonymous = store (anonymous_v2_pull r) >=> anonymous_token
  bearer_outcome (V2Outcome.user u) =
      then_rights (passes (some u)) >=> (λ o. give (enforce_password_change r o))

  unfoldable pub checked_v2 : W Outcome
  checked_v2 =
      if is_empty r.authorization
      then store (anonymous_v2_pull r) >=> no_header
      else if has_prefix r.authorization bearer
      then store (authenticate_v2_bearer crypto r) >=> bearer_outcome
      else no_header false

  unfoldable pub auth_then_change : W Outcome
  auth_then_change =
      require_ui_auth crypto config r draws >=> (λ o. give (enforce_password_change r o))

  unfoldable pub v2_request : Text → W Outcome
  v2_request mode =
      if checks_v2 mode
      then checked_v2
      else if leaves_v2 mode
      then give (enforce_password_change r (passes none))
      else auth_then_change

  unfoldable pub token_or_session : Option User → W Outcome
  token_or_session (some u) = give (enforce_password_change r (passes (some u)))
  token_or_session none = auth_then_change

  unfoldable pub with_auth : W Outcome
  with_auth =
      if not (auth_enabled config) || is_open_path r.path
      then give (passes none)
      else if has_prefix r.path (codes "/v2/")
      then v2_request (v2_auth_mode_of config)
      else store (check_api_token_auth crypto r) >=> token_or_session
