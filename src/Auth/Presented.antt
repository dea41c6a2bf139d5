-- ===== src/Auth/Presented.antt =====
-- What makes a request one of a user, said without the order in which withAuth asks.
mod Lookups
mod Steps
pub mod Admission
mod Rights
pub mod Writing
pub mod Reaching
use registry_ui_go.Base.{
  is_empty, ℕ, ◌≡◌, ◌≢◌, ◌⊎◌, Bool, true, false, Option, none, some, List, [], Text, codes, ◌==◌,
  text_eq_instance, find, lookup, has_prefix, trim_prefix, trim_space, split, split_three, atoi, ℤ,
  pos, ltz,
}
use registry_ui_go.Store.{Db, User, ApiToken}
use registry_ui_go.Store.Users.{has_id}
use registry_ui_go.Http.{Method}
use registry_ui_go.RepoPath.{v2_pull_resource_repo_path}
use registry_ui_go.Policy.{is_anonymous_pull_allowed}
use registry_ui_go.Auth.{
  Config, Request, Session, Web, Outcome, passes, stops, auth_enabled, v2_auth_mode_of,
}
use registry_ui_go.Auth.Passwords.{Crypto, verify_password_hash}
use registry_ui_go.Auth.Sessions.{is_expired}
use registry_ui_go.Auth.ApiTokens.{presented_token, token_expired, bearer}
use registry_ui_go.Auth.BearerTokens.{validate_v2_token}
use registry_ui_go.Auth.Middleware.{is_open_path, leaves_v2}

-- The row of a name in the users table.
abbrev pub named : Text → Db → Option User
named name d = find (λ u. u.username == name) d.users

module _ (crypto : Crypto) (r : Request) (w : Web) where
  -- The ways in which a request can show that it comes from a user.
  pub data Presents : User → Type 0 where
    session :
        {id : Text} {s : Session} {u : User}
        → r.session_cookie ≡ some id
        → lookup id w.sessions ≡ some s
        → is_expired w.db.now s ≡ false
        → named s.username w.db ≡ some u
        → Presents u
    basic :
        {name pass : Text} {u : User}
        → r.basic_auth ≡ some (name, pass)
        → named name w.db ≡ some u
        → verify_password_hash crypto u.password_hash pass ≡ true
        → Presents u
    api_token :
        {prefix secret : Text} {t : ApiToken} {u : User}
        → presented_token r.authorization ≡ some (prefix, secret)
        → find (λ x. x.token_prefix == prefix) w.db.api_tokens ≡ some t
        → token_expired w.db.now t ≡ false
        → crypto.sha256_hex secret ≡ t.token_hash
        → find (has_id t.user_id) w.db.users ≡ some u
        → Presents u
    registry_token :
        {name : Text} {u : User}
        → validate_v2_token crypto (trim_space (trim_prefix r.authorization bearer)) w.db.now
          ≡ some name
        → named name w.db ≡ some u
        → Presents u

  -- The reasons for which a request goes on without a user.
  pub data Anonymous (config : Config) : Type 0 where
    off : auth_enabled config ≡ false → Anonymous config
    open_path : is_open_path r.path ≡ true → Anonymous config
    left_to_registry : leaves_v2 (v2_auth_mode_of config) ≡ true → Anonymous config
    pull :
        (r.method ≡ Method.get) ⊎ (r.method ≡ Method.head)
        → is_empty (v2_pull_resource_repo_path r.path) ≡ false
        → (is_anonymous_pull_allowed (v2_pull_resource_repo_path r.path) w.db).0 ≡ true
        → Anonymous config
    ping :
        validate_v2_token crypto (trim_space (trim_prefix r.authorization bearer)) w.db.now
          ≡ some []
        → (r.path ≡ codes "/v2/") ⊎ (r.path ≡ codes "/v2")
        → Anonymous config

  -- With whom a request may go on to its handler.
  abbrev pub Admitted : Config → Option User → Type 0
  Admitted config none = Anonymous config
  Admitted config (some u) = (u.enabled ≡ true) × Presents u

-- What holds of the user with whom a request is passed on.
abbrev pub Holds : (Option User → Type 0) → Outcome → Type 0
Holds P (passes u) = P u
Holds P (stops answer) = Unit

-- Nothing by which a user or a permission is found is changed.
abbrev pub Reads : Db → Db → Type 0
Reads d e = (e.users ≡ d.users) × (e.now ≡ d.now) × (e.permissions ≡ d.permissions)
