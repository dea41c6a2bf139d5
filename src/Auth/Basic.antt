-- ===== src/Auth/Basic.antt =====
-- auth.go: requireUIAuth, by the session of a cookie or by Basic credentials, and the gate for users
-- who have to change their password.
use registry_ui_go.Base.{
  Bool, Option, none, some, if◌then◌else◌, Text, codes, ◌==◌, text_eq_instance, ◌&&◌, ◌||◌, not,
  is_empty, has_prefix,
}
use registry_ui_go.Store.{User, Result, ok, err}
use registry_ui_go.Store.Users.{get_user_by_username}
use registry_ui_go.Http.{reply}
use registry_ui_go.Auth.{
  Config, Request, Draws, W, give, store, ◌>=>◌, ◌>->◌, Outcome, passes, stops, auth_enabled,
  challenge,
}
use registry_ui_go.Auth.Passwords.{Crypto, verify_password_hash, maybe_upgrade_password}
use registry_ui_go.Auth.Sessions.{get_session, create_session, clear_session}

module _ (crypto : Crypto) (config : Config) (r : Request) (draws : Draws) where
  -- `if !strings.HasPrefix(r.URL.Path, "/v2/") { s.createSession(w, r, user) }`
  unfoldable pub browser_session : Text → W (Unit {0})
  browser_session username =
      if has_prefix r.path (codes "/v2/") then give tt else create_session r draws username

  unfoldable pub with_account : Text → Text → Result User → W Outcome
  with_account username pass (err e) = give (challenge r)
  with_account username pass (ok u) =
      if u.enabled && verify_password_hash crypto u.password_hash pass
      then store (maybe_upgrade_password crypto u pass)
        >-> browser_session username
        >-> give (passes (some u))
      else give (challenge r)

  unfoldable pub by_basic : Option (Text × Text) → W Outcome
  by_basic none = give (challenge r)
  by_basic (some (username, pass)) =
      store (get_user_by_username username) >=> with_account username pass

  -- The user of a session, or the fall-back to Basic credentials.
  unfoldable pub session_account : Result User → W Outcome
  session_account (err e) = clear_session r >-> by_basic r.basic_auth
  session_account (ok u) =
      if u.enabled then give (passes (some u)) else clear_session r >-> by_basic r.basic_auth

  unfoldable pub by_session : Text → W Outcome
  by_session username =
      if is_empty username
      then by_basic r.basic_auth
      else store (get_user_by_username username) >=> session_account

  unfoldable pub require_ui_auth : W Outcome
  require_ui_auth = if auth_enabled config then get_session r >=> by_session else give (passes none)

unfoldable pub must_change_password_exempt : Text → Bool
must_change_password_exempt path =
    path == codes "/api/login"
    || path == codes "/api/logout"
    || path == codes "/api/user"
    || path == codes "/api/me"
    || path == codes "/api/user/password"

unfoldable pub is_endpoint_path : Text → Bool
is_endpoint_path path = has_prefix path (codes "/api/") || has_prefix path (codes "/v2/")

unfoldable pub password_gate : Text → Option User → Outcome
password_gate path none = passes none
password_gate path (some u) =
    if not u.must_change_password || must_change_password_exempt path || not (is_endpoint_path path)
    then passes (some u)
    else stops (reply 403 (codes "password_change_required"))

-- enforcePasswordChange, for a request that was passed on so far
unfoldable pub enforce_password_change : Request → Outcome → Outcome
enforce_password_change r (passes u) = password_gate r.path u
enforce_password_change r (stops answer) = stops answer
