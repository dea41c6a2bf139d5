-- ===== src/Auth/Sessions.antt =====
-- auth.go: sessions, kept in memory under the random value of a cookie. What the log tells of
-- refused cookies, and the table that thins it, are left out.
use registry_ui_go.Base.{
  ℕ, ◌+◌, ◌*◌, Bool, Option, none, some, [], ◌∷◌, ◌++◌, if◌then◌else◌, Text, codes,
  text_eq_instance, ltb, not, lookup, insert, remove_key, keep,
}
use registry_ui_go.Http.{Method, Response, reply}
use registry_ui_go.Auth.{Request, Draws, Session, W, give, secure_cookie, ◌>->◌}

abbrev pub session_cookie_name : Text
session_cookie_name = codes "registry_ui_session"

abbrev pub csrf_cookie_name : Text
csrf_cookie_name = codes "csrf_token"

-- Seven days.
abbrev pub session_ttl : ℕ
session_ttl = 7 * 24 * 3600

abbrev pub is_expired : ℕ → Session → Bool
is_expired now s = ltb s.expires_at now

abbrev pub set_cookie : Text → Text → Bool → Option ℕ → W (Unit {0})
set_cookie name value secure max_age w = (
  tt,
  record w {
    cookies =
        w.cookies ++ record { name = name; value = value; secure = secure; max_age = max_age } ∷ [];
  },
)

unfoldable pub set_csrf_cookie : Request → Draws → W (Unit {0})
set_csrf_cookie r draws =
    set_cookie csrf_cookie_name draws.csrf_token (secure_cookie r) (some session_ttl)

abbrev pub new_session : Text → ℕ → Session
new_session username now = record { username = username; expires_at = now + session_ttl }

unfoldable pub store_session : Text → Text → W (Unit {0})
store_session id username w =
    (tt, record w { sessions = insert id (new_session username w.db.now) w.sessions })

unfoldable pub create_session : Request → Draws → Text → W (Unit {0})
unfolding set_csrf_cookie store_session
create_session r draws username =
    set_cookie session_cookie_name draws.session_id (secure_cookie r) (some session_ttl)
    >-> set_csrf_cookie r draws
    >-> store_session draws.session_id username

unfoldable pub forget_session : Text → W (Unit {0})
forget_session id w = (tt, record w { sessions = remove_key id w.sessions })

-- The entry of the cookie, where it has one that has not expired.
unfoldable pub live_session : Text → Option Session → W Text
live_session id none w = ([], w)
live_session id (some s) w =
    if is_expired w.db.now s then ([], (forget_session id w).1) else (s.username, w)

unfoldable pub session_of : Option Text → W Text
session_of none w = ([], w)
session_of (some id) w = live_session id (lookup id w.sessions) w

unfoldable pub get_session : Request → W Text
get_session r = session_of r.session_cookie

-- One round of cleanupSessions.
unfoldable pub cleanup_sessions : W (Unit {0})
cleanup_sessions w =
    (tt, record w { sessions = keep (λ e. not (is_expired w.db.now e.1)) w.sessions })

unfoldable pub clear_session : Request → W (Unit {0})
clear_session r =
    set_cookie session_cookie_name [] (secure_cookie r) none
    >-> set_cookie csrf_cookie_name [] (secure_cookie r) none

unfoldable pub forget_cookie : Option Text → W (Unit {0})
unfolding forget_session
forget_cookie none = give tt
forget_cookie (some id) = forget_session id

-- handleLogout
unfoldable pub handle_logout : Request → W Response
handle_logout r = elim r.method [
  | Method.post ↦ forget_cookie r.session_cookie >-> clear_session r >-> give (reply 200 [])
  | _ ↦ give (reply 405 (codes "method not allowed"))
]
