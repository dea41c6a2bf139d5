-- ===== src/Auth.antt =====
-- backend/internal/server/auth.go: what a request presents, and what its authentication keeps and
-- answers. Passwords, digests, signatures and random values are those of Go's crypto packages.
pub mod Hex
pub mod Passwords
pub mod Sessions
pub mod Lifetimes
pub mod ApiTokens
pub mod BearerTokens
pub mod Basic
pub mod Middleware
pub mod Forgery
pub mod Accounts
pub mod Changed
pub mod Repeated
pub mod Presented
mod Tests
mod AccountTests
use registry_ui_go.Base.{
  ℕ, Bool, true, false, Option, none, some, List, [], ◌∷◌, ◌++◌, if◌then◌else◌, Text, codes, ◌==◌,
  text_eq_instance, ◌&&◌, ◌||◌, not, is_empty, has_prefix, to_lower, trim_space,
}
use registry_ui_go.Store.{Db, User}
use registry_ui_go.Store.Run.{M}
use registry_ui_go.Http.{Method, Response, reply}

pub record Config : Type 0 where
  pub auth_mode : Text
  pub v2_auth_mode : Text

-- The headers, cookies and the connection of a request, as net/http decodes them.
pub record Request : Type 0 where
  pub method : Method
  pub path : Text
  pub authorization : Text
  pub basic_auth : Option (Text × Text)
  pub session_cookie : Option Text
  pub csrf_cookie : Option Text
  pub csrf_header : Text
  pub over_tls : Bool
  pub forwarded_proto : Text

-- The random values that a request draws, in hexadecimal.
pub record Draws : Type 0 where
  pub session_id : Text
  pub csrf_token : Text

pub record Session : Type 0 where
  pub username : Text
  pub expires_at : ℕ

-- A Set-Cookie header; `max_age` is none where it asks to forget the cookie.
pub record Cookie : Type 0 where
  pub name : Text
  pub value : Text
  pub secure : Bool
  pub max_age : Option ℕ

-- The database, sessionStore, and the cookies that the answer sets.
pub record Web : Type 0 where
  pub db : Db
  pub sessions : List (Text × Session)
  pub cookies : List Cookie

-- A piece of a handler that may use the sessions.
abbrev pub W {ℓ} : Type ℓ → Type ℓ
W A = Web → A × Web

abbrev pub give {ℓ} : {A : Type ℓ} → A → W A
give a w = (a, w)

abbrev pub store {ℓ} : {A : Type ℓ} → M A → W A
store m w = let r = m w.db in (r.0, record w { db = r.1 })

infixl 5 ◌>=>◌ ◌>->◌
abbrev pub ◌>=>◌ {ℓ κ} : {A : Type ℓ} {B : Type κ} → W A → (A → W B) → W B
◌>=>◌ m k w = k (m w).0 (m w).1

abbrev pub ◌>->◌ {ℓ κ} : {A : Type ℓ} {B : Type κ} → W A → W B → W B
◌>->◌ m k w = k (m w).1

-- What a middleware does with a request: it passes it on, with the user that the request's context
-- carries, or answers it.
pub data Outcome : Type 0 where
  passes : Option User → Outcome
  stops : Response → Outcome

abbrev pub auth_enabled : Config → Bool
auth_enabled c = c.auth_mode == codes "basic"

unfoldable pub secure_cookie : Request → Bool
secure_cookie r = r.over_tls || to_lower r.forwarded_proto == codes "https"

-- v2AuthMode
unfoldable pub v2_mode : Text → Text
v2_mode mode = if is_empty mode then codes "registry" else mode

unfoldable pub v2_auth_mode_of : Config → Text
v2_auth_mode_of c = v2_mode (to_lower (trim_space c.v2_auth_mode))

-- challenge: 401 for the registry API, else the way to the login page
unfoldable pub challenge : Request → Outcome
challenge r =
    if r.path == codes "/v2" || has_prefix r.path (codes "/v2/")
    then stops (reply 401 (codes "UNAUTHORIZED"))
    else stops (reply 303 (codes "/login.html"))
