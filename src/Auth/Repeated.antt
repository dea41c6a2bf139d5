-- ===== src/Auth/Repeated.antt =====
-- What a request that changes something repeats in its header.
use registry_ui_go.Base.{
  ◌≡◌, ap, ◌⊎◌, ◌↔◌, ◌≢◌, Begins, has_prefix_iff, Bool, true, false, Option, none, some, Text,
  codes, arith, ◌==◌, text_eq, text_eq_iff, text_eq_instance, ◌&&◌, ◌||◌, not, is_empty, has_prefix,
}
use registry_ui_go.Http.{Method}
use registry_ui_go.Auth.{Config, Request, auth_enabled}
use registry_ui_go.Auth.ApiTokens.{bearer}
use registry_ui_go.Auth.Forgery.{validate_csrf, is_safe_method, require_csrf}

-- The header is there, and it is the value of the cookie.
abbrev pub Repeats : Option Text → Text → Type 0
Repeats cookie header = (cookie ≡ some header) × (is_empty header ≡ false)

unwrapped : (value header : Text) → some value ≡ some header → value ≡ header
unwrapped value header e = cc

repeated_iff :
    (cookie : Option Text) (header : Text)
    → (elim cookie [ none ↦ false | some value ↦ not (is_empty header) && value == header ] ≡ true)
      ↔ Repeats cookie header
repeated_iff none header = (λ e. cc, λ (e, filled). cc)
repeated_iff (some value) header = (
  λ e. (ap some ((text_eq_iff value header).0 (ground arith)), ground arith),
  λ (e, filled). rw filled ((text_eq_iff value header).1 (unwrapped value header e)),
)

validate_csrf_iff : (r : Request) → (validate_csrf r ≡ true) ↔ Repeats r.csrf_cookie r.csrf_header
unfolding validate_csrf
validate_csrf_iff r = repeated_iff r.csrf_cookie r.csrf_header

-- Why a request needs no token: it is a GET, a HEAD or an OPTIONS, it is the login, it is for the
-- registry API, it carries a bearer token, or authentication is off.
abbrev pub Exempt : Config → Request → Type 0
Exempt config r =
    (r.method ≡ Method.get)
    ⊎ (r.method ≡ Method.head)
    ⊎ (r.method ≡ Method.options)
    ⊎ (r.path ≡ codes "/api/login")
    ⊎ Begins r.path (codes "/v2/")
    ⊎ Begins r.authorization (codes "Bearer ")
    ⊎ (config.auth_mode ≢ codes "basic")

is_safe_method_iff :
    (m : Method)
    → (is_safe_method m ≡ true) ↔ ((m ≡ Method.get) ⊎ (m ≡ Method.head) ⊎ (m ≡ Method.options))
unfolding is_safe_method
is_safe_method_iff Method.get = ground arith
is_safe_method_iff Method.head = ground arith
is_safe_method_iff Method.post = ground arith
is_safe_method_iff Method.put = ground arith
is_safe_method_iff Method.patch = ground arith
is_safe_method_iff Method.delete = ground arith
is_safe_method_iff Method.options = ground arith
is_safe_method_iff Method.other = ground arith

or_iff :
    (a b c d e f : Bool)
    → ((a || b || c || d || not e || f) ≡ true)
      ↔ ((a ≡ true) ⊎ (b ≡ true) ⊎ (c ≡ true) ⊎ (d ≡ true) ⊎ (e ≡ false) ⊎ (f ≡ true))
or_iff a b c d e f = ground arith

-- The gate against forged requests lets a request on exactly if it is a GET, a HEAD or an OPTIONS, if
-- its path is /api/login or begins with /v2/, if its Authorization begins with "Bearer ", if the mode
-- of authentication is not "basic", or if its header repeats the value of its cookie and is not
-- empty.
pub require_csrf_iff :
    (config : Config) (r : Request)
    → (require_csrf config r ≡ true) ↔ (Exempt config r ⊎ Repeats r.csrf_cookie r.csrf_header)
unfolding require_csrf
require_csrf_iff config r = ground (
  arith,
  or_iff (is_safe_method r.method) (text_eq r.path (codes "/api/login"))
      (has_prefix r.path (codes "/v2/")) (has_prefix r.authorization bearer) (auth_enabled config)
      (validate_csrf r),
  is_safe_method_iff r.method,
  validate_csrf_iff r,
  text_eq_iff r.path (codes "/api/login"),
  text_eq_iff config.auth_mode (codes "basic"),
  has_prefix_iff r.path (codes "/v2/"),
  has_prefix_iff r.authorization (codes "Bearer "),
)
