-- ===== src/Auth/Forgery.antt =====
-- auth.go: requireCSRF, which stands around the requests that change something.
use registry_ui_go.Base.{
  Bool, true, false, none, some, codes, ◌==◌, text_eq_instance, ◌&&◌, ◌||◌, not, is_empty,
  has_prefix,
}
use registry_ui_go.Http.{Method}
use registry_ui_go.Auth.{Config, Request, auth_enabled}
use registry_ui_go.Auth.ApiTokens.{bearer}

-- The comparison in constant time tells whether the two are equal.
unfoldable pub validate_csrf : Request → Bool
validate_csrf r = elim r.csrf_cookie [
  | none ↦ false
  | some cookie ↦ not (is_empty r.csrf_header) && cookie == r.csrf_header
]

unfoldable pub is_safe_method : Method → Bool
is_safe_method Method.get = true
is_safe_method Method.head = true
is_safe_method Method.options = true
is_safe_method _ = false

-- Whether the next handler is called; else the answer is 403.
unfoldable pub require_csrf : Config → Request → Bool
require_csrf config r =
    is_safe_method r.method
    || r.path == codes "/api/login"
    || has_prefix r.path (codes "/v2/")
    || has_prefix r.authorization bearer
    || not (auth_enabled config)
    || validate_csrf r
