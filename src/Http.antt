-- ===== src/Http.antt =====
-- What the handlers read of a request and answer. Header values and bodies arrive decoded: the
-- decoding is Go's net/http and encoding/json.
use registry_ui_go.Base.{ℕ, Bool, true, false, Option, none, some, Text, codes}
use registry_ui_go.Store.{User, Audit}
use registry_ui_go.Store.Run.{M, pure}

pub data Method : Type 0 where
  get head post put patch delete options other : Method

-- The answer: the HTTP status, and the "error" text of the body ("" for a success).
pub record Response : Type 0 where
  pub status : ℕ
  pub error : Text

abbrev pub reply : ℕ → Text → Response
reply status error = record { status = status; error = error }

abbrev pub answer : ℕ → Text → M Response
answer status error = pure (reply status error)

abbrev pub method_not_allowed : M Response
method_not_allowed = answer 405 (codes "method not allowed")

abbrev pub not_found : M Response
not_found = answer 404 (codes "404 page not found")

abbrev pub forbidden : M Response
forbidden = answer 403 (codes "forbidden")

-- writeError: the text of the error is the database's.
abbrev pub write_error : ℕ → M Response
write_error status = answer status (codes "error")

-- currentUserID: 0 where nobody is signed in
abbrev pub current_user_id : Option User → ℕ
current_user_id none = 0
current_user_id (some u) = u.id

abbrev pub audit : Option User → Text → Text → Text → Text → Text → Audit
audit user action repo reference digest status = record {
  user_id = current_user_id user;
  action = action;
  repo = repo;
  reference = reference;
  digest = digest;
  status = status;
}

-- isMutatingMethod
unfoldable pub is_mutating_method : Method → Bool
is_mutating_method Method.post = true
is_mutating_method Method.put = true
is_mutating_method Method.patch = true
is_mutating_method Method.delete = true
is_mutating_method _ = false
