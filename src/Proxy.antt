-- ===== src/Proxy.antt =====
-- backend/internal/server/v2_proxy.go: requests to the registry API, on their way to the registry
-- service and back. The service, as it answers a forwarded request, is the parameter `serve`; the
-- calls that the server makes itself go through the registry client.
pub mod Checks
pub mod Forwarding
pub mod Protection
mod Failures
pub mod Replaced
pub mod Catalog
mod Tests
use registry_ui_go.Base.{
  ℕ, Bool, true, false, Option, none, some, List, [], ◌∷◌, ◌++◌, if◌then◌else◌, Text, codes, ◌==◌,
  text_eq_instance, ◌&&◌, ◌||◌, not, is_empty, has_prefix, trim_prefix, trim_space, split,
  trim_right,
}
use registry_ui_go.Store.{Db, User}
use registry_ui_go.Store.Run.{M}
use registry_ui_go.Http.{Method}
use registry_ui_go.Immutable.{Cache}
use registry_ui_go.Auth.{Request, secure_cookie}

-- The database, what only the registry knows, and the compiled patterns.
pub record Gateway (S : Type 0) : Type 0 where
  pub db : Db
  pub registry : S
  pub patterns : Cache

abbrev pub P {ℓ} : Type 0 → Type ℓ → Type ℓ
P S A = Gateway S → A × Gateway S

abbrev pub give {ℓ} : {S : Type 0} {A : Type ℓ} → A → P S A
give a g = (a, g)

abbrev pub stored {ℓ} : {S : Type 0} {A : Type ℓ} → M A → P S A
stored m g = let r = m g.db in (r.0, record g { db = r.1 })

abbrev pub asked {ℓ} : {S : Type 0} {A : Type ℓ} → (S → A × S) → P S A
asked call g = let r = call g.registry in (r.0, record g { registry = r.1 })

infixl 5 ◌~>◌ ◌~◌
abbrev pub ◌~>◌ {ℓ κ} : {S : Type 0} {A : Type ℓ} {B : Type κ} → P S A → (A → P S B) → P S B
◌~>◌ m k g = k (m g).0 (m g).1

abbrev pub ◌~◌ {ℓ κ} : {S : Type 0} {A : Type ℓ} {B : Type κ} → P S A → P S B → P S B
◌~◌ m k g = k (m g).1

-- What the configuration says: the address of the registry, if there is one, EXTERNAL_URL and the
-- credentials for the registry.
pub record Target : Type 0 where
  pub host : Option Text
  pub external_url : Text
  pub registry_username : Text
  pub registry_password : Text
  pub registry_bearer_token : Text

-- A request as it arrives, with the rest of its headers and its body.
pub record Call : Type 0 where
  pub request : Request
  pub host : Text
  pub accept : Text
  pub body : Text

-- A request as it is forwarded.
pub record Forwarded : Type 0 where
  pub method : Method
  pub path : Text
  pub authorization : Text
  pub accept : Text
  pub body : Text

-- An answer: its status, the code of an error of this server, and the parts of the registry's answer
-- that are read or rewritten.
pub record Reply : Type 0 where
  pub status : ℕ
  pub error : Text
  pub digest : Text
  pub location : Text
  pub catalog : Option (List Text)

abbrev pub failed : ℕ → Text → Reply
failed status error = record {
  status = status;
  error = error;
  digest = [];
  location = [];
  catalog = none;
}

abbrev pub manifests : Text
manifests = codes "/manifests/"

-- The repository and the reference, where the path has exactly one "/manifests/".
abbrev pub target_of_parts : List Text → Option (Text × Text)
target_of_parts (front ∷ ref ∷ []) = some (trim_prefix front (codes "/v2/"), trim_space ref)
target_of_parts _ = none

unfoldable pub manifest_target : Text → Option (Text × Text)
manifest_target path = target_of_parts (split path manifests)

abbrev pub is_digest : Text → Bool
is_digest ref = has_prefix ref (codes "sha256:")

-- externalOrigin
unfoldable pub origin_or : Text → Bool → Text → Text
origin_or base secure host =
    if is_empty base
    then (if secure then codes "https" else codes "http") ++ codes "://" ++ host
    else base

unfoldable pub external_origin : Target → Call → Text
external_origin target call =
    origin_or (trim_right b'/' (trim_space target.external_url)) (secure_cookie call.request)
      call.host
