-- ===== src/Webhooks.antt =====
-- backend/internal/server/features.go: webhooks, which of them an event goes to, and the guard of
-- their addresses. Parsing a URL (net/url) and resolving a host are parameters.
pub mod Addresses
pub mod Guarded
mod Tests
pub mod Ranges
pub mod Delivered
use registry_ui_go.Base.{
  ℕ, ◌+◌, ◌/◌, ◌%◌, Bool, true, false, Option, none, some, List, [], ◌∷◌, ◌++◌, if◌then◌else◌, Text,
  codes, ◌==◌, nat_eq_instance, text_eq_instance, ◌&&◌, ◌||◌, not, is_empty, any, split, trim_space,
  cut, length, take,
}
use registry_ui_go.Store.{User, Result, ok, err, Webhook}
use registry_ui_go.Store.Run.{M, on, pure, ◌>>=◌}
use registry_ui_go.Store.Extras.{list_webhooks, create_webhook, update_webhook, delete_webhook}
use registry_ui_go.Webhooks.Addresses.{Ip, is_internal_ip}
use registry_ui_go.Http.{
  Method, Response, answer, method_not_allowed, not_found, forbidden, write_error,
}

-- What the guard learns from outside: the scheme and the host name of a URL, the address that a text
-- spells, and what a host name resolves to at some moment.
pub record Net : Type 0 where
  pub parse_url : Text → Option (Text × Text)
  pub parse_ip : Text → Option Ip
  pub lookup_ip : ℕ → Text → Option (List Ip)

-- The decoded body of a POST or a PUT.
pub record WebhookRequest : Type 0 where
  pub url : Text
  pub secret_header : Text
  pub events : Text
  pub enabled : Bool

-- What an event sends to a webhook: the header of its own, if there is one. `moment` counts the
-- addresses that were looked up before.
pub record Delivery : Type 0 where
  pub moment : ℕ
  pub webhook : Webhook
  pub header : Option (Text × Text)

abbrev pub is_none {ℓ} : {A : Type ℓ} → Option A → Bool
is_none none = true
is_none (some a) = false

abbrev pub unless_invalid : Option Text → M Response → M Response
unless_invalid none k = k
unless_invalid (some error) k = answer 400 (codes "invalid webhook url")

-- webhookMatchesEvent
unfoldable pub webhook_matches_event : Text → Text → Bool
webhook_matches_event events event = any (λ e. trim_space e == event) (split events (codes ","))

abbrev pub trimmed_pair : Text × Option Text → Option (Text × Text)
trimmed_pair (name, none) = none
trimmed_pair (name, some value) = some (trim_space name, trim_space value)

unfoldable pub secret_of : Text → Option (Text × Text)
secret_of secret_header =
    if is_empty secret_header then none else trimmed_pair (cut b':' secret_header)

abbrev pub default_events : Text → Text
default_events events = if is_empty events then codes "push,delete,untag,restore" else events

unfoldable pub is_admin_user : Option User → Bool
is_admin_user none = false
is_admin_user (some u) = u.is_admin

module _ (net : Net) (allow_private_ip : Bool) where
  abbrev pub addresses_or : Option Ip → Option (List Ip) → Option (List Ip)
  addresses_or (some ip) resolved = some (ip ∷ [])
  addresses_or none resolved = resolved

  unfoldable pub addresses : ℕ → Text → Option (List Ip)
  addresses moment host = addresses_or (net.parse_ip host) (net.lookup_ip moment host)

  unfoldable pub check_addresses : Option (List Ip) → Option Text
  check_addresses none = some (codes "cannot resolve host")
  check_addresses (some ips) =
      if any is_internal_ip ips then some (codes "url resolves to a non-public address") else none

  unfoldable pub check_url : ℕ → Option (Text × Text) → Option Text
  check_url moment none = some (codes "invalid url")
  check_url moment (some (scheme, host)) =
      if not (scheme == codes "http") && not (scheme == codes "https")
      then some (codes "url scheme must be http or https")
      else if is_empty host
      then some (codes "url host is required")
      else if allow_private_ip
      then none
      else check_addresses (addresses moment host)

  -- validateWebhookURL: the error, if there is one
  unfoldable pub validate_webhook_url : ℕ → Text → Option Text
  validate_webhook_url moment raw = check_url moment (net.parse_url (trim_space raw))

  unfoldable pub is_delivered : ℕ → Text → Webhook → Bool
  is_delivered moment event hook =
      hook.enabled
      && webhook_matches_event hook.events event
      && is_none (validate_webhook_url moment hook.url)

  -- The loop over the webhooks.
  unfoldable pub deliveries : ℕ → Text → List Webhook → List Delivery
  deliveries moment event [] = []
  deliveries moment event (hook ∷ hooks) =
      let rest = deliveries (moment + 1) event hooks in
      if is_delivered moment event hook
      then record { moment = moment; webhook = hook; header = secret_of hook.secret_header } ∷ rest
      else rest

  -- fireWebhookEvent: what is sent
  unfoldable pub fire_webhook_event : ℕ → Text → M (List Delivery)
  fire_webhook_event moment event =
      on list_webhooks (λ _. pure []) (λ hooks. pure (deliveries moment event hooks))

  -- The checks of a body before the statement.
  unfoldable pub when_valid : ℕ → WebhookRequest → M Response → M Response
  when_valid moment req k =
      if is_empty req.url
      then answer 400 (codes "url is required")
      else unless_invalid (validate_webhook_url moment req.url) k

  unfoldable pub post_webhook : ℕ → WebhookRequest → M Response
  post_webhook moment req = when_valid moment req (
      on (create_webhook req.url req.secret_header (default_events req.events) req.enabled)
        (λ _. write_error 400) (λ _. answer 201 []))

  unfoldable pub webhooks_by_method : Method → ℕ → WebhookRequest → M Response
  webhooks_by_method Method.get moment req =
      on list_webhooks (λ _. write_error 500) (λ _. answer 200 [])
  webhooks_by_method Method.post moment req = post_webhook moment req
  webhooks_by_method _ moment req = method_not_allowed

  unfoldable pub handle_webhooks : Method → Option User → ℕ → WebhookRequest → M Response
  handle_webhooks method user moment req =
      if is_admin_user user then webhooks_by_method method moment req else forbidden

  unfoldable pub webhook_by_method : Method → ℕ → ℕ → WebhookRequest → M Response
  webhook_by_method Method.put id moment req = when_valid moment req (
      on (update_webhook id req.url req.secret_header req.events req.enabled) (λ _. write_error 500)
        (λ _. answer 200 []))
  webhook_by_method Method.delete id moment req =
      on (delete_webhook id) (λ _. write_error 500) (λ _. answer 200 [])
  webhook_by_method _ id moment req = method_not_allowed

  abbrev pub with_id : Method → Option ℕ → ℕ → WebhookRequest → M Response
  with_id method none moment req = not_found
  with_id method (some id) moment req = webhook_by_method method id moment req

  -- handleWebhookByID, with the id that parseID reads from the path
  unfoldable pub handle_webhook_by_id :
      Method → Option User → Option ℕ → ℕ → WebhookRequest → M Response
  handle_webhook_by_id method user id moment req =
      if is_admin_user user then with_id method id moment req else forbidden
