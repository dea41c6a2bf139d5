-- ===== src/Webhooks/Tests.antt =====
-- Webhooks in front of a small network.
use registry_ui_go.Base.{
  ◌≡◌, refl, ◌↔◌, ◌⊎◌, true, false, none, some, [], ◌∷◌, codes, arith, All, text_eq, any, split,
  trim_space, has_prefix, strip_prefix,
}
use registry_ui_go.Samples.{two_users}
use registry_ui_go.Store.{Db}
use registry_ui_go.Webhooks.Addresses.{is_internal_ip, is_internal_v4, unless_mapped}
use registry_ui_go.Webhooks.{
  Net, fire_webhook_event, validate_webhook_url, check_url, check_addresses, addresses,
  webhook_matches_event,
}
use registry_ui_go.Webhooks.Guarded.{Guarded, validate_webhook_url_iff}
use registry_ui_go.Webhooks.Delivered.{Sent, fire_webhook_event-Sent}
use registry_ui_go.Webhooks.Ranges.{Internal, as_number, is_internal_ip_iff}

-- Every text is a URL of its own host, which has one public address.
abbrev small_net : Net
small_net = record {
  parse_url = λ raw. some (codes "https", raw);
  parse_ip = λ host. none;
  lookup_ip = λ moment host. some ((8 ∷ 8 ∷ 8 ∷ 8 ∷ []) ∷ []);
}

abbrev home_net : Net
home_net = record small_net { parse_ip = λ host. some (192 ∷ 168 ∷ 0 ∷ 7 ∷ []) }

abbrev one_hook : Db
one_hook = record two_users {
  webhooks =
      record {
        id = 1;
        url = codes "hooks";
        secret_header = codes "X-Key: s3";
        events = codes "push, delete";
        enabled = true;
      }
      ∷ [];
}

refused :
    validate_webhook_url home_net false 0 (codes "hooks")
    ≡ some (codes "url resolves to a non-public address")
unfolding validate_webhook_url check_url check_addresses addresses any is_internal_ip is_internal_v4
    text_eq trim_space
refused = refl

mapped_loopback :
    is_internal_ip (0 ∷ 0 ∷ 0 ∷ 0 ∷ 0 ∷ 0 ∷ 0 ∷ 0 ∷ 0 ∷ 0 ∷ 255 ∷ 255 ∷ 127 ∷ 0 ∷ 0 ∷ 1 ∷ []) ≡ true
unfolding is_internal_ip unless_mapped is_internal_v4 strip_prefix
mapped_loopback = refl

second_event : webhook_matches_event (codes "push, delete") (codes "delete") ≡ true
unfolding webhook_matches_event split has_prefix strip_prefix trim_space any text_eq
second_event = refl

validate_webhook_url_iff_example :
    (validate_webhook_url small_net false 0 (codes "hooks") ≡ none)
    ↔ Guarded small_net false 0 (codes "hooks")
validate_webhook_url_iff_example = validate_webhook_url_iff small_net false 0 (codes "hooks")

fire_webhook_event-Sent_example :
    All
      (Sent small_net false (codes "delete") one_hook.webhooks)
      (fire_webhook_event small_net false 0 (codes "delete") one_hook).0
    × ((one_hook.fails one_hook.clock ≡ false)
        ⊎ ((fire_webhook_event small_net false 0 (codes "delete") one_hook).0 ≡ []))
fire_webhook_event-Sent_example =
    fire_webhook_event-Sent small_net false 0 (codes "delete") one_hook

is_internal_ip_iff_example :
    (is_internal_ip (172 ∷ 31 ∷ 0 ∷ 1 ∷ []) ≡ true) ↔ Internal (as_number 172 31 0 1)
is_internal_ip_iff_example =
    is_internal_ip_iff 172 31 0 1 (ground arith) (ground arith) (ground arith) (ground arith)
