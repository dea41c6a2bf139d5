-- ===== src/Proxy/Tests.antt =====
-- Requests on their way to the small registry.
use registry_ui_go.Base.{
  ◌≡◌, refl, ◌↔◌, true, false, Option, none, some, List, [], ◌∷◌, Text, codes, text_eq, In,
  is_empty, find, contains_text, split, has_prefix, strip_prefix, trim_prefix, trim_space, inr,
  lookup, cut, insert, contains, to_lower,
}
use registry_ui_go.Samples.{two_users, one_row, plain_user, root_user}
use registry_ui_go.Store.{Db}
use registry_ui_go.Http.{Method}
use registry_ui_go.Registry.{answered}
use registry_ui_go.Registry.Table.{Tags, table_client, table_points_at, table_client-Documented}
use registry_ui_go.Deletion.Table.{no_size}
use registry_ui_go.Policy.{
  parts, push_create_allowed, push_create_from, row_code, flag_or, resolve_protection_mode,
  code_or_settings, from_settings, when_set,
}
use registry_ui_go.Policy.Saving.{Good, Shows}
use registry_ui_go.Policy.Resolving.{mode_key}
use registry_ui_go.Auth.{Request}
use registry_ui_go.Proxy.{Gateway, Target, Call, Forwarded, Reply, manifest_target}
use registry_ui_go.Proxy.Forwarding.{
  BasicHeader, v2_proxy, catalog_for, is_success, unless_answered, forward, modify_response,
  relocate,
}
use registry_ui_go.Proxy.Checks.{
  check_request, check_push, check_target, when_pushed, may_push, exists_unless, protected,
}
use registry_ui_go.Auth.BearerTokens.{is_pull_method}
use registry_ui_go.Store.Settings.{get_setting, cached, load_setting, get_setting_bool, bool_value}
use registry_ui_go.Store.Repositories.{find_repo, get_repo_push_create, get_repo_protection_mode}
use registry_ui_go.Proxy.Protection.{Refused, v2_proxy-immutable}
use registry_ui_go.Proxy.Replaced.{NonePending, v2_proxy-NonePending}
use registry_ui_go.Proxy.Catalog.{Sees, catalog_for-Sees}

abbrev push : Request
push = record {
  method = Method.put;
  path = codes "/v2/team/app/manifests/v1";
  authorization = [];
  basic_auth = none;
  session_cookie = none;
  csrf_cookie = none;
  csrf_header = [];
  over_tls = false;
  forwarded_proto = [];
}

abbrev call : Call
call = record { request = push; host = codes "hub"; accept = []; body = codes "new" }

abbrev target : Target
target = record {
  host = some (codes "127.0.0.1:5000");
  external_url = [];
  registry_username = [];
  registry_password = [];
  registry_bearer_token = [];
}

-- One tag, in a repository that a setting makes immutable.
abbrev one_tag : Tags
one_tag = record { repo = codes "team/app"; tag = codes "v1"; digest = codes "old" } ∷ []

abbrev immutable_db : Db
immutable_db = record two_users {
  settings = (codes "protection_mode:team/app", codes "immutable") ∷ [];
}

abbrev gateway : Gateway Tags
gateway = record { db = immutable_db; registry = one_tag; patterns = [] }

abbrev catalog_reply : Reply
catalog_reply = record {
  status = 200;
  error = [];
  digest = [];
  location = [];
  catalog = some (codes "team/app" ∷ codes "other/app" ∷ []);
}

-- The registry takes every push.
abbrev accept_push : Forwarded → Tags → Option Reply × Tags
accept_push f s =
    (some (record catalog_reply { status = 201; digest = codes "sha256:new"; catalog = none }), s)

target_lem : manifest_target push.path ≡ some (codes "team/app", codes "v1")
unfolding split trim_prefix trim_space manifest_target
target_lem = refl

immutable_db-Good : Good immutable_db
unfolding lookup
immutable_db-Good = record { works = λ n. refl; coherent = record { at_key = λ key. tt } }

shows :
    Shows
      (λ r. r.protection_mode)
      (mode_key (codes "team/app"))
      (parts (codes "team/app"))
      2
      (codes "immutable")
      immutable_db
unfolding lookup find cut text_eq
shows = inr (refl, refl)

known : (table_client.digest (codes "team/app") (codes "v1") one_tag).0 ≡ answered (codes "old")
unfolding find text_eq
known = refl

plain : contains_text (codes "v1") (codes ":") ≡ false
unfolding contains_text has_prefix strip_prefix
plain = refl

named : has_prefix (codes "v1") (codes "sha256:") ≡ false
unfolding has_prefix strip_prefix
named = refl

abbrev basic : BasicHeader
basic user password = user

v2_proxy-immutable_example : Refused table_client table_points_at table_client-Documented one_tag (
    v2_proxy table_client no_size accept_push basic no_size target
      (codes "ui")
      false
      (some root_user)
      call
      gateway)
v2_proxy-immutable_example =
    v2_proxy-immutable table_client table_points_at table_client-Documented no_size no_size
      accept_push basic target (codes "ui") false (some root_user) call (codes "team/app")
      (codes "v1") (codes "old") gateway immutable_db-Good shows refl target_lem refl plain named
      known

catalog_for-Sees_example :
    (shown : List Text) × ((catalog_for
        (some plain_user)
        (codes "/v2/_catalog")
        catalog_reply
        one_row).0.catalog
      ≡ some shown)
    × (In (codes "team/app") shown
        ↔ Sees plain_user one_row.permissions
            (codes "team/app" ∷ codes "other/app" ∷ [])
            (codes "team/app"))
catalog_for-Sees_example =
    catalog_for-Sees plain_user catalog_reply (codes "team/app" ∷ codes "other/app" ∷ [])
      (codes "team/app") one_row refl (λ n. refl) refl refl

-- A repository whose tags may be overwritten, with the default of keeping what is replaced.
abbrev overwritten : Gateway Tags
overwritten = record gateway {
  db = record two_users { settings = (codes "protection_mode:team/app", codes "overwrite") ∷ [] };
}

abbrev pushed : Reply × Gateway Tags
pushed =
    v2_proxy table_client no_size accept_push basic no_size target (codes "ui") false
      (some root_user) call overwritten

push_succeeds : (is_success pushed.0.status ≡ true) × (is_empty pushed.0.digest ≡ false)
unfolding v2_proxy unless_answered forward modify_response catalog_for relocate text_eq
    check_request check_push check_target is_pull_method manifest_target split when_pushed may_push
    exists_unless push_create_allowed push_create_from row_code get_repo_push_create find_repo cut
    trim_prefix trim_space get_setting cached load_setting lookup insert flag_or get_setting_bool
    bool_value contains to_lower find resolve_protection_mode get_repo_protection_mode
    code_or_settings from_settings when_set protected
push_succeeds = (refl, refl)

v2_proxy-NonePending_example : NonePending (codes "team/app") (codes "v1") pushed.1.db
v2_proxy-NonePending_example =
    v2_proxy-NonePending table_client no_size no_size accept_push basic target (codes "ui") false
      (some root_user) call (codes "team/app") (codes "v1") overwritten (λ n. refl) refl target_lem
      push_succeeds.0 push_succeeds.1
