-- ===== src/Auth/Tests.antt =====
-- Requests, sessions and tokens on small databases.
use registry_ui_go.Base.{
  ℕ, zero, suc, pos, is_empty, last_index, ◌==◌, nat_eq_instance, take, ◌/◌, ◌%◌, ◌≡◌, refl, ◌≢◌,
  true, false, none, some, List, [], ◌∷◌, ◌++◌, Text, codes, arith, text_eq, find, any, lookup,
  insert, remove_key, keep, has_prefix, has_suffix, strip_prefix, trim_prefix, trim_space,
  trim_left, to_lower, is_space, NoneOf, All, length, itoa, itoa-Bytes, if◌then◌else◌,
}
use registry_ui_go.Store.{Db, User}
use registry_ui_go.Store.Users.{get_user_by_username}
use registry_ui_go.Http.{Method, Response, is_mutating_method}
use registry_ui_go.Samples.{plain_user, two_users, one_row}
use registry_ui_go.Auth.{
  Config, Request, Draws, Session, Web, Outcome, passes, stops, auth_enabled, challenge,
  secure_cookie, v2_auth_mode_of, v2_mode,
}
use registry_ui_go.Auth.Hex.{hex_digit, hex_encode, hex_decode, decode-encode, IsByte}
use registry_ui_go.Auth.Passwords.{
  Crypto, verify_password_hash, maybe_upgrade_password, needs_password_upgrade,
}
use registry_ui_go.Auth.Sessions.{
  get_session, session_of, live_session, create_session, set_csrf_cookie, store_session,
}
use registry_ui_go.Auth.Lifetimes.{valid_name}
use registry_ui_go.Auth.Lifetimes.Ledger.{
  Event, happen, happen_all, note_all, get_session-happen_all,
}
use registry_ui_go.Auth.ApiTokens.{
  TokenRequest, bearer, handle_tokens, check_api_token_auth, token_parts,
}
use registry_ui_go.Auth.ApiTokens.RoundTrip.{handle_tokens-check_api_token_auth, is_over, NoToken}
use registry_ui_go.Auth.BearerTokens.{mint_v2_token, validate_v2_token}
use registry_ui_go.Auth.BearerTokens.RoundTrip.{Base64, validate-mint_v2_token}
use registry_ui_go.Auth.Basic.{
  require_ui_auth, by_session, by_basic, with_account, browser_session, enforce_password_change,
  password_gate,
}
use registry_ui_go.Auth.Middleware.{
  with_auth, is_open_path, v2_request, checked_v2, no_header, then_rights, repo_rights, write_right,
  checks_v2,
}
use registry_ui_go.Auth.Presented.Writing.{Right}
use registry_ui_go.Auth.Presented.Reaching.{with_auth-Right}
use registry_ui_go.Access.{user_can_access_repo, user_can_write_repo, allowed, granted, covers}
use registry_ui_go.Store.Permissions.{list_user_permissions}
use registry_ui_go.RepoPath.{
  extract_v2_repo_path, repo_before_last_suffix, best_marker, later, before, or_whole,
}

-- Passwords hash to themselves, a signature is a length, and base64 is hexadecimal.
abbrev toy : Crypto
toy = record {
  bcrypt_matches = λ encoded password. text_eq encoded password;
  hash_password = λ password. some password;
  salted_sha256 = λ salt password. salt ++ password;
  sha256_hex = λ s. b'h' ∷ s;
  sign = λ s. itoa (length s);
  base64_encode = λ s. hex_encode s;
  base64_decode = λ s. hex_decode s;
}

digit_no_dot : (n : ℕ) → hex_digit n ≢ b'.'
unfolding hex_digit
digit_no_dot n = ground arith

hex_no_dot : (s : Text) → NoneOf b'.' (hex_encode s)
unfolding hex_encode
hex_no_dot [] = tt
hex_no_dot (c ∷ s) = (digit_no_dot (c / 16), (digit_no_dot (c % 16), hex_no_dot s))

toy-Base64 : Base64 toy
toy-Base64 = record {
  decodes = λ s bytes. decode-encode s bytes;
  alphabet = hex_no_dot;
  signature = λ s. itoa-Bytes (length s);
}

abbrev checked : Config
checked = record { auth_mode = codes "basic"; v2_auth_mode = codes "ui" }

-- GET /api/repos with the name and password of the administrator.
abbrev basic_request : Request
basic_request = record {
  method = Method.get;
  path = codes "/api/repos";
  authorization = codes "Basic YWRtaW46aA==";
  basic_auth = some (codes "admin", codes "h");
  session_cookie = none;
  csrf_cookie = none;
  csrf_header = [];
  over_tls = false;
  forwarded_proto = codes "https";
}

abbrev draws : Draws
draws = record { session_id = codes "s1"; csrf_token = codes "c1" }

abbrev start : Web
start = record { db = two_users; sessions = []; cookies = [] }

-- A login, a day, and the clean-up.
abbrev cookie_request : Request
cookie_request = record basic_request { session_cookie = some (codes "s1") }

abbrev day : List Event
day =
    Event.login basic_request draws (codes "admin")
    ∷ Event.wait 86400
    ∷ Event.cleanup
    ∷ Event.request cookie_request
    ∷ []

get_session-happen_all_example :
    (get_session cookie_request (happen_all day start)).0
    ≡ valid_name
        (note_all day (1000, λ _. none)).0
        ((note_all day (1000, λ _. none)).1 (codes "s1"))
get_session-happen_all_example =
    get_session-happen_all day start cookie_request (codes "s1") refl refl

-- The names before and after the seven days.
abbrev week : List Event
week = Event.wait 604801 ∷ Event.login basic_request draws (codes "admin") ∷ Event.wait 604801 ∷ []

lifetimes :
    Unit {0}
    × ((get_session cookie_request (happen_all day start)).0 ≡ codes "admin")
    × ((get_session cookie_request (happen_all week start)).0 ≡ [])
unfolding get_session happen_all happen create_session set_csrf_cookie store_session lookup insert
    remove_key keep session_of live_session registry_ui_go.Auth.Sessions.cleanup_sessions
    secure_cookie text_eq
lifetimes = (tt, refl, refl)

validate-mint_v2_token_example :
    validate_v2_token toy (mint_v2_token toy 2 (codes "bob") 3600 1000) 2000 ≡ some (codes "bob")
validate-mint_v2_token_example =
    validate-mint_v2_token toy toy-Base64 2 3600 1000 2000 (codes "bob")
      (omega arith, (omega arith, (omega arith, tt)))
      (λ e. omega arith, (λ e. omega arith, (λ e. omega arith, tt))) (omega arith)

-- Thirty-two random bytes, all the same.
abbrev repeat : ℕ → List ℕ
repeat zero = []
repeat (suc n) = 171 ∷ repeat n

repeat-All : (n : ℕ) → All IsByte (repeat n)
repeat-All zero = tt
repeat-All (suc n) = (omega arith, repeat-All n)

abbrev ask : TokenRequest
ask = record { name = codes "ci"; expires_in = pos 2 }

abbrev made_token : (Response × Text) × Db
made_token = handle_tokens toy Method.post (some plain_user) (some ask) (some (repeat 32)) two_users

abbrev token_request : Request
token_request = record basic_request { authorization = bearer ++ made_token.0.1; basic_auth = none }

no_rows : NoToken (take 12 (hex_encode (repeat 32))) two_users
unfolding find
no_rows = refl

second_user : find (λ (u : User). u.id == 2) two_users.users ≡ some plain_user
unfolding find
second_user = refl

handle_tokens-check_api_token_auth_example :
    (made_token.0.0.status ≡ 201)
    × ((check_api_token_auth toy token_request (record made_token.1 { now = 5000 })).0
        ≡ (if is_over 1000 (pos 2) 5000 then none else some plain_user))
handle_tokens-check_api_token_auth_example =
    handle_tokens-check_api_token_auth toy plain_user plain_user ask (repeat 32) two_users 5000
      token_request (λ k. refl) refl (omega arith) (repeat-All 32) refl no_rows second_user refl
      refl

-- PUT of a manifest by the second user, who may write under `team`.
abbrev push_request : Request
push_request = record basic_request {
  method = Method.put;
  path = codes "/v2/team/app/manifests/v1";
  basic_auth = some (codes "bob", codes "h");
}

abbrev granted_start : Web
granted_start = record start { db = one_row }

push_passes : (with_auth toy checked push_request draws granted_start).0 ≡ passes (some plain_user)
unfolding with_auth is_open_path has_prefix has_suffix strip_prefix trim_prefix any text_eq
    v2_request checked_v2 v2_auth_mode_of v2_mode to_lower trim_space trim_left is_space no_header
    then_rights repo_rights write_right user_can_access_repo user_can_write_repo allowed granted
    covers list_user_permissions keep extract_v2_repo_path repo_before_last_suffix best_marker later
    before last_index or_whole is_mutating_method require_ui_auth by_session by_basic with_account
    browser_session get_user_by_username find verify_password_hash enforce_password_change
    password_gate get_session session_of maybe_upgrade_password needs_password_upgrade
push_passes = refl

basic_mode : auth_enabled checked ≡ true
unfolding text_eq
basic_mode = refl

checks : checks_v2 (v2_auth_mode_of checked) ≡ true
unfolding v2_auth_mode_of v2_mode to_lower trim_space trim_left is_space text_eq
checks = refl

api : has_prefix push_request.path (codes "/v2/") ≡ true
unfolding has_prefix strip_prefix
api = refl

closed : is_open_path push_request.path ≡ false
unfolding is_open_path has_prefix has_suffix strip_prefix any text_eq
closed = refl

named : is_empty (extract_v2_repo_path push_request.path) ≡ false
unfolding extract_v2_repo_path repo_before_last_suffix best_marker later before last_index or_whole
    has_prefix strip_prefix trim_prefix text_eq
named = refl

with_auth-Right_example :
    Right push_request (extract_v2_repo_path push_request.path) granted_start.db (some plain_user)
with_auth-Right_example =
    with_auth-Right toy checked push_request draws granted_start (some plain_user) basic_mode checks
      api closed named push_passes

-- A path with the suffix of an asset is open, also where it names a tag.
open_asset :
    (with_auth toy checked
      (record push_request { path = codes "/v2/team/app/manifests/v1.png"; basic_auth = none })
      draws
      start).0
    ≡ passes none
unfolding with_auth is_open_path has_prefix has_suffix strip_prefix any text_eq
open_asset = refl
