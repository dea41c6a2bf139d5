-- ===== src/Auth/AccountTests.antt =====
-- The gate against forged requests, and a password that is changed, on a small database.
use registry_ui_go.Base.{
  ◌≡◌, refl, ◌↔◌, ◌⊎◌, true, false, none, some, [], Text, codes, find, text_eq, text_eq_refl,
  byte_length, has_prefix,
}
use registry_ui_go.Samples.{two_users, root_user}
use registry_ui_go.Store.Run.{on, add_audit}
use registry_ui_go.Store.Users.{has_id, get_user_by_id, update_user_password}
use registry_ui_go.Http.{Method}
use registry_ui_go.Auth.{Config, Request, Draws, Web, store}
use registry_ui_go.Auth.Passwords.{Crypto, verify_password_hash}
use registry_ui_go.Auth.Accounts.{
  handle_login, handle_user_password, change_password, change_checked,
}
use registry_ui_go.Auth.Forgery.{require_csrf, validate_csrf, is_safe_method}
use registry_ui_go.Auth.Changed.{handle_login-handle_user_password}
use registry_ui_go.Auth.Repeated.{Exempt, Repeats, require_csrf_iff}

-- Passwords hash to themselves.
abbrev plain_crypto : Crypto
plain_crypto = record {
  bcrypt_matches = λ encoded password. text_eq encoded password;
  hash_password = λ password. some password;
  salted_sha256 = λ salt password. [];
  sha256_hex = λ s. s;
  sign = λ s. s;
  base64_encode = λ s. s;
  base64_decode = λ s. some s;
}

fits :
    (password hash : Text)
    → plain_crypto.hash_password password ≡ some hash
    → plain_crypto.bcrypt_matches hash password ≡ true
fits password hash e = rw (same password hash e) (text_eq_refl hash)
  where
    same : (password hash : Text) → some password ≡ some hash → password ≡ hash
    same password hash e = cc

abbrev login : Request
login = record {
  method = Method.post;
  path = codes "/api/login";
  authorization = [];
  basic_auth = none;
  session_cookie = none;
  csrf_cookie = some (codes "t");
  csrf_header = codes "t";
  over_tls = false;
  forwarded_proto = [];
}

abbrev tokens : Draws
tokens = record { session_id = codes "s1"; csrf_token = codes "c1" }

abbrev web : Web
web = record { db = two_users; sessions = []; cookies = [] }

found : find (has_id 1) two_users.users ≡ some root_user
unfolding find
found = refl

named : find (λ v. text_eq v.username root_user.username) two_users.users ≡ some root_user
unfolding find text_eq
named = refl

changed :
    (handle_user_password plain_crypto Method.post
      (some root_user)
      (some (codes "h", codes "secret"))
      two_users).0.status
    ≡ 200
unfolding handle_user_password change_password change_checked verify_password_hash text_eq
    get_user_by_id update_user_password find byte_length on add_audit
changed = refl

handle_login-handle_user_password_example :
    (handle_login plain_crypto login tokens
      (some (root_user.username, codes "secret"))
      (store
        (handle_user_password plain_crypto Method.post
          (some root_user)
          (some (codes "h", codes "secret")))
        web).1).0.status
    ≡ 200
handle_login-handle_user_password_example =
    handle_login-handle_user_password plain_crypto fits root_user root_user (codes "h")
      (codes "secret") login tokens web refl refl (λ n. refl) named found changed

abbrev modes : Config
modes = record { auth_mode = codes "basic"; v2_auth_mode = codes "ui" }

abbrev forged : Request
forged = record login { path = codes "/api/settings"; csrf_cookie = some (codes "u") }

forged_stops : require_csrf modes forged ≡ false
unfolding require_csrf validate_csrf is_safe_method text_eq has_prefix
forged_stops = refl

require_csrf_iff_example :
    (require_csrf modes forged ≡ true)
    ↔ (Exempt modes forged ⊎ Repeats forged.csrf_cookie forged.csrf_header)
require_csrf_iff_example = require_csrf_iff modes forged
