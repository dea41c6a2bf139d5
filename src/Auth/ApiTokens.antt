-- ===== src/Auth/ApiTokens.antt =====
-- auth.go: API tokens in the Authorization header; features.go: the handlers that make and remove
-- them. A token is `ru_<prefix>_<secret>`, and the table keeps a hash of the secret.
pub mod RoundTrip
use registry_ui_go.Base.{
  ℕ, zero, suc, ℤ, pos, negsuc, ◌+◌, ◌-◌, ◌*◌, ◌/◌, ◌%◌, ◌^◌, Bool, true, false, Option, none, some,
  List, [], ◌∷◌, ◌++◌, if◌then◌else◌, Text, codes, ◌==◌, nat_eq_instance, text_eq_instance, ◌&&◌,
  ◌||◌, not, is_empty, has_prefix, trim_prefix, strip_prefix, split_three, byte_length, ltb, take,
}
use registry_ui_go.Store.{User, ApiToken, Result, ok, err}
use registry_ui_go.Store.Run.{M, pure, on, ◌>>=◌, ◌>>◌, add_audit}
use registry_ui_go.Store.Users.{get_user_by_id}
use registry_ui_go.Store.Tokens.{
  create_api_token, list_api_tokens, get_api_token_by_prefix, get_api_token_by_id, delete_api_token,
  touch_api_token,
}
use registry_ui_go.Http.{
  Method, Response, reply, answer, audit, write_error, not_found, forbidden, method_not_allowed,
}
use registry_ui_go.Auth.{Request}
use registry_ui_go.Auth.Hex.{hex_encode}
use registry_ui_go.Auth.Passwords.{Crypto}

abbrev pub bearer : Text
bearer = codes "Bearer "

-- `stored.ExpiresAt != nil && time.Now().After(*stored.ExpiresAt)`
abbrev pub token_expired : ℕ → ApiToken → Bool
token_expired now t = elim t.expires_at [ none ↦ false | some e ↦ ltb e now ]

-- The prefix and the secret, where the header has the form of a token.
abbrev pub after_ru : Option (Text × Text × Text) → Option (Text × Text)
after_ru none = none
after_ru (some (kind, prefix, secret)) = if kind == codes "ru" then some (prefix, secret) else none

unfoldable pub token_parts : Text → Option (Text × Text)
token_parts token = if ltb (byte_length token) 16 then none else after_ru (split_three b'_' token)

unfoldable pub presented_token : Text → Option (Text × Text)
presented_token header =
    if has_prefix header bearer then token_parts (trim_prefix header bearer) else none

-- The body of a POST; the free description of a token is left out.
pub record TokenRequest : Type 0 where
  pub name : Text
  pub expires_in : ℤ

-- `time.Duration(hours) * time.Hour` counts nanoseconds in 64 bits with a sign, and wraps around.
abbrev pub later_by : ℕ → ℕ → ℕ
later_by now hours =
    let ns = (hours * 3600000000000) % 2 ^ 64 in
    if ltb ns (2 ^ 63) then now + ns / 1000000000 else now - (2 ^ 64 - ns) / 1000000000

-- `req.ExpiresIn > 0`
abbrev pub expiry : ℕ → ℤ → Option ℕ
expiry now (pos zero) = none
expiry now (pos (suc hours)) = some (later_by now (suc hours))
expiry now (negsuc n) = none

abbrev pub full_token : Text → Text
full_token secret = codes "ru_" ++ take 12 secret ++ b'_' ∷ secret

module _ (crypto : Crypto) where
  unfoldable pub token_owner : ApiToken → Result User → M (Option User)
  token_owner t (err e) = pure none
  token_owner t (ok u) = if u.enabled then touch_api_token t.id >> pure (some u) else pure none

  unfoldable pub with_stored : Text → Result ApiToken → M (Option User)
  with_stored secret (err e) d = (none, d)
  with_stored secret (ok t) d =
      if token_expired d.now t
      then (none, d)
      else if crypto.sha256_hex secret == t.token_hash
      then (get_user_by_id t.user_id >>= token_owner t) d
      else (none, d)

  unfoldable pub with_parts : Option (Text × Text) → M (Option User)
  with_parts none = pure none
  with_parts (some (prefix, secret)) = get_api_token_by_prefix prefix >>= with_stored secret

  -- checkAPITokenAuth: the user that the context carries where it returns true
  unfoldable pub check_api_token_auth : Request → M (Option User)
  check_api_token_auth r = with_parts (presented_token r.authorization)

  -- The answer, and the full token, which only this answer shows.
  unfoldable pub created : User → Text → ApiToken → M (Response × Text)
  created u secret t =
      add_audit (audit (some u) (codes "token.create") [] [] [] (codes "ok"))
      >> pure (reply 201 [], full_token secret)

  unfoldable pub create_token : User → TokenRequest → Text → M (Response × Text)
  create_token u req secret d =
      on
        (create_api_token u.id req.name (crypto.sha256_hex secret) (take 12 secret)
          (expiry d.now req.expires_in))
        (λ _. pure (reply 400 (codes "error"), [])) (created u secret) d

  -- rand.Read fails, or gives the bytes of the secret.
  unfoldable pub draw_token : User → TokenRequest → Option (List ℕ) → M (Response × Text)
  draw_token u req none = pure (reply 500 (codes "error"), [])
  draw_token u req (some bytes) = create_token u req (hex_encode bytes)

  unfoldable pub post_token : User → Option TokenRequest → Option (List ℕ) → M (Response × Text)
  post_token u none random = pure (reply 400 (codes "error"), [])
  post_token u (some req) random =
      if is_empty req.name
      then pure (reply 400 (codes "name is required"), [])
      else draw_token u req random

  unfoldable pub tokens_by_method :
      Method → User → Option TokenRequest → Option (List ℕ) → M (Response × Text)
  tokens_by_method Method.get u body random =
      on (list_api_tokens u.id) (λ _. pure (reply 500 (codes "error"), []))
        (λ _. pure (reply 200 [], []))
  tokens_by_method Method.post u body random = post_token u body random
  tokens_by_method _ u body random = pure (reply 405 (codes "method not allowed"), [])

  unfoldable pub handle_tokens :
      Method → Option User → Option TokenRequest → Option (List ℕ) → M (Response × Text)
  handle_tokens method none body random = pure (reply 403 (codes "forbidden"), [])
  handle_tokens method (some u) body random = tokens_by_method method u body random

unfoldable pub erase_token : User → ℕ → ApiToken → M Response
erase_token u id t =
    if not (t.user_id == u.id) && not u.is_admin
    then forbidden
    else on (delete_api_token id) (λ _. write_error 500)
        λ _.
          add_audit (audit (some u) (codes "token.delete") [] [] [] (codes "ok")) >> answer 200 []

unfoldable pub remove_token : Method → User → ℕ → M Response
remove_token Method.delete u id = on (get_api_token_by_id id) (λ _. not_found) (erase_token u id)
remove_token _ u id = method_not_allowed

-- handleTokenByID, with the id that parseID reads from the path
unfoldable pub handle_token_by_id : Method → Option User → Option ℕ → M Response
handle_token_by_id method none id = forbidden
handle_token_by_id method (some u) none = not_found
handle_token_by_id method (some u) (some id) = remove_token method u id
