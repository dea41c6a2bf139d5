-- ===== src/Auth/BearerTokens.antt =====
-- v2_token.go: the tokens of the registry API, signed by the server, and who may do without one.
-- Bytes and text are the same here, as in the source; times are seconds since 1970.
pub mod RoundTrip
use registry_ui_go.Base.{
  ℕ, ◌+◌, ◌*◌, Bool, true, false, Option, none, some, List, [], ◌∷◌, ◌++◌, if◌then◌else◌, Text,
  codes, ◌==◌, text_eq_instance, ◌&&◌, not, is_empty, has_prefix, trim_prefix, trim_space, cut,
  split, split_three, atoi, itoa, ℤ, pos, ltz,
}
use registry_ui_go.Store.{User, Result, ok, err}
use registry_ui_go.Store.Run.{M, pure, ◌>>=◌, ◌>>◌, add_audit}
use registry_ui_go.Store.Users.{get_user_by_username}
use registry_ui_go.Http.{Method, Response, reply, audit}
use registry_ui_go.Policy.{is_anonymous_pull_allowed}
use registry_ui_go.RepoPath.{v2_pull_resource_repo_path}
use registry_ui_go.Auth.{Request, challenge, Outcome, passes, stops}
use registry_ui_go.Auth.Passwords.{Crypto, verify_password_hash, maybe_upgrade_password}
use registry_ui_go.Auth.ApiTokens.{check_api_token_auth, bearer}

-- A day.
abbrev pub v2_token_ttl : ℕ
v2_token_ttl = 24 * 3600

-- v2AuthOutcome
pub data V2Outcome : Type 0 where
  rejected anonymous : V2Outcome
  user : User → V2Outcome

abbrev pub payload_of : ℕ → Text → ℕ → Text
payload_of user_id username expiry = itoa user_id ++ 0 ∷ (username ++ 0 ∷ itoa expiry)

abbrev pub two_parts : List Text → Option (Text × Text)
two_parts (a ∷ b ∷ []) = some (a, b)
two_parts _ = none

-- `time.Now().Unix() >= exp`, where the text is a number
abbrev pub unless_over : ℕ → Text → Option ℤ → Option Text
unless_over now username none = none
unless_over now username (some expiry) = if ltz (pos now) expiry then some username else none

abbrev pub checked_fields : ℕ → Option (Text × Text × Text) → Option Text
checked_fields now none = none
checked_fields now (some (id, username, expiry)) = unless_over now username (atoi expiry)

unfoldable pub is_pull_method : Method → Bool
is_pull_method Method.get = true
is_pull_method Method.head = true
is_pull_method _ = false

module _ (crypto : Crypto) where
  unfoldable pub mint_v2_token : ℕ → Text → ℕ → ℕ → Text
  mint_v2_token user_id username ttl now =
      let payload = payload_of user_id username (now + ttl) in
      crypto.base64_encode payload ++ b'.' ∷ crypto.base64_encode (crypto.sign payload)

  unfoldable pub signed : ℕ → Option Text → Option Text → Option Text
  signed now (some payload) (some signature) =
      if signature == crypto.sign payload then checked_fields now (split_three 0 payload) else none
  signed now _ _ = none

  unfoldable pub decoded : ℕ → Option (Text × Text) → Option Text
  decoded now none = none
  decoded now (some (a, b)) = signed now (crypto.base64_decode a) (crypto.base64_decode b)

  -- validateV2Token: the name in a valid token, which is empty in an anonymous one
  unfoldable pub validate_v2_token : Text → ℕ → Option Text
  validate_v2_token token now = decoded now (two_parts (split token (codes ".")))

  -- What handleV2Token answers: the status, and the token.
  unfoldable pub issue : ℕ → Text → M (Response × Text)
  issue user_id username d = ((reply 200 [], mint_v2_token user_id username v2_token_ttl d.now), d)

  unfoldable pub refuse_token : M (Response × Text)
  refuse_token =
      add_audit (audit none (codes "login") [] [] [] (codes "error"))
      >> pure (reply 401 (codes "UNAUTHORIZED"), [])

  unfoldable pub token_for : Text → Result User → M (Response × Text)
  token_for pass (err e) = refuse_token
  token_for pass (ok u) =
      if u.enabled && verify_password_hash crypto u.password_hash pass
      then maybe_upgrade_password crypto u pass >> issue u.id u.username
      else refuse_token

  unfoldable pub token_with : Option (Text × Text) → M (Response × Text)
  token_with none = issue 0 []
  token_with (some (username, pass)) = get_user_by_username username >>= token_for pass

  unfoldable pub handle_v2_token : Request → M (Response × Text)
  handle_v2_token r =
      if is_pull_method r.method
      then token_with r.basic_auth
      else pure (reply 405 (codes "method not allowed"), [])

  unfoldable pub by_account : Result User → M V2Outcome
  by_account (err e) = pure V2Outcome.rejected
  by_account (ok u) = pure (if u.enabled then V2Outcome.user u else V2Outcome.rejected)

  unfoldable pub by_name : Option Text → M V2Outcome
  by_name none = pure V2Outcome.rejected
  by_name (some name) =
      if is_empty name then pure V2Outcome.anonymous else get_user_by_username name >>= by_account

  unfoldable pub by_api_token : Option User → V2Outcome
  by_api_token none = V2Outcome.rejected
  by_api_token (some u) = V2Outcome.user u

  -- The token is what follows "Bearer ", trimmed. Where it is rejected, the caller has a challenge.
  unfoldable pub authenticate_v2_bearer : Request → M V2Outcome
  authenticate_v2_bearer r d =
      let token = trim_space (trim_prefix r.authorization bearer) in
      if has_prefix token (codes "ru_")
      then (check_api_token_auth crypto r >>= (λ u. pure (by_api_token u))) d
      else by_name (validate_v2_token token d.now) d

unfoldable pub pulls_from : Text → M Bool
pulls_from repo_path =
    if is_empty repo_path then pure false else is_anonymous_pull_allowed repo_path

unfoldable pub anonymous_v2_pull : Request → M Bool
anonymous_v2_pull r =
    if is_pull_method r.method then pulls_from (v2_pull_resource_repo_path r.path) else pure false
