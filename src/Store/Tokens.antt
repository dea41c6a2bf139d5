-- ===== src/Store/Tokens.antt =====
-- store.go: the statements on the api_tokens table. Only the hash of a token's secret is stored.
use registry_ui_go.Base.{
  ℕ, ◌+◌, Option, none, some, List, [], ◌∷◌, ◌++◌, Text, ◌==◌, nat_eq_instance, text_eq_instance,
  not, any, find, update, keep, if◌then◌else◌,
}
use registry_ui_go.Store.{Result, ok, err, foreign_key_violation, ApiToken}
use registry_ui_go.Store.Users.{has_id}
use registry_ui_go.Store.Run.{M, statement, query, execute, row}

abbrev pub new_token : ℕ → ℕ → Text → Text → Text → Option ℕ → ApiToken
new_token id user_id name token_hash token_prefix expires_at = record {
  id = id;
  user_id = user_id;
  name = name;
  token_prefix = token_prefix;
  token_hash = token_hash;
  expires_at = expires_at;
  last_used_at = none;
}

-- The INSERT needs the user: user_id REFERENCES users(id).
unfoldable pub create_api_token : ℕ → Text → Text → Text → Option ℕ → M (Result ApiToken)
create_api_token user_id name token_hash token_prefix expires_at = statement λ d.
    let t = new_token d.next_token user_id name token_hash token_prefix expires_at in
    if any (has_id user_id) d.users
    then ok (t, record d { api_tokens = d.api_tokens ++ t ∷ []; next_token = d.next_token + 1 })
    else err foreign_key_violation

-- ListAPITokens; the order of the rows is left as stored.
unfoldable pub list_api_tokens : ℕ → M (Result (List ApiToken))
list_api_tokens user_id = query (λ d. ok (keep (λ t. t.user_id == user_id) d.api_tokens))

unfoldable pub get_api_token_by_prefix : Text → M (Result ApiToken)
get_api_token_by_prefix prefix =
    query (λ d. row (find (λ t. t.token_prefix == prefix) d.api_tokens))

unfoldable pub get_api_token_by_id : ℕ → M (Result ApiToken)
get_api_token_by_id id = query (λ d. row (find (λ t. t.id == id) d.api_tokens))

unfoldable pub delete_api_token : ℕ → M (Result (Unit {0}))
delete_api_token id =
    execute (λ d. record d { api_tokens = keep (λ t. not (t.id == id)) d.api_tokens })

unfoldable pub touch_api_token : ℕ → M (Result (Unit {0}))
touch_api_token id = execute λ d. record d {
  api_tokens = update (λ t. t.id == id) (λ t. record t { last_used_at = some d.now }) d.api_tokens;
}
