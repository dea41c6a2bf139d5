-- ===== src/Auth/ApiTokens/RoundTrip.antt =====
-- A token that the handler makes is the credential of the user who asked for it.
use registry_ui_go.Base.{
  ℕ, zero, suc, ℤ, pos, negsuc, ◌+◌, ◌*◌, ◌≤◌, ◌≡◌, refl, ◌∙◌, ap, inl, inr, Bool, true, false,
  Option, none, some, List, [], ◌∷◌, ◌++◌, if◌then◌else◌, if_true, Text, codes, arith, Bool-cases,
  ◌==◌, nat_eq_instance, text_eq_instance, is_empty, split_three_joined, byte_length, length,
  length-append, length-le-byte_length, ltb, take, NoneOf, take-NoneOf, any, find,
  find-append_missing, text_eq, text_eq_refl, All, has_prefix-append, trim_prefix-append,
}
use registry_ui_go.Store.{Db, User, ApiToken, ok}
use registry_ui_go.Store.Run.{M, tick, pure, ◌>>◌, add_audit, on}
use registry_ui_go.Store.Users.{get_user_by_id, has_id}
use registry_ui_go.Store.Tokens.{
  create_api_token, get_api_token_by_prefix, touch_api_token, new_token,
}
use registry_ui_go.Http.{Method, Response, reply}
use registry_ui_go.Auth.{Request}
use registry_ui_go.Auth.Hex.{hex_encode, hex_encode-NoneOf, length-hex_encode, IsByte}
use registry_ui_go.Auth.Passwords.{Crypto}
use registry_ui_go.Auth.ApiTokens.{
  bearer, token_expired, token_parts, presented_token, token_owner, with_stored, with_parts,
  check_api_token_auth, TokenRequest, later_by, expiry, full_token, created, create_token,
  draw_token, post_token, tokens_by_method, handle_tokens,
}

long_enough :
    (secret : Text) → 16 ≤ length secret → ltb (byte_length (full_token secret)) 16 ≡ false
long_enough secret long =
    let bytes = length-le-byte_length (full_token secret) in
    let front = length-append (take 12 secret) (b'_' ∷ secret) in ground (arith, bytes, front)

token_parts-full :
    (secret : Text)
    → 16 ≤ length secret
    → NoneOf b'_' secret
    → token_parts (full_token secret) ≡ some (take 12 secret, secret)
unfolding token_parts text_eq
token_parts-full secret long clean =
    rw
      (
        long_enough secret long,
        split_three_joined b'_' (codes "ru") (take 12 secret) secret
            (λ e. omega arith, (λ e. omega arith, tt)) (take-NoneOf b'_' 12 secret clean),
      )
      refl

presented_token-full :
    (header secret : Text)
    → header ≡ bearer ++ full_token secret
    → 16 ≤ length secret
    → NoneOf b'_' secret
    → presented_token header ≡ some (take 12 secret, secret)
unfolding presented_token
presented_token-full header secret e long clean =
    rw
      (
        e,
        has_prefix-append bearer (full_token secret),
        trim_prefix-append bearer (full_token secret),
      )
      (token_parts-full secret long clean)

-- What authentication finds of a token, in a database without failures.
module _ (crypto : Crypto) (d : Db) (works : (k : ℕ) → d.fails k ≡ false) where
  token_owner-row :
      (t : ApiToken) (row : User) (e : Db)
      → row.enabled ≡ true
      → (token_owner crypto t (ok row) e).0 ≡ some row
  unfolding token_owner
  token_owner-row t row e enabled =
      ap (λ (m : M (Option User)). (m e).0)
        (if_true row.enabled (touch_api_token t.id >> pure (some row)) (pure none) enabled)

  by_id_row :
      (id : ℕ) (row : User)
      → find (has_id id) d.users ≡ some row
      → get_user_by_id id (tick d) ≡ (ok row, tick (tick d))
  unfolding get_user_by_id
  by_id_row id row there = rw (works (d.clock + 1), there) refl

  by_prefix_row :
      (prefix : Text) (t : ApiToken)
      → find (λ x. x.token_prefix == prefix) d.api_tokens ≡ some t
      → get_api_token_by_prefix prefix d ≡ (ok t, tick d)
  unfolding get_api_token_by_prefix
  by_prefix_row prefix t there = rw (works d.clock, there) refl

  with_stored-row :
      (secret : Text) (t : ApiToken) (row : User)
      → crypto.sha256_hex secret ≡ t.token_hash
      → find (has_id t.user_id) d.users ≡ some row
      → row.enabled ≡ true
      → (with_stored crypto secret (ok t) (tick d)).0
        ≡ (if token_expired d.now t then none else some row)
  unfolding with_stored
  with_stored-row secret t row hash there enabled = elim (Bool-cases (token_expired d.now t)) [
    | inl over ↦ rw over refl
    | inr live ↦
        rw (live, hash, text_eq_refl t.token_hash, by_id_row t.user_id row there)
          (token_owner-row t row (tick (tick d)) enabled)
  ]

  pub check_api_token_auth-row :
      (r : Request) (prefix secret : Text) (t : ApiToken) (row : User)
      → presented_token r.authorization ≡ some (prefix, secret)
      → find (λ x. x.token_prefix == prefix) d.api_tokens ≡ some t
      → crypto.sha256_hex secret ≡ t.token_hash
      → find (has_id t.user_id) d.users ≡ some row
      → row.enabled ≡ true
      → (check_api_token_auth crypto r d).0 ≡ (if token_expired d.now t then none else some row)
  unfolding check_api_token_auth with_parts
  check_api_token_auth-row r prefix secret t row parsed stored hash there enabled =
      rw (parsed, by_prefix_row prefix t stored) (with_stored-row secret t row hash there enabled)

any_found :
    (id : ℕ) (users : List User) (row : User)
    → find (has_id id) users ≡ some row
    → any (has_id id) users ≡ true
unfolding any find
any_found id [] row there = ground arith
any_found id (u ∷ users) row there = elim (Bool-cases (has_id id u)) [
  | inl here ↦ rw here refl
  | inr elsewhere ↦ ground (arith, elsewhere, any_found id users row)
]

-- What the handler does in a database without failures, for a user whom there is.
module _ (crypto : Crypto) (u row : User) (d : Db) (works : (k : ℕ) → d.fails k ≡ false)
    (there : find (has_id u.id) d.users ≡ some row) where
  abbrev made : TokenRequest → Text → ApiToken
  made req secret =
      new_token d.next_token u.id req.name (crypto.sha256_hex secret) (take 12 secret)
        (expiry d.now req.expires_in)

  -- Nothing but the token, the audit log and the clock is new.
  abbrev After : TokenRequest → Text → (Response × Text) × Db → Type 0
  After req secret (answer, e) =
      (answer ≡ (reply 201 [], full_token secret))
      × (e.api_tokens ≡ d.api_tokens ++ made req secret ∷ [])
      × (e.users ≡ d.users)
      × (e.fails ≡ d.fails)

  create_token-After :
      (req : TokenRequest) (secret : Text) → After req secret (create_token crypto u req secret d)
  unfolding create_token create_api_token created add_audit on
  create_token-After req secret =
      rw (works d.clock, any_found u.id d.users row there, works (d.clock + 1))
        (refl, refl, refl, refl)

  handle_tokens-After :
      (req : TokenRequest) (bytes : List ℕ)
      → is_empty req.name ≡ false
      → After req
          (hex_encode bytes)
          (handle_tokens crypto Method.post (some u) (some req) (some bytes) d)
  unfolding handle_tokens tokens_by_method post_token draw_token
  handle_tokens-After req bytes given = rw given (create_token-After req (hex_encode bytes))

found_last : (t : ApiToken) → find (λ x. x.token_prefix == t.token_prefix) (t ∷ []) ≡ some t
unfolding find
found_last t = rw (text_eq_refl t.token_prefix) refl

abbrev pub NoToken : Text → Db → Type 0
NoToken prefix d = find (λ x. x.token_prefix == prefix) d.api_tokens ≡ none

-- Whether a token for so many hours has expired.
abbrev pub is_over : ℕ → ℤ → ℕ → Bool
is_over start (pos zero) later = false
is_over start (pos (suc hours)) later = ltb (start + suc hours * 3600) later
is_over start (negsuc n) later = false

-- The hours that fit in 64 bits as nanoseconds, with a sign.
abbrev pub FitsDuration : ℤ → Type 0
FitsDuration (pos hours) = hours ≤ 2562047
FitsDuration (negsuc n) = Unit

later_by-hours : (start hours : ℕ) → hours ≤ 2562047 → later_by start hours ≡ start + hours * 3600
later_by-hours start hours fits = ground arith

expired-is_over :
    (start later id user_id : ℕ) (hours : ℤ) (name hash prefix : Text)
    → FitsDuration hours
    → token_expired later (new_token id user_id name hash prefix (expiry start hours))
      ≡ is_over start hours later
expired-is_over start later id user_id (pos zero) name hash prefix fits = refl
expired-is_over start later id user_id (pos (suc hours)) name hash prefix fits =
    rw (later_by-hours start (suc hours) fits) refl
expired-is_over start later id user_id (negsuc n) name hash prefix fits = refl

-- Where no statement fails and no token has the first twelve digits of the new secret, a POST of a
-- name answers 201 with a token; a request that carries it as its bearer token is then, at any time,
-- one of the user who asked for it, as long as that user is enabled, until the hours that were asked
-- for are over, and of nobody after that. Hours that are not positive never end; at most 2562047 are
-- asked for.
pub handle_tokens-check_api_token_auth :
    (crypto : Crypto) (u row : User) (req : TokenRequest) (bytes : List ℕ) (d : Db) (later : ℕ)
    (r : Request)
    → ((k : ℕ) → d.fails k ≡ false)
    → is_empty req.name ≡ false
    → FitsDuration req.expires_in
    → All IsByte bytes
    → length bytes ≡ 32
    → NoToken (take 12 (hex_encode bytes)) d
    → find (has_id u.id) d.users ≡ some row
    → row.enabled ≡ true
    → let answer = handle_tokens crypto Method.post (some u) (some req) (some bytes) d in
      r.authorization ≡ bearer ++ answer.0.1
      → (answer.0.0.status ≡ 201)
        × ((check_api_token_auth crypto r (record answer.1 { now = later })).0
            ≡ (if is_over d.now req.expires_in later then none else some row))
handle_tokens-check_api_token_auth crypto u row req bytes d later r works given hours small size
      fresh there enabled header =
    let answer = handle_tokens crypto Method.post (some u) (some req) (some bytes) d in
    let (said, stored, same, fails) =
      handle_tokens-After crypto u row d works there req bytes given in
    let secret = hex_encode bytes in
    let t = made crypto u row d works there req secret in
    (
      ap (λ a. a.0.status) said,
      check_api_token_auth-row crypto (record answer.1 { now = later })
            (λ k. ap (λ f. f k) fails ∙ works k) r (take 12 secret) secret t row
            (presented_token-full r.authorization secret (header ∙ ap (λ a. bearer ++ a.1) said)
              (omega (arith, length-hex_encode bytes))
              (hex_encode-NoneOf b'_' bytes (inr refl) small))
            (ap (find (λ x. x.token_prefix == take 12 secret)) stored
              ∙ find-append_missing (λ x. x.token_prefix == take 12 secret) d.api_tokens (t ∷ [])
                  fresh
              ∙ found_last t)
            refl (ap (find (has_id u.id)) same ∙ there) enabled
          ∙ ap (λ b. if b then none else some row)
              (expired-is_over d.now later d.next_token u.id req.expires_in req.name
                (crypto.sha256_hex secret) (take 12 secret) hours),
    )
