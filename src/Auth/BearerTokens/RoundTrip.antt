-- ===== src/Auth/BearerTokens/RoundTrip.antt =====
-- A registry token is read as it was minted.
use registry_ui_go.Base.{
  ℕ, ◌+◌, ◌^◌, ◌<◌, ◌≡◌, refl, ◌∙◌, ap, none, some, ◌∷◌, ◌++◌, if◌then◌else◌, Text, arith,
  text_eq_refl, text_eq_instance, split_joined, split_three, split_three_joined, NoneOf, itoa,
  itoa-NoneOf, itoa-Bytes, atoi-itoa, ltb, All, append-All,
}
use registry_ui_go.Auth.Hex.{IsByte}
use registry_ui_go.Auth.Passwords.{Crypto}
use registry_ui_go.Auth.BearerTokens.{
  payload_of, checked_fields, mint_v2_token, signed, decoded, validate_v2_token, two_parts,
}

-- What encoding/base64 documents of RawURLEncoding, for strings of bytes: decoding gives back what
-- was encoded, and the alphabet has no dot. A signature is a string of bytes.
pub record Base64 (crypto : Crypto) : Type 0 where
  pub decodes : (s : Text) → All IsByte s → crypto.base64_decode (crypto.base64_encode s) ≡ some s
  pub alphabet : (s : Text) → NoneOf b'.' (crypto.base64_encode s)
  pub signature : (s : Text) → All IsByte (crypto.sign s)

checked_payload :
    (now id expiry : ℕ) (name : Text)
    → NoneOf 0 name
    → expiry < 2 ^ 63
    → checked_fields now (split_three 0 (payload_of id name expiry))
      ≡ (if ltb now expiry then some name else none)
checked_payload now id expiry name clean small =
    rw
      (
        split_three_joined 0 (itoa id) name (itoa expiry) (itoa-NoneOf 0 id (omega arith)) clean,
        atoi-itoa expiry small,
      )
      refl

payload-Bytes :
    (id expiry : ℕ) (name : Text) → All IsByte name → All IsByte (payload_of id name expiry)
payload-Bytes id expiry name bytes =
    append-All IsByte (itoa id) (0 ∷ (name ++ 0 ∷ itoa expiry)) (itoa-Bytes id)
      (omega arith, append-All IsByte name (0 ∷ itoa expiry) bytes (omega arith, itoa-Bytes expiry))

module _ (crypto : Crypto) (base64 : Base64 crypto) where
  signed-payload :
      (now : ℕ) (payload : Text)
      → All IsByte payload
      → decoded crypto now
          (some (crypto.base64_encode payload, crypto.base64_encode (crypto.sign payload)))
        ≡ checked_fields now (split_three 0 payload)
  unfolding decoded signed
  signed-payload now payload bytes =
      rw
        (
          base64.decodes payload bytes,
          base64.decodes (crypto.sign payload) (base64.signature payload),
          text_eq_refl (crypto.sign payload),
        )
        refl

  -- A token that the server minted for a name is valid for that name until it expires, and for
  -- nobody from then on, where the name is a string of bytes without NUL and the expiry fits in 63
  -- bits.
  pub validate-mint_v2_token :
      (id ttl start now : ℕ) (name : Text)
      → All IsByte name
      → NoneOf 0 name
      → start + ttl < 2 ^ 63
      → validate_v2_token crypto (mint_v2_token crypto id name ttl start) now
        ≡ (if ltb now (start + ttl) then some name else none)
  unfolding validate_v2_token mint_v2_token
  validate-mint_v2_token id ttl start now name bytes clean small =
      let payload = payload_of id name (start + ttl) in
      ap (λ parts. decoded crypto now (two_parts parts))
        (split_joined b'.' (crypto.base64_encode payload)
          (crypto.base64_encode (crypto.sign payload)) (base64.alphabet payload)
          (base64.alphabet (crypto.sign payload)))
      ∙ signed-payload now payload (payload-Bytes id (start + ttl) name bytes)
      ∙ checked_payload now id (start + ttl) name clean small
