-- ===== src/Auth/Passwords.antt =====
-- store.go: VerifyPasswordHash, which knows bcrypt and the older salted SHA-256, and the upgrade of
-- the latter after a login.
use registry_ui_go.Base.{
  ℕ, Bool, false, Option, none, some, List, [], ◌∷◌, if◌then◌else◌, Text, codes, ◌==◌,
  text_eq_instance, ◌||◌, has_prefix, split,
}
use registry_ui_go.Store.{User, Result, ok}
use registry_ui_go.Store.Run.{M, pure}
use registry_ui_go.Store.Users.{HashPassword, set_user_password_hash}
use registry_ui_go.Auth.Hex.{hex_decode}

-- The functions of Go's crypto packages and encoding/base64, on texts as strings of bytes.
pub record Crypto : Type 0 where
  pub bcrypt_matches : Text → Text → Bool
  pub hash_password : HashPassword
  pub salted_sha256 : List ℕ → Text → List ℕ
  pub sha256_hex : Text → Text
  pub sign : Text → Text
  pub base64_encode : Text → Text
  pub base64_decode : Text → Option Text

module _ (crypto : Crypto) where
  unfoldable pub legacy_digest : Option (List ℕ) → Option (List ℕ) → Text → Bool
  legacy_digest (some salt) (some expected) password =
      crypto.salted_sha256 salt password == expected
  legacy_digest _ _ password = false

  -- `sha256$salt$hash`
  unfoldable pub legacy_matches : List Text → Text → Bool
  unfolding legacy_digest
  legacy_matches (kind ∷ salt ∷ expected ∷ []) password =
      if kind == codes "sha256"
      then legacy_digest (hex_decode salt) (hex_decode expected) password
      else false
  legacy_matches _ password = false

  unfoldable pub verify_password_hash : Text → Text → Bool
  verify_password_hash encoded password =
      crypto.bcrypt_matches encoded password || legacy_matches (split encoded (codes "$")) password

  unfoldable pub needs_password_upgrade : Text → Bool
  needs_password_upgrade encoded = has_prefix encoded (codes "sha256$")

  unfoldable pub upgrade_password : Text → Text → Option Text
  upgrade_password encoded password =
      if verify_password_hash encoded password then crypto.hash_password password else none

  unfoldable pub save_upgrade : ℕ → Option Text → M (Result (Unit {0}))
  save_upgrade id none = pure (ok tt)
  save_upgrade id (some hash) = set_user_password_hash id hash

  -- maybeUpgradePassword: its failures are only logged
  unfoldable pub maybe_upgrade_password : User → Text → M (Result (Unit {0}))
  maybe_upgrade_password u plaintext =
      if needs_password_upgrade u.password_hash
      then save_upgrade u.id (upgrade_password u.password_hash plaintext)
      else pure (ok tt)
