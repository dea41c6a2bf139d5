-- ===== src/Registry.antt =====
-- backend/internal/registry/client.go speaks to the registry service: its methods are a parameter,
-- as functions of a state of the registry that only they know.
pub mod Documented
pub mod Table
use registry_ui_go.Base.{ℕ, Bool, true, false, List, Text}

-- What a call brings: a value, an HTTP status that is an error, or an error without a status: no
-- answer at all, or deletion switched off in the configuration.
pub data Answer {ℓ} (A : Type ℓ) : Type ℓ where
  answered : A → Answer A
  refused : ℕ → Answer A
  unreachable : Answer A

pub record Manifest : Type 0 where
  pub digest : Text
  pub content_type : Text
  pub body : Text

pub record Client (S : Type 0) : Type 0 where
  pub tags : Text → S → Answer (List Text) × S
  pub digest : Text → Text → S → Answer Text × S
  pub manifest_raw : Text → Text → S → Answer Manifest × S
  pub delete_manifest : Text → Text → S → Answer (Unit {0}) × S
  pub put_manifest : Text → Text → Text → Text → S → Answer (Unit {0}) × S
