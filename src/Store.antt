-- ===== src/Store.antt =====
-- backend/internal/store/store.go: the tables, and the statements that run on them.
-- A statement takes one step of `clock`; it fails with an input/output error, and changes nothing,
-- at the steps that `fails` names. `now` is the time that CURRENT_TIMESTAMP and time.Now() give.
pub mod Run
pub mod Users
pub mod Permissions
pub mod Settings
pub mod Repositories
pub mod Recycle
pub mod Images
pub mod Tokens
pub mod Extras
use registry_ui_go.Base.{
  ℕ, zero, suc, ◌+◌, Bool, true, false, Option, none, some, List, [], ◌∷◌, Text,
}

pub record User : Type 0 where
  pub id : ℕ
  pub username : Text
  pub password_hash : Text
  pub is_admin : Bool
  pub enabled : Bool
  pub must_change_password : Bool

pub record UserPermission : Type 0 where
  pub id : ℕ
  pub user_id : ℕ
  pub namespace_pattern : Text
  pub can_read : Bool
  pub can_write : Bool

pub record ApiToken : Type 0 where
  pub id : ℕ
  pub user_id : ℕ
  pub name : Text
  pub token_prefix : Text
  pub token_hash : Text
  pub expires_at : Option ℕ
  pub last_used_at : Option ℕ

pub record ImmutableTagRule : Type 0 where
  pub id : ℕ
  pub pattern_text : Text

pub record RepoStats : Type 0 where
  pub repo : Text
  pub pull_count : ℕ
  pub push_count : ℕ

pub record Webhook : Type 0 where
  pub id : ℕ
  pub url : Text
  pub secret_header : Text
  pub events : Text
  pub enabled : Bool

pub record Namespace : Type 0 where
  pub id : ℕ
  pub name : Text

-- The codes of the per-repository settings; `none` is the source's -1, "unset".
pub record Repository : Type 0 where
  pub id : ℕ
  pub namespace_id : ℕ
  pub name : Text
  pub anonymous_pull : Bool
  pub push_create_repo : Option ℕ
  pub retention_keep_count : Option ℕ
  pub protection_mode : Option ℕ
  pub overwrite_action : Option ℕ

pub record Image : Type 0 where
  pub id : ℕ
  pub repository_id : ℕ
  pub tag : Text
  pub digest : Text
  pub content_type : Text
  pub size : ℕ
  pub favorite : Bool
  pub note : Text
  pub deleted : Bool
  pub created_at : ℕ

pub data Status : Type 0 where
  pending_gc restored gc_expired gc_failed : Status

pub record RecycleItem : Type 0 where
  pub id : ℕ
  pub repo : Text
  pub reference : Text
  pub digest : Text
  pub content_type : Text
  pub manifest_body : Text
  pub status : Status
  pub image_id : Option ℕ
  pub size : ℕ
  pub deleted_at : ℕ
  pub restored_at : Option ℕ
  pub attempts : ℕ

pub record Audit : Type 0 where
  pub user_id : ℕ
  pub action : Text
  pub repo : Text
  pub reference : Text
  pub digest : Text
  pub status : Text

pub record Db : Type 0 where
  pub users : List User
  pub next_user : ℕ
  pub permissions : List UserPermission
  pub next_permission : ℕ
  pub settings : List (Text × Text)
  pub cache : List (Text × Text)
  pub namespaces : List Namespace
  pub next_namespace : ℕ
  pub repositories : List Repository
  pub next_repository : ℕ
  pub images : List Image
  pub next_image : ℕ
  pub recycle_bin : List RecycleItem
  pub next_recycle : ℕ
  pub api_tokens : List ApiToken
  pub next_token : ℕ
  pub immutable_tag_rules : List ImmutableTagRule
  pub next_rule : ℕ
  pub descriptions : List (Text × Text)
  pub repo_stats : List RepoStats
  pub webhooks : List Webhook
  pub next_webhook : ℕ
  pub audit_logs : List Audit
  pub now : ℕ
  pub fails : ℕ → Bool
  pub clock : ℕ

pub data DbError : Type 0 where
  io no_rows unique_violation foreign_key_violation : DbError
  invalid_setting : DbError

pub data Result {ℓ} (A : Type ℓ) : Type ℓ where
  ok : A → Result A
  err : DbError → Result A
