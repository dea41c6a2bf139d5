-- ===== src/Samples.antt =====
-- Small databases on which the theorems and the definitions are tried.
use registry_ui_go.Base.{true, false, [], ◌∷◌, codes}
use registry_ui_go.Store.{Db, User}

-- Tables with no rows, and no statement that fails.
abbrev pub empty_db : Db
empty_db = record {
  users = [];
  next_user = 1;
  permissions = [];
  next_permission = 1;
  settings = [];
  cache = [];
  namespaces = [];
  next_namespace = 1;
  repositories = [];
  next_repository = 1;
  images = [];
  next_image = 1;
  recycle_bin = [];
  next_recycle = 1;
  api_tokens = [];
  next_token = 1;
  immutable_tag_rules = [];
  next_rule = 1;
  descriptions = [];
  repo_stats = [];
  webhooks = [];
  next_webhook = 1;
  audit_logs = [];
  now = 1000;
  fails = λ _. false;
  clock = 0;
}

abbrev pub root_user : User
root_user = record {
  id = 1;
  username = codes "admin";
  password_hash = codes "h";
  is_admin = true;
  enabled = true;
  must_change_password = false;
}

abbrev pub plain_user : User
plain_user = record root_user { id = 2; username = codes "bob"; is_admin = false }

abbrev pub two_users : Db
two_users = record empty_db { users = root_user ∷ plain_user ∷ []; next_user = 3 }

-- The second user may read and write under `team`.
abbrev pub one_row : Db
one_row = record two_users {
  permissions =
      record {
        id = 1;
        user_id = 2;
        namespace_pattern = codes "team";
        can_read = true;
        can_write = true;
      }
      ∷ [];
  next_permission = 2;
}
