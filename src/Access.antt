-- ===== src/Access.antt =====
-- backend/internal/server/server.go: who may read and write a repository, and which namespaces show.
pub mod Segments
pub mod Grants
mod Tests
use registry_ui_go.Base.{
  ℕ, Bool, true, false, Option, none, some, List, [], ◌∷◌, ◌++◌, if◌then◌else◌, Text, codes, ◌==◌,
  text_eq_instance, ◌&&◌, ◌||◌, any, keep, has_prefix,
}
use registry_ui_go.Store.{Db, User, UserPermission, Namespace, Result, ok, err}
use registry_ui_go.Store.Run.{M, pure, ◌>>=◌}
use registry_ui_go.Store.Permissions.{list_user_permissions}

-- `repo == p.NamespacePattern || strings.HasPrefix(repo, p.NamespacePattern+"/")`
unfoldable pub covers : Text → Text → Bool
covers pattern_text repo = repo == pattern_text || has_prefix repo (pattern_text ++ codes "/")

-- The loop over the rows; an error of the query and an empty list both deny.
unfoldable pub granted : (UserPermission → Bool) → Text → Result (List UserPermission) → Bool
granted flag repo (err e) = false
granted flag repo (ok perms) = any (λ p. flag p && covers p.namespace_pattern repo) perms

-- The common body of userCanAccessRepo and userCanWriteRepo.
unfoldable pub allowed : (UserPermission → Bool) → Option User → Text → M Bool
allowed flag none repo = pure true
allowed flag (some u) repo =
    if u.is_admin
    then pure true
    else list_user_permissions u.id >>= (λ perms. pure (granted flag repo perms))

unfoldable pub user_can_access_repo : Option User → Text → M Bool
user_can_access_repo = allowed (λ p. p.can_read)

unfoldable pub user_can_write_repo : Option User → Text → M Bool
user_can_write_repo = allowed (λ p. p.can_write)

unfoldable visible : Result (List UserPermission) → List Namespace → List Namespace
visible (err e) namespaces = []
visible (ok perms) namespaces =
    keep (λ n. any (λ p. p.can_read && covers p.namespace_pattern n.name) perms) namespaces

unfoldable pub filter_visible_namespaces : Option User → List Namespace → M (List Namespace)
unfolding visible
filter_visible_namespaces none namespaces = pure namespaces
filter_visible_namespaces (some u) namespaces =
    if u.is_admin
    then pure namespaces
    else list_user_permissions u.id >>= (λ perms. pure (visible perms namespaces))
