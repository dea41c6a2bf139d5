-- ===== src/Admin/Permissions.antt =====
-- admin.go: the handlers for the namespace permissions of a user.
pub mod Rights
pub mod WriteReads
mod Tests
use registry_ui_go.Base.{
  ℕ, Bool, true, false, Option, none, some, List, [], ◌∷◌, ◌++◌, if◌then◌else◌, Text, codes, ◌||◌,
  is_empty,
}
use registry_ui_go.Store.{Db, DbError, User, UserPermission, Result, ok, err}
use registry_ui_go.Store.Run.{M, on, pure, add_audit, ◌>>◌, ◌>>=◌}
use registry_ui_go.Store.Permissions.{
  list_user_permissions, upsert_user_permission, update_user_permission, delete_user_permission,
  delete_user_permission_by_pattern,
}
use registry_ui_go.Http.{
  Method, Response, answer, method_not_allowed, not_found, forbidden, write_error, audit,
}

-- The decoded body of the POST.
pub record PermissionRequest : Type 0 where
  pub patterns : List Text
  pub namespace_pattern : Text
  pub can_read : Bool
  pub can_write : Bool

-- The row that the POST writes for one pattern: write access implies read access.
abbrev pub requested : ℕ → PermissionRequest → Text → UserPermission
requested user_id req pattern_text = record {
  id = 0;
  user_id = user_id;
  namespace_pattern = pattern_text;
  can_read = req.can_read || req.can_write;
  can_write = req.can_write;
}

-- `patterns`, or the single `namespacePattern` where there are none.
unfoldable pub patterns_of : PermissionRequest → List Text
patterns_of req =
    if is_empty req.patterns
    then if is_empty req.namespace_pattern then [] else req.namespace_pattern ∷ []
    else req.patterns

module _ (caller : Option User) where
  unfoldable pub audit_ok : Text → M (Result (Unit {0}))
  audit_ok action = add_audit (audit caller action [] [] [] (codes "ok"))

  -- The loop over the patterns; one that fails is passed over.
  unfoldable pub set_each : ℕ → PermissionRequest → List Text → M Response
  set_each user_id req [] = answer 200 []
  set_each user_id req (p ∷ patterns) =
      on (upsert_user_permission (requested user_id req p)) (λ _. set_each user_id req patterns)
        λ _. audit_ok (codes "user.permission.set") >> set_each user_id req patterns

  unfoldable pub set_permissions : ℕ → PermissionRequest → M Response
  set_permissions user_id req =
      if is_empty (patterns_of req)
      then answer 400 (codes "no patterns provided")
      else set_each user_id req (patterns_of req)

  unfoldable pub drop_pattern : ℕ → Text → M Response
  drop_pattern user_id pattern_text =
      if is_empty pattern_text
      then answer 400 (codes "no pattern provided")
      else on (delete_user_permission_by_pattern user_id pattern_text) (λ _. write_error 500)
          λ _. do audit_ok (codes "user.permission.delete"); answer 200 []

  unfoldable pub permissions_by_method : ℕ → Method → Option PermissionRequest → M Response
  permissions_by_method user_id Method.get body =
      on (list_user_permissions user_id) (λ _. write_error 500) (λ _. answer 200 [])
  permissions_by_method user_id Method.post none = write_error 400
  permissions_by_method user_id Method.post (some req) = set_permissions user_id req
  permissions_by_method user_id Method.delete none = write_error 400
  permissions_by_method user_id Method.delete (some req) =
      drop_pattern user_id req.namespace_pattern
  permissions_by_method user_id _ body = method_not_allowed

  unfoldable pub of_user : Option ℕ → Method → Option PermissionRequest → M Response
  of_user none method body = not_found
  of_user (some user_id) method body = permissions_by_method user_id method body

  unfoldable pub change_by_id : ℕ → PermissionRequest → M Response
  change_by_id id req =
      on (update_user_permission id req.namespace_pattern req.can_read req.can_write)
        (λ _. write_error 500) λ _. do audit_ok (codes "user.permission.update"); answer 200 []

  unfoldable pub permission_by_method : ℕ → Method → Option PermissionRequest → M Response
  permission_by_method id Method.put none = write_error 400
  permission_by_method id Method.put (some req) = change_by_id id req
  permission_by_method id Method.delete body =
      on (delete_user_permission id) (λ _. write_error 500)
        λ _. do audit_ok (codes "user.permission.delete"); answer 200 []
  permission_by_method id _ body = method_not_allowed

  unfoldable pub of_permission : Option ℕ → Method → Option PermissionRequest → M Response
  of_permission none method body = not_found
  of_permission (some id) method body = permission_by_method id method body

  unfoldable pub is_admin_caller : Bool
  is_admin_caller = elim caller [ none ↦ false | some u ↦ u.is_admin ]

  unfoldable pub handle_admin_user_permissions :
      Option ℕ → Method → Option PermissionRequest → M Response
  handle_admin_user_permissions user_id method body =
      if is_admin_caller then of_user user_id method body else forbidden

  unfoldable pub handle_admin_user_permission_by_id :
      Option ℕ → Method → Option PermissionRequest → M Response
  handle_admin_user_permission_by_id id method body =
      if is_admin_caller then of_permission id method body else forbidden
