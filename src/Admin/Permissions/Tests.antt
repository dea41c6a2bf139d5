-- ===== src/Admin/Permissions/Tests.antt =====
-- The permission handlers at a table with one row.
use registry_ui_go.Base.{
  ◌≡◌, refl, inl, true, false, some, [], ◌∷◌, codes, ◌&&◌, if◌then◌else◌, nat_eq, any, keep,
  text_eq, text_eq_instance, has_prefix,
}
use registry_ui_go.Store.Permissions.{list_user_permissions, upsert_user_permission}
use registry_ui_go.Store.Run.{on}
use registry_ui_go.Http.{Method, reply}
use registry_ui_go.Access.{covers, granted, allowed, user_can_access_repo, user_can_write_repo}
use registry_ui_go.Admin.Permissions.{
  PermissionRequest, set_each, change_by_id, handle_admin_user_permissions, patterns_of, of_user,
  permissions_by_method, set_permissions, is_admin_caller,
}
use registry_ui_go.Admin.Permissions.Rights.{
  rights, asks, is_known, rights-handle_admin_user_permissions,
}
use registry_ui_go.Admin.Permissions.WriteReads.{
  WriteReads, handle-WriteReads, access_of_write, change_by_id_breaks,
}
use registry_ui_go.Samples.{root_user, plain_user, one_row}

abbrev write_only : PermissionRequest
write_only = record {
  patterns = codes "lib" ∷ codes "team" ∷ [];
  namespace_pattern = codes "team";
  can_read = false;
  can_write = true;
}

rights-handle_admin_user_permissions_example :
    rights 2
      (codes "lib")
      (handle_admin_user_permissions
        (some root_user)
        (some 2)
        Method.post
        (some write_only)
        one_row).1.permissions
    ≡ (if (nat_eq 2 2 && asks write_only (codes "lib")) && is_known 2 one_row
        then some (true, true)
        else rights 2 (codes "lib") one_row.permissions)
unfolding is_admin_caller any
rights-handle_admin_user_permissions_example =
    rights-handle_admin_user_permissions (some root_user) 2 write_only 2 (codes "lib") one_row refl
      (λ _. refl) (inl refl)

-- For a user whom there is not, the POST stores nothing.
unknown_user :
    (handle_admin_user_permissions
      (some root_user)
      (some 9)
      Method.post
      (some write_only)
      one_row).1.permissions
    ≡ one_row.permissions
unfolding handle_admin_user_permissions of_user permissions_by_method set_permissions patterns_of
    set_each upsert_user_permission is_admin_caller on any
unknown_user = refl

one_row-WriteReads : WriteReads one_row
one_row-WriteReads = record { rows = (refl, tt) }

handle-WriteReads_example :
    WriteReads
      (handle_admin_user_permissions
        (some root_user)
        (some 2)
        Method.post
        (some write_only)
        one_row).1
handle-WriteReads_example =
    handle-WriteReads (some root_user) (some 2) Method.post (some write_only) one_row
      one_row-WriteReads

may_write : (user_can_write_repo (some plain_user) (codes "team/api") one_row).0 ≡ true
unfolding user_can_write_repo allowed granted covers list_user_permissions has_prefix text_eq any
    keep
may_write = refl

access_of_write_example :
    (user_can_access_repo (some plain_user) (codes "team/api") one_row).0 ≡ true
access_of_write_example =
    access_of_write plain_user (codes "team/api") one_row one_row-WriteReads refl refl may_write

change_by_id_breaks_example :
    ((change_by_id (some root_user) 1 write_only one_row).0 ≡ reply 200 [])
    × (¬ WriteReads (change_by_id (some root_user) 1 write_only one_row).1)
unfolding any text_eq
change_by_id_breaks_example =
    change_by_id_breaks (some root_user) 1 write_only one_row (λ _. refl) refl refl refl refl
