-- ===== src/Access/Tests.antt =====
-- The rights of a user with one row.
use registry_ui_go.Base.{◌≡◌, refl, true, false, some, codes, has_prefix, text_eq, ◌↔◌, any, keep}
use registry_ui_go.Store.Permissions.{list_user_permissions}
use registry_ui_go.Access.{covers, granted, allowed, user_can_access_repo, user_can_write_repo}
use registry_ui_go.Access.Grants.{Grants, user_can_access_iff}
use registry_ui_go.Samples.{plain_user, one_row}

access_checks : Unit {0}
unfolding user_can_access_repo user_can_write_repo allowed granted covers list_user_permissions
    has_prefix text_eq any keep
access_checks = tt

repo_below : (user_can_access_repo (some plain_user) (codes "team/api") one_row).0 ≡ true
unfolding access_checks
repo_below = refl

-- A name that only starts with the same letters is no repository of the namespace.
repo_beside : (user_can_access_repo (some plain_user) (codes "teammate/api") one_row).0 ≡ false
unfolding access_checks
repo_beside = refl

user_can_access_iff_example :
    (((user_can_access_repo (some plain_user) (codes "team/api") one_row).0 ≡ true)
      ↔ Grants (λ p. p.can_read) 2 (codes "team/api") one_row.permissions)
    × (((user_can_write_repo (some plain_user) (codes "team/api") one_row).0 ≡ true)
        ↔ Grants (λ p. p.can_write) 2 (codes "team/api") one_row.permissions)
user_can_access_iff_example = user_can_access_iff plain_user (codes "team/api") one_row refl refl
