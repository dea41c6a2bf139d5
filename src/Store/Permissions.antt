-- ===== src/Store/Permissions.antt =====
-- store.go: the statements on the user_permissions table, UNIQUE in (user_id, namespace_pattern).
use registry_ui_go.Base.{
  ℕ, ◌+◌, Bool, List, [], ◌∷◌, ◌++◌, if◌then◌else◌, Text, ◌==◌, nat_eq_instance, text_eq_instance,
  ◌&&◌, ◌||◌, not, any, update, keep,
}
use registry_ui_go.Store.{
  Db, unique_violation, foreign_key_violation, Result, ok, err, UserPermission,
}
use registry_ui_go.Store.Users.{has_id}
use registry_ui_go.Store.Run.{M, statement, query, execute}

-- ListUserPermissions; the order of the rows is left as stored.
unfoldable pub list_user_permissions : ℕ → M (Result (List UserPermission))
list_user_permissions user_id = query (λ d. ok (keep (λ p. p.user_id == user_id) d.permissions))

abbrev pub same_key : UserPermission → UserPermission → Bool
same_key perm p = p.user_id == perm.user_id && p.namespace_pattern == perm.namespace_pattern

-- INSERT … ON CONFLICT(user_id,namespace_pattern) DO UPDATE
unfoldable pub upserted : UserPermission → ℕ → List UserPermission → List UserPermission
upserted perm id rows =
    if any (same_key perm) rows
    then update (same_key perm)
        (λ p. record p { can_read = perm.can_read; can_write = perm.can_write }) rows
    else rows ++ record perm { id = id } ∷ []

abbrev pub upsert_permission_row : UserPermission → Db → Db
upsert_permission_row perm d = record d {
  permissions = upserted perm d.next_permission d.permissions;
  next_permission =
      if any (same_key perm) d.permissions then d.next_permission else d.next_permission + 1;
}

-- An INSERT needs the user: user_id REFERENCES users(id). On a conflict the row is there already.
abbrev pub has_owner : UserPermission → Db → Bool
has_owner perm d = any (same_key perm) d.permissions || any (has_id perm.user_id) d.users

unfoldable pub upsert_user_permission : UserPermission → M (Result (Unit {0}))
upsert_user_permission perm = statement λ d.
    if has_owner perm d then ok (tt, upsert_permission_row perm d) else err foreign_key_violation

-- Another row of the same user that has the pattern: the UNIQUE constraint on the UPDATE by id.
abbrev pub pattern_taken : ℕ → Text → List UserPermission → Bool
pattern_taken id pattern_text rows =
    any
      (λ q.
        q.id == id
        && any (λ p. not (p.id == id) && same_key (record q { namespace_pattern = pattern_text }) p)
            rows)
      rows

unfoldable pub update_user_permission : ℕ → Text → Bool → Bool → M (Result (Unit {0}))
update_user_permission id pattern_text can_read can_write = statement λ d.
    if pattern_taken id pattern_text d.permissions
    then err unique_violation
    else ok (
      tt,
      record d {
        permissions =
            update (λ p. p.id == id)
              (λ p. record p {
                namespace_pattern = pattern_text;
                can_read = can_read;
                can_write = can_write;
              })
              d.permissions;
      },
    )

unfoldable pub delete_user_permission : ℕ → M (Result (Unit {0}))
delete_user_permission id =
    execute λ d. record d { permissions = keep (λ p. not (p.id == id)) d.permissions }

unfoldable pub delete_user_permission_by_pattern : ℕ → Text → M (Result (Unit {0}))
delete_user_permission_by_pattern user_id pattern_text = execute λ d. record d {
  permissions =
      keep (λ p. not (p.user_id == user_id && p.namespace_pattern == pattern_text)) d.permissions;
}
