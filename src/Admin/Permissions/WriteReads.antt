-- ===== src/Admin/Permissions/WriteReads.antt =====
-- Write access implies read access: who keeps this, and who does not.
use registry_ui_go.Base.{
  ℕ, ◌+◌, ◌≡◌, refl, inl, inr, Bool, true, false, Option, none, some, List, [], ◌∷◌, ◌++◌, Text,
  codes, arith, any, keep, update, ◌&&◌, ◌||◌, not, ◌==◌, nat_eq_instance, text_eq_instance, sym,
  All, In, is_empty, subst,
}
use registry_ui_go.Store.{Db, User, UserPermission}
use registry_ui_go.Store.Run.{Keeps, Keeps-on, Keeps-pure, Keeps-then, Keeps-if, on, add_audit}
use registry_ui_go.Store.Permissions.{
  same_key, upserted, upsert_user_permission, list_user_permissions, update_user_permission,
  pattern_taken, delete_user_permission_by_pattern,
}
use registry_ui_go.Http.{Method, answer, reply}
use registry_ui_go.Access.{user_can_access_repo, user_can_write_repo}
use registry_ui_go.Access.Grants.{user_can_access_iff}
use registry_ui_go.Admin.Permissions.{
  PermissionRequest, requested, set_each, set_permissions, patterns_of, drop_pattern,
  permissions_by_method, of_user, handle_admin_user_permissions, is_admin_caller, change_by_id,
  audit_ok,
}

-- A row with write access has read access.
abbrev pub IsWriteRead : UserPermission → Type 0
IsWriteRead p = (not p.can_write || p.can_read) ≡ true

pub record WriteReads (d : Db) : Type 0 where
  pub rows : All IsWriteRead d.permissions

module _ (p : UserPermission) (good : IsWriteRead p) where
  All-update :
      (q : UserPermission → Bool) (rows : List UserPermission)
      → All IsWriteRead rows
      → All IsWriteRead
          (update q (λ r. record r { can_read = p.can_read; can_write = p.can_write }) rows)
  unfolding update
  All-update q [] h = tt
  All-update q (r ∷ rows) h = ground (arith, All-update q rows h.1)

  All-append :
      (id : ℕ) (rows : List UserPermission)
      → All IsWriteRead rows
      → All IsWriteRead (rows ++ record p { id = id } ∷ [])
  All-append id [] h = (good, tt)
  All-append id (r ∷ rows) h = (h.0, All-append id rows h.1)

  All-upserted :
      (id : ℕ) (rows : List UserPermission)
      → All IsWriteRead rows
      → All IsWriteRead (upserted p id rows)
  unfolding upserted
  All-upserted id rows h = ground (arith, All-update (same_key p) rows h, All-append id rows h)

All-keep :
    (q : UserPermission → Bool) (rows : List UserPermission)
    → All IsWriteRead rows
    → All IsWriteRead (keep q rows)
unfolding keep
All-keep q [] h = tt
All-keep q (r ∷ rows) h = ground (arith, All-keep q rows h.1)

upsert-WriteReads :
    (p : UserPermission) → IsWriteRead p → Keeps WriteReads (upsert_user_permission p)
unfolding upsert_user_permission
upsert-WriteReads p good = record {
  at = λ d h. ground (arith, All-upserted p good d.next_permission d.permissions h.rows);
}

drop-WriteReads : (id : ℕ) (q : Text) → Keeps WriteReads (delete_user_permission_by_pattern id q)
unfolding delete_user_permission_by_pattern
drop-WriteReads id q = record {
  at = λ d h. ground (
    arith,
    All-keep (λ p. not (p.user_id == id && p.namespace_pattern == q)) d.permissions h.rows,
  );
}

list-WriteReads : (id : ℕ) → Keeps WriteReads (list_user_permissions id)
unfolding list_user_permissions
list-WriteReads id = record { at = λ d h. ground arith }

module _ (caller : Option User) where
  answer-WriteReads : (status : ℕ) (error : Text) → Keeps WriteReads (answer status error)
  answer-WriteReads status error = Keeps-pure WriteReads (reply status error)

  audit_ok-WriteReads : (action : Text) → Keeps WriteReads (audit_ok caller action)
  unfolding audit_ok add_audit
  audit_ok-WriteReads action = record { at = λ d h. ground arith }

  requested-IsWriteRead :
      (id : ℕ) (req : PermissionRequest) (q : Text) → IsWriteRead (requested id req q)
  requested-IsWriteRead id req q = ground arith

  set_each-WriteReads :
      (id : ℕ) (req : PermissionRequest) (qs : List Text)
      → Keeps WriteReads (set_each caller id req qs)
  unfolding set_each
  set_each-WriteReads id req [] = answer-WriteReads _ _
  set_each-WriteReads id req (q ∷ qs) =
      let rest = set_each-WriteReads id req qs in
      Keeps-on WriteReads (upsert_user_permission (requested id req q)) _ _
        (upsert-WriteReads _ (requested-IsWriteRead id req q)) (λ _. rest)
        (λ _. Keeps-then WriteReads _ _ (audit_ok-WriteReads (codes "user.permission.set")) rest)

  by_method-WriteReads :
      (id : ℕ) (method : Method) (body : Option PermissionRequest)
      → Keeps WriteReads (permissions_by_method caller id method body)
  unfolding permissions_by_method set_permissions drop_pattern
  by_method-WriteReads id Method.get body =
      Keeps-on WriteReads (list_user_permissions id) _ _ (list-WriteReads id)
        (λ _. answer-WriteReads _ _) (λ _. answer-WriteReads _ _)
  by_method-WriteReads id Method.post none = answer-WriteReads _ _
  by_method-WriteReads id Method.post (some req) =
      Keeps-if WriteReads (is_empty (patterns_of req)) _ _ (answer-WriteReads _ _)
        (set_each-WriteReads id req (patterns_of req))
  by_method-WriteReads id Method.delete none = answer-WriteReads _ _
  by_method-WriteReads id Method.delete (some req) =
      Keeps-if WriteReads (is_empty req.namespace_pattern) _ _ (answer-WriteReads _ _) (
        Keeps-on WriteReads (delete_user_permission_by_pattern id req.namespace_pattern) _ _
          (drop-WriteReads id req.namespace_pattern) (λ _. answer-WriteReads _ _)
          (λ _.
            Keeps-then WriteReads _ _ (audit_ok-WriteReads (codes "user.permission.delete"))
              (answer-WriteReads 200 [])))
  by_method-WriteReads id _ body = answer-WriteReads _ _

  of_user-WriteReads :
      (id : Option ℕ) (method : Method) (body : Option PermissionRequest)
      → Keeps WriteReads (of_user caller id method body)
  unfolding of_user
  of_user-WriteReads none method body = answer-WriteReads _ _
  of_user-WriteReads (some id) method body = by_method-WriteReads id method body

-- The permissions of a user, read and written by handle_admin_user_permissions, keep that every
-- row with write access has read access, whichever statements fail.
pub handle-WriteReads :
    (caller : Option User) (id : Option ℕ) (method : Method) (body : Option PermissionRequest)
    (d : Db)
    → WriteReads d
    → WriteReads (handle_admin_user_permissions caller id method body d).1
unfolding handle_admin_user_permissions
handle-WriteReads caller id method body d h =
    (Keeps-if WriteReads (is_admin_caller caller) _ _ (of_user-WriteReads caller id method body)
        (answer-WriteReads caller _ _)).at
      d h

row_reads :
    (rows : List UserPermission) (p : UserPermission)
    → All IsWriteRead rows
    → In p rows
    → IsWriteRead p
row_reads [] p h m = absurd m
row_reads (r ∷ rows) p h (inl e) = subst IsWriteRead (sym e) h.0
row_reads (r ∷ rows) p h (inr m) = row_reads rows p h.1 m

-- On a table whose rows with write access all have read access, a user who may write a repository
-- may also read it, the query of the permissions working both times.
pub access_of_write :
    (u : User) (repo : Text) (d : Db)
    → WriteReads d
    → u.is_admin ≡ false
    → d.fails d.clock ≡ false
    → (user_can_write_repo (some u) repo d).0 ≡ true
    → (user_can_access_repo (some u) repo d).0 ≡ true
access_of_write u repo d h plain works writes =
    let (read, write) = user_can_access_iff u repo d plain works in
    let (p, listed, owner, set, below) = write.0 writes in
    read.1 (p, listed, owner, ground (arith, row_reads d.permissions p h.rows listed), below)

broken :
    (id : ℕ) (req : PermissionRequest) (rows : List UserPermission)
    → any (λ p. p.id == id) rows ≡ true
    → req.can_write ≡ true
    → req.can_read ≡ false
    → ¬ All IsWriteRead (
        update
          (λ p. p.id == id)
          (λ p. record p {
            namespace_pattern = req.namespace_pattern;
            can_read = req.can_read;
            can_write = req.can_write;
          })
          rows)
unfolding any update
broken id req [] listed w r h = cc
broken id req (p ∷ rows) listed w r h = ground (arith, broken id req rows)

-- The PUT by id stores the flags as they come: with write access and no read access for a row that
-- exists and whose new pattern is not taken, it leaves a row with write access and no read access,
-- and reports success.
pub change_by_id_breaks :
    (caller : Option User) (id : ℕ) (req : PermissionRequest) (d : Db)
    → ((n : ℕ) → d.fails n ≡ false)
    → any (λ p. p.id == id) d.permissions ≡ true
    → pattern_taken id req.namespace_pattern d.permissions ≡ false
    → req.can_write ≡ true
    → req.can_read ≡ false
    → ((change_by_id caller id req d).0 ≡ reply 200 [])
      × (¬ WriteReads (change_by_id caller id req d).1)
unfolding change_by_id on update_user_permission audit_ok add_audit
change_by_id_breaks caller id req d works listed free w r =
    rw (works d.clock) (
      rw free (rw (works (d.clock + 1)) (refl, λ h. broken id req d.permissions listed w r h.rows)))
