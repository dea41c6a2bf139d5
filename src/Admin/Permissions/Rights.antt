-- ===== src/Admin/Permissions/Rights.antt =====
-- The table of permissions as a map from users and patterns to rights, and what a POST does to it.
use registry_ui_go.Base.{
  ℕ, ◌≡◌, refl, ap, ◌∙◌, ◌⊎◌, inl, inr, Bool, true, false, Option, none, some, List, [], ◌∷◌, ◌++◌,
  Text, arith, Bool-cases, any, find, update, ◌&&◌, ◌||◌, ◌==◌, nat_eq_instance, text_eq_instance,
  text_eq, codes, ◌+◌, if◌then◌else◌, text_eq_iff, contains, nat_eq, is_empty, not, if_cases,
}
use registry_ui_go.Store.{Db, User, UserPermission}
use registry_ui_go.Store.Run.{M, on, add_audit, tick}
use registry_ui_go.Store.Permissions.{
  same_key, upserted, upsert_permission_row, upsert_user_permission,
}
use registry_ui_go.Store.Users.{has_id}
use registry_ui_go.Http.{Method, Response, answer, audit}
use registry_ui_go.Admin.Permissions.{
  PermissionRequest, requested, patterns_of, set_each, audit_ok, set_permissions,
  permissions_by_method, of_user, is_admin_caller, handle_admin_user_permissions,
}

-- The rights that the row of a user and a pattern gives: read, and write.
abbrev flags : Option UserPermission → Option (Bool × Bool)
flags none = none
flags (some p) = some (p.can_read, p.can_write)

pub rights : ℕ → Text → List UserPermission → Option (Bool × Bool)
rights user_id pattern_text rows =
    flags (find (λ p. p.user_id == user_id && p.namespace_pattern == pattern_text) rows)

abbrev set_flags : UserPermission → UserPermission → UserPermission
set_flags perm p = record p { can_read = perm.can_read; can_write = perm.can_write }

-- The test whether a row is about this user and this pattern.
abbrev about : UserPermission → ℕ → Text → Bool
about perm id q = nat_eq perm.user_id id && text_eq perm.namespace_pattern q

rights-update_other :
    (perm : UserPermission) (id : ℕ) (q : Text) (rows : List UserPermission)
    → about perm id q ≡ false
    → rights id q (update (same_key perm) (set_flags perm) rows) ≡ rights id q rows
unfolding rights find update
rights-update_other perm id q [] h = refl
rights-update_other perm id q (p ∷ rows) h = ground (
  arith,
  rights-update_other perm id q rows h,
  text_eq_iff p.namespace_pattern perm.namespace_pattern,
  text_eq_iff p.namespace_pattern q,
  text_eq_iff perm.namespace_pattern q,
)

rights-update_same :
    (perm : UserPermission) (id : ℕ) (q : Text) (rows : List UserPermission)
    → about perm id q ≡ true
    → any (same_key perm) rows ≡ true
    → rights id q (update (same_key perm) (set_flags perm) rows)
      ≡ some (perm.can_read, perm.can_write)
unfolding rights find update any
rights-update_same perm id q [] h listed = cc
rights-update_same perm id q (p ∷ rows) h listed = ground (
  arith,
  rights-update_same perm id q rows h,
  text_eq_iff p.namespace_pattern perm.namespace_pattern,
  text_eq_iff p.namespace_pattern q,
  text_eq_iff perm.namespace_pattern q,
)

rights-append :
    (perm : UserPermission) (id : ℕ) (q : Text) (rows : List UserPermission)
    → any (same_key perm) rows ≡ false
    → rights id q (rows ++ perm ∷ [])
      ≡ (if about perm id q then some (perm.can_read, perm.can_write) else rights id q rows)
unfolding rights find any
rights-append perm id q [] h = ground arith
rights-append perm id q (p ∷ rows) h = ground (
  arith,
  rights-append perm id q rows,
  text_eq_iff p.namespace_pattern perm.namespace_pattern,
  text_eq_iff p.namespace_pattern q,
  text_eq_iff perm.namespace_pattern q,
)

-- The upsert as a map: the row's key gets the row's flags, and every other key keeps its own.
pub rights-upserted :
    (perm : UserPermission) (new : ℕ) (id : ℕ) (q : Text) (rows : List UserPermission)
    → rights id q (upserted perm new rows)
      ≡ (if about perm id q then some (perm.can_read, perm.can_write) else rights id q rows)
unfolding upserted
rights-upserted perm new id q rows = elim (Bool-cases (any (same_key perm) rows)) [
  | inl listed ↦ rw listed (elim (Bool-cases (about perm id q)) [
    | inl hit ↦ rw hit (rights-update_same perm id q rows hit listed)
    | inr miss ↦ rw miss (rights-update_other perm id q rows miss)
  ])
  | inr fresh ↦ rw fresh (rights-append (record perm { id = new }) id q rows fresh)
]

-- No statement fails from here on.
abbrev pub NoFailure : Db → Type 0
NoFailure d = (n : ℕ) → d.fails n ≡ false

-- The database after one round of the loop.
after_one : Option User → ℕ → PermissionRequest → Text → Db → Db
after_one caller user_id req p d =
    let d' = upsert_permission_row (requested user_id req p) (tick d) in
    record (tick d') {
      audit_logs =
          d'.audit_logs ++ audit caller (codes "user.permission.set") [] [] [] (codes "ok") ∷ [];
    }

-- Whether there is the user whom the rights are for.
abbrev pub is_known : ℕ → Db → Bool
is_known user_id d = any (has_id user_id) d.users

step :
    (caller : Option User) (user_id : ℕ) (req : PermissionRequest) (p : Text) (patterns : List Text)
    (d : Db)
    → NoFailure d
    → is_known user_id d ≡ true
    → set_each caller user_id req (p ∷ patterns) d
      ≡ set_each caller user_id req patterns (after_one caller user_id req p d)
unfolding set_each on upsert_user_permission audit_ok add_audit after_one
step caller user_id req p patterns d works known =
    rw (works d.clock, allowed (any (same_key (requested user_id req p)) d.permissions) _ known)
      (rw (works (d.clock + 1)))
  where
    allowed : (a b : Bool) → b ≡ true → (a || b) ≡ true
    allowed a b e = ground arith

-- The loop for a user whom there is.
set_each_known :
    (caller : Option User) (user_id : ℕ) (req : PermissionRequest) (patterns : List Text) (id : ℕ)
    (q : Text) (d : Db)
    → NoFailure d
    → is_known user_id d ≡ true
    → rights id q (set_each caller user_id req patterns d).1.permissions ≡ (
        if nat_eq user_id id && contains patterns q
        then some (req.can_read || req.can_write, req.can_write)
        else rights id q d.permissions)
unfolding set_each contains after_one
set_each_known caller user_id req [] id q d works known = ground arith
set_each_known caller user_id req (p ∷ patterns) id q d works known = ground (
  arith,
  step caller user_id req p patterns d works known,
  set_each_known caller user_id req patterns id q (after_one caller user_id req p d) works known,
  rights-upserted (requested user_id req p) d.next_permission id q d.permissions,
)

-- Rows of a user, whatever their patterns.
abbrev pub has_rows : ℕ → Db → Bool
has_rows user_id d = any (λ p. p.user_id == user_id) d.permissions

no_key :
    (perm : UserPermission) (rows : List UserPermission)
    → any (λ p. p.user_id == perm.user_id) rows ≡ false
    → any (same_key perm) rows ≡ false
unfolding any
no_key perm [] h = refl
no_key perm (p ∷ rows) h = ground (arith, no_key perm rows)

-- For a user whom there is not, every INSERT fails, and nothing is stored.
set_each_unknown :
    (caller : Option User) (user_id : ℕ) (req : PermissionRequest) (patterns : List Text) (d : Db)
    → NoFailure d
    → is_known user_id d ≡ false
    → has_rows user_id d ≡ false
    → (set_each caller user_id req patterns d).1.permissions ≡ d.permissions
unfolding set_each on upsert_user_permission
set_each_unknown caller user_id req [] d works unknown none_there = refl
set_each_unknown caller user_id req (p ∷ patterns) d works unknown none_there =
    rw (works d.clock, no_key (requested user_id req p) d.permissions none_there, unknown)
      (set_each_unknown caller user_id req patterns (tick d) works unknown none_there)

-- The patterns that a body asks for: its list, or its single pattern where the list is empty.
abbrev pub asks : PermissionRequest → Text → Bool
asks req q =
    if is_empty req.patterns
    then not (is_empty req.namespace_pattern) && req.namespace_pattern == q
    else contains req.patterns q

asks_at :
    (ps : List Text) (ns q : Text)
    → contains (if is_empty ps then if is_empty ns then [] else ns ∷ [] else ps) q
      ≡ (if is_empty ps then not (is_empty ns) && ns == q else contains ps q)
unfolding contains
asks_at [] [] q = refl
asks_at [] (c ∷ ns) q = ground arith
asks_at (p ∷ ps) ns q = refl

asks_lem : (req : PermissionRequest) (q : Text) → contains (patterns_of req) q ≡ asks req q
unfolding patterns_of
asks_lem req q = asks_at req.patterns req.namespace_pattern q

none_in : (ps : List Text) (q : Text) → is_empty ps ≡ true → contains ps q ≡ false
unfolding contains
none_in [] q e = refl
none_in (p ∷ ps) q e = cc

-- What holds after a POST to the rights of a user and a pattern.
abbrev Given : ℕ → PermissionRequest → ℕ → Text → Db → Response × Db → Type 0
Given user_id req id q d (r, d') = rights id q d'.permissions ≡ (
    if (nat_eq user_id id && asks req q) && is_known user_id d
    then some (req.can_read || req.can_write, req.can_write)
    else rights id q d.permissions)

-- With no failing statement, and with no rows of a user whom there is not, a POST by an administrator
-- gives the user, if there is one, the requested rights at each pattern that the body asks for, read
-- access included where write access is asked for; it changes the rights of no other user and at no
-- other pattern, and none at all if there is no such user.
pub rights-handle_admin_user_permissions :
    (caller : Option User) (user_id : ℕ) (req : PermissionRequest) (id : ℕ) (q : Text) (d : Db)
    → is_admin_caller caller ≡ true
    → NoFailure d
    → (is_known user_id d ≡ true) ⊎ (has_rows user_id d ≡ false)
    → rights id q
        (handle_admin_user_permissions caller (some user_id) Method.post (some req) d).1.permissions
      ≡ (if (nat_eq user_id id && asks req q) && is_known user_id d
          then some (req.can_read || req.can_write, req.can_write)
          else rights id q d.permissions)
unfolding handle_admin_user_permissions of_user permissions_by_method set_permissions
rights-handle_admin_user_permissions caller user_id req id q d admin works owned = rw admin (
    if_cases (λ (m : M Response). Given user_id req id q d (m d)) (is_empty (patterns_of req))
      (answer 400 (codes "no patterns provided")) (set_each caller user_id req (patterns_of req))
      (λ e. ground (arith, none_in (patterns_of req) q e, asks_lem req q))
      (λ e. elim (Bool-cases (is_known user_id d)) [
        | inl known ↦ ground (
          arith,
          set_each_known caller user_id req (patterns_of req) id q d works known,
          asks_lem req q,
        )
        | inr unknown ↦
            ap (rights id q) (
              set_each_unknown caller user_id req (patterns_of req) d works unknown
                (without owned unknown))
            ∙ ground arith
      ]))
  where
    without :
        (is_known user_id d ≡ true) ⊎ (has_rows user_id d ≡ false)
        → is_known user_id d ≡ false
        → has_rows user_id d ≡ false
    without (inl known) unknown = cc
    without (inr none_there) unknown = none_there
