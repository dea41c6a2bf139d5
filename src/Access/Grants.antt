-- ===== src/Access/Grants.antt =====
-- The answers of the permission checks, read against the table of permissions.
use registry_ui_go.Base.{
  ℕ, ◌≡◌, refl, ◌↔◌, inl, inr, Bool, true, false, some, List, [], ◌∷◌, Text, arith, Bool-cases, any,
  keep, In, ◌&&◌, ◌==◌, nat_eq_instance, subst,
}
use registry_ui_go.Store.{Db, User, UserPermission}
use registry_ui_go.Store.Permissions.{list_user_permissions}
use registry_ui_go.Access.{covers, granted, allowed, user_can_access_repo, user_can_write_repo}
use registry_ui_go.Access.Segments.{Below, covers→Below, Below→covers}

-- A row of the table gives the user the right at the repository or above it.
abbrev pub Grants : (UserPermission → Bool) → ℕ → Text → List UserPermission → Type 0
Grants flag id repo rows =
    (p : UserPermission) × In p rows
    × (p.user_id ≡ id)
    × (flag p ≡ true)
    × Below p.namespace_pattern repo

any_sound :
    (flag : UserPermission → Bool) (id : ℕ) (repo : Text) (rows : List UserPermission)
    → any (λ p. flag p && covers p.namespace_pattern repo) (keep (λ p. p.user_id == id) rows) ≡ true
    → Grants flag id repo rows
unfolding any keep
any_sound flag id repo [] h = cc
any_sound flag id repo (p ∷ rows) h =
    elim (Bool-cases (p.user_id == id && flag p && covers p.namespace_pattern repo)) [
      | inl here ↦ (
        p,
        inl refl,
        ground arith,
        ground arith,
        covers→Below p.namespace_pattern repo (ground arith),
      )
      | inr elsewhere ↦
          let (q, listed, owner, set, below) = any_sound flag id repo rows (ground arith) in
          (q, inr listed, owner, set, below)
    ]

any_head :
    (flag : UserPermission → Bool) (id : ℕ) (repo : Text) (rows : List UserPermission)
    (q : UserPermission)
    → q.user_id ≡ id
    → flag q ≡ true
    → covers q.namespace_pattern repo ≡ true
    → any (λ p. flag p && covers p.namespace_pattern repo) (keep (λ p. p.user_id == id) (q ∷ rows))
      ≡ true
unfolding any keep
any_head flag id repo rows q o f c = ground arith

any_complete :
    (flag : UserPermission → Bool) (id : ℕ) (repo : Text) (rows : List UserPermission)
    (p : UserPermission)
    → In p rows
    → p.user_id ≡ id
    → flag p ≡ true
    → covers p.namespace_pattern repo ≡ true
    → any (λ p. flag p && covers p.namespace_pattern repo) (keep (λ p. p.user_id == id) rows) ≡ true
unfolding any keep
any_complete flag id repo [] p m o f c = absurd m
any_complete flag id repo (q ∷ rows) p (inl same) o f c =
    any_head flag id repo rows q (subst (λ r. r.user_id ≡ id) same o)
      (subst (λ r. flag r ≡ true) same f)
      (subst (λ r. covers r.namespace_pattern repo ≡ true) same c)
any_complete flag id repo (q ∷ rows) p (inr later) o f c =
    ground (arith, any_complete flag id repo rows p later o f c)

allowed_iff :
    (flag : UserPermission → Bool) (u : User) (repo : Text) (d : Db)
    → u.is_admin ≡ false
    → d.fails d.clock ≡ false
    → ((allowed flag (some u) repo d).0 ≡ true) ↔ Grants flag u.id repo d.permissions
unfolding allowed granted list_user_permissions
allowed_iff flag u repo d plain works =
    rw (plain, works)
      (
        any_sound flag u.id repo d.permissions,
        λ (p, listed, owner, set, below).
            any_complete flag u.id repo d.permissions p listed owner set
              (Below→covers p.namespace_pattern repo below),
      )

-- While the query works, a user who is no administrator may read, and may write, a repository
-- exactly if a row of the permissions table gives that user the right at the repository itself or
-- at a parent of it, where a parent ends at a slash.
pub user_can_access_iff :
    (u : User) (repo : Text) (d : Db)
    → u.is_admin ≡ false
    → d.fails d.clock ≡ false
    → (((user_can_access_repo (some u) repo d).0 ≡ true)
        ↔ Grants (λ p. p.can_read) u.id repo d.permissions)
      × (((user_can_write_repo (some u) repo d).0 ≡ true)
          ↔ Grants (λ p. p.can_write) u.id repo d.permissions)
unfolding user_can_access_repo user_can_write_repo
user_can_access_iff u repo d plain works = (
  allowed_iff (λ p. p.can_read) u repo d plain works,
  allowed_iff (λ p. p.can_write) u repo d plain works,
)
