-- ===== src/Admin/LastAdmin/Counting.antt =====
-- Counting the enabled administrators across the statements on the users table.
use registry_ui_go.Base.{
  ℕ, ◌+◌, ◌≤◌, ◌<◌, ◌≡◌, refl, ◌≢◌, Bool, true, false, some, List, [], ◌∷◌, ◌++◌, arith, ℕ_discrete,
  subst, All, not, count, keep, update, find, nat_eq_instance,
}
use registry_ui_go.Store.{Db, User}
use registry_ui_go.Store.Users.{has_id, is_enabled_admin}

abbrev pub Others : ℕ → List User → Type 0
Others id = All (λ v. v.id ≢ id)

-- Primary keys: no two rows have the same id.
abbrev pub Distinct : List User → Type 0
Distinct [] = Unit
Distinct (u ∷ us) = Others u.id us × Distinct us

abbrev pub Fresh : ℕ → List User → Type 0
Fresh n = All (λ u. u.id < n)

-- The users table is well formed and holds an enabled administrator.
pub record UsersOk (d : Db) : Type 0 where
  pub distinct : Distinct d.users
  pub fresh : Fresh d.next_user d.users
  pub admin : 1 ≤ count is_enabled_admin d.users

pub update-Others :
    (id : ℕ) (f : User → User) (us : List User) → Others id us → update (has_id id) f us ≡ us
unfolding update
update-Others id f [] h = refl
update-Others id f (u ∷ us) h = ground (arith, update-Others id f us h.1)

pub keep-Others : (id : ℕ) (us : List User) → Others id us → keep (λ u. not (has_id id u)) us ≡ us
unfolding keep
keep-Others id [] h = refl
keep-Others id (u ∷ us) h = ground (arith, keep-Others id us h.1)

module _ (f : User → User) (same_id : (u : User) → (f u).id ≡ u.id) where
  Others-update : (id j : ℕ) (us : List User) → Others j us → Others j (update (has_id id) f us)
  unfolding update
  Others-update id j [] h = tt
  Others-update id j (u ∷ us) h = ground (arith, same_id u, Others-update id j us h.1)

  pub Distinct-update : (id : ℕ) (us : List User) → Distinct us → Distinct (update (has_id id) f us)
  unfolding update
  Distinct-update id [] h = tt
  Distinct-update id (u ∷ us) h =
      ground (arith, same_id u, Others-update id u.id us h.0, Distinct-update id us h.1)

  pub Fresh-update : (id n : ℕ) (us : List User) → Fresh n us → Fresh n (update (has_id id) f us)
  unfolding update
  Fresh-update id n [] h = tt
  Fresh-update id n (u ∷ us) h = ground (arith, same_id u, Fresh-update id n us h.1)

module _ (q : User → Bool) where
  Others-keep : (j : ℕ) (us : List User) → Others j us → Others j (keep q us)
  unfolding keep
  Others-keep j [] h = tt
  Others-keep j (u ∷ us) h = ground (arith, Others-keep j us h.1)

  pub Distinct-keep : (us : List User) → Distinct us → Distinct (keep q us)
  unfolding keep
  Distinct-keep [] h = tt
  Distinct-keep (u ∷ us) h = ground (arith, Others-keep u.id us h.0, Distinct-keep us h.1)

  pub Fresh-keep : (n : ℕ) (us : List User) → Fresh n us → Fresh n (keep q us)
  unfolding keep
  Fresh-keep n [] h = tt
  Fresh-keep n (u ∷ us) h = ground (arith, Fresh-keep n us h.1)

-- One row at most is changed or removed, so the count falls by one at most.
pub count-update :
    (id : ℕ) (f : User → User) (us : List User)
    → Distinct us
    → count is_enabled_admin us ≤ count is_enabled_admin (update (has_id id) f us) + 1
unfolding count update
count-update id f [] h = omega arith
count-update id f (u ∷ us) h = elim (ℕ_discrete u.id id) [
  | yes e ↦
      let same = update-Others id f us (subst (λ j. Others j us) e h.0) in rw same (ground arith)
  | no n ↦ ground (arith, count-update id f us h.1)
]

pub count-keep :
    (id : ℕ) (us : List User)
    → Distinct us
    → count is_enabled_admin us ≤ count is_enabled_admin (keep (λ u. not (has_id id u)) us) + 1
unfolding count keep
count-keep id [] h = omega arith
count-keep id (u ∷ us) h = elim (ℕ_discrete u.id id) [
  | yes e ↦ let same = keep-Others id us (subst (λ j. Others j us) e h.0) in rw same (ground arith)
  | no n ↦ ground (arith, count-keep id us h.1)
]

-- A change that keeps enabled administrators as they are lowers no count.
pub count-update_mono :
    (q : User → Bool) (f : User → User) (us : List User)
    → ((u : User) → is_enabled_admin u ≡ true → is_enabled_admin (f u) ≡ true)
    → count is_enabled_admin us ≤ count is_enabled_admin (update q f us)
unfolding count update
count-update_mono q f [] h = omega arith
count-update_mono q f (u ∷ us) h = ground (arith, h u, count-update_mono q f us h)

-- Nor does a change, or the removal, of a user who is no enabled administrator.
module _ (id : ℕ) (t : User) (plain : is_enabled_admin t ≡ false) where
  pub count-update_plain :
      (f : User → User) (us : List User)
      → Distinct us
      → find (has_id id) us ≡ some t
      → count is_enabled_admin us ≤ count is_enabled_admin (update (has_id id) f us)
  unfolding count update find
  count-update_plain f [] h e = omega arith
  count-update_plain f (u ∷ us) h e = elim (ℕ_discrete u.id id) [
    | yes same ↦ rw (update-Others id f us (subst (λ j. Others j us) same h.0)) (ground arith)
    | no n ↦ ground (arith, count-update_plain f us h.1)
  ]

  pub count-keep_plain :
      (us : List User)
      → Distinct us
      → find (has_id id) us ≡ some t
      → count is_enabled_admin us ≤ count is_enabled_admin (keep (λ u. not (has_id id u)) us)
  unfolding count keep find
  count-keep_plain [] h e = omega arith
  count-keep_plain (u ∷ us) h e = elim (ℕ_discrete u.id id) [
    | yes same ↦ rw (keep-Others id us (subst (λ j. Others j us) same h.0)) (ground arith)
    | no n ↦ ground (arith, count-keep_plain us h.1)
  ]

-- A row with a new id, put at the end.
module _ (v : User) where
  Others-append : (j : ℕ) (us : List User) → Others j us → v.id ≢ j → Others j (us ++ v ∷ [])
  Others-append j [] h n = (n, tt)
  Others-append j (u ∷ us) h n = (h.0, Others-append j us h.1 n)

  pub Distinct-append : (us : List User) → Fresh v.id us → Distinct us → Distinct (us ++ v ∷ [])
  Distinct-append [] f h = (tt, tt)
  Distinct-append (u ∷ us) f h =
      (Others-append u.id us h.0 (omega arith), Distinct-append us f.1 h.1)

  pub Fresh-append : (us : List User) → Fresh v.id us → Fresh (v.id + 1) (us ++ v ∷ [])
  Fresh-append [] f = omega arith
  Fresh-append (u ∷ us) f = (omega arith, Fresh-append us f.1)

  pub count-append :
      (us : List User) → count is_enabled_admin us ≤ count is_enabled_admin (us ++ v ∷ [])
  unfolding count
  count-append [] = omega arith
  count-append (u ∷ us) = omega (arith, count-append us)
