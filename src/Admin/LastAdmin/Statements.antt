-- ===== src/Admin/LastAdmin/Statements.antt =====
-- What each statement on the users table needs so that an enabled administrator stays.
use registry_ui_go.Base.{
  ℕ, ◌≤◌, ◌≡◌, refl, ◌⊎◌, Bool, true, false, Option, none, some, arith, if_cases, inl, inr, not,
  count, keep, update, find, Text, is_empty,
}
use registry_ui_go.Store.{Db, User, ok, err, Audit}
use registry_ui_go.Store.Run.{Keeps, Keeps-on, Keeps-pure, add_audit}
use registry_ui_go.Store.Users.{
  HashPassword, has_id, is_enabled_admin, get_user_by_id, get_user_by_username,
  count_enabled_admins, list_users, insert_user, create_user_with_enabled, update_row,
  update_with_hash, update_user, delete_user, set_user_enabled, set_identity, set_account,
}
use registry_ui_go.Store.Permissions.{list_user_permissions}
use registry_ui_go.Admin.LastAdmin.Counting.{
  UsersOk, Distinct-update, Fresh-update, Distinct-keep, Fresh-keep, count-update, count-keep,
  count-update_mono, Distinct-append, Fresh-append, count-append, count-update_plain,
  count-keep_plain,
}

pub get_user_by_id-UsersOk : (id : ℕ) → Keeps UsersOk (get_user_by_id id)
unfolding get_user_by_id
get_user_by_id-UsersOk id = record { at = λ d h. ground arith }

pub get_user_by_username-UsersOk : (name : Text) → Keeps UsersOk (get_user_by_username name)
unfolding get_user_by_username
get_user_by_username-UsersOk name = record { at = λ d h. ground arith }

pub count_enabled_admins-UsersOk : Keeps UsersOk count_enabled_admins
unfolding count_enabled_admins
count_enabled_admins-UsersOk = record { at = λ d h. ground arith }

pub list_users-UsersOk : Keeps UsersOk list_users
unfolding list_users
list_users-UsersOk = record { at = λ d h. ground arith }

pub list_user_permissions-UsersOk : (id : ℕ) → Keeps UsersOk (list_user_permissions id)
unfolding list_user_permissions
list_user_permissions-UsersOk id = record { at = λ d h. ground arith }

pub add_audit-UsersOk : (a : Audit) → Keeps UsersOk (add_audit a)
unfolding add_audit
add_audit-UsersOk a = record { at = λ d h. ground arith }

-- What a row that was read says of the table that the read left.
pub get_user_by_id_found :
    (id : ℕ) (d : Db) {t : User}
    → (get_user_by_id id d).0 ≡ ok t
    → find (has_id id) (get_user_by_id id d).1.users ≡ some t
unfolding get_user_by_id
get_user_by_id_found id d {t} e = ground arith

pub count_enabled_admins_lem :
    (d : Db) {n : ℕ}
    → (count_enabled_admins d).0 ≡ ok n
    → (n ≡ count is_enabled_admin (count_enabled_admins d).1.users)
unfolding count_enabled_admins
count_enabled_admins_lem d e = ground arith

pub count_enabled_admins_users : (d : Db) → (count_enabled_admins d).1.users ≡ d.users
unfolding count_enabled_admins
count_enabled_admins_users d = ground arith

-- The user with this id may go, or lose the role: another administrator is there, or the user is
-- none that counts.
abbrev pub CanLose : ℕ → Db → Type 0
CanLose id d =
    (2 ≤ count is_enabled_admin d.users)
    ⊎ ((t : User) × (find (has_id id) d.users ≡ some t) × (is_enabled_admin t ≡ false))

update-admin :
    (id : ℕ) (f : User → User) (d : Db)
    → UsersOk d
    → CanLose id d
    → 1 ≤ count is_enabled_admin (update (has_id id) f d.users)
update-admin id f d h (inl two) = omega (arith, count-update id f d.users h.distinct, h.admin)
update-admin id f d h (inr (t, found, plain)) =
    omega (arith, count-update_plain id t plain f d.users h.distinct found, h.admin)

pub keep-admin :
    (id : ℕ) (d : Db)
    → UsersOk d
    → CanLose id d
    → 1 ≤ count is_enabled_admin (keep (λ u. not (has_id id u)) d.users)
keep-admin id d h (inl two) = omega (arith, count-keep id d.users h.distinct, h.admin)
keep-admin id d h (inr (t, found, plain)) =
    omega (arith, count-keep_plain id t plain d.users h.distinct found, h.admin)

pub delete_user-UsersOk :
    (id : ℕ) (d : Db) → UsersOk d → CanLose id d → UsersOk (delete_user id d).1
unfolding delete_user
delete_user-UsersOk id d h c = ground (
  arith,
  keep-admin id d h c,
  Distinct-keep (λ u. not (has_id id u)) d.users h.distinct,
  Fresh-keep (λ u. not (has_id id u)) d.next_user d.users h.fresh,
)

module _ (id : ℕ) (f : User → User) (same_id : (u : User) → (f u).id ≡ u.id) (d : Db)
    (h : UsersOk d) (admin : 1 ≤ count is_enabled_admin (update (has_id id) f d.users)) where
  pub update_row-UsersOk : (name : Text) → UsersOk (update_row id name f d).1
  unfolding update_row
  update_row-UsersOk name = ground (
    arith,
    Distinct-update f same_id id d.users h.distinct,
    Fresh-update f same_id id d.next_user d.users h.fresh,
  )

enabled-admin :
    (id : ℕ) (b : Bool) (d : Db)
    → UsersOk d
    → (b ≡ true) ⊎ CanLose id d
    → 1 ≤ count is_enabled_admin (update (has_id id) (λ u. record u { enabled = b }) d.users)
enabled-admin id b d h (inr c) = update-admin id _ d h c
enabled-admin id b d h (inl e) = omega (
  arith,
  count-update_mono (has_id id) (λ u. record u { enabled = b }) d.users (λ u p. ground arith),
  h.admin,
)

-- An update that either makes the row an enabled administrator or may take the role.
identity-admin :
    (id : ℕ) (f : User → User) (d : Db)
    → UsersOk d
    → ((u : User) → is_enabled_admin (f u) ≡ true) ⊎ CanLose id d
    → 1 ≤ count is_enabled_admin (update (has_id id) f d.users)
identity-admin id f d h (inr c) = update-admin id f d h c
identity-admin id f d h (inl e) =
    omega (arith, count-update_mono (has_id id) f d.users (λ u _. e u), h.admin)

pub set_user_enabled-UsersOk :
    (id : ℕ) (b : Bool) (d : Db)
    → UsersOk d
    → (b ≡ true) ⊎ CanLose id d
    → UsersOk (set_user_enabled id b d).1
unfolding set_user_enabled
set_user_enabled-UsersOk id b d h c =
    let f : User → User = λ u. record u { enabled = b } in
    ground (
      arith,
      enabled-admin id b d h c,
      Distinct-update f (λ u. refl) id d.users h.distinct,
      Fresh-update f (λ u. refl) id d.next_user d.users h.fresh,
    )

pub insert_user-UsersOk :
    (name hash : Text) (is_admin enabled must : Bool)
    → Keeps UsersOk (insert_user name hash is_admin enabled must)
unfolding insert_user
insert_user-UsersOk name hash is_admin enabled must = record {
  at = λ d h.
      let v : User = record {
        id = d.next_user;
        username = name;
        password_hash = hash;
        is_admin = is_admin;
        enabled = enabled;
        must_change_password = must;
      } in
      ground (
        arith,
        Distinct-append v d.users h.fresh h.distinct,
        Fresh-append v d.users h.fresh,
        count-append v d.users,
      );
}

pub create_user-UsersOk :
    (name hash : Text) (is_admin enabled must : Bool)
    → Keeps UsersOk (create_user_with_enabled name hash is_admin enabled must)
unfolding create_user_with_enabled
create_user-UsersOk name hash is_admin enabled must =
    Keeps-on UsersOk _ _ _ (insert_user-UsersOk name hash is_admin enabled must)
      (λ e. Keeps-pure UsersOk (err e)) (λ _. get_user_by_username-UsersOk name)

-- The request leaves the account an enabled administrator, or the account may lose the role.
abbrev pub MayBecome : Bool → Bool → ℕ → Db → Type 0
MayBecome is_admin enabled id d = ((is_admin ≡ true) × (enabled ≡ true)) ⊎ CanLose id d

role_kept :
    (is_admin enabled : Bool) (id : ℕ) (d : Db) (f : User → User)
    → (is_admin ≡ true → enabled ≡ true → (u : User) → is_enabled_admin (f u) ≡ true)
    → MayBecome is_admin enabled id d
    → ((u : User) → is_enabled_admin (f u) ≡ true) ⊎ CanLose id d
role_kept is_admin enabled id d f g (inl (a, e)) = inl (g a e)
role_kept is_admin enabled id d f g (inr c) = inr c

module _ (id : ℕ) (name : Text) (is_admin enabled : Bool) (d : Db) (h : UsersOk d)
    (c : MayBecome is_admin enabled id d) where
  update_identity-UsersOk : UsersOk (update_row id name (set_identity name is_admin enabled) d).1
  update_identity-UsersOk =
      let f = set_identity name is_admin enabled in
      update_row-UsersOk id f (λ u. refl) d h
        (identity-admin id f d h (role_kept is_admin enabled id d f (λ a e u. ground arith) c)) name

  update_with_hash-UsersOk :
      (hash : Option Text) → UsersOk (update_with_hash id name is_admin enabled hash d).1
  unfolding update_with_hash
  update_with_hash-UsersOk none = h
  update_with_hash-UsersOk (some hash) =
      let f = set_account name hash is_admin enabled in
      update_row-UsersOk id f (λ u. refl) d h
        (identity-admin id f d h (role_kept is_admin enabled id d f (λ a e u. ground arith) c)) name

  -- Whatever the new password and whatever bcrypt answers.
  pub update_user-UsersOk :
      (hash_password : HashPassword) (password : Text)
      → UsersOk (update_user hash_password id name password is_admin enabled d).1
  unfolding update_user
  update_user-UsersOk hash_password password =
      if_cases (λ m. UsersOk (m d).1) (is_empty password)
        (update_row id name (set_identity name is_admin enabled))
        (update_with_hash id name is_admin enabled (hash_password password))
        (λ _. update_identity-UsersOk) (λ _. update_with_hash-UsersOk (hash_password password))
