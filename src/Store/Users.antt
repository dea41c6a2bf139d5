-- ===== src/Store/Users.antt =====
-- store.go: the statements on the users table. User ids come from AUTOINCREMENT, so a new one is
-- above all that were ever given; user names are UNIQUE.
use registry_ui_go.Base.{
  ℕ, ◌+◌, Bool, false, Option, none, some, List, [], ◌∷◌, ◌++◌, if◌then◌else◌, Text, ◌==◌,
  nat_eq_instance, text_eq_instance, ◌&&◌, not, find, any, update, keep, count, is_empty,
}
use registry_ui_go.Store.{io, unique_violation, Result, ok, err, User}
use registry_ui_go.Store.Run.{M, statement, query, execute, row, on, pure}

abbrev pub has_id : ℕ → User → Bool
has_id id u = u.id == id

abbrev pub is_enabled_admin : User → Bool
is_enabled_admin u = u.is_admin && u.enabled

unfoldable pub get_user_by_username : Text → M (Result User)
get_user_by_username username = query (λ d. row (find (λ u. u.username == username) d.users))

unfoldable pub get_user_by_id : ℕ → M (Result User)
get_user_by_id id = query (λ d. row (find (has_id id) d.users))

unfoldable pub count_enabled_admins : M (Result ℕ)
count_enabled_admins = query (λ d. ok (count is_enabled_admin d.users))

-- The UNIQUE constraint on the name, for a row other than `id`.
abbrev pub name_taken : ℕ → Text → List User → Bool
name_taken id username users = any (λ u. not (u.id == id) && u.username == username) users

abbrev pub set_identity : Text → Bool → Bool → User → User
set_identity username is_admin enabled u = record u {
  username = username;
  is_admin = is_admin;
  enabled = enabled;
}

abbrev pub set_account : Text → Text → Bool → Bool → User → User
set_account username hash is_admin enabled u = record u {
  username = username;
  password_hash = hash;
  is_admin = is_admin;
  enabled = enabled;
}

-- The UPDATE of UpdateUser, with or without a new password hash. No row with the id: no conflict.
unfoldable pub update_row : ℕ → Text → (User → User) → M (Result (Unit {0}))
update_row id username f = statement λ d.
    if any (has_id id) d.users && name_taken id username d.users
    then err unique_violation
    else ok (tt, record d { users = update (has_id id) f d.users })

-- bcrypt.GenerateFromPassword; `none` is its error
abbrev pub HashPassword : Type 0
HashPassword = Text → Option Text

-- `hash, err := HashPassword(password); if err != nil { return err }`, then the UPDATE.
unfoldable pub update_with_hash : ℕ → Text → Bool → Bool → Option Text → M (Result (Unit {0}))
update_with_hash id username is_admin enabled none = pure (err io)
update_with_hash id username is_admin enabled (some hash) =
    update_row id username (set_account username hash is_admin enabled)

unfoldable pub update_user : HashPassword → ℕ → Text → Text → Bool → Bool → M (Result (Unit {0}))
update_user hash_password id username password is_admin enabled =
    if is_empty password
    then update_row id username (set_identity username is_admin enabled)
    else update_with_hash id username is_admin enabled (hash_password password)

-- ON DELETE CASCADE removes the user's permissions and API tokens.
unfoldable pub delete_user : ℕ → M (Result (Unit {0}))
delete_user id = execute λ d. record d {
  users = keep (λ u. not (has_id id u)) d.users;
  permissions = keep (λ p. not (p.user_id == id)) d.permissions;
  api_tokens = keep (λ t. not (t.user_id == id)) d.api_tokens;
}

unfoldable pub insert_user : Text → Text → Bool → Bool → Bool → M (Result (Unit {0}))
insert_user username hash is_admin enabled must_change = statement λ d.
    if any (λ u. u.username == username) d.users
    then err unique_violation
    else ok (
      tt,
      record d {
        users =
            d.users
            ++ record {
              id = d.next_user;
              username = username;
              password_hash = hash;
              is_admin = is_admin;
              enabled = enabled;
              must_change_password = must_change;
            }
              ∷ [];
        next_user = d.next_user + 1;
      },
    )

unfoldable pub create_user_with_enabled : Text → Text → Bool → Bool → Bool → M (Result User)
create_user_with_enabled username hash is_admin enabled must_change =
    on (insert_user username hash is_admin enabled must_change) (λ e. pure (err e))
      λ _. get_user_by_username username

unfoldable pub set_user_enabled : ℕ → Bool → M (Result (Unit {0}))
set_user_enabled id enabled =
    execute
      λ d. record d { users = update (has_id id) (λ u. record u { enabled = enabled }) d.users }

unfoldable pub set_user_password_hash : ℕ → Text → M (Result (Unit {0}))
set_user_password_hash id hash =
    execute
      λ d. record d { users = update (has_id id) (λ u. record u { password_hash = hash }) d.users }

unfoldable pub update_user_password : HashPassword → ℕ → Text → M (Result (Unit {0}))
update_user_password hash_password id new_password = elim (hash_password new_password) [
  | none ↦ pure (err io)
  | some hash ↦ execute (λ d. record d {
    users =
        update (has_id id) (λ u. record u { password_hash = hash; must_change_password = false })
          d.users;
  })
]

-- ListUsers; the order of the rows is left as stored.
unfoldable pub list_users : M (Result (List User))
list_users = query (λ d. ok d.users)
