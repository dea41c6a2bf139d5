-- ===== src/Admin/Users.antt =====
-- admin.go: the handlers for accounts. `hash_password` is bcrypt's.
use registry_ui_go.Base.{
  ℕ, Bool, true, false, Option, none, some, List, [], ◌∷◌, if◌then◌else◌, Text, codes, ◌==◌,
  nat_eq_instance, text_eq_instance, ◌&&◌, ◌||◌, not, ltb, leb, is_empty, trim_space, byte_length,
}
use registry_ui_go.Store.{Db, DbError, unique_violation, Result, ok, err, User}
use registry_ui_go.Store.Run.{M, on, add_audit, ◌>>◌, ◌>>=◌}
use registry_ui_go.Store.Users.{
  HashPassword, get_user_by_id, count_enabled_admins, update_user, delete_user,
  create_user_with_enabled, set_user_enabled, list_users,
}
use registry_ui_go.Store.Permissions.{list_user_permissions}
use registry_ui_go.Http.{
  Method, Response, answer, method_not_allowed, not_found, forbidden, write_error, audit,
}

-- The decoded body of POST /api/admin/users and PUT /api/admin/users/{id}.
pub record UserRequest : Type 0 where
  pub username : Text
  pub password : Text
  pub is_admin : Bool
  pub enabled : Bool

module _ (hash_password : HashPassword) (caller : Option User) where
  unfoldable pub audit_ok : Text → M (Result (Unit {0}))
  audit_ok action = add_audit (audit caller action [] [] [] (codes "ok"))

  unfoldable pub create_hashed : UserRequest → Option Text → M Response
  create_hashed req none = write_error 500
  create_hashed req (some hash) =
      on (create_user_with_enabled (trim_space req.username) hash req.is_admin req.enabled false)
        (λ _. write_error 400) λ _. do audit_ok (codes "user.create"); answer 201 []

  -- The POST branch of handleAdminUsers.
  unfoldable pub create : UserRequest → M Response
  create req =
      if is_empty (trim_space req.username)
      then answer 400 (codes "username is required")
      else if ltb (byte_length req.password) 6
      then answer 400 (codes "password_too_short")
      else create_hashed req (hash_password req.password)

  -- `strings.Contains(err.Error(), "UNIQUE")` tells a name that is taken from other errors.
  unfoldable pub save_failed : DbError → M Response
  save_failed unique_violation = answer 400 (codes "username already exists")
  save_failed _ = write_error 500

  -- The end of the PUT branch: UpdateUser, the row read again, the audit entry.
  unfoldable pub save : ℕ → UserRequest → M Response
  save id req =
      on
        (update_user hash_password id (trim_space req.username) req.password req.is_admin
          req.enabled)
        save_failed
        λ _.
          on (get_user_by_id id) (λ _. write_error 404)
            λ _. do audit_ok (codes "user.update"); answer 200 []

  -- The guard of the PUT branch: the last enabled admin is neither demoted nor disabled.
  unfoldable pub guarded_save : ℕ → UserRequest → User → M Response
  guarded_save id req target =
      if target.is_admin && target.enabled && (not req.is_admin || not req.enabled)
      then on count_enabled_admins (λ _. write_error 500)
          (λ remaining.
            if leb remaining 1
            then answer 400 (codes "cannot remove the last enabled admin")
            else save id req)
      else save id req

  -- The PUT branch of handleAdminUserByID.
  unfoldable pub modify : ℕ → UserRequest → M Response
  modify id req =
      if is_empty (trim_space req.username)
      then answer 400 (codes "username is required")
      else if not (is_empty req.password) && ltb (byte_length req.password) 6
      then answer 400 (codes "password_too_short")
      else on (get_user_by_id id) (λ _. write_error 404) (guarded_save id req)

  -- `remaining, _ := CountEnabledAdmins`: a failed count reads as 0.
  unfoldable pub or_zero : Result ℕ → ℕ
  or_zero (ok n) = n
  or_zero (err e) = 0

  unfoldable pub unless_last : User → Text → M Response → M Response
  unless_last target message rest =
      if target.is_admin
      then count_enabled_admins >>= (λ r. if leb (or_zero r) 1 then answer 400 message else rest)
      else rest

  unfoldable pub erase : ℕ → M Response
  erase id =
      on (delete_user id) (λ _. write_error 500)
        λ _. do audit_ok (codes "user.delete"); answer 200 []

  -- The DELETE branch of handleAdminUserByID, for the signed-in admin `cur`.
  unfoldable pub remove : User → ℕ → M Response
  remove cur id =
      if cur.id == id
      then answer 400 (codes "cannot delete yourself")
      else on (get_user_by_id id) (λ _. write_error 404)
          λ target. unless_last target (codes "cannot delete the last enabled admin") (erase id)

  unfoldable pub toggle : ℕ → Bool → M Response
  toggle id enabled =
      on (set_user_enabled id enabled) (λ _. write_error 500)
        λ _. do
          audit_ok (if enabled then codes "user.enable" else codes "user.disable")
          on (get_user_by_id id) (λ _. write_error 500) (λ _. answer 200 [])

  -- setUserEnabled: disabling looks at the number of enabled admins, enabling does not.
  unfoldable pub switch_user : User → Option ℕ → Bool → M Response
  switch_user cur none enabled = not_found
  switch_user cur (some id) enabled =
      if cur.id == id
      then answer 400 (codes "cannot toggle your own enabled flag")
      else on (get_user_by_id id) (λ _. write_error 404)
          (λ target.
            if enabled
            then toggle id true
            else unless_last target (codes "cannot disable the last enabled admin")
                (toggle id false))

  -- Every handler of this file begins with this check.
  unfoldable pub as_admin : (User → M Response) → M Response
  as_admin rest = elim caller [
    | none ↦ forbidden
    | some u ↦ if u.is_admin then rest u else forbidden
  ]

  unfoldable pub with_body : Option UserRequest → (UserRequest → M Response) → M Response
  with_body none rest = write_error 400
  with_body (some req) rest = rest req

  unfoldable pub users_by_method : Method → Option UserRequest → M Response
  users_by_method Method.get body = on list_users (λ _. write_error 500) (λ _. answer 200 [])
  users_by_method Method.post body = with_body body create
  users_by_method _ body = method_not_allowed

  unfoldable pub handle_admin_users : Method → Option UserRequest → M Response
  handle_admin_users method body = as_admin λ _. users_by_method method body

  unfoldable pub user_by_method : User → ℕ → Method → Option UserRequest → M Response
  user_by_method cur id Method.get body =
      on (get_user_by_id id) (λ _. write_error 404)
        λ _. on (list_user_permissions id) (λ _. write_error 500) (λ _. answer 200 [])
  user_by_method cur id Method.put body = with_body body (modify id)
  user_by_method cur id Method.delete body = remove cur id
  user_by_method cur id _ body = method_not_allowed

  unfoldable pub by_id : User → Option ℕ → Method → Option UserRequest → M Response
  by_id cur none method body = not_found
  by_id cur (some id) method body = user_by_method cur id method body

  -- `id` is the number in the path, if it is one.
  unfoldable pub handle_admin_user_by_id : Option ℕ → Method → Option UserRequest → M Response
  handle_admin_user_by_id id method body = as_admin λ cur. by_id cur id method body

  unfoldable pub toggle_by_method : Method → Option ℕ → Bool → M Response
  toggle_by_method Method.post id enabled = as_admin λ cur. switch_user cur id enabled
  toggle_by_method _ id enabled = method_not_allowed

  -- handleAdminUserDisable and handleAdminUserEnable
  unfoldable pub set_user_enabled_handler : Method → Option ℕ → Bool → M Response
  set_user_enabled_handler method id enabled = toggle_by_method method id enabled

-- A request to one of the account routes.
pub data Call : Type 0 where
  users : Method → Option UserRequest → Call
  user : Option ℕ → Method → Option UserRequest → Call
  toggles : Method → Option ℕ → Bool → Call

unfoldable pub serve : HashPassword → Option User → Call → M Response
serve hash_password caller (users method body) = handle_admin_users hash_password caller method body
serve hash_password caller (user id method body) =
    handle_admin_user_by_id hash_password caller id method body
serve hash_password caller (toggles method id enabled) =
    set_user_enabled_handler hash_password caller method id enabled

-- The requests one after the other, each with the user that the middleware found.
unfoldable pub run : HashPassword → List (Option User × Call) → Db → Db
run hash_password [] d = d
run hash_password ((caller, c) ∷ requests) d =
    run hash_password requests (serve hash_password caller c d).1
