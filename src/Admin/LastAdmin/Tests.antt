-- ===== src/Admin/LastAdmin/Tests.antt =====
-- The guards of admin.go at a database with one administrator.
use registry_ui_go.Base.{
  ◌≡◌, refl, true, false, none, some, [], ◌∷◌, codes, arith, find, count, trim_space,
}
use registry_ui_go.Store.Run.{on}
use registry_ui_go.Store.Users.{HashPassword, get_user_by_id, count_enabled_admins}
use registry_ui_go.Http.{Method, reply}
use registry_ui_go.Samples.{root_user, two_users}
use registry_ui_go.Admin.Users.{
  user, toggles, serve, run, UserRequest, handle_admin_user_by_id, as_admin, by_id, user_by_method,
  with_body, modify, guarded_save,
}
use registry_ui_go.Admin.LastAdmin.Counting.{UsersOk}
use registry_ui_go.Admin.LastAdmin.Handlers.{run-UsersOk}

abbrev no_bcrypt : HashPassword
no_bcrypt password = some (codes "hash")

abbrev demotion : UserRequest
demotion = record { username = codes "admin"; password = []; is_admin = false; enabled = true }

account_routes : Unit {0}
unfolding serve handle_admin_user_by_id as_admin by_id user_by_method with_body modify guarded_save
    on get_user_by_id count_enabled_admins find count trim_space
account_routes = tt

last_admin_stays :
    (serve no_bcrypt (some root_user) (user (some 1) Method.put (some demotion)) two_users).0
    ≡ reply 400 (codes "cannot remove the last enabled admin")
unfolding account_routes
last_admin_stays = refl

two_users-UsersOk : UsersOk two_users
unfolding count
two_users-UsersOk = omega arith

run-UsersOk_example : UsersOk (
    run no_bcrypt
      ((some root_user, user (some 1) Method.put (some demotion))
        ∷ (some root_user, user (some 2) Method.delete none)
        ∷ (none, toggles Method.post (some 1) false)
        ∷ [])
      two_users)
run-UsersOk_example = run-UsersOk no_bcrypt _ two_users two_users-UsersOk
