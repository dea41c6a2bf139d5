-- ===== src/Auth/Accounts.antt =====
-- server.go: handleLogin; user.go: handleUserPassword.
use registry_ui_go.Base.{Option, none, some, [], if◌then◌else◌, Text, codes, ◌&&◌, byte_length, ltb}
use registry_ui_go.Store.{User, Result, ok, err}
use registry_ui_go.Store.Run.{M, on, ◌>>◌, add_audit}
use registry_ui_go.Store.Users.{get_user_by_username, get_user_by_id, update_user_password}
use registry_ui_go.Http.{Method, Response, reply, answer, audit, write_error, method_not_allowed}
use registry_ui_go.Auth.{Request, Draws, W, give, store, ◌>=>◌, ◌>->◌}
use registry_ui_go.Auth.Passwords.{Crypto, verify_password_hash, maybe_upgrade_password}
use registry_ui_go.Auth.Sessions.{create_session}

module _ (crypto : Crypto) where
  unfoldable pub login_failed : W Response
  login_failed =
      store (add_audit (audit none (codes "login") [] [] [] (codes "error")))
      >-> give (reply 401 (codes "invalid credentials"))

  unfoldable pub login_account : Request → Draws → Text → Text → Result User → W Response
  login_account r draws username pass (err e) = login_failed
  login_account r draws username pass (ok u) =
      if u.enabled && verify_password_hash crypto u.password_hash pass
      then store (maybe_upgrade_password crypto u pass)
        >-> create_session r draws username
        >-> store (add_audit (audit (some u) (codes "login") [] [] [] (codes "ok")))
        >-> give (reply 200 [])
      else login_failed

  unfoldable pub login_with : Request → Draws → Option (Text × Text) → W Response
  login_with r draws none = give (reply 400 (codes "invalid request"))
  login_with r draws (some (username, pass)) =
      store (get_user_by_username username) >=> login_account r draws username pass

  -- handleLogin, with the two fields of a body that decodes
  unfoldable pub handle_login : Request → Draws → Option (Text × Text) → W Response
  handle_login r draws body = elim r.method [
    | Method.post ↦ login_with r draws body
    | _ ↦ give (reply 405 (codes "method not allowed"))
  ]

  abbrev pub audit_change : User → Text → M (Result (Unit {0}))
  audit_change u status = add_audit (audit (some u) (codes "user.password.change") [] [] [] status)

  unfoldable pub wrong_password : User → M Response
  wrong_password cur =
      audit_change cur (codes "error") >> answer 403 (codes "old password is incorrect")

  unfoldable pub change_checked : User → Text → Text → User → M Response
  change_checked cur old_password new_password full =
      if verify_password_hash crypto full.password_hash old_password
      then on (update_user_password crypto.hash_password cur.id new_password) (λ _. write_error 500)
          (λ _. audit_change cur (codes "ok") >> answer 200 [])
      else wrong_password cur

  unfoldable pub change_password : Option User → Text → Text → M Response
  change_password none old_password new_password = answer 401 (codes "unauthorized")
  change_password (some cur) old_password new_password =
      on (get_user_by_id cur.id) (λ _. wrong_password cur)
        (change_checked cur old_password new_password)

  -- handleUserPassword, with the old and the new password of a body that decodes
  unfoldable pub handle_user_password : Method → Option User → Option (Text × Text) → M Response
  handle_user_password Method.post cur none = answer 400 (codes "error")
  handle_user_password Method.post cur (some (old_password, new_password)) =
      if ltb (byte_length new_password) 6
      then answer 400 (codes "password too short")
      else change_password cur old_password new_password
  handle_user_password _ cur body = method_not_allowed
