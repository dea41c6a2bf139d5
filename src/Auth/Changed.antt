-- ===== src/Auth/Changed.antt =====
-- A password that was changed opens a session.
use registry_ui_go.Base.{
  ℕ, ◌+◌, ◌≡◌, refl, sym, subst, ap, true, false, Option, none, some, [], if_cases, Text, codes,
  ◌==◌, text_eq_instance, nat_eq_instance, find, find_sound, find-update, update, arith, ltb,
  byte_length,
}
use registry_ui_go.Store.{Db, User, Result, err, io}
use registry_ui_go.Store.Run.{M, on, pure, execute, add_audit, ◌>>◌, tick}
use registry_ui_go.Store.Users.{has_id, get_user_by_username, get_user_by_id, update_user_password}
use registry_ui_go.Http.{Method, Response, reply, answer, write_error}
use registry_ui_go.Auth.{Request, Draws, Web, W, give, store}
use registry_ui_go.Auth.Passwords.{Crypto, verify_password_hash}
use registry_ui_go.Auth.Accounts.{
  login_account, login_with, handle_login, audit_change, wrong_password, change_checked,
  change_password, handle_user_password,
}

-- The row that the change of a password leaves.
abbrev pub renewed_user : Text → User → User
renewed_user hash u = record u { password_hash = hash; must_change_password = false }

-- No statement fails, and the name is found at this user.
abbrev pub Named : User → Db → Type 0
Named u d = ((n : ℕ) → d.fails n ≡ false) × (find (λ v. v.username == u.username) d.users ≡ some u)

module _ (crypto : Crypto)
    (verifies : (password hash : Text)
      → crypto.hash_password password ≡ some hash
      → crypto.bcrypt_matches hash password ≡ true) where
  -- After a change that is answered with 200 the name is found at a user whom the new password fits.
  abbrev pub Renewed : User → Text → Response × Db → Type 0
  Renewed u new_password (r, d) =
      r.status ≡ 200
      → (hash : Text) × Named (renewed_user hash u) d
        × (crypto.hash_password new_password ≡ some hash)

  saved-Renewed :
      (cur u : User) (new_password hash : Text) (d : Db)
      → Named u d
      → has_id cur.id u ≡ true
      → Named
          (renewed_user hash u)
          (record d { users = update (has_id cur.id) (renewed_user hash) d.users })
  saved-Renewed cur u new_password hash d (works, named) same = (
    works,
    find-update (λ v. v.username == u.username) (has_id cur.id) (renewed_user hash) d.users u
        (λ v. refl) named same,
  )

  abbrev saving : User → Text → M (Result (Unit {0}))
  saving cur hash =
      execute λ d. record d { users = update (has_id cur.id) (renewed_user hash) d.users }

  -- The statement of the change, by what hashing the password gives.
  abbrev saving_of : User → Option Text → M (Result (Unit {0}))
  saving_of cur o = elim o [ none ↦ pure (err io) | some hash ↦ saving cur hash ]

  update_user_password_lem :
      (cur : User) (new_password : Text)
      → update_user_password crypto.hash_password cur.id new_password
        ≡ saving_of cur (crypto.hash_password new_password)
  unfolding update_user_password
  update_user_password_lem cur new_password = refl

  -- The change with the statement as it is given.
  abbrev changing : User → M (Result (Unit {0})) → M Response
  changing cur m =
      on m (λ _. write_error 500) (λ _. audit_change crypto cur (codes "ok") >> answer 200 [])

  changing-Renewed :
      (cur u : User) (new_password : Text) (d : Db) (o : Option Text)
      → crypto.hash_password new_password ≡ o
      → Named u d
      → has_id cur.id u ≡ true
      → Renewed u new_password (changing cur (saving_of cur o) d)
  unfolding on add_audit
  changing-Renewed cur u new_password d none made (works, named) same = λ n. absurd (ground arith)
  changing-Renewed cur u new_password d (some hash) made (works, named) same =
      rw (works d.clock, works (d.clock + 1))
        (λ n. (hash, saved-Renewed cur u new_password hash d (works, named) same, made))

  change_checked-Renewed :
      (cur u : User) (old_password new_password : Text) (d : Db)
      → Named u d
      → has_id cur.id u ≡ true
      → Renewed u new_password (change_checked crypto cur old_password new_password u d)
  unfolding change_checked wrong_password add_audit
  change_checked-Renewed cur u old_password new_password d (works, named) same =
      if_cases (λ (m : M Response). Renewed u new_password (m d))
        (verify_password_hash crypto u.password_hash old_password)
        (changing cur (update_user_password crypto.hash_password cur.id new_password))
        (wrong_password crypto cur)
        (λ _.
          subst (λ m. Renewed u new_password (changing cur m d))
            (sym (update_user_password_lem cur new_password))
            (changing-Renewed cur u new_password d (crypto.hash_password new_password) refl
              (works, named) same))
        (λ _. rw (works d.clock) (λ n. absurd (ground arith)))

  handle_user_password-Renewed :
      (cur u : User) (old_password new_password : Text) (d : Db)
      → Named u d
      → find (has_id cur.id) d.users ≡ some u
      → Renewed u new_password
          (handle_user_password crypto Method.post (some cur) (some (old_password, new_password)) d)
  unfolding handle_user_password change_password get_user_by_id on
  handle_user_password-Renewed cur u old_password new_password d (works, named) here =
      if_cases (λ (m : M Response). Renewed u new_password (m d)) (ltb (byte_length new_password) 6)
        (answer 400 (codes "password too short"))
        (change_password crypto (some cur) old_password new_password) (λ _ n. absurd (ground arith))
        (λ _.
          rw (works d.clock, here)
            (change_checked-Renewed cur u old_password new_password (tick d) (works, named)
              (find_sound (has_id cur.id) d.users here)))

  login_with-Renewed :
      (r : Request) (draws : Draws) (u : User) (new_password hash : Text) (w : Web)
      → u.enabled ≡ true
      → Named (renewed_user hash u) w.db
      → crypto.hash_password new_password ≡ some hash
      → (login_with crypto r draws (some (u.username, new_password)) w).0.status ≡ 200
  unfolding login_with login_account get_user_by_username verify_password_hash
  login_with-Renewed r draws u new_password hash w enabled (works, named) made =
      rw (works w.db.clock, named, verifies new_password hash made, enabled) refl

  handle_login-post :
      (r : Request) (draws : Draws) (body : Option (Text × Text))
      → r.method ≡ Method.post
      → handle_login crypto r draws body ≡ login_with crypto r draws body
  unfolding handle_login
  handle_login-post r draws body post =
      ap
        (λ (m : Method). elim m [
          | Method.post ↦ login_with crypto r draws body
          | _ ↦ give (reply 405 (codes "method not allowed"))
        ])
        post

-- Where no statement fails and a hash fits the password it was made of: after a change of the password
-- that was answered with 200, a login with the new password is answered with 200. The user is
-- enabled, and the name and the id of the user are found at one row.
pub handle_login-handle_user_password :
    (crypto : Crypto)
    → ((password hash : Text)
        → crypto.hash_password password ≡ some hash
        → crypto.bcrypt_matches hash password ≡ true)
    → (cur u : User) (old_password new_password : Text) (r : Request) (draws : Draws) (w : Web)
    → r.method ≡ Method.post
    → u.enabled ≡ true
    → ((n : ℕ) → w.db.fails n ≡ false)
    → find (λ v. v.username == u.username) w.db.users ≡ some u
    → find (has_id cur.id) w.db.users ≡ some u
    → (handle_user_password crypto Method.post
        (some cur)
        (some (old_password, new_password))
        w.db).0.status
      ≡ 200
    → (handle_login crypto r draws
        (some (u.username, new_password))
        (store
          (handle_user_password crypto Method.post (some cur) (some (old_password, new_password)))
          w).1).0.status
      ≡ 200
handle_login-handle_user_password crypto verifies cur u old_password new_password r draws w post
      enabled works named here changed =
    let (hash, named', made) =
      handle_user_password-Renewed crypto verifies cur u old_password new_password w.db
        (works, named) here changed in
    let after =
      (store
        (handle_user_password crypto Method.post (some cur) (some (old_password, new_password)))
        w).1 in
    subst (λ (f : W Response). (f after).0.status ≡ 200)
      (sym (handle_login-post crypto verifies r draws (some (u.username, new_password)) post))
      (login_with-Renewed crypto verifies r draws u new_password hash after enabled named' made)
