-- ===== src/Admin/LastAdmin/Handlers.antt =====
-- The account handlers of admin.go, with every failure of a statement.
use registry_ui_go.Base.{
  ℕ, ◌≤◌, ◌≡◌, refl, ◌⊎◌, Bool, true, false, Option, none, some, List, [], ◌∷◌, if◌then◌else◌,
  arith, Bool-cases, inl, inr, not, ◌&&◌, ◌||◌, count, find, Text, codes, is_empty, ltb, leb,
  byte_length, trim_space, ◌==◌, nat_eq_instance,
}
use registry_ui_go.Store.{Db, DbError, io, unique_violation, foreign_key_violation, User}
use registry_ui_go.Store.Run.{
  M, Keeps, Keeps-on, Keeps-pure, Keeps-then, Keeps-if, after_on, after_if, ◌>>◌,
}
use registry_ui_go.Store.Users.{
  HashPassword, has_id, is_enabled_admin, get_user_by_id, count_enabled_admins, list_users,
  delete_user, set_user_enabled, create_user_with_enabled,
}
use registry_ui_go.Store.Permissions.{list_user_permissions}
use registry_ui_go.Http.{Method, Response, answer, reply}
use registry_ui_go.Admin.Users.{
  UserRequest, audit_ok, create, create_hashed, Call, users, user, toggles, serve, run, save_failed,
  save, guarded_save, modify, or_zero, unless_last, erase, remove, toggle, switch_user, as_admin,
  with_body, users_by_method, handle_admin_users, user_by_method, by_id, handle_admin_user_by_id,
  toggle_by_method, set_user_enabled_handler,
}
use registry_ui_go.Admin.LastAdmin.Counting.{UsersOk}
use registry_ui_go.Admin.LastAdmin.Statements.{
  CanLose, MayBecome, get_user_by_id-UsersOk, count_enabled_admins-UsersOk, list_users-UsersOk,
  list_user_permissions-UsersOk, add_audit-UsersOk, get_user_by_id_found, count_enabled_admins_lem,
  delete_user-UsersOk, set_user_enabled-UsersOk, create_user-UsersOk, update_user-UsersOk,
}

-- The property carried through: what a piece of a handler leaves of a good table.
abbrev Leaves : {A : Type 0} → M A → Db → Type 0
Leaves m d = UsersOk (m d).1

answer-UsersOk : (status : ℕ) (error : Text) → Keeps UsersOk (answer status error)
answer-UsersOk status error = Keeps-pure UsersOk (reply status error)

module _ (hash_password : HashPassword) (caller : Option User) where
  audit_ok-UsersOk : (action : Text) → Keeps UsersOk (audit_ok hash_password caller action)
  unfolding audit_ok
  audit_ok-UsersOk action = add_audit-UsersOk _

  done-UsersOk :
      (action : Text) (status : ℕ)
      → Keeps UsersOk (audit_ok hash_password caller action >> answer status [])
  done-UsersOk action status =
      Keeps-then UsersOk _ _ (audit_ok-UsersOk action) (answer-UsersOk status [])

  save_failed-UsersOk : (e : DbError) → Keeps UsersOk (save_failed hash_password caller e)
  unfolding save_failed
  save_failed-UsersOk io = answer-UsersOk _ _
  save_failed-UsersOk unique_violation = answer-UsersOk _ _
  save_failed-UsersOk foreign_key_violation = answer-UsersOk _ _
  save_failed-UsersOk _ = answer-UsersOk _ _

  save-UsersOk :
      (id : ℕ) (req : UserRequest) (d : Db)
      → UsersOk d
      → MayBecome req.is_admin req.enabled id d
      → Leaves (save hash_password caller id req) d
  unfolding save
  save-UsersOk id req d h c =
      let stored =
        update_user-UsersOk id (trim_space req.username) req.is_admin req.enabled d h c
          hash_password req.password in
      after_on UsersOk _ _ _ d (λ e _. (save_failed-UsersOk e).at _ stored)
        λ _ _.
          (Keeps-on UsersOk _ _ _ (get_user_by_id-UsersOk id) (λ _. answer-UsersOk _ _)
              (λ _. done-UsersOk _ _)).at
            _ stored

  -- The count that the guard reads is above one.
  counted-UsersOk :
      (id : ℕ) (req : UserRequest) (remaining : ℕ) (d : Db)
      → UsersOk d
      → remaining ≡ count is_enabled_admin d.users
      → Leaves
          (if leb remaining 1
            then answer 400 (codes "cannot remove the last enabled admin")
            else save hash_password caller id req)
          d
  counted-UsersOk id req remaining d h e =
      after_if UsersOk (leb remaining 1) _ _ _ (λ _. h)
        (λ more. save-UsersOk id req d h (inr (inl (ground arith))))

  guarded_save-UsersOk :
      (id : ℕ) (req : UserRequest) (target : User) (d : Db)
      → UsersOk d
      → find (has_id id) d.users ≡ some target
      → Leaves (guarded_save hash_password caller id req target) d
  unfolding guarded_save
  guarded_save-UsersOk id req target d h found =
      after_if UsersOk (target.is_admin && target.enabled && (not req.is_admin || not req.enabled))
        _ _ _
        (λ _.
          after_on UsersOk count_enabled_admins _ _ d (λ e _. count_enabled_admins-UsersOk.at d h)
            (λ n read.
              counted-UsersOk id req n _ (count_enabled_admins-UsersOk.at d h)
                (count_enabled_admins_lem d read)))
        (λ open_case. save-UsersOk id req d h (elim (Bool-cases (is_enabled_admin target)) [
          | inl counts ↦ inl (ground arith)
          | inr plain ↦ inr (inr (target, found, plain))
        ]))

  modify-UsersOk : (id : ℕ) (req : UserRequest) → Keeps UsersOk (modify hash_password caller id req)
  unfolding modify
  modify-UsersOk id req =
      Keeps-if UsersOk (is_empty (trim_space req.username)) _ _ (answer-UsersOk _ _) (
        Keeps-if UsersOk (not (is_empty req.password) && ltb (byte_length req.password) 6) _ _
          (answer-UsersOk _ _)
          (record {
            at = λ d h.
                after_on UsersOk (get_user_by_id id) _ _ d
                  (λ e _. (get_user_by_id-UsersOk id).at d h)
                  (λ target read.
                    guarded_save-UsersOk id req target _ ((get_user_by_id-UsersOk id).at d h)
                      (get_user_by_id_found id d read));
          }))

  -- A count above one, which a failed count never is.
  spare :
      (d : Db)
      → leb (or_zero hash_password caller (count_enabled_admins d).0) 1 ≡ false
      → 2 ≤ count is_enabled_admin (count_enabled_admins d).1.users
  unfolding or_zero count_enabled_admins
  spare d more = ground arith

  -- The guard of removing and of disabling, before a rest that may take the role.
  unless_last-UsersOk :
      (id : ℕ) (target : User) (message : Text) (rest : M Response) (d : Db)
      → UsersOk d
      → find (has_id id) d.users ≡ some target
      → ((d' : Db) → UsersOk d' → CanLose id d' → Leaves rest d')
      → Leaves (unless_last hash_password caller target message rest) d
  unfolding unless_last
  unless_last-UsersOk id target message rest d h found g =
      after_if UsersOk target.is_admin _ _ _
        (λ _.
          after_if UsersOk (leb (or_zero hash_password caller (count_enabled_admins d).0) 1) _ _ _
            (λ _. count_enabled_admins-UsersOk.at d h)
            (λ more. g _ (count_enabled_admins-UsersOk.at d h) (inl (spare d more))))
        (λ plain. g d h (inr (target, found, ground arith)))

  erase-UsersOk :
      (id : ℕ) (d : Db) → UsersOk d → CanLose id d → Leaves (erase hash_password caller id) d
  unfolding erase
  erase-UsersOk id d h c =
      after_on UsersOk (delete_user id) _ _ d (λ e _. delete_user-UsersOk id d h c)
        λ _ _. (done-UsersOk (codes "user.delete") 200).at _ (delete_user-UsersOk id d h c)

  remove-UsersOk : (cur : User) (id : ℕ) → Keeps UsersOk (remove hash_password caller cur id)
  unfolding remove
  remove-UsersOk cur id = Keeps-if UsersOk (cur.id == id) _ _ (answer-UsersOk _ _) (record {
    at = λ d h.
        after_on UsersOk (get_user_by_id id) _ _ d (λ e _. (get_user_by_id-UsersOk id).at d h)
          (λ target read.
            unless_last-UsersOk id target _ _ _ ((get_user_by_id-UsersOk id).at d h)
              (get_user_by_id_found id d read) (erase-UsersOk id));
  })

  toggle-UsersOk :
      (id : ℕ) (enabled : Bool) (d : Db)
      → UsersOk d
      → (enabled ≡ true) ⊎ CanLose id d
      → Leaves (toggle hash_password caller id enabled) d
  unfolding toggle
  toggle-UsersOk id enabled d h c =
      let stored = set_user_enabled-UsersOk id enabled d h c in
      after_on UsersOk (set_user_enabled id enabled) _ _ d (λ e _. stored)
        λ _ _.
          (Keeps-on UsersOk (get_user_by_id id) _ _ (get_user_by_id-UsersOk id)
              (λ _. answer-UsersOk _ _) (λ _. answer-UsersOk _ _)).at
            _ ((audit_ok-UsersOk _).at _ stored)

  switch_user-UsersOk :
      (cur : User) (id : Option ℕ) (enabled : Bool)
      → Keeps UsersOk (switch_user hash_password caller cur id enabled)
  unfolding switch_user
  switch_user-UsersOk cur none enabled = answer-UsersOk _ _
  switch_user-UsersOk cur (some id) enabled =
      Keeps-if UsersOk (cur.id == id) _ _ (answer-UsersOk _ _) (record {
        at = λ d h.
            after_on UsersOk (get_user_by_id id) _ _ d (λ e _. (get_user_by_id-UsersOk id).at d h)
              (λ target read.
                let found = get_user_by_id_found id d read in
                let h' = (get_user_by_id-UsersOk id).at d h in
                after_if UsersOk enabled _ _ _ (λ _. toggle-UsersOk id true _ h' (inl refl))
                  (λ _.
                    unless_last-UsersOk id target _ _ _ h' found
                      (λ d' ok' c. toggle-UsersOk id false d' ok' (inr c))));
      })

  create_hashed-UsersOk :
      (req : UserRequest) (hash : Option Text)
      → Keeps UsersOk (create_hashed hash_password caller req hash)
  unfolding create_hashed
  create_hashed-UsersOk req none = answer-UsersOk _ _
  create_hashed-UsersOk req (some hash) =
      Keeps-on UsersOk
        (create_user_with_enabled (trim_space req.username) hash req.is_admin req.enabled false) _ _
        (create_user-UsersOk _ hash req.is_admin req.enabled false) (λ _. answer-UsersOk _ _)
        (λ _. done-UsersOk (codes "user.create") 201)

  create-UsersOk : (req : UserRequest) → Keeps UsersOk (create hash_password caller req)
  unfolding create
  create-UsersOk req =
      Keeps-if UsersOk (is_empty (trim_space req.username)) _ _ (answer-UsersOk _ _) (
        Keeps-if UsersOk (ltb (byte_length req.password) 6) _ _ (answer-UsersOk _ _)
          (create_hashed-UsersOk req (hash_password req.password)))

  with_body-UsersOk :
      (body : Option UserRequest) (rest : UserRequest → M Response)
      → ((req : UserRequest) → Keeps UsersOk (rest req))
      → Keeps UsersOk (with_body hash_password caller body rest)
  unfolding with_body
  with_body-UsersOk none rest h = answer-UsersOk _ _
  with_body-UsersOk (some req) rest h = h req

  users_by_method-UsersOk :
      (method : Method) (body : Option UserRequest)
      → Keeps UsersOk (users_by_method hash_password caller method body)
  unfolding users_by_method
  users_by_method-UsersOk Method.get body =
      Keeps-on UsersOk list_users _ _ list_users-UsersOk (λ _. answer-UsersOk _ _)
        (λ _. answer-UsersOk _ _)
  users_by_method-UsersOk Method.post body = with_body-UsersOk body _ create-UsersOk
  users_by_method-UsersOk _ body = answer-UsersOk _ _

  user_by_method-UsersOk :
      (cur : User) (id : ℕ) (method : Method) (body : Option UserRequest)
      → Keeps UsersOk (user_by_method hash_password caller cur id method body)
  unfolding user_by_method
  user_by_method-UsersOk cur id Method.get body =
      Keeps-on UsersOk (get_user_by_id id) _ _ (get_user_by_id-UsersOk id) (λ _. answer-UsersOk _ _)
        λ _.
          Keeps-on UsersOk (list_user_permissions id) _ _ (list_user_permissions-UsersOk id)
            (λ _. answer-UsersOk _ _) (λ _. answer-UsersOk _ _)
  user_by_method-UsersOk cur id Method.put body = with_body-UsersOk body _ (modify-UsersOk id)
  user_by_method-UsersOk cur id Method.delete body = remove-UsersOk cur id
  user_by_method-UsersOk cur id _ body = answer-UsersOk _ _

  by_id-UsersOk :
      (cur : User) (id : Option ℕ) (method : Method) (body : Option UserRequest)
      → Keeps UsersOk (by_id hash_password caller cur id method body)
  unfolding by_id
  by_id-UsersOk cur none method body = answer-UsersOk _ _
  by_id-UsersOk cur (some id) method body = user_by_method-UsersOk cur id method body

-- The check of the caller, on its two outcomes.
as_admin-UsersOk :
    (hash_password : HashPassword) (caller : Option User) (rest : User → M Response)
    → ((u : User) → Keeps UsersOk (rest u))
    → Keeps UsersOk (as_admin hash_password caller rest)
unfolding as_admin
as_admin-UsersOk hash_password none rest h = answer-UsersOk _ _
as_admin-UsersOk hash_password (some u) rest h =
    Keeps-if UsersOk u.is_admin _ _ (h u) (answer-UsersOk _ _)

toggle_by_method-UsersOk :
    (hash_password : HashPassword) (caller : Option User) (method : Method) (id : Option ℕ)
    (enabled : Bool)
    → Keeps UsersOk (toggle_by_method hash_password caller method id enabled)
unfolding toggle_by_method
toggle_by_method-UsersOk hash_password caller Method.post id enabled =
    as_admin-UsersOk hash_password caller _
      (λ cur. switch_user-UsersOk hash_password caller cur id enabled)
toggle_by_method-UsersOk hash_password caller _ id enabled = answer-UsersOk _ _

serve-UsersOk :
    (hash_password : HashPassword) (caller : Option User) (c : Call)
    → Keeps UsersOk (serve hash_password caller c)
unfolding serve handle_admin_users handle_admin_user_by_id set_user_enabled_handler
serve-UsersOk hash_password caller (users method body) =
    as_admin-UsersOk hash_password caller _
      (λ _. users_by_method-UsersOk hash_password caller method body)
serve-UsersOk hash_password caller (user id method body) =
    as_admin-UsersOk hash_password caller _
      (λ cur. by_id-UsersOk hash_password caller cur id method body)
serve-UsersOk hash_password caller (toggles method id enabled) =
    toggle_by_method-UsersOk hash_password caller method id enabled

-- From a users table with distinct ids and an enabled administrator, any sequence of requests to
-- the account handlers, by any callers, leaves such a table: the last enabled administrator cannot
-- be demoted, disabled or deleted, whichever statements of the database fail.
pub run-UsersOk :
    (hash_password : HashPassword) (requests : List (Option User × Call)) (d : Db)
    → UsersOk d
    → UsersOk (run hash_password requests d)
unfolding run
run-UsersOk hash_password [] d h = h
run-UsersOk hash_password ((caller, c) ∷ requests) d h =
    run-UsersOk hash_password requests (serve hash_password caller c d).1
      ((serve-UsersOk hash_password caller c).at d h)
