-- ===== src/Auth/Presented/Rights.antt =====
-- What a request to the registry API needs to reach a repository.
use registry_ui_go.Base.{
  ℕ, ◌≡◌, inl, inr, Option, none, some, Text, codes, Bool-cases, ◌&&◌, text_eq_instance, lookup,
  is_empty, has_prefix, if_cases,
}
use registry_ui_go.Store.{Db, User, Result, ok, err}
use registry_ui_go.Store.Run.{M, pure}
use registry_ui_go.Store.Users.{get_user_by_username, set_user_password_hash}
use registry_ui_go.Auth.{
  Config, Request, Draws, Session, Web, W, give, store, ◌>=>◌, ◌>->◌, Outcome, passes,
}
use registry_ui_go.Auth.Passwords.{
  Crypto, verify_password_hash, maybe_upgrade_password, save_upgrade, needs_password_upgrade,
  upgrade_password,
}
use registry_ui_go.Auth.Sessions.{
  get_session, session_of, live_session, forget_session, clear_session, create_session,
  set_csrf_cookie, store_session, is_expired,
}
use registry_ui_go.Auth.Basic.{
  browser_session, with_account, by_basic, session_account, by_session, require_ui_auth,
}
use registry_ui_go.Auth.{auth_enabled, challenge}
use registry_ui_go.Auth.Presented.Lookups.{get_user_by_username-tick}

-- The table of permissions is as it was.
abbrev pub Same : Db → Web → Type 0
Same d w = w.db.permissions ≡ d.permissions

module _ (d : Db) where
  save_upgrade-Same :
      (crypto : Crypto) (id : ℕ) (hash : Option Text) (w : Web)
      → Same d w
      → Same d (store (save_upgrade crypto id hash) w).1
  unfolding save_upgrade set_user_password_hash
  save_upgrade-Same crypto id none w h = h
  save_upgrade-Same crypto id (some hash) w h = elim (Bool-cases (w.db.fails w.db.clock)) [
    | inl fails ↦ rw fails h
    | inr works ↦ rw works h
  ]

  maybe_upgrade_password-Same :
      (crypto : Crypto) (u : User) (plaintext : Text) (w : Web)
      → Same d w
      → Same d (store (maybe_upgrade_password crypto u plaintext) w).1
  unfolding maybe_upgrade_password
  maybe_upgrade_password-Same crypto u plaintext w h =
      if_cases (λ (m : M (Result (Unit {0}))). Same d (store m w).1)
        (needs_password_upgrade crypto u.password_hash)
        (save_upgrade crypto u.id (upgrade_password crypto u.password_hash plaintext))
        (pure (ok tt))
        (λ _. save_upgrade-Same crypto u.id (upgrade_password crypto u.password_hash plaintext) w h)
        (λ _. h)

  live_session-Same :
      (id : Text) (o : Option Session) (w : Web) → Same d w → Same d (live_session id o w).1
  unfolding live_session forget_session
  live_session-Same id none w h = h
  live_session-Same id (some s) w h = elim (Bool-cases (is_expired w.db.now s)) [
    | inl over ↦ rw over h
    | inr live ↦ rw live h
  ]

  session_of-Same : (o : Option Text) (w : Web) → Same d w → Same d (session_of o w).1
  unfolding session_of
  session_of-Same none w h = h
  session_of-Same (some id) w h = live_session-Same id (lookup id w.sessions) w h

  user_read : (name : Text) (w : Web) → Same d w → Same d (store (get_user_by_username name) w).1
  user_read name w h = rw (get_user_by_username-tick name w.db) h

module _ (crypto : Crypto) (config : Config) (r : Request) (draws : Draws) (d : Db) where
  browser_session-Same :
      (name : Text) (w : Web) → Same d w → Same d (browser_session crypto config r draws name w).1
  unfolding browser_session create_session set_csrf_cookie store_session
  browser_session-Same name w h =
      if_cases (λ (m : W (Unit {0})). Same d (m w).1) (has_prefix r.path (codes "/v2/")) (give tt)
        (create_session r draws name) (λ _. h) (λ _. h)

  with_account-Same :
      (name pass : Text) (a : Result User) (w : Web)
      → Same d w
      → Same d (with_account crypto config r draws name pass a w).1
  unfolding with_account
  with_account-Same name pass (err e) w h = h
  with_account-Same name pass (ok u) w h =
      if_cases (λ (m : W Outcome). Same d (m w).1)
        (u.enabled && verify_password_hash crypto u.password_hash pass)
        (store (maybe_upgrade_password crypto u pass)
          >-> browser_session crypto config r draws name
          >-> give (passes (some u)))
        (give (challenge r))
        (λ _. browser_session-Same name _ (maybe_upgrade_password-Same d crypto u pass w h))
        (λ _. h)

  by_basic-Same :
      (o : Option (Text × Text)) (w : Web)
      → Same d w
      → Same d (by_basic crypto config r draws o w).1
  unfolding by_basic
  by_basic-Same none w h = h
  by_basic-Same (some (name, pass)) w h =
      with_account-Same name pass (get_user_by_username name w.db).0 _ (user_read d name w h)

  session_account-Same :
      (a : Result User) (w : Web) → Same d w → Same d (session_account crypto config r draws a w).1
  unfolding session_account clear_session
  session_account-Same (err e) w h = by_basic-Same r.basic_auth _ h
  session_account-Same (ok u) w h =
      if_cases (λ (m : W Outcome). Same d (m w).1) u.enabled (give (passes (some u)))
        (clear_session r >-> by_basic crypto config r draws r.basic_auth) (λ _. h)
        (λ _. by_basic-Same r.basic_auth (clear_session r w).1 h)

  by_session-Same :
      (name : Text) (w : Web) → Same d w → Same d (by_session crypto config r draws name w).1
  unfolding by_session
  by_session-Same name w h =
      if_cases (λ (m : W Outcome). Same d (m w).1) (is_empty name)
        (by_basic crypto config r draws r.basic_auth)
        (store (get_user_by_username name) >=> session_account crypto config r draws)
        (λ _. by_basic-Same r.basic_auth w h)
        (λ _. session_account-Same (get_user_by_username name w.db).0 _ (user_read d name w h))

  pub require_ui_auth-Same :
      (w : Web) → Same d w → Same d (require_ui_auth crypto config r draws w).1
  unfolding require_ui_auth get_session
  require_ui_auth-Same w h =
      if_cases (λ (m : W Outcome). Same d (m w).1) (auth_enabled config)
        (get_session r >=> by_session crypto config r draws) (give (passes none))
        (λ _. by_session-Same _ _ (session_of-Same d r.session_cookie w h)) (λ _. h)
