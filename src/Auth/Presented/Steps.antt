-- ===== src/Auth/Presented/Steps.antt =====
-- requireUIAuth and checkAPITokenAuth let no request on but for a user that it presents.
use registry_ui_go.Base.{
  ◌≡◌, refl, sym, ap, subst, ◌⊎◌, inl, inr, Bool, true, false, Option, none, some, Text, codes,
  Bool-cases, ◌&&◌, ◌||◌, ◌==◌, text_eq_instance, text_eq_iff, find, lookup, is_empty, has_prefix,
  if_cases,
}
use registry_ui_go.Store.{Db, User, ApiToken, Result, ok, err}
use registry_ui_go.Store.Run.{M, pure, ◌>>◌}
use registry_ui_go.Store.Users.{get_user_by_username, get_user_by_id, has_id}
use registry_ui_go.Store.Tokens.{get_api_token_by_prefix, touch_api_token}
use registry_ui_go.Http.{reply}
use registry_ui_go.Auth.{
  Config, Request, Draws, Session, Web, W, give, store, ◌>->◌, Outcome, passes, stops, challenge,
  auth_enabled,
}
use registry_ui_go.Auth.Passwords.{Crypto, verify_password_hash, maybe_upgrade_password}
use registry_ui_go.Auth.Sessions.{
  get_session, session_of, live_session, clear_session, is_expired, forget_session,
}
use registry_ui_go.Auth.ApiTokens.{
  check_api_token_auth, with_parts, with_stored, token_owner, presented_token, token_expired,
}
use registry_ui_go.Auth.Basic.{
  browser_session, with_account, by_basic, session_account, by_session, require_ui_auth,
}
use registry_ui_go.Auth.Presented.{
  Presents, session, basic, api_token, off, Admitted, Holds, Reads, named,
}
use registry_ui_go.Auth.Presented.Lookups.{
  named_lem, get_user_by_username-tick, by_id_lem, by_prefix_lem, get_api_token_by_prefix-tick,
  with_prefix,
}

both_first : (b c : Bool) → b && c ≡ true → b ≡ true
both_first true c e = refl
both_first false c e = e

both_second : (b c : Bool) → b && c ≡ true → c ≡ true
both_second true c e = e
both_second false c e = cc

pub challenge-Holds : (P : Option User → Type 0) (r : Request) → Holds P (challenge r)
unfolding challenge
challenge-Holds P r =
    if_cases (Holds P) (r.path == codes "/v2" || has_prefix r.path (codes "/v2/"))
      (stops (reply 401 (codes "UNAUTHORIZED"))) (stops (reply 303 (codes "/login.html"))) (λ _. tt)
      (λ _. tt)

module _ (crypto : Crypto) (config : Config) (r : Request) (draws : Draws) (w0 : Web) where
  -- A row that is read after other reads is a row at the start.
  named_before :
      (name : Text) (d : Db) (u : User)
      → Reads w0.db d
      → (get_user_by_username name d).0 ≡ ok u
      → named name w0.db ≡ some u
  named_before name d u (same, _, _) e =
      subst (λ users. find (λ x. x.username == name) users ≡ some u) same (named_lem name d u e)

  with_account-Holds :
      (name pass : Text) (a : Result User) (w : Web)
      → r.basic_auth ≡ some (name, pass)
      → ((u : User) → a ≡ ok u → named name w0.db ≡ some u)
      → Holds (Admitted crypto r w0 config) (with_account crypto config r draws name pass a w).0
  unfolding with_account
  with_account-Holds name pass (err e) w header row = challenge-Holds _ r
  with_account-Holds name pass (ok u) w header row =
      if_cases (λ (m : W Outcome). Holds (Admitted crypto r w0 config) (m w).0)
        (u.enabled && verify_password_hash crypto u.password_hash pass)
        (store (maybe_upgrade_password crypto u pass)
          >-> browser_session crypto config r draws name
          >-> give (passes (some u)))
        (give (challenge r))
        (λ e. (both_first u.enabled _ e, basic header (row u refl) (both_second u.enabled _ e)))
        (λ _. challenge-Holds _ r)

  pub by_basic-Holds :
      (o : Option (Text × Text)) (w : Web)
      → r.basic_auth ≡ o
      → Reads w0.db w.db
      → Holds (Admitted crypto r w0 config) (by_basic crypto config r draws o w).0
  unfolding by_basic
  by_basic-Holds none w header reads = challenge-Holds _ r
  by_basic-Holds (some (name, pass)) w header reads =
      with_account-Holds name pass (get_user_by_username name w.db).0 _ header
        (λ u e. named_before name w.db u reads e)

  cleared :
      (w : Web)
      → Reads w0.db w.db
      → Holds
          (Admitted crypto r w0 config)
          (by_basic crypto config r draws r.basic_auth (clear_session r w).1).0
  unfolding clear_session
  cleared w reads = by_basic-Holds r.basic_auth _ refl reads

  session_account-Holds :
      {id : Text} {s : Session} (a : Result User) (w : Web)
      → r.session_cookie ≡ some id
      → lookup id w0.sessions ≡ some s
      → is_expired w0.db.now s ≡ false
      → ((u : User) → a ≡ ok u → named s.username w0.db ≡ some u)
      → Reads w0.db w.db
      → Holds (Admitted crypto r w0 config) (session_account crypto config r draws a w).0
  unfolding session_account
  session_account-Holds (err e) w cookie entry live row reads = cleared w reads
  session_account-Holds (ok u) w cookie entry live row reads =
      if_cases (λ (m : W Outcome). Holds (Admitted crypto r w0 config) (m w).0) u.enabled
        (give (passes (some u))) (clear_session r >-> by_basic crypto config r draws r.basic_auth)
        (λ e. (e, session cookie entry live (row u refl))) (λ _. cleared w reads)

  -- What the answer of getSession stands for.
  abbrev SessionOf : Text × Web → Type 0
  SessionOf (name, w) =
      Reads w0.db w.db
      × ((is_empty name ≡ true)
          ⊎ ((id : Text) × (s : Session) × (r.session_cookie ≡ some id)
              × (lookup id w0.sessions ≡ some s)
              × (is_expired w0.db.now s ≡ false)
              × (s.username ≡ name)))

  live_session_lem :
      (id : Text) (o : Option Session) (w : Web)
      → Reads w0.db w.db
      → r.session_cookie ≡ some id
      → lookup id w0.sessions ≡ o
      → SessionOf (live_session id o w)
  unfolding live_session forget_session
  live_session_lem id none w reads cookie entry = (reads, inl refl)
  live_session_lem id (some s) w (u, now, kept) cookie entry =
      elim (Bool-cases (is_expired w.db.now s)) [
        | inl over ↦ rw over ((u, now, kept), inl refl)
        | inr live ↦ rw live (
          (u, now, kept),
          inr (id, s, cookie, entry, subst (λ n. is_expired n s ≡ false) now live, refl),
        )
      ]

  session_of_lem :
      (o : Option Text) (w : Web)
      → Reads w0.db w.db
      → w.sessions ≡ w0.sessions
      → r.session_cookie ≡ o
      → SessionOf (session_of o w)
  unfolding session_of
  session_of_lem none w reads same cookie = (reads, inl refl)
  session_of_lem (some id) w reads same cookie =
      live_session_lem id (lookup id w.sessions) w reads cookie (ap (lookup id) (sym same))

  by_session-Holds :
      (name : Text) (w : Web)
      → SessionOf (name, w)
      → Holds (Admitted crypto r w0 config) (by_session crypto config r draws name w).0
  unfolding by_session
  by_session-Holds name w (reads, inl nobody) = rw nobody (by_basic-Holds r.basic_auth w refl reads)
  by_session-Holds name w (reads, inr (id, s, cookie, entry, live, named_so)) =
      elim (Bool-cases (is_empty name)) [
        | inl nobody ↦ rw nobody (by_basic-Holds r.basic_auth w refl reads)
        | inr somebody ↦ rw somebody (
            session_account-Holds (get_user_by_username name w.db).0
              (store (get_user_by_username name) w).1 cookie entry live
              (λ u e. rw named_so (named_before name w.db u reads e))
              (rw (get_user_by_username-tick name w.db) reads))
      ]

  pub require_ui_auth-Holds :
      (w : Web)
      → Reads w0.db w.db
      → w.sessions ≡ w0.sessions
      → Holds (Admitted crypto r w0 config) (require_ui_auth crypto config r draws w).0
  unfolding require_ui_auth get_session
  require_ui_auth-Holds w reads same = elim (Bool-cases (auth_enabled config)) [
    | inr disabled ↦ rw disabled (off disabled)
    | inl enabled ↦ rw enabled (
        by_session-Holds (session_of r.session_cookie w).0 (session_of r.session_cookie w).1
          (session_of_lem r.session_cookie w reads same refl))
  ]

  -- An API token is one of the table at the start.
  abbrev pub Owned : Option User → Type 0
  Owned none = Unit
  Owned (some u) = (u.enabled ≡ true) × Presents crypto r w0 u

  token_owner-Owned :
      {prefix secret : Text} (t : ApiToken) (a : Result User) (d : Db)
      → presented_token r.authorization ≡ some (prefix, secret)
      → with_prefix prefix w0.db ≡ some t
      → token_expired w0.db.now t ≡ false
      → crypto.sha256_hex secret ≡ t.token_hash
      → ((u : User) → a ≡ ok u → find (has_id t.user_id) w0.db.users ≡ some u)
      → Owned (token_owner crypto t a d).0
  unfolding token_owner
  token_owner-Owned t (err e) d header stored live hash row = tt
  token_owner-Owned t (ok u) d header stored live hash row =
      if_cases (λ (m : M (Option User)). Owned (m d).0) u.enabled
        (touch_api_token t.id >> pure (some u)) (pure none)
        (λ e. (e, api_token header stored live hash (row u refl))) (λ _. tt)

  with_stored-Owned :
      {prefix : Text} (secret : Text) (a : Result ApiToken) (d : Db)
      → presented_token r.authorization ≡ some (prefix, secret)
      → Reads w0.db d
      → ((t : ApiToken) → a ≡ ok t → with_prefix prefix w0.db ≡ some t)
      → Owned (with_stored crypto secret a d).0
  unfolding with_stored
  with_stored-Owned secret (err e) d header reads row = tt
  with_stored-Owned secret (ok t) d header (same, now, _) row =
      elim (Bool-cases (token_expired d.now t)) [
        | inl over ↦ rw over tt
        | inr live ↦ elim (Bool-cases (crypto.sha256_hex secret == t.token_hash)) [
          | inr wrong ↦ rw (live, wrong) tt
          | inl right ↦
              rw (live, right)
                (token_owner-Owned t (get_user_by_id t.user_id d).0 (get_user_by_id t.user_id d).1
                  header (row t refl) (subst (λ n. token_expired n t ≡ false) now live)
                  ((text_eq_iff (crypto.sha256_hex secret) t.token_hash).0 right)
                  λ u e.
                    subst (λ users. find (has_id t.user_id) users ≡ some u) same
                      (by_id_lem t.user_id d u e))
        ]
      ]

  with_parts-Owned :
      (o : Option (Text × Text))
      → presented_token r.authorization ≡ o
      → Owned (with_parts crypto o w0.db).0
  unfolding with_parts
  with_parts-Owned none header = tt
  with_parts-Owned (some (prefix, secret)) header =
      with_stored-Owned secret (get_api_token_by_prefix prefix w0.db).0
        (get_api_token_by_prefix prefix w0.db).1 header
        (rw (get_api_token_by_prefix-tick prefix w0.db) (refl, refl, refl))
        (λ t e. by_prefix_lem prefix w0.db t e)

  pub check_api_token_auth-Owned : Owned (check_api_token_auth crypto r w0.db).0
  unfolding check_api_token_auth
  check_api_token_auth-Owned = with_parts-Owned (presented_token r.authorization) refl
