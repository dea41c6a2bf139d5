-- ===== src/Auth/Presented/Writing.antt =====
-- Who reaches a repository through the registry API, where the server checks it.
use registry_ui_go.Base.{
  ◌≡◌, refl, ◌∙◌, subst, ◌⊎◌, inl, inr, Bool, true, false, Option, none, some, Text, Bool-cases,
  ◌&&◌, text_eq_instance, is_empty, if_cases,
}
use registry_ui_go.Store.{Db, User, UserPermission, Result, ok, err}
use registry_ui_go.Store.Users.{get_user_by_username}
use registry_ui_go.Store.Permissions.{list_user_permissions}
use registry_ui_go.Http.{is_mutating_method}
use registry_ui_go.Access.{user_can_access_repo, user_can_write_repo, allowed, granted}
use registry_ui_go.Access.Grants.{Grants, user_can_access_iff}
use registry_ui_go.RepoPath.{extract_v2_repo_path}
use registry_ui_go.Auth.{
  Config, Request, Draws, Web, W, give, store, ◌>=>◌, ◌>->◌, Outcome, passes, stops, auth_enabled,
  challenge,
}
use registry_ui_go.Auth.Passwords.{Crypto, verify_password_hash, maybe_upgrade_password}
use registry_ui_go.Auth.Sessions.{clear_session}
use registry_ui_go.Auth.BearerTokens.{is_pull_method}
use registry_ui_go.Auth.Basic.{
  browser_session, with_account, by_basic, session_account, by_session, require_ui_auth,
}
use registry_ui_go.Auth.Middleware.{denied, write_right, repo_rights, then_rights}
use registry_ui_go.Auth.Presented.{Holds}
use registry_ui_go.Auth.Presented.Steps.{challenge-Holds}
use registry_ui_go.Auth.Presented.Rights.{Same}

-- An administrator, or a user with a row in the table that gives the right.
abbrev pub May : (UserPermission → Bool) → User → Text → Db → Type 0
May flag u repo d = (u.is_admin ≡ true) ⊎ Grants flag u.id repo d.permissions

-- What a request needs to reach a repository.
abbrev pub Right : Request → Text → Db → Option User → Type 0
Right r repo d none = is_pull_method r.method ≡ true
Right r repo d (some u) =
    May (λ p. p.can_read) u repo d
    × (is_mutating_method r.method ≡ true → May (λ p. p.can_write) u repo d)

allowed_works :
    (flag : UserPermission → Bool) (u : User) (repo : Text) (d : Db)
    → u.is_admin ≡ false
    → (allowed flag (some u) repo d).0 ≡ true
    → d.fails d.clock ≡ false
unfolding allowed granted list_user_permissions
allowed_works flag u repo d plain e = elim (Bool-cases (d.fails d.clock)) [
  | inr works ↦ works
  | inl fails ↦ unless (rw (plain, fails) at e)
]
  where
    unless : false ≡ true → d.fails d.clock ≡ false
    unless e = cc

module _ (u : User) (repo : Text) (d : Db) where
  May-read :
      (e : Db)
      → e.permissions ≡ d.permissions
      → (user_can_access_repo (some u) repo e).0 ≡ true
      → May (λ p. p.can_read) u repo d
  unfolding user_can_access_repo
  May-read e same h = elim (Bool-cases u.is_admin) [
    | inl admin ↦ inl admin
    | inr plain ↦ inr (
        subst (Grants (λ p. p.can_read) u.id repo) same (
          (user_can_access_iff u repo e plain
              (allowed_works (λ p. p.can_read) u repo e plain h)).0.0
            h))
  ]

  May-write :
      (e : Db)
      → e.permissions ≡ d.permissions
      → (user_can_write_repo (some u) repo e).0 ≡ true
      → May (λ p. p.can_write) u repo d
  unfolding user_can_write_repo
  May-write e same h = elim (Bool-cases u.is_admin) [
    | inl admin ↦ inl admin
    | inr plain ↦ inr (
        subst (Grants (λ p. p.can_write) u.id repo) same (
          (user_can_access_iff u repo e plain
              (allowed_works (λ p. p.can_write) u repo e plain h)).1.0
            h))
  ]

pub allowed-permissions :
    (flag : UserPermission → Bool) (o : Option User) (repo : Text) (d : Db)
    → (allowed flag o repo d).1.permissions ≡ d.permissions
unfolding allowed list_user_permissions
allowed-permissions flag none repo d = refl
allowed-permissions flag (some u) repo d = elim (Bool-cases u.is_admin) [
  | inl admin ↦ rw admin refl
  | inr plain ↦ elim (Bool-cases (d.fails d.clock)) [
    | inl fails ↦ rw (plain, fails) refl
    | inr works ↦ rw (plain, works) refl
  ]
]

-- The user with whom requireUIAuth lets a request on is there.
abbrev pub Somebody : Option User → Type 0
Somebody none = ⊥
Somebody (some u) = Unit

module _ (crypto : Crypto) (config : Config) (r : Request) (draws : Draws) where
  with_account-Somebody :
      (name pass : Text) (a : Result User) (w : Web)
      → Holds Somebody (with_account crypto config r draws name pass a w).0
  unfolding with_account
  with_account-Somebody name pass (err e) w = challenge-Holds Somebody r
  with_account-Somebody name pass (ok u) w =
      if_cases (λ (m : W Outcome). Holds Somebody (m w).0)
        (u.enabled && verify_password_hash crypto u.password_hash pass)
        (store (maybe_upgrade_password crypto u pass)
          >-> browser_session crypto config r draws name
          >-> give (passes (some u)))
        (give (challenge r)) (λ _. tt) (λ _. challenge-Holds Somebody r)

  by_basic-Somebody :
      (o : Option (Text × Text)) (w : Web) → Holds Somebody (by_basic crypto config r draws o w).0
  unfolding by_basic
  by_basic-Somebody none w = challenge-Holds Somebody r
  by_basic-Somebody (some (name, pass)) w = with_account-Somebody name pass _ _

  session_account-Somebody :
      (a : Result User) (w : Web) → Holds Somebody (session_account crypto config r draws a w).0
  unfolding session_account
  session_account-Somebody (err e) w = by_basic-Somebody r.basic_auth _
  session_account-Somebody (ok u) w =
      if_cases (λ (m : W Outcome). Holds Somebody (m w).0) u.enabled (give (passes (some u)))
        (clear_session r >-> by_basic crypto config r draws r.basic_auth) (λ _. tt)
        (λ _. by_basic-Somebody r.basic_auth _)

  by_session-Somebody :
      (name : Text) (w : Web) → Holds Somebody (by_session crypto config r draws name w).0
  unfolding by_session
  by_session-Somebody name w =
      if_cases (λ (m : W Outcome). Holds Somebody (m w).0) (is_empty name)
        (by_basic crypto config r draws r.basic_auth)
        (store (get_user_by_username name) >=> session_account crypto config r draws)
        (λ _. by_basic-Somebody r.basic_auth w) (λ _. session_account-Somebody _ _)

  pub require_ui_auth-Somebody :
      (w : Web)
      → auth_enabled config ≡ true
      → Holds Somebody (require_ui_auth crypto config r draws w).0
  unfolding require_ui_auth
  require_ui_auth-Somebody w enabled = rw enabled (by_session-Somebody _ _)

  module _ (d : Db) where
    abbrev pub Righted : Outcome → Type 0
    Righted = Holds (Right r (extract_v2_repo_path r.path) d)

    write_right-Righted :
        (u : User) (b : Bool) (w : Web)
        → Same d w
        → (b ≡ true → May (λ p. p.can_read) u (extract_v2_repo_path r.path) d)
        → Righted (write_right crypto config r draws (extract_v2_repo_path r.path) (some u) b w).0
    unfolding write_right
    write_right-Righted u false w same read = tt
    write_right-Righted u true w same read = elim (Bool-cases (is_mutating_method r.method)) [
      | inr reads ↦ rw reads (read refl, λ e. cc)
      | inl writes ↦ rw writes (
          if_cases Righted (user_can_write_repo (some u) (extract_v2_repo_path r.path) w.db).0
            (passes (some u)) denied
            (λ e. (read refl, λ _. May-write u (extract_v2_repo_path r.path) d w.db same e))
            (λ _. tt))
    ]

    repo_rights-Righted :
        (u : User) (w : Web)
        → is_empty (extract_v2_repo_path r.path) ≡ false
        → Same d w
        → Righted (repo_rights crypto config r draws (extract_v2_repo_path r.path) (some u) w).0
    unfolding repo_rights user_can_access_repo
    repo_rights-Righted u w named same = rw named (
        write_right-Righted u
          (allowed (λ p. p.can_read) (some u) (extract_v2_repo_path r.path) w.db).0
          (store (allowed (λ p. p.can_read) (some u) (extract_v2_repo_path r.path)) w).1
          (allowed-permissions (λ p. p.can_read) (some u) (extract_v2_repo_path r.path) w.db ∙ same)
          (λ e. May-read u (extract_v2_repo_path r.path) d w.db same e))

    pub then_rights-Righted :
        (o : Outcome) (w : Web)
        → is_empty (extract_v2_repo_path r.path) ≡ false
        → Holds Somebody o
        → Same d w
        → Righted (then_rights crypto config r draws o w).0
    unfolding then_rights
    then_rights-Righted (passes none) w named there same = absurd there
    then_rights-Righted (passes (some u)) w named there same = repo_rights-Righted u w named same
    then_rights-Righted (stops answer) w named there same = tt
