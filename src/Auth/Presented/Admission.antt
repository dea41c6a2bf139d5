-- ===== src/Auth/Presented/Admission.antt =====
-- withAuth, as a whole: with whom a request reaches its handler.
use registry_ui_go.Base.{
  ◌≡◌, subst, Bool, true, false, Option, none, some, [], Text, codes, ◌||◌, not, text_eq_instance,
  is_empty, if◌then◌else◌, if_cases, trim_prefix, trim_space,
}
use registry_ui_go.Store.{Db, User}
use registry_ui_go.Http.{reply, is_mutating_method}
use registry_ui_go.Access.{user_can_access_repo, user_can_write_repo}
use registry_ui_go.RepoPath.{extract_v2_repo_path}
use registry_ui_go.Auth.{Config, Request, Draws, Web, W, give, store, ◌>=>◌, Outcome, passes, stops}
use registry_ui_go.Auth.Passwords.{Crypto}
use registry_ui_go.Auth.ApiTokens.{bearer}
use registry_ui_go.Auth.BearerTokens.{V2Outcome, validate_v2_token}
use registry_ui_go.Auth.Basic.{
  enforce_password_change, password_gate, must_change_password_exempt, is_endpoint_path,
}
use registry_ui_go.Auth.Middleware.{denied, write_right, repo_rights, then_rights, no_header}
use registry_ui_go.Auth.Presented.{Presents, Admitted, Holds, Reads}
use registry_ui_go.Auth.Presented.Steps.{require_ui_auth-Holds}

module _ (P : Option User → Type 0) where
  password_gate-Holds : (path : Text) (u : Option User) → P u → Holds P (password_gate path u)
  unfolding password_gate
  password_gate-Holds path none h = h
  password_gate-Holds path (some u) h =
      if_cases (Holds P)
        (not u.must_change_password
          || must_change_password_exempt path
          || not (is_endpoint_path path))
        (passes (some u)) (stops (reply 403 (codes "password_change_required"))) (λ _. h) (λ _. tt)

  pub enforce_password_change-Holds :
      (r : Request) (o : Outcome) → Holds P o → Holds P (enforce_password_change r o)
  unfolding enforce_password_change
  enforce_password_change-Holds r (passes u) h = password_gate-Holds r.path u h
  enforce_password_change-Holds r (stops answer) h = tt

  pub holds_of : (o : Outcome) → Holds P o → (u : Option User) → o ≡ passes u → P u
  holds_of o h u e = subst (Holds P) e h

module _ (crypto : Crypto) (config : Config) (r : Request) (draws : Draws) where
  module _ (P : Option User → Type 0) where
    write_right-Holds :
        (repo : Text) (u : Option User) (b : Bool) (w : Web)
        → P u
        → Holds P (write_right crypto config r draws repo u b w).0
    unfolding write_right
    write_right-Holds repo u false w h = tt
    write_right-Holds repo u true w h =
        if_cases (λ (m : W Outcome). Holds P (m w).0) (is_mutating_method r.method)
          (store (user_can_write_repo u repo) >=> (λ b. give (if b then passes u else denied)))
          (give (passes u))
          (λ _.
            if_cases (Holds P) (user_can_write_repo u repo w.db).0 (passes u) denied (λ _. h)
              (λ _. tt))
          (λ _. h)

    repo_rights-Holds :
        (repo : Text) (u : Option User) (w : Web)
        → P u
        → Holds P (repo_rights crypto config r draws repo u w).0
    unfolding repo_rights
    repo_rights-Holds repo u w h =
        if_cases (λ (m : W Outcome). Holds P (m w).0) (is_empty repo) (give (passes u))
          (store (user_can_access_repo u repo) >=> write_right crypto config r draws repo u)
          (λ _. h) (λ _. write_right-Holds repo u (user_can_access_repo u repo w.db).0 _ h)

    then_rights-Holds :
        (o : Outcome) (w : Web) → Holds P o → Holds P (then_rights crypto config r draws o w).0
    unfolding then_rights
    then_rights-Holds (passes u) w h = repo_rights-Holds (extract_v2_repo_path r.path) u w h
    then_rights-Holds (stops answer) w h = tt

  module _ (w0 : Web) where
    abbrev Allowed : Outcome → Type 0
    Allowed = Holds (Admitted crypto r w0 config)

    with_rights :
        (w : Web)
        → Reads w0.db w.db
        → w.sessions ≡ w0.sessions
        → Allowed (no_header crypto config r draws false w).0
    unfolding no_header
    with_rights w reads same = enforce_password_change-Holds (Admitted crypto r w0 config) r _ (
        then_rights-Holds (Admitted crypto r w0 config) _ _
          (require_ui_auth-Holds crypto config r draws w0 w reads same))

    -- What a bearer token stands for; an anonymous one was found without asking the database.
    abbrev Carried : V2Outcome × Db → Type 0
    Carried (V2Outcome.rejected, d) = Unit
    Carried (V2Outcome.anonymous, d) =
        (validate_v2_token crypto (trim_space (trim_prefix r.authorization bearer)) w0.db.now
          ≡ some [])
        × (d ≡ w0.db)
    Carried (V2Outcome.user u, d) = (u.enabled ≡ true) × Presents crypto r w0 u
