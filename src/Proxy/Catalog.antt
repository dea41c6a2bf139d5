-- ===== src/Proxy/Catalog.antt =====
-- The catalog that a user is shown.
use registry_ui_go.Base.{
  ℕ, ◌≡◌, refl, ◌∙◌, sym, ap, subst, ◌↔◌, inl, inr, Bool, true, false, some, List, [], ◌∷◌, Text,
  codes, text_eq_instance, text_eq, In, if◌then◌else◌,
}
use registry_ui_go.Store.{Db, User, UserPermission}
use registry_ui_go.Access.{user_can_access_repo, allowed}
use registry_ui_go.Access.Grants.{Grants, user_can_access_iff}
use registry_ui_go.Auth.Presented.Writing.{allowed-permissions}
use registry_ui_go.Proxy.{Reply}
use registry_ui_go.Proxy.Forwarding.{is_success, readable, filter_catalog, catalog_for}
use registry_ui_go.Proxy.Failures.{allowed-Fails}

-- What a user sees of a list.
abbrev pub Sees : User → List UserPermission → List Text → Text → Type 0
Sees u rows repos repo = In repo repos × Grants (λ p. p.can_read) u.id repo rows

module _ (u : User) (rows : List UserPermission) (first repo : Text) (repos shown : List Text) where
  shown-Sees :
      (b : Bool)
      → (b ≡ true → Grants (λ p. p.can_read) u.id first rows)
      → (In repo shown → Sees u rows repos repo)
      → In repo (if b then first ∷ shown else shown)
      → Sees u rows (first ∷ repos) repo
  shown-Sees true may there (inl same) =
      (inl same, subst (λ x. Grants (λ p. p.can_read) u.id x rows) (sym same) (may refl))
  shown-Sees true may there (inr later) = (inr (there later).0, (there later).1)
  shown-Sees false may there later = (inr (there later).0, (there later).1)

  Sees-shown :
      (b : Bool)
      → (Grants (λ p. p.can_read) u.id first rows → b ≡ true)
      → (Sees u rows repos repo → In repo shown)
      → Sees u rows (first ∷ repos) repo
      → In repo (if b then first ∷ shown else shown)
  Sees-shown true may back (inl same, grants) = inl same
  Sees-shown true may back (inr later, grants) = inr (back (later, grants))
  Sees-shown false may back (inl same, grants) =
      unless (may (subst (λ x. Grants (λ p. p.can_read) u.id x rows) same grants))
    where
      unless : false ≡ true → In repo shown
      unless e = cc
  Sees-shown false may back (inr later, grants) = back (later, grants)

module _ (u : User) (d0 : Db) (plain : u.is_admin ≡ false)
    (works : (n : ℕ) → d0.fails n ≡ false) where
  readable-Sees :
      (repos : List Text) (d : Db) (repo : Text)
      → d.permissions ≡ d0.permissions
      → d.fails ≡ d0.fails
      → In repo (readable (some u) repos d).0 ↔ Sees u d0.permissions repos repo
  unfolding readable user_can_access_repo
  readable-Sees [] d repo same fails = (λ h. absurd h, λ h. absurd h.0)
  readable-Sees (first ∷ repos) d repo same fails =
      let next = allowed (λ p. p.can_read) (some u) first d in
      let (there, back) =
        readable-Sees repos next.1 repo
          (allowed-permissions (λ p. p.can_read) (some u) first d ∙ same)
          ((allowed-Fails d0.fails (λ p. p.can_read) (some u) first).at d fails) in
      let (to, from) =
        (user_can_access_iff u first d plain (ap (λ f. f d.clock) fails ∙ works d.clock)).0 in
      let shown = (readable (some u) repos next.1).0 in
      (
        shown-Sees u d0.permissions first repo repos shown next.0
            (λ e. subst (Grants (λ p. p.can_read) u.id first) same (to e)) there,
        Sees-shown u d0.permissions first repo repos shown next.0
            (λ g. from (subst (Grants (λ p. p.can_read) u.id first) (sym same) g)) back,
      )

  catalog_shown :
      (path : Text) (reply : Reply) (repos : List Text)
      → path ≡ codes "/v2/_catalog"
      → is_success reply.status ≡ true
      → reply.catalog ≡ some repos
      → (catalog_for (some u) path reply d0).0.catalog ≡ some (readable (some u) repos d0).0
  unfolding catalog_for filter_catalog text_eq
  catalog_shown path reply repos here success listed = rw (here, success, plain, listed) refl

-- Where the queries work, a user who is no administrator gets from a successful request for the
-- catalog a list of repositories: of those that the registry lists, exactly those that a row of the
-- permissions table lets the user read.
pub catalog_for-Sees :
    (u : User) (reply : Reply) (repos : List Text) (repo : Text) (d : Db)
    → u.is_admin ≡ false
    → ((n : ℕ) → d.fails n ≡ false)
    → is_success reply.status ≡ true
    → reply.catalog ≡ some repos
    → (shown : List Text) × ((catalog_for (some u) (codes "/v2/_catalog") reply d).0.catalog
        ≡ some shown)
      × (In repo shown ↔ Sees u d.permissions repos repo)
catalog_for-Sees u reply repos repo d plain works success listed = (
  (readable (some u) repos d).0,
  catalog_shown u d plain works (codes "/v2/_catalog") reply repos refl success listed,
  readable-Sees u d plain works repos d repo refl refl,
)
