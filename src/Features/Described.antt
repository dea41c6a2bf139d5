-- ===== src/Features/Described.antt =====
-- A description that was saved is shown.
use registry_ui_go.Base.{
  ℕ, ◌+◌, ◌==◌, keep, nat_eq_instance, ◌≡◌, refl, ◌∙◌, Bool, true, false, Option, none, some, List,
  [], Text, codes, if_cases, is_empty, lookup, lookup-insert, text_eq_refl, text_eq_instance, arith,
}
use registry_ui_go.Store.{Db, User, UserPermission, ok}
use registry_ui_go.Store.Run.{
  M, on, pure, add_audit, tick, ◌>>=◌, Keeps, Keeps-pure, Keeps-if, Keeps-bind, Keeps-query,
}
use registry_ui_go.Store.Permissions.{list_user_permissions}
use registry_ui_go.Store.Extras.{set_repo_description, get_repo_description}
use registry_ui_go.Http.{Method, Response, reply, is_mutating_method}
use registry_ui_go.Access.{allowed, granted, user_can_access_repo, user_can_write_repo}
use registry_ui_go.Features.{
  shows, save_description, description_by_method, if_writable, if_readable, describe,
  described_repo, handle_repo_description,
}

allowed-Keeps {κ} :
    (P : Db → Type κ) (ticks : (d : Db) → P d → P (tick d)) (flag : UserPermission → Bool)
    (o : Option User) (repo : Text)
    → Keeps P (allowed flag o repo)
unfolding allowed list_user_permissions
allowed-Keeps P ticks flag none repo = Keeps-pure P true
allowed-Keeps P ticks flag (some u) repo = Keeps-if P u.is_admin _ _ (Keeps-pure P true) (
    Keeps-bind P (list_user_permissions u.id) (λ rows. pure (granted flag repo rows))
      (Keeps-query P ticks (λ d. ok (keep (λ p. p.user_id == u.id) d.permissions)))
      (λ rows. Keeps-pure P (granted flag repo rows)))

module _ (perms : List UserPermission) where
  -- No statement fails, and the permissions are these.
  abbrev Held : Db → Type 0
  Held d = (d.permissions ≡ perms) × ((n : ℕ) → d.fails n ≡ false)

  allowed-Held :
      (flag : UserPermission → Bool) (o : Option User) (repo : Text)
      → Keeps Held (allowed flag o repo)
  allowed-Held = allowed-Keeps Held (λ d h. h)

  -- Who may do something depends on the permissions alone.
  allowed-same :
      (flag : UserPermission → Bool) (o : Option User) (repo : Text) (d d' : Db)
      → Held d
      → Held d'
      → (allowed flag o repo d').0 ≡ (allowed flag o repo d).0
  unfolding allowed list_user_permissions
  allowed-same flag none repo d d' h h' = refl
  allowed-same flag (some u) repo d d' (same, works) (same', works') =
      if_cases (λ (m : M Bool). (m d').0 ≡ (m d).0) u.is_admin _ _ (λ _. refl)
        (λ _. rw (works d.clock, works' d'.clock, same, same') refl)

  module _ (user : Option User) (repo text : Text) where
    -- What a PUT that is answered with 200 leaves.
    abbrev Saved : (Response × Text) × Db → Type 0
    Saved (r, d) = r.0.status ≡ 200 → Held d × (lookup repo d.descriptions ≡ some text)

    save_description-Saved : (d : Db) → Held d → Saved (save_description user repo text d)
    unfolding save_description set_repo_description add_audit on
    save_description-Saved d (same, works) =
        rw (works d.clock, works (d.clock + 1))
          (λ n. (
            (same, works),
            lookup-insert repo repo text d.descriptions ∙ rw (text_eq_refl repo) refl,
          ))

    if_writable-Saved :
        (d : Db) (b : Bool) → Held d → Saved (if_writable user repo Method.put text b d)
    unfolding if_writable description_by_method
    if_writable-Saved d true h = save_description-Saved d h
    if_writable-Saved d false h = λ n. absurd (ground arith)

    if_readable-Saved :
        (d : Db) (b : Bool) → Held d → Saved (if_readable user repo Method.put text b d)
    unfolding if_readable user_can_write_repo is_mutating_method
    if_readable-Saved d true h =
        if_writable-Saved _ (user_can_write_repo user repo d).0
          ((allowed-Held (λ p. p.can_write) user repo).at d h)
    if_readable-Saved d false h = λ n. absurd (ground arith)

    readable :
        (b : Bool) (d : Db)
        → (if_readable user repo Method.put text b d).0.0.status ≡ 200
        → b ≡ true
    unfolding if_readable
    readable true d n = refl
    readable false d n = absurd (ground arith)

    -- The PUT was answered with 200: there is a repository, and the user may read it.
    describe-Saved :
        (d : Db)
        → Held d
        → (describe user repo Method.put text d).0.0.status ≡ 200
        → (is_empty repo ≡ false)
          × ((user_can_access_repo user repo d).0 ≡ true)
          × Held (describe user repo Method.put text d).1
          × (lookup repo (describe user repo Method.put text d).1.descriptions ≡ some text)
    unfolding describe user_can_access_repo if_readable
    describe-Saved d h =
        if_cases
          (λ (m : M (Response × Text)).
            (m d).0.0.status ≡ 200
            → (is_empty repo ≡ false)
              × ((user_can_access_repo user repo d).0 ≡ true)
              × Held (m d).1
              × (lookup repo (m d).1.descriptions ≡ some text))
          (is_empty repo) (shows (reply 404 (codes "404 page not found")) [])
          (user_can_access_repo user repo >>= if_readable user repo Method.put text)
          (λ _ n. absurd (ground arith))
          (λ filled n.
            let accessed = user_can_access_repo user repo d in
            let (held, stored) =
              if_readable-Saved accessed.1 accessed.0
                ((allowed-Held (λ p. p.can_read) user repo).at d h) n in
            (filled, readable accessed.0 accessed.1 n, held, stored))

    get-shows :
        (other : Text) (d : Db)
        → Held d
        → lookup repo d.descriptions ≡ some text
        → (description_by_method user repo Method.get other d).0 ≡ (reply 200 [], text)
    unfolding description_by_method get_repo_description on
    get-shows other d (same, works) stored = rw (works d.clock, stored) refl

    describe-shows :
        (other : Text) (d : Db)
        → Held d
        → is_empty repo ≡ false
        → (user_can_access_repo user repo d).0 ≡ true
        → lookup repo d.descriptions ≡ some text
        → (describe user repo Method.get other d).0 ≡ (reply 200 [], text)
    unfolding describe user_can_access_repo if_readable is_mutating_method
    describe-shows other d h filled access stored =
        rw (filled, access)
          (get-shows other (user_can_access_repo user repo d).1
            ((allowed-Held (λ p. p.can_read) user repo).at d h)
            ((allowed-Keeps (λ d'. lookup repo d'.descriptions ≡ some text) (λ d' e. e)
                (λ p. p.can_read) user repo).at
              d stored))

-- Where no statement fails, a description whose PUT was answered with 200 is what the same user's
-- next GET of the same path shows, whatever body comes with it.
pub handle_repo_description-saved :
    (user : Option User) (path text other : Text) (d : Db)
    → ((n : ℕ) → d.fails n ≡ false)
    → (handle_repo_description user Method.put path text d).0.0.status ≡ 200
    → (handle_repo_description user Method.get path other
        (handle_repo_description user Method.put path text d).1).0
      ≡ (reply 200 [], text)
unfolding handle_repo_description user_can_access_repo
handle_repo_description-saved user path text other d works saved =
    let repo = described_repo path in
    let h : Held d.permissions d = (refl, works) in
    let (filled, access, h', stored) = describe-Saved d.permissions user repo text d h saved in
    describe-shows d.permissions user repo text other (describe user repo Method.put text d).1 h'
      filled
      (allowed-same d.permissions (λ p. p.can_read) user repo d
          (describe user repo Method.put text d).1 h h'
        ∙ access)
      stored
