-- ===== src/Proxy/Protection.antt =====
-- An immutable repository through the registry API.
use registry_ui_go.Base.{
  ℕ, ◌≡◌, refl, ◌∙◌, sym, ap, subst, inl, inr, Bool, true, false, Option, none, some, Text, codes,
  ◌==◌, text_eq_instance, text_eq, is_empty, contains_text, cut, lookup, find,
}
use registry_ui_go.Store.{Db, User}
use registry_ui_go.Store.Run.{tick, pure, row, Keeps, Keeps-pure, Keeps-bind, Keeps-query}
use registry_ui_go.Store.Settings.{get_setting, or_empty}
use registry_ui_go.Store.Settings.Cache.{Coherent, get_setting-Coherent}
use registry_ui_go.Store.Repositories.{
  find_repo, in_namespace, is_repo, get_repository_by_namespaced_name,
}
use registry_ui_go.Http.{Method}
use registry_ui_go.Policy.{
  parts, push_create_allowed, resolve_protection_mode, protection_code_to_string,
}
use registry_ui_go.Policy.Saving.{Good, flat, code_at, Shows}
use registry_ui_go.Policy.Resolving.{mode_key, resolve_protection_lem}
use registry_ui_go.Policy.Unchanged.{get_setting-Keeps, push_create_allowed-Keeps}
use registry_ui_go.Immutable.{check_immutable_tag}
use registry_ui_go.Deletion.Records.{namespaced}
use registry_ui_go.Deletion.Snapshot.{ImageSize}
use registry_ui_go.Registry.{answered, Client}
use registry_ui_go.Registry.Documented.{Documented}
use registry_ui_go.Auth.BearerTokens.{is_pull_method}
use registry_ui_go.Proxy.{
  Gateway, stored, Target, Call, Forwarded, Reply, manifest_target, is_digest,
}
use registry_ui_go.Proxy.Checks.{
  may_push, exists_unless, is_ok, immutable_answer, checked_tag, if_exists, protected, when_pushed,
  check_target, check_push, check_request,
}
use registry_ui_go.Proxy.Forwarding.{BasicHeader, v2_proxy, unless_answered, is_success}

-- What the protection mode is read from, as it was, with the cache still right.
abbrev pub Policies : Db → Db → Type 0
Policies d e =
    (e.repositories ≡ d.repositories)
    × (e.namespaces ≡ d.namespaces)
    × (e.settings ≡ d.settings)
    × (e.fails ≡ d.fails)

tick-Coherent : (d : Db) → Coherent d → Coherent (tick d)
tick-Coherent d h = record { at_key = h.at_key }

module _ {κ} (P : Db → Type κ) (ticks : (d : Db) → P d → P (tick d)) where
  exists_unless-Keeps : (repo : Text) (b : Bool) → Keeps P (exists_unless repo b)
  unfolding exists_unless get_repository_by_namespaced_name
  exists_unless-Keeps repo true = Keeps-pure P true
  exists_unless-Keeps repo false =
      Keeps-bind P
        (get_repository_by_namespaced_name (namespaced (cut b'/' repo)).0
          (namespaced (cut b'/' repo)).1)
        (λ r. pure (is_ok r))
        (Keeps-query P ticks
          (λ d. row (find_repo (namespaced (cut b'/' repo)).0 (namespaced (cut b'/' repo)).1 d)))
        (λ r. Keeps-pure P (is_ok r))

  pub may_push-Keeps :
      ((key : Text) → Keeps P (get_setting key)) → (repo : Text) → Keeps P (may_push repo)
  unfolding may_push
  may_push-Keeps gets repo =
      Keeps-bind P (push_create_allowed repo) (exists_unless repo)
        (push_create_allowed-Keeps P ticks gets repo) (exists_unless-Keeps repo)

may_push-Policies : (d0 : Db) (repo : Text) → Keeps (Policies d0) (may_push repo)
may_push-Policies d0 repo =
    may_push-Keeps (Policies d0) (λ d h. h)
      (get_setting-Keeps (Policies d0) (λ d h. h) (λ d c h. h)) repo

may_push-Coherent : (repo : Text) → Keeps Coherent (may_push repo)
may_push-Coherent repo = may_push-Keeps Coherent tick-Coherent get_setting-Coherent repo

code_at-same :
    (p : Text × Option Text) (d e : Db)
    → Policies d e
    → code_at (λ r. r.protection_mode) p e ≡ code_at (λ r. r.protection_mode) p d
code_at-same (ns, none) d e same = refl
code_at-same (ns, some repo) d e (rows, spaces, _, _) =
    ap
      (λ names.
        flat (λ r. r.protection_mode)
          (find (in_namespace (find (λ n. n.name == ns) names) repo) e.repositories))
      spaces
    ∙ ap (λ repos. flat (λ r. r.protection_mode) (find (is_repo d ns repo) repos)) rows

Shows-same :
    (name : Text) (c : ℕ) (v : Text) (d e : Db)
    → Policies d e
    → Shows (λ r. r.protection_mode) (mode_key name) (parts name) c v d
    → Shows (λ r. r.protection_mode) (mode_key name) (parts name) c v e
Shows-same name c v d e same (inl row) = inl (code_at-same (parts name) d e same ∙ row)
Shows-same name c v d e same (inr (missing, set)) = inr (
  code_at-same (parts name) d e same ∙ missing,
  ap (λ settings. or_empty (lookup (mode_key name) settings)) (same.2) ∙ set,
)

Good-same : (d e : Db) → Good d → Policies d e → Coherent e → Good e
Good-same d e g (_, _, _, fails) coherent = record {
  works = λ n. ap (λ f. f n) fails ∙ g.works n;
  coherent = coherent;
}

not_overwrite : text_eq (codes "immutable") (codes "overwrite") ≡ false
unfolding text_eq
not_overwrite = refl

itself : text_eq (codes "immutable") (codes "immutable") ≡ true
unfolding text_eq
itself = refl

shown : protection_code_to_string 2 ≡ codes "immutable"
unfolding protection_code_to_string
shown = refl

module _ {S : Type 0} (client : Client S) (points_at : Text → Text → S → Option Text)
    (documented : Documented client points_at) where
  -- The request ends here, and no tag was moved.
  abbrev Blocked : S → Option Reply × Gateway S → Type 0
  Blocked s (none, g) = ⊥
  Blocked s (some reply, g) =
      (is_success reply.status ≡ false)
      × ((other tag : Text) → points_at other tag g.registry ≡ points_at other tag s)

  module _ (repo ref digest : Text) (filled : is_empty ref ≡ false)
      (plain : contains_text ref (codes ":") ≡ false) (named : is_digest ref ≡ false) where
    checked_tag-immutable :
        (g : Gateway S) → checked_tag ref true g ≡ (some (codes "repo-immutable"), g)
    unfolding check_immutable_tag
    checked_tag-immutable g = rw (filled, plain) refl

    if_exists-Blocked :
        (s : S) (g : Gateway S)
        → ((other tag : Text) → points_at other tag g.registry ≡ points_at other tag s)
        → Blocked s (if_exists client ref true (answered digest) g)
    unfolding if_exists
    if_exists-Blocked s g kept =
        subst (λ x. Blocked s (immutable_answer x.0, x.1)) (sym (checked_tag-immutable g))
          (refl, kept)

    protected-Blocked :
        (g : Gateway S)
        → (client.digest repo ref g.registry).0 ≡ answered digest
        → Blocked g.registry (protected client repo ref (codes "immutable") g)
    unfolding protected
    protected-Blocked g known =
        rw (not_overwrite, named, itself, known)
          (if_exists-Blocked g.registry _
            (λ other tag. documented.digest_reads repo ref other tag g.registry))

    when_pushed-Blocked :
        (b : Bool) (g : Gateway S)
        → Good g.db
        → Shows (λ r. r.protection_mode) (mode_key repo) (parts repo) 2 (codes "immutable") g.db
        → (client.digest repo ref g.registry).0 ≡ answered digest
        → Blocked g.registry (when_pushed client repo ref b g)
    unfolding when_pushed
    when_pushed-Blocked false g good shows known = (refl, λ other tag. refl)
    when_pushed-Blocked true g good shows known =
        subst
          (λ mode.
            Blocked g.registry
              (protected client repo ref mode (stored (resolve_protection_mode repo) g).1))
          (sym (
            resolve_protection_lem repo 2 g.db good (
              subst (λ v. Shows (λ r. r.protection_mode) (mode_key repo) (parts repo) 2 v g.db)
                (sym shown) shows)
            ∙ shown))
          (protected-Blocked (stored (resolve_protection_mode repo) g).1 known)

    check_target-Blocked :
        (g : Gateway S)
        → Good g.db
        → Shows (λ r. r.protection_mode) (mode_key repo) (parts repo) 2 (codes "immutable") g.db
        → (client.digest repo ref g.registry).0 ≡ answered digest
        → Blocked g.registry (check_target client (some (repo, ref)) g)
    unfolding check_target
    check_target-Blocked g good shows known =
        let same = (may_push-Policies g.db repo).at g.db (refl, refl, refl, refl) in
        when_pushed-Blocked (may_push repo g.db).0 (stored (may_push repo) g).1
          (Good-same g.db _ good same ((may_push-Coherent repo).at g.db good.coherent))
          (Shows-same repo 2 (codes "immutable") g.db _ same shows) known

    check_request-Blocked :
        (collecting : Bool) (path : Text) (g : Gateway S)
        → manifest_target path ≡ some (repo, ref)
        → Good g.db
        → Shows (λ r. r.protection_mode) (mode_key repo) (parts repo) 2 (codes "immutable") g.db
        → (client.digest repo ref g.registry).0 ≡ answered digest
        → Blocked g.registry (check_request client collecting Method.put path g)
    unfolding check_request check_push is_pull_method
    check_request-Blocked true path g target good shows known = (refl, λ other tag. refl)
    check_request-Blocked false path g target good shows known =
        rw target (check_target-Blocked g good shows known)

  -- What ended a request is its answer.
  abbrev pub Refused : S → Reply × Gateway S → Type 0
  Refused s (reply, g) =
      (is_success reply.status ≡ false)
      × ((other tag : Text) → points_at other tag g.registry ≡ points_at other tag s)

  module _ (image_size pushed_size : ImageSize S) (serve : Forwarded → S → Option Reply × S)
      (basic : BasicHeader) (t : Target) (mode : Text) (user : Option User) (call : Call) where
    unless_answered-Refused :
        (s : S) (x : Option Reply × Gateway S)
        → Blocked s x
        → Refused s
            (unless_answered client image_size serve basic pushed_size t mode user call x.0 x.1)
    unfolding unless_answered
    unless_answered-Refused s (none, g) h = absurd h
    unless_answered-Refused s (some reply, g) h = h

-- Let the registry behave as the distribution specification says, let no statement fail, and let the
-- protection mode of a repository show as "immutable". A PUT of a manifest under a tag that the
-- registry has is then refused, whoever sends it, and moves no tag of any repository. The reference
-- is a tag: it is not empty and has no colon, so that it is no digest.
pub v2_proxy-immutable :
    {S : Type 0} (client : Client S) (points_at : Text → Text → S → Option Text)
    (documented : Documented client points_at) (image_size pushed_size : ImageSize S)
    (serve : Forwarded → S → Option Reply × S) (basic : BasicHeader) (t : Target) (mode : Text)
    (collecting : Bool) (user : Option User) (call : Call) (repo ref digest : Text) (g : Gateway S)
    → Good g.db
    → Shows (λ r. r.protection_mode) (mode_key repo) (parts repo) 2 (codes "immutable") g.db
    → call.request.method ≡ Method.put
    → manifest_target call.request.path ≡ some (repo, ref)
    → is_empty ref ≡ false
    → contains_text ref (codes ":") ≡ false
    → is_digest ref ≡ false
    → (client.digest repo ref g.registry).0 ≡ answered digest
    → Refused client points_at documented g.registry
        (v2_proxy client image_size serve basic pushed_size t mode collecting user call g)
unfolding v2_proxy
v2_proxy-immutable client points_at documented image_size pushed_size serve basic t mode collecting
      user call repo ref digest g good shows put target filled plain named known =
    unless_answered-Refused client points_at documented image_size pushed_size serve basic t mode
      user call g.registry (check_request client collecting call.request.method call.request.path g)
      (subst
        (λ m.
          Blocked client points_at documented g.registry
            (check_request client collecting m call.request.path g))
        (sym put)
        (check_request-Blocked client points_at documented repo ref digest filled plain named
          collecting call.request.path g target good shows known))
