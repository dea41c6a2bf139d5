-- ===== src/Proxy/Replaced.antt =====
-- What is left in the recycle bin of a tag after a push.
use registry_ui_go.Base.{
  ℕ, ◌≡◌, refl, ◌∙◌, sym, ap, subst, inl, inr, Bool, true, false, Option, none, some, List, [], ◌∷◌,
  Text, codes, Bool-cases, ◌&&◌, ◌||◌, not, ◌==◌, text_eq_instance, is_empty, if_cases, any, keep,
}
use registry_ui_go.Store.{Db, User, RecycleItem}
use registry_ui_go.Store.Run.{M, pure, ◌>>=◌}
use registry_ui_go.Store.Recycle.{delete_pending_gc_by_repo_ref, is_pending}
use registry_ui_go.Http.{Method}
use registry_ui_go.Policy.{resolve_protection_mode}
use registry_ui_go.Deletion.Records.{resolve_rid}
use registry_ui_go.Deletion.Snapshot.{ImageSize}
use registry_ui_go.Registry.{Answer, answered, refused, unreachable, Client}
use registry_ui_go.Auth.BearerTokens.{is_pull_method}
use registry_ui_go.Proxy.{
  Gateway, P, give, stored, asked, ◌~>◌, Target, Call, Forwarded, Reply, manifest_target, is_digest,
}
use registry_ui_go.Proxy.Checks.{
  may_push, immutable_answer, checked_tag, if_exists, protected, when_pushed, check_target,
  check_push, check_request, track,
}
use registry_ui_go.Proxy.Forwarding.{
  BasicHeader, director, is_success, filter_catalog, catalog_for, relocate, sync_pushed,
  record_push, after_target, after_push, snapshot_before, modify_response, forward, unless_answered,
  v2_proxy,
}
use registry_ui_go.Proxy.Failures.{
  Works, catalog_for-Fails, track-Fails, check_put-Works, snapshot_replaced-Works,
  resolved_push-Works,
}

abbrev waits : Text → Text → RecycleItem → Bool
waits repo ref i = is_pending i.status && i.repo == repo && i.reference == ref

-- No item of the tag waits in the recycle bin.
abbrev pub NonePending : Text → Text → Db → Type 0
NonePending repo ref d = any (waits repo ref) d.recycle_bin ≡ false

any-keep {ℓ} : {A : Type ℓ} (p : A → Bool) (xs : List A) → any p (keep (λ x. not (p x)) xs) ≡ false
unfolding any keep
any-keep p [] = refl
any-keep p (x ∷ xs) = elim (Bool-cases (p x)) [
  | inl hit ↦ rw hit (any-keep p xs)
  | inr miss ↦ rw miss (rw miss (any-keep p xs))
]

deleted-NonePending :
    (repo ref : Text) (d : Db)
    → d.fails d.clock ≡ false
    → NonePending repo ref (delete_pending_gc_by_repo_ref repo ref d).1
unfolding delete_pending_gc_by_repo_ref
deleted-NonePending repo ref d works = rw works (any-keep (waits repo ref) d.recycle_bin)

catalog_for-same :
    (user : Option User) (path : Text) (reply : Reply) (d : Db)
    → ((catalog_for user path reply d).0.status ≡ reply.status)
      × ((catalog_for user path reply d).0.digest ≡ reply.digest)
unfolding catalog_for
catalog_for-same none path reply d = (refl, refl)
catalog_for-same (some u) path reply d =
    if_cases (λ (m : M Reply). ((m d).0.status ≡ reply.status) × ((m d).0.digest ≡ reply.digest))
      (is_success reply.status && path == codes "/v2/_catalog" && not u.is_admin)
      (filter_catalog u reply.catalog >>= (λ c. pure (record reply { catalog = c }))) (pure reply)
      (λ _. (refl, refl)) (λ _. (refl, refl))

-- An answer of the checks is no success.
abbrev Ends : Option Reply → Type 0
Ends none = Unit
Ends (some reply) = is_success reply.status ≡ false

module _ {S : Type 0} (client : Client S) where
  immutable_answer-Ends : (o : Option Text) → Ends (immutable_answer o)
  immutable_answer-Ends none = tt
  immutable_answer-Ends (some pattern_text) = refl

  if_exists-Ends :
      (ref : Text) (force : Bool) (a : Answer Text) (g : Gateway S)
      → Ends (if_exists client ref force a g).0
  unfolding if_exists
  if_exists-Ends ref force (answered d) g = immutable_answer-Ends (checked_tag ref force g).0
  if_exists-Ends ref force (refused status) g = tt
  if_exists-Ends ref force unreachable g = tt

  protected-Ends :
      (repo ref mode : Text) (g : Gateway S) → Ends (protected client repo ref mode g).0
  unfolding protected
  protected-Ends repo ref mode g =
      if_cases (λ (m : P S (Option Reply)). Ends (m g).0)
        (mode == codes "overwrite" || is_digest ref) (give none)
        (asked (client.digest repo ref) ~> if_exists client ref (mode == codes "immutable"))
        (λ _. tt)
        (λ _.
          if_exists-Ends ref (mode == codes "immutable") (client.digest repo ref g.registry).0 _)

  when_pushed-Ends :
      (repo ref : Text) (b : Bool) (g : Gateway S) → Ends (when_pushed client repo ref b g).0
  unfolding when_pushed
  when_pushed-Ends repo ref false g = refl
  when_pushed-Ends repo ref true g = protected-Ends repo ref (resolve_protection_mode repo g.db).0 _

  check_target-Ends : (o : Option (Text × Text)) (g : Gateway S) → Ends (check_target client o g).0
  unfolding check_target
  check_target-Ends none g = tt
  check_target-Ends (some (repo, ref)) g = when_pushed-Ends repo ref (may_push repo g.db).0 _

  check_put-Ends :
      (collecting : Bool) (path : Text) (g : Gateway S)
      → Ends (check_request client collecting Method.put path g).0
  unfolding check_request check_push is_pull_method
  check_put-Ends true path g = refl
  check_put-Ends false path g = check_target-Ends (manifest_target path) g

  module _ (image_size pushed_size : ImageSize S) (serve : Forwarded → S → Option Reply × S)
      (basic : BasicHeader) (t : Target) (mode : Text) (user : Option User) (repo ref : Text)
      (works : (n : ℕ) → Bool) (never : (n : ℕ) → works n ≡ false) where
    -- What a push that the registry accepts leaves behind.
    abbrev Left : Reply × Gateway S → Type 0
    Left (reply, g) =
        is_success reply.status ≡ true → is_empty reply.digest ≡ false → NonePending repo ref g.db

    unfailing : (g : Gateway S) → Works works client g → g.db.fails g.db.clock ≡ false
    unfailing g h = ap (λ f. f g.db.clock) h ∙ never g.db.clock

    record_push-NonePending :
        (digest : Text) (g : Gateway S)
        → Works works client g
        → NonePending repo ref (record_push client image_size pushed_size repo ref digest g).1.db
    unfolding record_push
    record_push-NonePending digest g h =
        let synced =
          (stored (resolve_rid repo) ~> sync_pushed client image_size pushed_size repo ref digest)
            g in
        deleted-NonePending repo ref synced.1.db (
          unfailing synced.1
            (resolved_push-Works works client image_size pushed_size repo ref digest g h))

    after_push-NonePending :
        (path : Text) (reply : Reply) (g : Gateway S)
        → manifest_target path ≡ some (repo, ref)
        → is_success reply.status ≡ true
        → is_empty reply.digest ≡ false
        → Works works client g
        → NonePending repo ref
            (after_push client image_size pushed_size Method.put path reply g).1.db
    unfolding after_push after_target
    after_push-NonePending path reply g target success digest h =
        rw (success, target, digest) (record_push-NonePending reply.digest g h)

    snapshot_before-Works :
        (m : Method) (o : Option (Text × Text)) (g : Gateway S)
        → m ≡ Method.put
        → o ≡ some (repo, ref)
        → Works works client g
        → Works works client (snapshot_before client image_size m o g).1
    unfolding snapshot_before
    snapshot_before-Works m o g put target h =
        rw (put, target) (snapshot_replaced-Works works client image_size repo ref g h)

    module _ (call : Call) (put : call.request.method ≡ Method.put)
        (target : manifest_target call.request.path ≡ some (repo, ref)) where
      modify_response-Left :
          (host : Text) (o : Option Reply) (g : Gateway S)
          → Works works client g
          → Left
              (modify_response client image_size serve basic pushed_size t mode user call host o g)
      unfolding modify_response relocate
      modify_response-Left host none g h = λ success digest. cc
      modify_response-Left host (some reply) g h = λ success digest.
          let (status, header) = catalog_for-same user call.request.path reply g.db in
          subst
            (λ m.
              NonePending repo ref
                (after_push client image_size pushed_size m call.request.path reply
                  (stored (catalog_for user call.request.path reply) g).1).1.db)
            (sym put)
            (after_push-NonePending call.request.path reply
              (stored (catalog_for user call.request.path reply) g).1 target
              (ap is_success (sym status) ∙ success) (ap is_empty (sym header) ∙ digest)
              ((catalog_for-Fails works user call.request.path reply).at g.db h))

      forward-Left :
          (host : Option Text) (g : Gateway S)
          → Works works client g
          → Left (forward client image_size serve basic pushed_size t mode user call host g)
      unfolding forward
      forward-Left none g h = λ success digest. cc
      forward-Left (some host) g h =
          let before =
            (snapshot_before client image_size call.request.method
              (manifest_target call.request.path) g).1 in
          let served = serve (director basic t mode call) before.registry in
          modify_response-Left host served.0 (record before { registry = served.1 })
            (snapshot_before-Works call.request.method (manifest_target call.request.path) g put
              target h)

      unless_answered-Left :
          (o : Option Reply) (g : Gateway S)
          → Ends o
          → Works works client g
          → Left (unless_answered client image_size serve basic pushed_size t mode user call o g)
      unfolding unless_answered
      unless_answered-Left (some reply) g ends h = λ success digest. never_both reply ends success
        where
          never_both :
              {A : Type 0} (r : Reply)
              → is_success r.status ≡ false
              → is_success r.status ≡ true
              → A
          never_both r e h = cc
      unless_answered-Left none g ends h =
          forward-Left t.host
            (stored (track user call.request.method (manifest_target call.request.path)) g).1
            ((track-Fails works user call.request.method (manifest_target call.request.path)).at
              g.db h)

-- Where no statement fails, a PUT of a manifest that is answered with a success and with the digest
-- of what was pushed leaves no item of its repository and reference waiting in the recycle bin: also
-- the manifest that the same request replaced, and kept there before it was forwarded, is gone.
pub v2_proxy-NonePending :
    {S : Type 0} (client : Client S) (image_size pushed_size : ImageSize S)
    (serve : Forwarded → S → Option Reply × S) (basic : BasicHeader) (t : Target) (mode : Text)
    (collecting : Bool) (user : Option User) (call : Call) (repo ref : Text) (g : Gateway S)
    → ((n : ℕ) → g.db.fails n ≡ false)
    → call.request.method ≡ Method.put
    → manifest_target call.request.path ≡ some (repo, ref)
    → let r = v2_proxy client image_size serve basic pushed_size t mode collecting user call g in
      is_success r.0.status ≡ true → is_empty r.0.digest ≡ false → NonePending repo ref r.1.db
unfolding v2_proxy
v2_proxy-NonePending client image_size pushed_size serve basic t mode collecting user call repo ref
      g never put target =
    let checked = check_request client collecting call.request.method call.request.path g in
    unless_answered-Left client image_size pushed_size serve basic t mode user repo ref g.db.fails
      never call put target checked.0 checked.1
      (subst (λ m. Ends (check_request client collecting m call.request.path g).0) (sym put)
        (check_put-Ends client collecting call.request.path g))
      (subst
        (λ m. Works g.db.fails client (check_request client collecting m call.request.path g).1)
        (sym put) (check_put-Works g.db.fails client collecting call.request.path g refl))
