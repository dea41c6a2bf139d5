-- ===== src/Proxy/Failures.antt =====
-- Which statements fail is not up to the handler.
use registry_ui_go.Base.{
  ℕ, zero, suc, ◌≡◌, Bool, true, false, Option, none, some, List, [], ◌∷◌, Text, codes, ◌&&◌, ◌||◌,
  not, ◌==◌, nat_eq_instance, text_eq_instance, is_empty, if_cases, arith,
}
use registry_ui_go.Store.{Db, User, Result, ok, Audit, RecycleItem, UserPermission}
use registry_ui_go.Store.Run.{
  pure, ◌>>=◌, add_audit, Keeps, Keeps-pure, Keeps-bind, Keeps-then, Keeps-if,
}
use registry_ui_go.Store.Repositories.{
  insert_namespace, get_namespace, insert_repository, get_repository_by_namespace_and_name,
}
use registry_ui_go.Store.Recycle.{add_recycle_item}
use registry_ui_go.Store.Images.{sync_image}
use registry_ui_go.Store.Extras.{increment_repo_pull, increment_repo_push}
use registry_ui_go.Store.Permissions.{list_user_permissions}
use registry_ui_go.Store.Settings.{get_setting}
use registry_ui_go.Http.{Method}
use registry_ui_go.Access.{user_can_access_repo, allowed}
use registry_ui_go.Policy.{resolve_protection_mode, resolve_overwrite_action}
use registry_ui_go.Policy.Unchanged.{
  get_setting-Keeps, resolve_protection_mode-Keeps, resolve_overwrite_action-Keeps,
}
use registry_ui_go.Immutable.{check_immutable_tag, list_immutable_tag_rules}
use registry_ui_go.Deletion.Resolving.{resolve_rid-Keeps}
use registry_ui_go.Deletion.Records.{resolve_rid}
use registry_ui_go.Deletion.Snapshot.{ImageSize, snapshot_item}
use registry_ui_go.Registry.{Answer, answered, refused, unreachable, Manifest, Client}
use registry_ui_go.Proxy.{Gateway, P, give, stored, asked, ◌~>◌, Reply, manifest_target, is_digest}
use registry_ui_go.Auth.BearerTokens.{is_pull_method}
use registry_ui_go.Proxy.Checks.{
  may_push, checked_tag, if_exists, protected, when_pushed, check_target, check_push, check_request,
  track, track_method, track_pull, track_push,
}
use registry_ui_go.Proxy.Forwarding.{
  readable, filter_catalog, catalog_for, keep_replaced, if_recycled, snapshot_replaced, sync_pushed,
  is_success,
}
use registry_ui_go.Proxy.Protection.{may_push-Keeps}

module _ (f : ℕ → Bool) where
  -- The failures are those of `f`.
  abbrev pub Fails : Db → Type 0
  Fails d = d.fails ≡ f

  gets : (key : Text) → Keeps Fails (get_setting key)
  gets key = get_setting-Keeps Fails (λ d h. h) (λ d c h. h) key

  add_audit-Fails : (a : Audit) → Keeps Fails (add_audit a)
  unfolding add_audit
  add_audit-Fails a = record { at = λ d h. ground arith }

  insert_namespace-Fails : (name : Text) → Keeps Fails (insert_namespace name)
  unfolding insert_namespace
  insert_namespace-Fails name = record { at = λ d h. ground arith }

  get_namespace-Fails : (name : Text) → Keeps Fails (get_namespace name)
  unfolding get_namespace
  get_namespace-Fails name = record { at = λ d h. ground arith }

  insert_repository-Fails : (id : ℕ) (name : Text) → Keeps Fails (insert_repository id name)
  unfolding insert_repository
  insert_repository-Fails id name = record { at = λ d h. ground arith }

  get_repository-Fails :
      (id : ℕ) (name : Text) → Keeps Fails (get_repository_by_namespace_and_name id name)
  unfolding get_repository_by_namespace_and_name
  get_repository-Fails id name = record { at = λ d h. ground arith }

  add_recycle_item-Fails : (item : RecycleItem) → Keeps Fails (add_recycle_item item)
  unfolding add_recycle_item
  add_recycle_item-Fails item = record { at = λ d h. ground arith }

  sync_image-Fails :
      (rid : ℕ) (tag digest content_type : Text) (size : ℕ)
      → Keeps Fails (sync_image rid tag digest content_type size)
  unfolding sync_image
  sync_image-Fails rid tag digest content_type size = record { at = λ d h. ground arith }

  increment_repo_pull-Fails : (repo : Text) → Keeps Fails (increment_repo_pull repo)
  unfolding increment_repo_pull
  increment_repo_pull-Fails repo = record { at = λ d h. ground arith }

  increment_repo_push-Fails : (repo : Text) → Keeps Fails (increment_repo_push repo)
  unfolding increment_repo_push
  increment_repo_push-Fails repo = record { at = λ d h. ground arith }

  resolve_rid-Fails : (name : Text) → Keeps Fails (resolve_rid name)
  resolve_rid-Fails name =
      resolve_rid-Keeps Fails insert_namespace-Fails get_namespace-Fails insert_repository-Fails
        get_repository-Fails name

  pub allowed-Fails :
      (flag : UserPermission → Bool) (o : Option User) (repo : Text)
      → Keeps Fails (allowed flag o repo)
  unfolding allowed list_user_permissions
  allowed-Fails flag none repo = Keeps-pure Fails true
  allowed-Fails flag (some u) repo = record { at = λ d h. ground arith }

  readable-Fails : (user : Option User) (repos : List Text) → Keeps Fails (readable user repos)
  unfolding readable user_can_access_repo
  readable-Fails user [] = record { at = λ d h. h }
  readable-Fails user (repo ∷ repos) = record {
    at = λ d h.
        (readable-Fails user repos).at _ ((allowed-Fails (λ p. p.can_read) user repo).at d h);
  }

  filter_catalog-Fails : (u : User) (o : Option (List Text)) → Keeps Fails (filter_catalog u o)
  unfolding filter_catalog
  filter_catalog-Fails u none = Keeps-pure Fails none
  filter_catalog-Fails u (some repos) =
      Keeps-bind Fails (readable (some u) repos) (λ shown. pure (some shown))
        (readable-Fails (some u) repos) (λ shown. Keeps-pure Fails (some shown))

  pub catalog_for-Fails :
      (user : Option User) (path : Text) (reply : Reply) → Keeps Fails (catalog_for user path reply)
  unfolding catalog_for
  catalog_for-Fails none path reply = Keeps-pure Fails reply
  catalog_for-Fails (some u) path reply =
      Keeps-if Fails (is_success reply.status && path == codes "/v2/_catalog" && not u.is_admin)
        (filter_catalog u reply.catalog >>= (λ c. pure (record reply { catalog = c }))) (pure reply)
        (Keeps-bind Fails (filter_catalog u reply.catalog)
          (λ c. pure (record reply { catalog = c })) (filter_catalog-Fails u reply.catalog)
          (λ c. Keeps-pure Fails (record reply { catalog = c })))
        (Keeps-pure Fails reply)

  track_method-Fails :
      (user : Option User) (m : Method) (repo ref : Text)
      → Keeps Fails (track_method user m repo ref)
  unfolding track_method track_pull track_push
  track_method-Fails user Method.get repo ref =
      Keeps-then Fails (increment_repo_pull repo) _ (increment_repo_pull-Fails repo)
        (add_audit-Fails _)
  track_method-Fails user Method.head repo ref =
      Keeps-then Fails (increment_repo_pull repo) _ (increment_repo_pull-Fails repo)
        (add_audit-Fails _)
  track_method-Fails user Method.put repo ref =
      Keeps-then Fails (increment_repo_push repo) _ (increment_repo_push-Fails repo)
        (add_audit-Fails _)
  track_method-Fails user Method.post repo ref = Keeps-pure Fails (ok tt)
  track_method-Fails user Method.patch repo ref = Keeps-pure Fails (ok tt)
  track_method-Fails user Method.delete repo ref = Keeps-pure Fails (ok tt)
  track_method-Fails user Method.options repo ref = Keeps-pure Fails (ok tt)
  track_method-Fails user Method.other repo ref = Keeps-pure Fails (ok tt)

  pub track-Fails :
      (user : Option User) (m : Method) (o : Option (Text × Text)) → Keeps Fails (track user m o)
  unfolding track
  track-Fails user m none = Keeps-pure Fails (ok tt)
  track-Fails user m (some (repo, ref)) =
      Keeps-if Fails (is_empty repo) (pure (ok tt)) (track_method user m repo ref)
        (Keeps-pure Fails (ok tt)) (track_method-Fails user m repo ref)

  module _ {S : Type 0} (client : Client S) where
    abbrev pub Works : Gateway S → Type 0
    Works g = Fails g.db

    checked_tag-Works :
        (ref : Text) (force : Bool) (g : Gateway S) → Works g → Works (checked_tag ref force g).1
    unfolding check_immutable_tag list_immutable_tag_rules
    checked_tag-Works ref force g h = ground arith

    if_exists-Works :
        (ref : Text) (force : Bool) (a : Answer Text) (g : Gateway S)
        → Works g
        → Works (if_exists client ref force a g).1
    unfolding if_exists
    if_exists-Works ref force (answered d) g h = checked_tag-Works ref force g h
    if_exists-Works ref force (refused status) g h = h
    if_exists-Works ref force unreachable g h = h

    protected-Works :
        (repo ref mode : Text) (g : Gateway S)
        → Works g
        → Works (protected client repo ref mode g).1
    unfolding protected
    protected-Works repo ref mode g h =
        if_cases (λ (m : P S (Option Reply)). Works (m g).1)
          (mode == codes "overwrite" || is_digest ref) (give none)
          (asked (client.digest repo ref) ~> if_exists client ref (mode == codes "immutable"))
          (λ _. h)
          (λ _.
            if_exists-Works ref (mode == codes "immutable") (client.digest repo ref g.registry).0 _
              h)

    when_pushed-Works :
        (repo ref : Text) (b : Bool) (g : Gateway S)
        → Works g
        → Works (when_pushed client repo ref b g).1
    unfolding when_pushed
    when_pushed-Works repo ref false g h = h
    when_pushed-Works repo ref true g h =
        protected-Works repo ref (resolve_protection_mode repo g.db).0 _
          ((resolve_protection_mode-Keeps Fails (λ d h. h) gets repo).at g.db h)

    check_target-Works :
        (o : Option (Text × Text)) (g : Gateway S) → Works g → Works (check_target client o g).1
    unfolding check_target
    check_target-Works none g h = h
    check_target-Works (some (repo, ref)) g h =
        when_pushed-Works repo ref (may_push repo g.db).0 _
          ((may_push-Keeps Fails (λ d h. h) gets repo).at g.db h)

    pub check_put-Works :
        (collecting : Bool) (path : Text) (g : Gateway S)
        → Works g
        → Works (check_request client collecting Method.put path g).1
    unfolding check_request check_push is_pull_method
    check_put-Works true path g h = h
    check_put-Works false path g h = check_target-Works (manifest_target path) g h

    keep_replaced-Fails :
        (image_size : ImageSize S) (repo ref : Text) (a : Answer Manifest)
        → Keeps Fails (keep_replaced client image_size repo ref a)
    unfolding keep_replaced
    keep_replaced-Fails image_size repo ref (answered raw) =
        Keeps-if Fails (is_empty raw.digest) (pure (ok tt))
          (add_recycle_item (snapshot_item repo ref raw.digest raw 0 none))
          (Keeps-pure Fails (ok tt))
          (add_recycle_item-Fails (snapshot_item repo ref raw.digest raw 0 none))
    keep_replaced-Fails image_size repo ref (refused status) = Keeps-pure Fails (ok tt)
    keep_replaced-Fails image_size repo ref unreachable = Keeps-pure Fails (ok tt)

    if_recycled-Works :
        (image_size : ImageSize S) (repo ref action : Text) (g : Gateway S)
        → Works g
        → Works (if_recycled client image_size repo ref action g).1
    unfolding if_recycled
    if_recycled-Works image_size repo ref action g h =
        if_cases (λ (m : P S (Result (Unit {0}))). Works (m g).1) (action == codes "recycle")
          (asked (client.manifest_raw repo ref)
            ~> (λ raw. stored (keep_replaced client image_size repo ref raw)))
          (give (ok tt))
          (λ _.
            (keep_replaced-Fails image_size repo ref (client.manifest_raw repo ref g.registry).0).at
              g.db h)
          (λ _. h)

    pub snapshot_replaced-Works :
        (image_size : ImageSize S) (repo ref : Text) (g : Gateway S)
        → Works g
        → Works (snapshot_replaced client image_size repo ref g).1
    unfolding snapshot_replaced
    snapshot_replaced-Works image_size repo ref g h =
        if_recycled-Works image_size repo ref (resolve_overwrite_action repo g.db).0 _
          ((resolve_overwrite_action-Keeps Fails (λ d h. h) gets repo).at g.db h)

    sync_pushed-Works :
        (image_size pushed_size : ImageSize S) (repo ref digest : Text) (rid : ℕ) (g : Gateway S)
        → Works g
        → Works (sync_pushed client image_size pushed_size repo ref digest rid g).1
    unfolding sync_pushed
    sync_pushed-Works image_size pushed_size repo ref digest zero g h = h
    sync_pushed-Works image_size pushed_size repo ref digest (suc n) g h =
        (sync_image-Fails (suc n) ref digest [] (pushed_size repo digest g.registry).0).at g.db h

    pub resolved_push-Works :
        (image_size pushed_size : ImageSize S) (repo ref digest : Text) (g : Gateway S)
        → Works g
        → Works
            ((stored (resolve_rid repo)
                ~> sync_pushed client image_size pushed_size repo ref digest)
              g).1
    resolved_push-Works image_size pushed_size repo ref digest g h =
        sync_pushed-Works image_size pushed_size repo ref digest (resolve_rid repo g.db).0 _
          ((resolve_rid-Fails repo).at g.db h)
