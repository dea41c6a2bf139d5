-- ===== src/Proxy/Forwarding.antt =====
-- v2_proxy.go: what a request is forwarded as, what is kept before it overwrites or deletes a
-- manifest, and what is done with the answer.
use registry_ui_go.Base.{
  ℕ, zero, suc, Bool, Option, none, some, List, [], ◌∷◌, ◌++◌, if◌then◌else◌, Text, codes, ◌==◌,
  text_eq_instance, ◌&&◌, ◌||◌, not, is_empty, has_prefix, trim_prefix, contains_text, leb, ltb,
}
use registry_ui_go.Store.{User, Result, ok}
use registry_ui_go.Store.Run.{M, pure, ◌>>=◌}
use registry_ui_go.Store.Recycle.{add_recycle_item, delete_pending_gc_by_repo_ref}
use registry_ui_go.Store.Images.{sync_image}
use registry_ui_go.Http.{Method}
use registry_ui_go.Access.{user_can_access_repo}
use registry_ui_go.Policy.{resolve_overwrite_action}
use registry_ui_go.Deletion.Records.{resolve_rid}
use registry_ui_go.Deletion.Snapshot.{ImageSize, snapshot_item, snapshot_recycle_items}
use registry_ui_go.Registry.{Answer, answered, Manifest, Client}
use registry_ui_go.Auth.ApiTokens.{bearer}
use registry_ui_go.Auth.Middleware.{checks_v2}
use registry_ui_go.Proxy.{
  P, give, stored, asked, ◌~>◌, ◌~◌, Target, Call, Forwarded, Reply, failed, manifests,
  manifest_target, is_digest, external_origin,
}
use registry_ui_go.Proxy.Checks.{check_request, track}

-- "Basic " and the base64 of `user:password`, which net/http writes.
abbrev pub BasicHeader : Type 0
BasicHeader = Text → Text → Text

-- ApplyAuth of the client: the configured token or credentials take the place of the header.
unfoldable pub apply_auth : BasicHeader → Target → Text → Text
apply_auth basic t header =
    if not (is_empty t.registry_bearer_token)
    then bearer ++ t.registry_bearer_token
    else if not (is_empty t.registry_username) || not (is_empty t.registry_password)
    then basic t.registry_username t.registry_password
    else header

-- The header of a client that has none for the registry: the configured credentials, if both are set.
unfoldable pub own_credentials : BasicHeader → Target → Text → Text
own_credentials basic t header =
    if is_empty header && not (is_empty t.registry_username) && not (is_empty t.registry_password)
    then basic t.registry_username t.registry_password
    else header

unfoldable pub forwarded_authorization : BasicHeader → Target → Text → Text → Text
forwarded_authorization basic t mode header =
    if checks_v2 mode
    then own_credentials basic t (if has_prefix header bearer then [] else header)
    else if mode == codes "off"
    then []
    else apply_auth basic t header

abbrev pub manifest_accept : Text
manifest_accept =
    codes "application/vnd.oci.image.index.v1+json, application/vnd.oci.image.manifest.v1+json, "
    ++ codes "application/vnd.docker.distribution.manifest.list.v2+json, "
    ++ codes "application/vnd.docker.distribution.manifest.v2+json, "
    ++ codes "application/vnd.docker.distribution.manifest.v1+json"

unfoldable pub forwarded_accept : Text → Text → Text
forwarded_accept path accept =
    if is_empty accept && contains_text path manifests then manifest_accept else accept

-- The Director: the forwarding headers are dropped, and no other is read here.
unfoldable pub director : BasicHeader → Target → Text → Call → Forwarded
director basic t mode call = record {
  method = call.request.method;
  path = call.request.path;
  authorization = forwarded_authorization basic t mode call.request.authorization;
  accept = forwarded_accept call.request.path call.accept;
  body = call.body;
}

abbrev pub is_success : ℕ → Bool
is_success status = leb 200 status && ltb status 300

-- The repositories of the catalog that the user may read.
unfoldable pub readable : Option User → List Text → M (List Text)
readable user [] d = ([], d)
readable user (repo ∷ repos) d =
    let allowed = user_can_access_repo user repo d in
    let rest = readable user repos allowed.1 in
    (if allowed.0 then repo ∷ rest.0 else rest.0, rest.1)

unfoldable pub filter_catalog : User → Option (List Text) → M (Option (List Text))
filter_catalog u none = pure none
filter_catalog u (some repos) = readable (some u) repos >>= (λ shown. pure (some shown))

unfoldable pub catalog_for : Option User → Text → Reply → M Reply
catalog_for none path reply = pure reply
catalog_for (some u) path reply =
    if is_success reply.status && path == codes "/v2/_catalog" && not u.is_admin
    then filter_catalog u reply.catalog >>= (λ c. pure (record reply { catalog = c }))
    else pure reply

-- `externalPrefix + strings.TrimPrefix(loc, internalPrefix)`, for the first scheme that fits
unfoldable pub rewrite_location : Text → Text → Text → Text
rewrite_location host external location =
    let plain = codes "http://" ++ host in
    let secure = codes "https://" ++ host in
    if has_prefix location plain
    then external ++ trim_prefix location plain
    else if has_prefix location secure
    then external ++ trim_prefix location secure
    else location

unfoldable pub relocate : Text → Text → Reply → Reply
relocate host external reply = record reply {
  location =
      if is_empty reply.location
      then reply.location
      else rewrite_location host external reply.location;
}

module _ {S : Type 0} (client : Client S) (image_size : ImageSize S) where
  -- What a push leaves in the database: `pushed_size` reads the manifest again for its size.
  module _ (pushed_size : ImageSize S) where
    unfoldable pub sync_pushed : Text → Text → Text → ℕ → P S (Result (Unit {0}))
    sync_pushed repo ref digest zero = give (ok tt)
    sync_pushed repo ref digest (suc n) =
        asked (pushed_size repo digest) ~> (λ size. stored (sync_image (suc n) ref digest [] size))

    unfoldable pub record_push : Text → Text → Text → P S (Result (Unit {0}))
    record_push repo ref digest =
        (stored (resolve_rid repo) ~> sync_pushed repo ref digest)
        ~ stored (delete_pending_gc_by_repo_ref repo ref)

    unfoldable pub after_target : Option (Text × Text) → Text → P S (Result (Unit {0}))
    after_target none digest = give (ok tt)
    after_target (some (repo, ref)) digest =
        if is_empty digest then give (ok tt) else record_push repo ref digest

    unfoldable pub after_push : Method → Text → Reply → P S (Result (Unit {0}))
    after_push Method.put path reply =
        if is_success reply.status
        then after_target (manifest_target path) reply.digest
        else give (ok tt)
    after_push _ path reply = give (ok tt)

  -- The manifest that a push replaces.
  unfoldable pub keep_replaced : Text → Text → Answer Manifest → M (Result (Unit {0}))
  keep_replaced repo ref (answered raw) =
      if is_empty raw.digest
      then pure (ok tt)
      else add_recycle_item (snapshot_item repo ref raw.digest raw 0 none)
  keep_replaced repo ref _ = pure (ok tt)

  unfoldable pub if_recycled : Text → Text → Text → P S (Result (Unit {0}))
  if_recycled repo ref action =
      if action == codes "recycle"
      then asked (client.manifest_raw repo ref) ~> (λ raw. stored (keep_replaced repo ref raw))
      else give (ok tt)

  unfoldable pub snapshot_replaced : Text → Text → P S (Result (Unit {0}))
  snapshot_replaced repo ref = stored (resolve_overwrite_action repo) ~> if_recycled repo ref

  abbrev pub digest_or : Text → Answer Text → Text
  digest_or ref (answered d) = if is_empty d then ref else d
  digest_or ref _ = ref

  unfoldable pub snapshot_digest : Text → Text → P S Text
  snapshot_digest repo ref =
      if is_digest ref
      then give ref
      else asked (client.digest repo ref) ~> (λ a. give (digest_or ref a))

  abbrev pub snapshot_deleted_digest : Text → Text → P S (Result (Unit {0}))
  snapshot_deleted_digest repo digest g =
      let r = snapshot_recycle_items client image_size repo digest (g.db, g.registry) in
      (ok tt, record g { db = r.1.0; registry = r.1.1 })

  -- The manifest that a DELETE removes.
  unfoldable pub snapshot_deleted : Text → Text → P S (Result (Unit {0}))
  snapshot_deleted repo ref = snapshot_digest repo ref ~> snapshot_deleted_digest repo

  unfoldable pub snapshot_before : Method → Option (Text × Text) → P S (Result (Unit {0}))
  snapshot_before Method.put (some (repo, ref)) = snapshot_replaced repo ref
  snapshot_before Method.delete (some (repo, ref)) = snapshot_deleted repo ref
  snapshot_before _ _ = give (ok tt)

  module _ (serve : Forwarded → S → Option Reply × S) (basic : BasicHeader)
      (pushed_size : ImageSize S) (t : Target) (mode : Text) where
    -- ModifyResponse, and the error handler of the reverse proxy.
    unfoldable pub modify_response : Option User → Call → Text → Option Reply → P S Reply
    modify_response user call host none = give (failed 502 (codes "registry proxy failed"))
    modify_response user call host (some reply) =
        stored (catalog_for user call.request.path reply) ~> (λ shown.
          after_push pushed_size call.request.method call.request.path reply
          ~ give (relocate host (external_origin t call) shown))

    unfoldable pub forward : Option User → Call → Option Text → P S Reply
    forward user call none = give (failed 503 (codes "registry target is not configured"))
    forward user call (some host) =
        snapshot_before call.request.method (manifest_target call.request.path)
        ~ (asked (serve (director basic t mode call)) ~> modify_response user call host)

    unfoldable pub unless_answered : Option User → Call → Option Reply → P S Reply
    unless_answered user call (some reply) = give reply
    unless_answered user call none =
        stored (track user call.request.method (manifest_target call.request.path))
        ~ forward user call t.host

    -- The handler of newV2Proxy, for the user whom withAuth passes on.
    unfoldable pub v2_proxy : Bool → Option User → Call → P S Reply
    v2_proxy collecting user call =
        check_request client collecting call.request.method call.request.path
        ~> unless_answered user call
