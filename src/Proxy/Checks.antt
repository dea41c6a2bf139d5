-- ===== src/Proxy/Checks.antt =====
-- v2_proxy.go: what is asked before a request goes on: the lock of the collection, the creation of
-- repositories by a push, the immutable tags; and the counters.
use registry_ui_go.Base.{
  Bool, true, false, Option, none, some, [], if◌then◌else◌, Text, codes, ◌==◌, text_eq_instance,
  ◌&&◌, ◌||◌, not, is_empty, cut,
}
use registry_ui_go.Store.{User, Result, ok, err, Repository}
use registry_ui_go.Store.Run.{M, pure, ◌>>=◌, ◌>>◌, add_audit}
use registry_ui_go.Store.Repositories.{get_repository_by_namespaced_name}
use registry_ui_go.Store.Extras.{increment_repo_pull, increment_repo_push}
use registry_ui_go.Http.{Method, audit}
use registry_ui_go.Policy.{push_create_allowed, resolve_protection_mode}
use registry_ui_go.Immutable.{check_immutable_tag}
use registry_ui_go.Deletion.Records.{namespaced}
use registry_ui_go.Registry.{Answer, answered, Client}
use registry_ui_go.Auth.BearerTokens.{is_pull_method}
use registry_ui_go.Proxy.{P, give, stored, asked, ◌~>◌, Reply, failed, manifest_target, is_digest}

abbrev pub is_ok : Result Repository → Bool
is_ok (ok r) = true
is_ok (err e) = false

-- Whether a push to a repository may go on: pushes create it, or it is in the database.
unfoldable pub exists_unless : Text → Bool → M Bool
exists_unless repo true = pure true
exists_unless repo false =
    get_repository_by_namespaced_name (namespaced (cut b'/' repo)).0 (namespaced (cut b'/' repo)).1
    >>= (λ r. pure (is_ok r))

unfoldable pub may_push : Text → M Bool
may_push repo = push_create_allowed repo >>= exists_unless repo

abbrev pub immutable_answer : Option Text → Option Reply
immutable_answer none = none
immutable_answer (some pattern_text) = some (failed 409 (codes "DENIED"))

abbrev pub checked_tag : {S : Type 0} → Text → Bool → P S (Option Text)
checked_tag ref force g =
    let r = check_immutable_tag ref force g.patterns g.db in
    (r.0.0, record g { db = r.1; patterns = r.0.1 })

module _ {S : Type 0} (client : Client S) where
  -- Only where the registry knows the tag is the push an overwrite.
  unfoldable pub if_exists : Text → Bool → Answer Text → P S (Option Reply)
  if_exists ref force (answered digest) = checked_tag ref force ~> (λ o. give (immutable_answer o))
  if_exists ref force _ = give none

  unfoldable pub protected : Text → Text → Text → P S (Option Reply)
  protected repo ref mode =
      if mode == codes "overwrite" || is_digest ref
      then give none
      else asked (client.digest repo ref) ~> if_exists ref (mode == codes "immutable")

  unfoldable pub when_pushed : Text → Text → Bool → P S (Option Reply)
  when_pushed repo ref false = give (some (failed 403 (codes "DENIED")))
  when_pushed repo ref true = stored (resolve_protection_mode repo) ~> protected repo ref

  unfoldable pub check_target : Option (Text × Text) → P S (Option Reply)
  check_target none = give none
  check_target (some (repo, ref)) = stored (may_push repo) ~> when_pushed repo ref

  -- The checks of a PUT of a manifest.
  unfoldable pub check_push : Method → Text → P S (Option Reply)
  check_push Method.put path = check_target (manifest_target path)
  check_push _ path = give none

  -- The lock, then the checks: an answer that ends the request, or none.
  unfoldable pub check_request : Bool → Method → Text → P S (Option Reply)
  check_request collecting method path =
      if not (is_pull_method method) && collecting
      then give (some (failed 503 (codes "UNAVAILABLE")))
      else check_push method path

-- The counters and the audit log, of a pull and of a push.
unfoldable pub track_pull : Option User → Text → Text → M (Result (Unit {0}))
track_pull user repo ref =
    increment_repo_pull repo >> add_audit (audit user (codes "pull") repo ref [] (codes "ok"))

unfoldable pub track_push : Option User → Text → Text → M (Result (Unit {0}))
track_push user repo ref =
    increment_repo_push repo >> add_audit (audit user (codes "push") repo ref [] (codes "ok"))

unfoldable pub track_method : Option User → Method → Text → Text → M (Result (Unit {0}))
track_method user Method.get repo ref = track_pull user repo ref
track_method user Method.head repo ref = track_pull user repo ref
track_method user Method.put repo ref = track_push user repo ref
track_method user _ repo ref = pure (ok tt)

unfoldable pub track : Option User → Method → Option (Text × Text) → M (Result (Unit {0}))
track user method none = pure (ok tt)
track user method (some (repo, ref)) =
    if is_empty repo then pure (ok tt) else track_method user method repo ref
