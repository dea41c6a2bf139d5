-- ===== src/Deletion/Records.antt =====
-- What a deletion writes to the database, and what it reports.
use registry_ui_go.Base.{
  ℕ, zero, suc, Bool, Option, none, some, List, [], ◌∷◌, if◌then◌else◌, Text, codes, cut, is_empty,
  ◌||◌, contains_text, map,
}
use registry_ui_go.Store.{User, Result, ok, err, Repository}
use registry_ui_go.Store.Run.{M, on, pure, add_audit, ◌>>=◌, ◌>>◌}
use registry_ui_go.Store.Repositories.{
  upsert_namespace, upsert_repository, get_repository_by_namespaced_name, delete_repository,
}
use registry_ui_go.Store.Images.{
  get_image_by_digest, soft_delete_image, soft_delete_image_by_digest,
}
use registry_ui_go.Http.{audit}

-- tagDeleteResult, with the tags that the warning names in place of the texts.
pub record TagDelete : Type 0 where
  pub tag : Text
  pub action : Text
  pub is_ok : Bool
  pub lost : List Text

abbrev pub outcome : Text → Bool → List Text → List Text → List TagDelete
outcome action is_ok lost tags =
    map (λ tag. record { tag = tag; action = action; is_ok = is_ok; lost = lost }) tags

-- The namespace and the name of a repository: "" for a name without a slash.
abbrev pub namespaced : Text × Option Text → Text × Text
namespaced (name, none) = ([], name)
namespaced (ns, some repo) = (ns, repo)

unfoldable pub resolve_repo : Text → M (Result ℕ)
resolve_repo name =
    on (upsert_namespace (namespaced (cut b'/' name)).0) (λ e. pure (err e))
      λ ns.
        on (upsert_repository ns.id (namespaced (cut b'/' name)).1) (λ e. pure (err e))
          λ repo. pure (ok repo.id)

abbrev pub id_or_zero : Result ℕ → ℕ
id_or_zero (ok id) = id
id_or_zero (err e) = 0

-- `rid, _ := s.resolveRepo(…)`
unfoldable pub resolve_rid : Text → M ℕ
resolve_rid name = resolve_repo name >>= (λ r. pure (id_or_zero r))

-- `rid > 0`
abbrev pub when_known : ℕ → M (Result (Unit {0})) → M (Result (Unit {0}))
when_known zero m = pure (ok tt)
when_known (suc n) m = m

unfoldable pub cleanup_found : Result Repository → M (Result (Unit {0}))
cleanup_found (err e) = pure (err e)
cleanup_found (ok r) = when_known r.id (delete_repository r.id)

-- cleanupRepoDB
unfoldable pub cleanup_repo_db : Text → M (Result (Unit {0}))
cleanup_repo_db repo =
    if is_empty repo || contains_text repo (codes "..")
    then pure (ok tt)
    else get_repository_by_namespaced_name (namespaced (cut b'/' repo)).0
        (namespaced (cut b'/' repo)).1
      >>= cleanup_found

module _ (caller : Option User) (repo digest : Text) where
  unfoldable pub audit_each : Text → Text → List Text → M (Unit {0})
  audit_each action status [] = pure tt
  audit_each action status (tag ∷ tags) =
      add_audit (audit caller action repo tag digest status) >> audit_each action status tags

  unfoldable pub failed_delete : M (Unit {0})
  failed_delete =
      add_audit (audit caller (codes "delete") repo [] digest (codes "error")) >> pure tt

  unfoldable pub failed_untag : M (Unit {0})
  failed_untag = add_audit (audit caller (codes "untag") repo [] digest (codes "error")) >> pure tt

  -- The digest's images are marked, one of them is looked up for the entries, one for each tag.
  unfoldable pub deleted_records : ℕ → List Text → M (Unit {0})
  deleted_records rid remove = do
    when_known rid (soft_delete_image_by_digest rid digest)
    get_image_by_digest digest
    audit_each (codes "delete") (codes "ok") remove

  unfoldable pub push_failed : List Text → M (Unit {0})
  push_failed lost = audit_each (codes "untag") (codes "error") lost

  unfoldable pub audit_unless_lost : List Text → Text → M (Result (Unit {0}))
  audit_unless_lost [] tag = add_audit (audit caller (codes "untag") repo tag digest (codes "ok"))
  audit_unless_lost (t ∷ lost) tag = pure (ok tt)

  unfoldable pub untagged_records : ℕ → List Text → List Text → M (Unit {0})
  untagged_records rid lost [] = pure tt
  untagged_records rid lost (tag ∷ tags) = do
    when_known rid (soft_delete_image rid tag)
    audit_unless_lost lost tag
    untagged_records rid lost tags
