-- ===== src/Deletion/Snapshot.antt =====
-- recycle_snapshot.go: the manifests of a digest go to the recycle bin, one item for each tag. The
-- computation of the size is the parameter `image_size`.
use registry_ui_go.Base.{
  ℕ, ◌+◌, Bool, true, false, Option, none, some, List, [], ◌∷◌, if◌then◌else◌, Text, codes, ◌==◌,
  text_eq_instance, ◌&&◌, not, is_empty, contains, trim_space,
}
use registry_ui_go.Store.{Db, Result, ok, err, RecycleItem, Status, Image}
use registry_ui_go.Store.Run.{M, on, pure, add_audit, ◌>>=◌, ◌>>◌}
use registry_ui_go.Store.Recycle.{add_recycle_item}
use registry_ui_go.Store.Images.{get_image_by_repo_tag}
use registry_ui_go.Http.{audit}
use registry_ui_go.Registry.{Answer, answered, Manifest, Client}
use registry_ui_go.Deletion.Records.{resolve_repo}

-- The size of the image of a manifest's body; children are read from the registry.
abbrev pub ImageSize : Type 0 → Type 0
ImageSize S = Text → Text → S → ℕ × S

abbrev pub image_id_of : Result Image → Option ℕ
image_id_of (ok img) = some img.id
image_id_of (err e) = none

unfoldable pub find_image_id : Text → Text → M (Option ℕ)
find_image_id repo tag =
    on (resolve_repo repo) (λ _. pure none)
      λ rid. get_image_by_repo_tag rid tag >>= (λ r. pure (image_id_of r))

abbrev pub snapshot_item : Text → Text → Text → Manifest → ℕ → Option ℕ → RecycleItem
snapshot_item repo tag digest raw size image_id = record {
  id = 0;
  repo = repo;
  reference = tag;
  digest = digest;
  content_type = raw.content_type;
  manifest_body = raw.body;
  status = Status.pending_gc;
  image_id = image_id;
  size = size;
  deleted_at = 0;
  restored_at = none;
  attempts = 0;
}

abbrev pub snapshot_failed : Text → Text → Text → M (Unit {0})
snapshot_failed repo tag digest =
    add_audit (audit none (codes "recycle.snapshot") repo tag digest (codes "error")) >> pure tt

-- The end of the loop's body: 1 for an item that was stored.
unfoldable pub store_snapshot : RecycleItem → M ℕ
store_snapshot item =
    on (add_recycle_item item) (λ _. snapshot_failed item.repo item.reference item.digest >> pure 0)
      λ _. pure 1

-- `raw.Digest != digest && strings.TrimSpace(raw.Digest) != ""`, where "" stands for the digest
abbrev pub other_digest : Text → Text → Bool
other_digest found digest = not (found == digest) && not (is_empty (trim_space found))

abbrev pub points_here : Text → Answer Text → Bool
points_here digest (answered d) = d == digest
points_here digest _ = false

module _ {S : Type 0} (client : Client S) (image_size : ImageSize S) (repo digest : Text) where
  unfoldable pub snapshot_manifest : Text → Answer Manifest → Db × S → ℕ × (Db × S)
  snapshot_manifest tag (answered raw) w =
      if other_digest raw.digest digest
      then (0, w)
      else (let image = find_image_id repo tag w.0 in
          let size = image_size repo raw.body w.1 in
          let stored = store_snapshot (snapshot_item repo tag digest raw size.0 image.0) image.1 in
          (stored.0, (stored.1, size.1)))
  snapshot_manifest tag _ w = (0, ((snapshot_failed repo tag digest w.0).1, w.1))

  -- The tags that point at the digest, each once.
  unfoldable pub snapshot_tag : Bool → Text → Db × S → ℕ × (Db × S)
  snapshot_tag false tag w = (0, w)
  snapshot_tag true tag w =
      let raw = client.manifest_raw repo tag w.1 in snapshot_manifest tag raw.0 (w.0, raw.1)

  unfoldable pub snapshot_tags : List Text → List Text → Db × S → ℕ × (Db × S)
  snapshot_tags seen [] w = (0, w)
  snapshot_tags seen (tag ∷ tags) w =
      let d = client.digest repo tag w.1 in
      let taken = points_here digest d.0 && not (contains seen tag) in
      let r = snapshot_tag taken tag (w.0, d.1) in
      let rest = snapshot_tags (if taken then tag ∷ seen else seen) tags r.1 in
      (r.0 + rest.0, rest.1)

  unfoldable pub snapshot_listed : Answer (List Text) → Db × S → ℕ × (Db × S)
  snapshot_listed (answered tags) w = snapshot_tags [] tags w
  snapshot_listed _ w = (0, ((snapshot_failed repo [] digest w.0).1, w.1))

  unfoldable pub snapshot_recycle_items : Db × S → ℕ × (Db × S)
  snapshot_recycle_items w = let r = client.tags repo w.1 in snapshot_listed r.0 (w.0, r.1)
