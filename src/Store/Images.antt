-- ===== src/Store/Images.antt =====
-- store.go: the images table, UNIQUE in (repository_id, tag), as the deletion of tags uses it.
use registry_ui_go.Base.{
  ℕ, ◌+◌, Bool, true, false, List, [], ◌∷◌, ◌++◌, if◌then◌else◌, any, Text, ◌==◌, nat_eq_instance,
  text_eq_instance, ◌&&◌, ◌||◌, not, find, update, keep, sort, ltb, leb,
}
use registry_ui_go.Store.{Result, ok, Image}
use registry_ui_go.Store.Run.{M, query, execute, row}

-- The first row by id: rows are stored in the order of their ids.
unfoldable pub get_image_by_digest : Text → M (Result Image)
get_image_by_digest digest = query (λ d. row (find (λ i. i.digest == digest) d.images))

unfoldable pub get_image_by_repo_tag : ℕ → Text → M (Result Image)
get_image_by_repo_tag repository_id tag =
    query (λ d. row (find (λ i. i.repository_id == repository_id && i.tag == tag) d.images))

unfoldable pub soft_delete_image : ℕ → Text → M (Result (Unit {0}))
soft_delete_image repository_id tag = execute λ d. record d {
  images =
      update (λ i. i.repository_id == repository_id && i.tag == tag)
        (λ i. record i { deleted = true }) d.images;
}

unfoldable pub soft_delete_image_by_digest : ℕ → Text → M (Result (Unit {0}))
soft_delete_image_by_digest repository_id digest = execute λ d. record d {
  images =
      update (λ i. i.repository_id == repository_id && i.digest == digest)
        (λ i. record i { deleted = true }) d.images;
}

-- `ORDER BY created_at DESC, id DESC`
abbrev pub newer_first : Image → Image → Bool
newer_first x y = ltb y.created_at x.created_at || (x.created_at == y.created_at && leb y.id x.id)

unfoldable pub list_images_by_repo : ℕ → M (Result (List Image))
list_images_by_repo repository_id = query λ d.
    ok (sort newer_first (keep (λ i. i.repository_id == repository_id && not i.deleted) d.images))

abbrev pub is_image : ℕ → Text → Image → Bool
is_image repository_id tag i = i.repository_id == repository_id && i.tag == tag

-- The row of an INSERT by SyncImage; its own columns get their defaults.
abbrev pub new_image : ℕ → ℕ → ℕ → Text → Text → Text → ℕ → Image
new_image id now repository_id tag digest content_type size = record {
  id = id;
  repository_id = repository_id;
  tag = tag;
  digest = digest;
  content_type = content_type;
  size = size;
  favorite = false;
  note = [];
  deleted = false;
  created_at = now;
}

-- The DO UPDATE of SyncImage: a size of 0 leaves the size as it was.
abbrev pub refreshed : Text → Text → ℕ → Image → Image
refreshed digest content_type size i = record i {
  digest = digest;
  content_type = content_type;
  size = if ltb 0 size then size else i.size;
  deleted = false;
}

-- SyncImage; the artifact type and the time of the push are left out.
unfoldable pub sync_image : ℕ → Text → Text → Text → ℕ → M (Result (Unit {0}))
sync_image repository_id tag digest content_type size = execute λ d.
    if any (is_image repository_id tag) d.images
    then record d {
      images = update (is_image repository_id tag) (refreshed digest content_type size) d.images;
    }
    else record d {
      images =
          d.images ++ new_image d.next_image d.now repository_id tag digest content_type size ∷ [];
      next_image = d.next_image + 1;
    }
