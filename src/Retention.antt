-- ===== src/Retention.antt =====
-- server.go: which tags the retention of a repository would remove. Go goes through a map in an
-- order of its own: the parameter `order`.
pub mod Sorting
pub mod Oldest
pub mod Handlers
pub mod Spared
mod Tests
use registry_ui_go.Base.{
  ℕ, zero, suc, Bool, true, false, List, [], ◌∷◌, ◌++◌, if◌then◌else◌, Text, ◌==◌, text_eq_instance,
  ◌||◌, not, contains, is_empty, any, update, ltb, leb, length, drop, sort, ℤ, pos, negsuc,
}
use registry_ui_go.Store.{Image}

-- The images of one digest: their tags, and the latest of their times.
pub record Group : Type 0 where
  pub digest : Text
  pub tags : List Text
  pub latest_at : ℕ

abbrev pub of_digest : Text → Group → Bool
of_digest digest g = g.digest == digest

-- `img.CreatedAt.After(g.latestAt)`
abbrev pub with_image : Image → Group → Group
with_image img g = record g {
  tags = g.tags ++ img.tag ∷ [];
  latest_at = if ltb g.latest_at img.created_at then img.created_at else g.latest_at;
}

-- A new group if there is none; the zero time is before every other.
unfoldable pub add_image : Image → List Group → List Group
add_image img groups =
    if any (of_digest img.digest) groups
    then update (of_digest img.digest) (with_image img) groups
    else groups ++ with_image img (record { digest = img.digest; tags = []; latest_at = 0 }) ∷ []

-- `img.Digest == "" || !registryTags[img.Tag]`
abbrev pub passed_over : List Text → Image → Bool
passed_over registry_tags img = is_empty img.digest || not (contains registry_tags img.tag)

unfoldable pub group_images : List Text → List Image → List Group → List Group
group_images registry_tags [] groups = groups
group_images registry_tags (img ∷ images) groups =
    group_images registry_tags images
      (if passed_over registry_tags img then groups else add_image img groups)

-- `list[i].latestAt.After(list[j].latestAt)`, for a stable sort: a group stays in front of those
-- that are no newer.
abbrev pub no_older : Group → Group → Bool
no_older g h = leb h.latest_at g.latest_at

unfoldable pub sorted_groups : (List Group → List Group) → List Text → List Image → List Group
sorted_groups order registry_tags images =
    sort no_older (order (group_images registry_tags images []))

unfoldable pub retention_candidates :
    (List Group → List Group) → List Image → ℤ → List Text → List Group
retention_candidates order images (negsuc n) registry_tags = []
retention_candidates order images (pos zero) registry_tags = []
retention_candidates order images (pos (suc n)) registry_tags =
    if leb (length (group_images registry_tags images [])) (suc n)
    then []
    else drop (suc n) (sorted_groups order registry_tags images)
