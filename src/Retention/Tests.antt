-- ===== src/Retention/Tests.antt =====
-- Retention on three images of two digests.
use registry_ui_go.Base.{
  ℕ, some, cut, find, keep, ◌≡◌, refl, false, List, [], ◌∷◌, Text, codes, pos, All, inl, text_eq,
  any, update, contains, place, sort,
}
use registry_ui_go.Store.{Db, Image}
use registry_ui_go.Store.Run.{on}
use registry_ui_go.Store.Images.{list_images_by_repo}
use registry_ui_go.Store.Repositories.{
  upsert_namespace, insert_namespace, get_namespace, upsert_repository, insert_repository,
  get_repository_by_namespace_and_name,
}
use registry_ui_go.Samples.{empty_db, root_user}
use registry_ui_go.Registry.Table.{Tags, table_client, table_points_at, table_reads}
use registry_ui_go.Deletion.Records.{resolve_rid, resolve_repo}
use registry_ui_go.Deletion.Table.{as_content, table_client-PushDocumented, no_size}
use registry_ui_go.Retention.Handlers.{candidate_tags, candidates_of, tags_of, handle_retention_run}
use registry_ui_go.Retention.Spared.{handle_retention_run_spares}
use registry_ui_go.Retention.{Group, add_image, group_images, sorted_groups, retention_candidates}
use registry_ui_go.Retention.Oldest.{IsOrder, Listed, retention_candidates-Listed}

abbrev image : ℕ → Text → Text → ℕ → Image
image id tag digest created_at = record {
  id = id;
  repository_id = 1;
  tag = tag;
  digest = digest;
  content_type = [];
  size = 0;
  favorite = false;
  note = [];
  deleted = false;
  created_at = created_at;
}

abbrev images : List Image
images =
    image 1 (codes "v1") (codes "d1") 10
    ∷ image 2 (codes "v2") (codes "d2") 20
    ∷ image 3 (codes "old") (codes "d1") 5
    ∷ []

abbrev listed : List Text
listed = codes "v1" ∷ codes "v2" ∷ codes "old" ∷ []

abbrev as_is : List Group → List Group
as_is gs = gs

as_is-IsOrder : IsOrder as_is
as_is-IsOrder = record { same_length = λ gs. refl; same_members = λ gs g h. h }

abbrev first_digest : Group
first_digest = record { digest = codes "d1"; tags = codes "v1" ∷ codes "old" ∷ []; latest_at = 10 }

abbrev second_digest : Group
second_digest = record { digest = codes "d2"; tags = codes "v2" ∷ []; latest_at = 20 }

grouping : Unit {0}
unfolding retention_candidates sorted_groups group_images add_image text_eq any update contains
    place sort
grouping = tt

oldest_goes : retention_candidates as_is images (pos 1) listed ≡ first_digest ∷ []
unfolding grouping
oldest_goes = refl

retention_candidates-Listed_example :
    All (Listed listed images first_digest.digest) first_digest.tags
unfolding grouping
retention_candidates-Listed_example =
    retention_candidates-Listed as_is images (pos 1) listed first_digest as_is-IsOrder (inl refl)

abbrev stored : Db
stored = record empty_db {
  images = image 1 (codes "v1") (codes "d1") 10 ∷ image 2 (codes "v2") (codes "d2") 20 ∷ [];
}

abbrev shown : Tags
shown =
    record { repo = codes "a/b"; tag = codes "v1"; digest = codes "d1" }
    ∷ record { repo = codes "a/b"; tag = codes "v2"; digest = codes "d2" }
    ∷ []

candidates : Unit {0}
unfolding grouping candidate_tags candidates_of tags_of resolve_rid resolve_repo upsert_namespace
    insert_namespace get_namespace upsert_repository insert_repository
    get_repository_by_namespace_and_name list_images_by_repo on cut find keep
candidates = tt

only_the_oldest :
    (candidate_tags as_is (codes "a/b") (pos 1) (codes "v1" ∷ codes "v2" ∷ []) stored).0
    ≡ codes "v1" ∷ []
unfolding candidates
only_the_oldest = refl

handle_retention_run_spares_example :
    table_points_at
      (codes "a/b")
      (codes "v2")
      (handle_retention_run table_client no_size as_is
        (some root_user)
        (codes "a/b")
        (some (pos 1))
        (stored, shown)).1.1
    ≡ some (codes "d2")
unfolding candidates
handle_retention_run_spares_example =
    handle_retention_run_spares table_client table_points_at as_content table_client-PushDocumented
      no_size (λ repo body other tag s. refl) (codes "a/b") (codes "v2") (codes "d2")
      (table_reads (codes "a/b") (codes "v2") (codes "d2")) (λ content_type body s. refl)
      (λ d s e. cc) (λ s. (_, refl)) as_is (some root_user) 0 (codes "v1" ∷ codes "v2" ∷ [])
      (stored, shown) refl refl refl
