-- ===== src/Deletion/Tests.antt =====
-- Deleting one of two tags of a digest.
use registry_ui_go.Base.{◌≡◌, refl, some, [], ◌∷◌, codes, find, keep, contains, text_eq}
use registry_ui_go.Samples.{empty_db, root_user}
use registry_ui_go.Registry.Table.{Tags, table_client, table_points_at, table_reads}
use registry_ui_go.Deletion.{delete_tags_aware}
use registry_ui_go.Deletion.Survivors.{delete_tags_aware_spares}
use registry_ui_go.Deletion.Table.{as_content, table_client-PushDocumented, no_size}

abbrev siblings : Tags
siblings =
    record { repo = codes "a/b"; tag = codes "v1"; digest = codes "d1" }
    ∷ record { repo = codes "a/b"; tag = codes "latest"; digest = codes "d1" }
    ∷ []

delete_tags_aware_spares_example :
    table_points_at
      (codes "a/b")
      (codes "latest")
      (delete_tags_aware table_client
        (codes "a/b")
        no_size
        (some root_user)
        (codes "v1" ∷ [])
        (empty_db, siblings)).1.1
    ≡ some (codes "d1")
unfolding find keep contains text_eq
delete_tags_aware_spares_example =
    delete_tags_aware_spares table_client table_points_at as_content table_client-PushDocumented
      no_size (λ repo body other tag s. refl) (codes "a/b") (codes "latest") (codes "d1")
      (table_reads (codes "a/b") (codes "latest") (codes "d1")) (λ content_type body s. refl)
      (λ d s e. cc) (some root_user) (codes "v1" ∷ []) (codes "v1" ∷ codes "latest" ∷ [])
      (empty_db, siblings) refl refl refl
