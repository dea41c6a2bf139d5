-- ===== src/Restore/Tests.antt =====
-- An item that goes back into the small registry.
use registry_ui_go.Base.{◌≡◌, refl, false, none, some, [], ◌∷◌, codes, arith, find}
use registry_ui_go.Samples.{two_users, root_user}
use registry_ui_go.Store.{ok, RecycleItem, Status}
use registry_ui_go.Store.Recycle.{get_recycle_item}
use registry_ui_go.Http.{Method}
use registry_ui_go.Registry.Table.{Tags, table_client, table_points_at}
use registry_ui_go.Deletion.Table.{as_content, table_client-PushDocumented}
use registry_ui_go.Proxy.{Gateway}
use registry_ui_go.Restore.{handle_recycle_by_id}
use registry_ui_go.Restore.Restored.{Restored, restore_path, handle_recycle_by_id-Restored}

abbrev kept : RecycleItem
kept = record {
  id = 1;
  repo = codes "team/app";
  reference = codes "v1";
  digest = codes "old";
  content_type = [];
  manifest_body = codes "old";
  status = Status.pending_gc;
  image_id = none;
  size = 0;
  deleted_at = 1;
  restored_at = none;
  attempts = 0;
}

abbrev bin : Gateway Tags
bin = record { db = record two_users { recycle_bin = kept ∷ [] }; registry = []; patterns = [] }

found : (get_recycle_item 1 bin.db).0 ≡ ok kept
unfolding get_recycle_item find
found = refl

handle_recycle_by_id-Restored_example :
    Restored table_client
      (λ s. false)
      (some root_user)
      table_points_at
      as_content
      table_client-PushDocumented
      1
      kept
      (get_recycle_item 1 bin.db).1
      (handle_recycle_by_id table_client
        (λ s. false)
        (some root_user)
        Method.post
        (restore_path 1)
        bin)
handle_recycle_by_id-Restored_example =
    handle_recycle_by_id-Restored table_client (λ s. false) (some root_user) table_points_at
      as_content table_client-PushDocumented 1 kept bin (ground arith) found
