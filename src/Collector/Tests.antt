-- ===== src/Collector/Tests.antt =====
-- The collection at a small registry.
use registry_ui_go.Base.{
  List, arith, ℕ, ◌≡◌, refl, true, false, none, some, [], ◌∷◌, Text, codes, text_eq, count, find,
  contains, lookup, insert, keep, sort, place,
}
use registry_ui_go.Store.{Db, RecycleItem, Status}
use registry_ui_go.Store.Run.{on, add_audit}
use registry_ui_go.Store.Recycle.{list_all_pending_gc, delete_recycle_item}
use registry_ui_go.Samples.{empty_db}
use registry_ui_go.Registry.{Client, refused}
use registry_ui_go.Collector.Unread.{unread_tags_deleted}
use registry_ui_go.Registry.Table.{
  Tags, table_client, table_points_at, table_client-Documented, table_reads,
}
use registry_ui_go.Collector.{
  Gate, run_registry_gc, gc_items, sweep, process_gc_items, process_gc_item, examine, verified,
  unless_live, after_delete, forget, drop_stale, live_digests_for_repo, live_listed, live_of_tags,
  with_live,
}
use registry_ui_go.Collector.LiveTags.{run_registry_gc_keeps}
use registry_ui_go.Collector.Slot.{
  Phase, Guarded, start, onward, here, there, claim, shut, refuse, Reaches-Guarded,
}
use registry_ui_go.Collector.Parking.{refusals, worn, item_at, parked_after_five}

abbrev shown : Tags
shown = record { repo = codes "a/b"; tag = codes "v1"; digest = codes "d1" } ∷ []

abbrev binned : ℕ → Text → RecycleItem
binned id digest = record {
  id = id;
  repo = codes "a/b";
  reference = codes "old";
  digest = digest;
  content_type = [];
  manifest_body = [];
  status = Status.pending_gc;
  image_id = none;
  size = 0;
  deleted_at = 1;
  restored_at = none;
  attempts = 0;
}

abbrev two_items : Db
two_items = record empty_db { recycle_bin = binned 1 (codes "d1") ∷ binned 2 (codes "d2") ∷ [] }

collection : Unit {0}
unfolding run_registry_gc gc_items sweep process_gc_items process_gc_item examine verified
    unless_live after_delete forget drop_stale live_digests_for_repo live_listed live_of_tags
    with_live list_all_pending_gc delete_recycle_item on add_audit contains lookup insert keep sort
    place find text_eq
collection = tt

-- Both records go, and the live tag stays.
both_dropped : (run_registry_gc table_client true (two_items, shown)).0.deleted ≡ 2
unfolding collection
both_dropped = refl

run_registry_gc_keeps_example :
    table_points_at
      (codes "a/b")
      (codes "v1")
      (run_registry_gc table_client true (two_items, shown)).1.1
    ≡ some (codes "d1")
unfolding find text_eq
run_registry_gc_keeps_example =
    run_registry_gc_keeps table_client table_points_at table_client-Documented (codes "a/b")
      (codes "v1") (codes "d1") refl (table_reads (codes "a/b") (codes "v1") (codes "d1")) true
      (two_items, shown) refl

abbrev open_gate : Gate
open_gate = record { busy = false; running = false }

abbrev shut_gate : Gate
shut_gate = record { busy = true; running = true }

open_gate-Guarded : Guarded (Phase.idle ∷ Phase.idle ∷ []) open_gate
unfolding count
open_gate-Guarded = record { busy_counts = refl; running_counts = refl }

Reaches-Guarded_example : Guarded (Phase.collecting ∷ Phase.idle ∷ []) shut_gate
Reaches-Guarded_example =
    Reaches-Guarded (Phase.idle ∷ Phase.idle ∷ []) (Phase.collecting ∷ Phase.idle ∷ []) open_gate
      shut_gate open_gate-Guarded
      (onward (onward (onward start (here claim)) (here shut)) (there (here refuse)))

-- Five refusals with several statuses.
abbrev statuses : List ℕ
statuses = 405 ∷ 500 ∷ 405 ∷ 403 ∷ 405 ∷ []

parked_after_five_example :
    item_at 1
      (refusals table_client
        (binned 1 (codes "d1"))
        ([], 0)
        statuses
        (two_items, shown)).0.recycle_bin
    ≡ some (worn 5 (binned 1 (codes "d1")))
unfolding find
parked_after_five_example =
    parked_after_five table_client ([], 0) statuses (binned 1 (codes "d1")) (binned 1 (codes "d1"))
      (two_items, shown) (λ _. refl)
      (
        λ e. omega arith,
        (λ e. omega arith, (λ e. omega arith, (λ e. omega arith, (λ e. omega arith, tt)))),
      )
      refl

-- The same registry, whose digests cannot be read.
abbrev blind_client : Client Tags
blind_client = record table_client { digest = λ repo ref s. (refused 500, s) }

unread_tags_deleted_example :
    (process_gc_item blind_client (binned 1 (codes "d1")) ([], 0) (two_items, shown)).1.1
    ≡ (blind_client.delete_manifest
        (codes "a/b")
        (codes "d1")
        (live_digests_for_repo blind_client (codes "a/b") shown).1).1
unfolding lookup
unread_tags_deleted_example =
    unread_tags_deleted blind_client (binned 1 (codes "d1")) (λ _ _. tt) ([], 0) (two_items, shown)
      _ refl refl refl
