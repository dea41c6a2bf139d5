-- ===== src/Collector.antt =====
-- server.go: the collection of the recycle bin. The registry is the parameter `client`, and the
-- external `registry garbage-collect` the parameter `blob_gc`.
pub mod LiveTags
pub mod Slot
pub mod Parking
pub mod Unread
mod Tests
use registry_ui_go.Base.{
  ℕ, zero, suc, ◌+◌, Bool, true, false, Option, none, some, List, [], ◌∷◌, if◌then◌else◌, Text,
  codes, ◌==◌, nat_eq_instance, text_eq_instance, contains, is_empty, lookup, insert, ℤ, pos,
  negsuc, not, ltz,
}
use registry_ui_go.Store.{Db, DbError, Result, ok, err, RecycleItem, User}
use registry_ui_go.Store.Run.{M, on, pure, add_audit, ◌>>◌, ◌>>=◌}
use registry_ui_go.Store.Settings.{get_setting_int}
use registry_ui_go.Store.Recycle.{
  delete_recycle_item, list_pending_gc, list_all_pending_gc, mark_recycle_gc_failure,
}
use registry_ui_go.Http.{Method, Response, reply, audit}
use registry_ui_go.Registry.{Answer, answered, refused, unreachable, Client}

abbrev pub gc_max_attempts : ℕ
gc_max_attempts = 5

-- recordGCFailure: a failure counts if the registry answered.
unfoldable pub record_gc_failure : RecycleItem → Answer (Unit {0}) → M (Unit {0})
record_gc_failure item unreachable = pure tt
record_gc_failure item (answered a) = pure tt
record_gc_failure item (refused status) = mark_recycle_gc_failure item.id gc_max_attempts >> pure tt

-- DeleteRecycleItem, after which `deleted` grows unless it failed.
unfoldable pub drop_stale : RecycleItem → ℕ → M ℕ
drop_stale item n = on (delete_recycle_item item.id) (λ _. pure n) (λ _. pure (n + 1))

-- The end of the loop's body: the row goes, and an entry says so.
unfoldable pub forget : RecycleItem → ℕ → M ℕ
forget item n =
    on (delete_recycle_item item.id) (λ _. pure n)
      λ _. do
        add_audit (audit none (codes "gc.delete") item.repo item.reference item.digest (codes "ok"))
        pure (n + 1)

-- The digests found live in the repositories that were looked at in this run.
abbrev pub LiveCache : Type 0
LiveCache = List (Text × List Text)

-- The digest of one tag joins the live ones; a read that failed adds none.
unfoldable pub with_live : Answer Text → List Text → List Text
with_live (answered d) live = if is_empty d then live else d ∷ live
with_live _ live = live

module _ {S : Type 0} (client : Client S) where
  unfoldable pub live_of_tags : Text → List Text → S → List Text × S
  live_of_tags repo [] s = ([], s)
  live_of_tags repo (tag ∷ tags) s =
      let d = client.digest repo tag s in
      let rest = live_of_tags repo tags d.1 in (with_live d.0 rest.0, rest.1)

  unfoldable pub live_listed : Text → Answer (List Text) → S → Answer (List Text) × S
  live_listed repo (answered tags) s = let r = live_of_tags repo tags s in (answered r.0, r.1)
  live_listed repo (refused status) s = (refused status, s)
  live_listed repo unreachable s = (unreachable, s)

  unfoldable pub live_digests_for_repo : Text → S → Answer (List Text) × S
  live_digests_for_repo repo s = let r = client.tags repo s in live_listed repo r.0 r.1

  -- What the loop of processGCItems carries: liveCache and deleted; and what it works on.
  abbrev pub Carried : Type 0
  Carried = LiveCache × ℕ

  abbrev pub World : Type 0
  World = Db × S

  -- A statement on the database that makes the new `deleted`.
  abbrev pub counting : LiveCache → M ℕ → World → Carried × World
  counting cache m w = let r = m w.0 in ((cache, r.0), (r.1, w.1))

  abbrev pub failed : RecycleItem → Answer (Unit {0}) → Carried → World → Carried × World
  failed item a acc w = (acc, ((record_gc_failure item a w.0).1, w.1))

  unfoldable pub after_delete : RecycleItem → Answer (Unit {0}) → Carried → World → Carried × World
  after_delete item (answered a) acc w = counting acc.0 (forget item acc.1) w
  after_delete item (refused status) acc w =
      if status == 404
      then counting acc.0 (forget item acc.1) w
      else failed item (refused status) acc w
  after_delete item unreachable acc w = failed item unreachable acc w

  -- `live[item.Digest]` decides between a stale record and a removal.
  unfoldable pub unless_live : RecycleItem → List Text → Carried → World → Carried × World
  unless_live item live acc w =
      if contains live item.digest
      then counting acc.0 (drop_stale item acc.1) w
      else (let r = client.delete_manifest item.repo item.digest w.1 in
          after_delete item r.0 acc (w.0, r.1))

  -- A repository that is gone has no live digest; any other refusal leaves the item for later.
  unfoldable pub verified : RecycleItem → Answer (List Text) → Carried → World → Carried × World
  verified item (answered live) acc w = unless_live item live (insert item.repo live acc.0, acc.1) w
  verified item (refused status) acc w =
      if status == 404
      then unless_live item [] (insert item.repo [] acc.0, acc.1) w
      else failed item (refused status) acc w
  verified item unreachable acc w = failed item unreachable acc w

  unfoldable pub examine : RecycleItem → Option (List Text) → Carried → World → Carried × World
  examine item (some live) acc w = unless_live item live acc w
  examine item none acc w =
      let r = live_digests_for_repo item.repo w.1 in verified item r.0 acc (w.0, r.1)

  -- The body of the loop; an item without a digest is dropped, whether that works or not.
  unfoldable pub process_gc_item : RecycleItem → Carried → World → Carried × World
  process_gc_item item acc w =
      if is_empty item.digest
      then ((acc.0, acc.1 + 1), ((delete_recycle_item item.id w.0).1, w.1))
      else examine item (lookup item.repo acc.0) acc w

  unfoldable pub process_gc_items : List RecycleItem → Carried → World → Carried × World
  process_gc_items [] acc w = (acc, w)
  process_gc_items (item ∷ items) acc w =
      let r = process_gc_item item acc w in process_gc_items items r.0 r.1

-- gcRetentionDays: `none` where the collection is switched off
abbrev pub window : ℤ → Option ℕ
window (pos zero) = none
window (pos (suc n)) = some (suc n)
window (negsuc n) = some 30

unfoldable pub gc_retention_days : M (Option ℕ)
gc_retention_days = get_setting_int (codes "recycleGCDays") (pos 30) >>= (λ n. pure (window n))

-- The items of a run: `none` for a run that is skipped.
unfoldable pub due : Option ℕ → M (Option (Result (List RecycleItem)))
due none = pure none
due (some days) = list_pending_gc days >>= (λ r. pure (some r))

unfoldable pub gc_items : Bool → M (Option (Result (List RecycleItem)))
gc_items all =
    if all then list_all_pending_gc >>= (λ r. pure (some r)) else gc_retention_days >>= due

-- What RunGC reports of the sweep: the number, whether it was skipped, whether it failed.
pub record Swept : Type 0 where
  pub deleted : ℕ
  pub skipped : Bool
  pub broken : Bool

abbrev pub swept : ℕ → Bool → Bool → Swept
swept deleted skipped broken = record { deleted = deleted; skipped = skipped; broken = broken }

module _ {S : Type 0} (client : Client S) where
  unfoldable pub sweep : Option (Result (List RecycleItem)) → Db × S → Swept × (Db × S)
  sweep none w = (swept 0 true false, w)
  sweep (some (err e)) w = (swept 0 false true, w)
  sweep (some (ok items)) w =
      let r = process_gc_items client items ([], 0) w in (swept r.0.1 false false, r.1)

  unfoldable pub run_registry_gc : Bool → Db × S → Swept × (Db × S)
  run_registry_gc all w = let r = gc_items all w.0 in sweep r.0 (r.1, w.1)

-- gcBusy and gcRunning
pub record Gate : Type 0 where
  pub busy : Bool
  pub running : Bool

-- beginGC: `none` is errGCAlreadyRunning
unfoldable pub begin_gc : Gate → Option Gate
begin_gc g = if g.busy then none else some (record g { busy = true; running = true })

unfoldable pub end_gc : Gate → Gate
end_gc g = record g { busy = false; running = false }

pub record GcResult : Type 0 where
  pub metadata_deleted : ℕ
  pub skipped : Bool
  pub metadata_error : Bool
  pub blob_deleted : ℕ
  pub blob_error : Bool
  pub is_busy : Bool

abbrev pub refusal : Bool → GcResult
refusal is_busy = record {
  metadata_deleted = 0;
  skipped = false;
  metadata_error = true;
  blob_deleted = 0;
  blob_error = false;
  is_busy = is_busy;
}

module _ {S : Type 0} (client : Client S) (blob_gc : Gate → S → Option ℕ × S) where
  -- The blobs go after the metadata, the gate still shut; `none` is an error of the process.
  unfoldable pub combine : Swept → Option ℕ → GcResult
  combine m none = record (refusal false) {
    metadata_deleted = m.deleted;
    skipped = m.skipped;
    metadata_error = m.broken;
    blob_error = true;
  }
  combine m (some n) = record (refusal false) {
    metadata_deleted = m.deleted;
    skipped = m.skipped;
    metadata_error = m.broken;
    blob_deleted = n;
  }

  -- `drained` is false where the context ends during the drain delay.
  unfoldable pub run_within : Bool → Bool → Gate → Db × S → GcResult × (Db × S)
  run_within drained all g w =
      if drained
      then (let m = run_registry_gc client all w in
          let b = blob_gc g m.1.1 in (combine m.0 b.0, (m.1.0, b.1)))
      else (refusal false, w)

  unfoldable pub run_gc_from :
      Bool → Bool → Option Gate → Gate → Db × S → GcResult × Gate × (Db × S)
  run_gc_from drained all none g w = (refusal true, g, w)
  run_gc_from drained all (some g') g w =
      let r = run_within drained all g' w in (r.0, end_gc g', r.1)

  unfoldable pub run_gc : Bool → Bool → Gate → Db × S → GcResult × Gate × (Db × S)
  run_gc drained all g w = run_gc_from drained all (begin_gc g) g w

  -- The end of handleGCRun.
  unfoldable pub gc_answer : Option User → GcResult → M Response
  gc_answer caller res =
      if res.metadata_error
      then pure (reply (if res.is_busy then 409 else 500) (codes "error"))
      else add_audit (audit caller (codes "gc.run") [] [] [] (codes "ok")) >> pure (reply 200 [])

  abbrev pub may_collect : Option User → Bool
  may_collect none = true
  may_collect (some u) = u.is_admin

  unfoldable pub collect_answered :
      Option User → GcResult × Gate × (Db × S) → Response × Gate × (Db × S)
  collect_answered caller (res, g, w) = let r = gc_answer caller res w.0 in (r.0, g, (r.1, w.1))

  unfoldable pub gc_run_by_method :
      Method → Option User → Bool → Bool → Gate → Db × S → Response × Gate × (Db × S)
  gc_run_by_method Method.post caller drained all g w =
      if may_collect caller
      then collect_answered caller (run_gc drained all g w)
      else (reply 403 (codes "forbidden"), g, w)
  gc_run_by_method _ caller drained all g w = (reply 405 (codes "method not allowed"), g, w)

  unfoldable pub handle_gc_run :
      Method → Option User → Bool → Bool → Gate → Db × S → Response × Gate × (Db × S)
  handle_gc_run method caller drained all g w = gc_run_by_method method caller drained all g w
