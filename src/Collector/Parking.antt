-- ===== src/Collector/Parking.antt =====
-- The attempts of an item, and when it is parked.
use registry_ui_go.Base.{
  ℕ, ◌+◌, ◌≡◌, refl, ◌∙◌, ap, false, Option, some, List, [], ◌∷◌, if◌then◌else◌, arith, ◌==◌,
  nat_eq_instance, ◌&&◌, find, update, ltb, leb, All, length, nat_eq, ◌≢◌,
}
use registry_ui_go.Store.{Db, RecycleItem, Status}
use registry_ui_go.Store.Run.{on}
use registry_ui_go.Store.Recycle.{
  mark_recycle_gc_failure, count_attempt, park, is_exhausted, is_pending,
}
use registry_ui_go.Registry.{refused, Client}
use registry_ui_go.Collector.{Carried, after_delete, record_gc_failure, gc_max_attempts}

-- The row that an item has after so many more failures, the limit being 5.
abbrev pub after_failure : RecycleItem → RecycleItem
after_failure i = record i {
  attempts = i.attempts + 1;
  status = if is_pending i.status && leb 5 (i.attempts + 1) then Status.gc_failed else i.status;
}

abbrev pub item_at : ℕ → List RecycleItem → Option RecycleItem
item_at id rows = find (λ i. i.id == id) rows

failed_rows :
    (id : ℕ) (i : RecycleItem) (rows : List RecycleItem)
    → item_at id rows ≡ some i
    → item_at id (
        update
          (is_exhausted id 5)
          (λ i. record i { status = Status.gc_failed })
          (update (λ i. i.id == id) (λ i. record i { attempts = i.attempts + 1 }) rows))
      ≡ some (after_failure i)
unfolding find update
failed_rows id i [] h = cc
failed_rows id i (r ∷ rows) h = ground (arith, failed_rows id i rows)

-- No statement fails.
abbrev pub Works : Db → Type 0
Works d = (n : ℕ) → d.fails n ≡ false

mark_lem :
    (id : ℕ) (i : RecycleItem) (d : Db)
    → Works d
    → item_at id d.recycle_bin ≡ some i
    → item_at id (mark_recycle_gc_failure id gc_max_attempts d).1.recycle_bin
      ≡ some (after_failure i)
unfolding mark_recycle_gc_failure on count_attempt park
mark_lem id i d works h =
    rw (works d.clock) (rw (works (d.clock + 1)) (failed_rows id i d.recycle_bin h))

mark-Works : (id : ℕ) (d : Db) → Works d → Works (mark_recycle_gc_failure id gc_max_attempts d).1
unfolding mark_recycle_gc_failure on count_attempt park
mark-Works id d works n = rw (works d.clock) (rw (works (d.clock + 1)) (works n))

-- A pending item after k failures, counted from none.
abbrev pub worn : ℕ → RecycleItem → RecycleItem
worn k i = record i {
  attempts = k;
  status = if ltb k 5 then Status.pending_gc else Status.gc_failed;
}

worn_next : (k : ℕ) (i : RecycleItem) → after_failure (worn k i) ≡ worn (k + 1) i
worn_next k i = ground arith

differs : (status : ℕ) → status ≢ 404 → nat_eq status 404 ≡ false
differs status other = ground arith

module _ {S : Type 0} (client : Client S) (item : RecycleItem) (acc : Carried client) where
  -- Runs in which the registry refuses to delete the item's manifest, with these statuses in turn.
  pub refusals : List ℕ → Db × S → Db × S
  refusals [] w = w
  refusals (status ∷ later) w = refusals later (after_delete client item (refused status) acc w).1

  refusal_lem :
      (status : ℕ) (w : Db × S)
      → status ≢ 404
      → (after_delete client item (refused status) acc w).1
        ≡ ((mark_recycle_gc_failure item.id gc_max_attempts w.0).1, w.1)
  unfolding after_delete record_gc_failure
  refusal_lem status w other = rw (differs status other) refl

  refusals_lem :
      (statuses : List ℕ) (k : ℕ) (i : RecycleItem) (w : Db × S)
      → Works w.0
      → All (λ status. status ≢ 404) statuses
      → item_at item.id w.0.recycle_bin ≡ some (worn k i)
      → item_at item.id (refusals statuses w).0.recycle_bin ≡ some (worn (k + length statuses) i)
  unfolding refusals
  refusals_lem [] k i w works others h = h ∙ ap (λ n. some (worn n i)) (omega arith)
  refusals_lem (status ∷ later) k i w works (other, others) h =
      ap (λ v. item_at item.id (refusals later v).0.recycle_bin) (refusal_lem status w other)
      ∙ (refusals_lem later (k + 1) i _ (mark-Works item.id w.0 works) others
            (mark_lem item.id (worn k i) w.0 works h ∙ ap some (worn_next k i))
          ∙ ap (λ n. some (worn n i)) (omega arith))

-- While no statement fails, and while the registry refuses to delete the item's manifest with any
-- statuses but 404, in any order: a pending item with no failure yet is still pending after fewer
-- than five refusals, and parked as gc_failed from the fifth on, and its attempts are the number of
-- the refusals.
pub parked_after_five :
    {S : Type 0} (client : Client S) (acc : Carried client) (statuses : List ℕ)
    (item i : RecycleItem) (w : Db × S)
    → Works w.0
    → All (λ status. status ≢ 404) statuses
    → item_at item.id w.0.recycle_bin ≡ some (worn 0 i)
    → item_at item.id (refusals client item acc statuses w).0.recycle_bin
      ≡ some (worn (length statuses) i)
parked_after_five client acc statuses item i w works others h =
    refusals_lem client item acc statuses 0 i w works others h
    ∙ ap (λ n. some (worn n i)) (omega arith)
