-- ===== src/Store/Recycle.antt =====
-- store.go: the recycle bin, UNIQUE in (repo, reference, digest). The `attempts` of an item count the
-- failures of its removal; the text of the last failure is left out.
use registry_ui_go.Base.{
  ℕ, zero, suc, ◌+◌, ◌*◌, Bool, true, false, none, some, List, [], ◌∷◌, ◌++◌, if◌then◌else◌, Text,
  ◌==◌, nat_eq_instance, text_eq_instance, ◌&&◌, not, any, find, update, keep, ltb, leb, sort, take,
  ◌||◌,
}
use registry_ui_go.Store.{Result, ok, err, invalid_setting, Status, RecycleItem}
use registry_ui_go.Store.Run.{M, statement, query, execute, row, on, pure}

abbrev pub is_pending : Status → Bool
is_pending Status.pending_gc = true
is_pending _ = false

abbrev pub is_restored : Status → Bool
is_restored Status.restored = true
is_restored _ = false

abbrev pub same_item : RecycleItem → RecycleItem → Bool
same_item item i = i.repo == item.repo && i.reference == item.reference && i.digest == item.digest

-- The DO UPDATE of AddRecycleItem. The attempts stay, and so does the time, unless it was restored.
abbrev pub renewed : ℕ → RecycleItem → RecycleItem → RecycleItem
renewed now item i = record i {
  content_type = item.content_type;
  manifest_body = item.manifest_body;
  size = item.size;
  status = Status.pending_gc;
  deleted_at = if is_restored i.status then now else i.deleted_at;
  restored_at = none;
  image_id = item.image_id;
}

unfoldable pub add_recycle_item : RecycleItem → M (Result (Unit {0}))
add_recycle_item item = execute λ d.
    if any (same_item item) d.recycle_bin
    then record d { recycle_bin = update (same_item item) (renewed d.now item) d.recycle_bin }
    else record d {
      recycle_bin =
          d.recycle_bin
          ++ record item {
            id = d.next_recycle;
            status = Status.pending_gc;
            deleted_at = d.now;
            restored_at = none;
            attempts = 0;
          }
            ∷ [];
      next_recycle = d.next_recycle + 1;
    }

unfoldable pub delete_pending_gc_by_repo_ref : Text → Text → M (Result (Unit {0}))
delete_pending_gc_by_repo_ref repo ref = execute λ d. record d {
  recycle_bin =
      keep (λ i. not (is_pending i.status && i.repo == repo && i.reference == ref)) d.recycle_bin;
}

unfoldable pub get_recycle_item : ℕ → M (Result RecycleItem)
get_recycle_item id = query (λ d. row (find (λ i. i.id == id) d.recycle_bin))

unfoldable pub delete_recycle_item : ℕ → M (Result (Unit {0}))
delete_recycle_item id =
    execute λ d. record d { recycle_bin = keep (λ i. not (i.id == id)) d.recycle_bin }

unfoldable pub mark_recycle_restored : ℕ → M (Result (Unit {0}))
mark_recycle_restored id = execute λ d. record d {
  recycle_bin =
      update (λ i. i.id == id)
        (λ i. record i { status = Status.restored; restored_at = some d.now }) d.recycle_bin;
}

unfoldable pub mark_recycle_gc_expired : ℕ → M (Result (Unit {0}))
mark_recycle_gc_expired id = execute λ d. record d {
  recycle_bin =
      update (λ i. i.id == id) (λ i. record i { status = Status.gc_expired }) d.recycle_bin;
}

abbrev pub earlier : RecycleItem → RecycleItem → Bool
earlier i j = leb i.deleted_at j.deleted_at

-- `deleted_at < datetime('now', '-<days> days')`
abbrev pub is_due : ℕ → ℕ → RecycleItem → Bool
is_due now days i = is_pending i.status && ltb (i.deleted_at + days * 86400) now

unfoldable pub list_pending_gc : ℕ → M (Result (List RecycleItem))
list_pending_gc zero = pure (err invalid_setting)
list_pending_gc (suc n) = query (λ d. ok (sort earlier (keep (is_due d.now (suc n)) d.recycle_bin)))

unfoldable pub list_all_pending_gc : M (Result (List RecycleItem))
list_all_pending_gc = query (λ d. ok (sort earlier (keep (λ i. is_pending i.status) d.recycle_bin)))

-- The two UPDATEs of MarkRecycleGCFailure; the second says whether it parked the item.
unfoldable pub count_attempt : ℕ → M (Result (Unit {0}))
count_attempt id = execute λ d. record d {
  recycle_bin =
      update (λ i. i.id == id) (λ i. record i { attempts = i.attempts + 1 }) d.recycle_bin;
}

abbrev pub is_exhausted : ℕ → ℕ → RecycleItem → Bool
is_exhausted id max_attempts i = i.id == id && is_pending i.status && leb max_attempts i.attempts

unfoldable pub park : ℕ → ℕ → M (Result Bool)
park id max_attempts = statement λ d. ok (
  any (is_exhausted id max_attempts) d.recycle_bin,
  record d {
    recycle_bin =
        update (is_exhausted id max_attempts) (λ i. record i { status = Status.gc_failed })
          d.recycle_bin;
  },
)

-- `if maxAttempts <= 0 { maxAttempts = 5 }`
abbrev pub attempt_limit : ℕ → ℕ
attempt_limit zero = 5
attempt_limit (suc n) = suc n

unfoldable pub mark_recycle_gc_failure : ℕ → ℕ → M (Result Bool)
mark_recycle_gc_failure id max_attempts =
    on (count_attempt id) (λ e. pure (err e)) (λ _. park id (attempt_limit max_attempts))

-- `ORDER BY deleted_at DESC, id DESC`
abbrev pub later_first : RecycleItem → RecycleItem → Bool
later_first x y = ltb y.deleted_at x.deleted_at || (x.deleted_at == y.deleted_at && leb y.id x.id)

abbrev pub list_limit : ℕ → ℕ
list_limit limit = if limit == 0 || ltb 500 limit then 100 else limit

-- ListRecycleItems; the bodies of the manifests, which it does not read, are left as they are.
unfoldable pub list_recycle_items : Bool → ℕ → M (Result (List RecycleItem))
list_recycle_items include_restored limit = query λ d. ok (
    take (list_limit limit)
      (sort later_first (keep (λ i. include_restored || not (is_restored i.status)) d.recycle_bin)))
