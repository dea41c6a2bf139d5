-- ===== src/Restore.antt =====
-- backend/internal/server/recycle.go: the recycle bin as a user sees it, the removal of an item, and
-- its restoring into the registry. Whether the registry's last error names MANIFEST_BLOB_UNKNOWN is
-- the parameter `blob_unknown`.
pub mod Marked
pub mod Restored
mod Tests
use registry_ui_go.Base.{
  ℕ, zero, suc, ◌+◌, Bool, true, false, Option, none, some, List, [], ◌∷◌, if◌then◌else◌, Text,
  codes, ◌==◌, text_eq_instance, ◌&&◌, not, is_empty, trim_prefix, split, atoi, ℤ, pos, negsuc, leb,
}
use registry_ui_go.Store.{User, Result, ok, err, no_rows, RecycleItem}
use registry_ui_go.Store.Run.{M, on, query, pure, ◌>>◌, ◌>>=◌, add_audit}
use registry_ui_go.Store.Recycle.{
  is_pending, add_recycle_item, get_recycle_item, delete_recycle_item, mark_recycle_restored,
  mark_recycle_gc_expired, list_recycle_items,
}
use registry_ui_go.Store.Images.{sync_image}
use registry_ui_go.Http.{Method, Response, reply, audit}
use registry_ui_go.Access.{user_can_access_repo, user_can_write_repo}
use registry_ui_go.Deletion.Records.{resolve_rid}
use registry_ui_go.Deletion.Snapshot.{snapshot_item}
use registry_ui_go.Registry.{Answer, answered, refused, unreachable, Manifest, Client}
use registry_ui_go.Proxy.{Gateway, P, give, stored, asked, ◌~>◌, ◌~◌}

-- The items of the repositories that the user may read.
unfoldable pub filter_items : Option User → List RecycleItem → M (List RecycleItem)
filter_items user [] d = ([], d)
filter_items user (item ∷ items) d =
    let allowed = user_can_access_repo user item.repo d in
    let rest = filter_items user items allowed.1 in
    (if allowed.0 then item ∷ rest.0 else rest.0, rest.1)

-- `n > 0 && n <= 500`, else 100
abbrev pub limit_of : Option ℤ → ℕ
limit_of (some (pos (suc n))) = if leb (suc n) 500 then suc n else 100
limit_of _ = 100

-- handleRecycle: the answer, and the items that it lists
unfoldable pub handle_recycle : Method → Option User → Text → Text → M (Response × List RecycleItem)
handle_recycle Method.get user include_restored limit =
    on (list_recycle_items (include_restored == codes "true") (limit_of (atoi limit)))
      (λ _. pure (reply 500 (codes "error"), []))
      (λ items. filter_items user items >>= (λ shown. pure (reply 200 [], shown)))
handle_recycle _ user include_restored limit = pure (reply 405 (codes "method not allowed"), [])

module _ {S : Type 0} (client : Client S) (blob_unknown : S → Bool) (user : Option User) where
  abbrev pub say : ℕ → Text → P S Response
  say status error = give (reply status error)

  -- The access to the item's repository, then the right to write there.
  unfoldable pub if_written : P S Response → Bool → P S Response
  if_written k b = if b then k else say 403 (codes "forbidden")

  unfoldable pub if_accessed : Text → P S Response → Bool → P S Response
  if_accessed repo k b =
      if b
      then stored (user_can_write_repo user repo) ~> if_written k
      else say 403 (codes "forbidden")

  unfoldable pub with_rights : Text → P S Response → P S Response
  with_rights repo k = stored (user_can_access_repo user repo) ~> if_accessed repo k

  abbrev pub audit_item : Text → RecycleItem → Text → P S (Result (Unit {0}))
  audit_item action item status =
      stored (add_audit (audit user action item.repo item.reference item.digest status))

  unfoldable pub discarded : RecycleItem → Result (Unit {0}) → P S Response
  discarded item (err e) = say 500 (codes "error")
  discarded item (ok x) = audit_item (codes "recycle.delete") item (codes "ok") ~ say 200 []

  unfoldable pub discard : ℕ → Result RecycleItem → P S Response
  discard id (err e) = say 404 (codes "error")
  discard id (ok item) = with_rights item.repo (stored (delete_recycle_item id) ~> discarded item)

  -- The manifest that the tag has by now goes to the bin.
  unfoldable pub keep_current : RecycleItem → Answer Manifest → M (Result (Unit {0}))
  keep_current item (answered raw) =
      if is_empty raw.digest
      then pure (ok tt)
      else add_recycle_item (snapshot_item item.repo item.reference raw.digest raw 0 none)
  keep_current item _ = pure (ok tt)

  unfoldable pub if_moved : RecycleItem → Answer Text → P S (Result (Unit {0}))
  if_moved item (answered current) =
      if not (is_empty current) && not (current == item.digest)
      then asked (client.manifest_raw item.repo item.reference)
        ~> (λ raw. stored (keep_current item raw))
      else give (ok tt)
  if_moved item _ = give (ok tt)

  unfoldable pub sync_restored : RecycleItem → ℕ → M (Result (Unit {0}))
  sync_restored item zero = pure (ok tt)
  sync_restored item (suc n) =
      sync_image (suc n) item.reference item.digest item.content_type item.size

  unfoldable pub restored_row : RecycleItem → Result (Unit {0}) → P S Response
  restored_row item (err e) = say 500 (codes "error")
  restored_row item (ok x) =
      (stored (resolve_rid item.repo) ~> (λ rid. stored (sync_restored item rid)))
      ~ audit_item (codes "recycle.restore") item (codes "ok")
      ~ say 200 []

  unfoldable pub push_refused : ℕ → Bool → P S Response
  push_refused id true = stored (mark_recycle_gc_expired id) ~ say 410 (codes "gc_expired")
  push_refused id false = say 502 (codes "error")

  unfoldable pub push_failed : ℕ → RecycleItem → P S Response
  push_failed id item g =
      (audit_item (codes "recycle.restore") item (codes "error")
          ~ push_refused id (blob_unknown g.registry))
        g

  unfoldable pub pushed : ℕ → RecycleItem → Answer (Unit {0}) → P S Response
  pushed id item (answered x) = stored (mark_recycle_restored id) ~> restored_row item
  pushed id item _ = push_failed id item

  unfoldable pub push_item : ℕ → RecycleItem → P S Response
  push_item id item =
      (asked (client.digest item.repo item.reference) ~> if_moved item)
      ~ (asked (client.put_manifest item.repo item.reference item.content_type item.manifest_body)
          ~> pushed id item)

  unfoldable pub if_pending : ℕ → RecycleItem → P S Response
  if_pending id item =
      if is_pending item.status
      then push_item id item
      else say 409 (codes "recycle item is not pending_gc")

  unfoldable pub restore : ℕ → Result RecycleItem → P S Response
  restore id (err e) = say 404 (codes "error")
  restore id (ok item) = with_rights item.repo (if_pending id item)

  unfoldable pub item_of : ℤ → M (Result RecycleItem)
  item_of (pos id) = get_recycle_item id
  item_of (negsuc n) = query (λ d. err no_rows)

  abbrev pub number : ℤ → ℕ
  number (pos id) = id
  number (negsuc n) = 0

  unfoldable pub discard_by : Method → ℤ → P S Response
  discard_by Method.delete id = stored (item_of id) ~> discard (number id)
  discard_by _ id = say 404 (codes "404 page not found")

  unfoldable pub restore_by : Method → ℤ → P S Response
  restore_by Method.post id = stored (item_of id) ~> restore (number id)
  restore_by _ id = say 404 (codes "404 page not found")

  unfoldable pub by_rest : Method → ℤ → List Text → P S Response
  by_rest method id [] = discard_by method id
  by_rest method id (word ∷ []) =
      if word == codes "restore" then restore_by method id else say 404 (codes "404 page not found")
  by_rest method id (word ∷ more ∷ rest) = say 404 (codes "404 page not found")

  unfoldable pub by_number : Method → Option ℤ → List Text → P S Response
  by_number method none rest = say 404 (codes "404 page not found")
  by_number method (some id) rest = by_rest method id rest

  unfoldable pub by_parts : Method → List Text → P S Response
  by_parts method [] = say 404 (codes "404 page not found")
  by_parts method (head ∷ rest) =
      if is_empty head
      then say 404 (codes "404 page not found")
      else by_number method (atoi head) rest

  -- handleRecycleByID
  unfoldable pub handle_recycle_by_id : Method → Text → P S Response
  handle_recycle_by_id method path =
      by_parts method (split (trim_prefix path (codes "/api/recycle/")) (codes "/"))
