-- ===== src/Restore/Restored.antt =====
-- What holds after an item of the recycle bin was restored.
use registry_ui_go.Base.{
  ℕ, ◌<◌, ◌^◌, ◌≡◌, refl, ◌∙◌, sym, ap, subst, Bool, true, false, Option, some, [], ◌∷◌, ◌++◌,
  if_cases, Text, codes, itoa, atoi, split, trim_prefix, nat_eq_instance, arith, pos, is_empty,
  text_eq_refl, text_eq_instance, trim_prefix-append, split_joined, itoa-NoneOf, atoi-itoa,
}
use registry_ui_go.Store.{Db, User, Result, ok, err, RecycleItem}
use registry_ui_go.Store.Run.{◌>>=◌}
use registry_ui_go.Store.Recycle.{is_pending, get_recycle_item, mark_recycle_restored}
use registry_ui_go.Http.{Method, Response, audit}
use registry_ui_go.Access.{user_can_access_repo, user_can_write_repo}
use registry_ui_go.Deletion.Records.{resolve_rid}
use registry_ui_go.Deletion.Documented.{PushDocumented}
use registry_ui_go.Registry.{Answer, answered, refused, unreachable, Client}
use registry_ui_go.Proxy.{Gateway, P, stored, asked, ◌~>◌}
use registry_ui_go.Restore.{
  handle_recycle_by_id, by_parts, by_number, by_rest, restore_by, item_of, restore, say,
  with_rights, if_accessed, if_written, if_pending, push_item, pushed, push_failed, push_refused,
  restored_row, sync_restored, if_moved,
}
use registry_ui_go.Restore.Marked.{
  AllRestored, Marked, mark-Marked, add_audit-Marked, resolved-Marked,
}

module _ {S : Type 0} (client : Client S) (blob_unknown : S → Bool) (user : Option User)
    (points_at : Text → Text → S → Option Text) (content : Text → Text)
    (documented : PushDocumented client points_at content) (id : ℕ) (item : RecycleItem) where
  -- What an answer 200 says of the registry and of the recycle bin.
  abbrev pub Done : Response × Gateway S → Type 0
  Done (r, g) =
      r.status ≡ 200
      → (points_at item.repo item.reference g.registry ≡ some (content item.manifest_body))
        × AllRestored id g.db.recycle_bin

  restored_row-Done :
      (r : Result (Unit {0})) (g : Gateway S)
      → points_at item.repo item.reference g.registry ≡ some (content item.manifest_body)
      → (r ≡ ok tt → Marked id g.db)
      → Done (restored_row client blob_unknown user item r g)
  unfolding restored_row
  restored_row-Done (err e) g points marked = λ n. absurd (ground arith)
  restored_row-Done (ok x) g points marked = λ n. (
    points,
    (add_audit-Marked id (
          audit user (codes "recycle.restore") item.repo item.reference item.digest
            (codes "ok"))).at
        ((resolve_rid item.repo >>= sync_restored client blob_unknown user item) g.db).1
        ((resolved-Marked id client blob_unknown user item).at g.db (marked refl)),
  )

  push_failed-Done : (g : Gateway S) → Done (push_failed client blob_unknown user id item g)
  unfolding push_failed push_refused
  push_failed-Done g = refused_by (blob_unknown g.registry) _
    where
      refused_by : (b : Bool) (g : Gateway S) → Done (push_refused client blob_unknown user id b g)
      refused_by true g = λ n. absurd (ground arith)
      refused_by false g = λ n. absurd (ground arith)

  pushed-Done :
      (a : Answer (Unit {0})) (g : Gateway S)
      → (a ≡ answered tt
          → points_at item.repo item.reference g.registry ≡ some (content item.manifest_body))
      → Done (pushed client blob_unknown user id item a g)
  unfolding pushed
  pushed-Done (answered x) g h =
      restored_row-Done (mark_recycle_restored id g.db).0 _ (h refl) (mark-Marked id g.db)
  pushed-Done (refused n) g h = push_failed-Done g
  pushed-Done unreachable g h = push_failed-Done g

  push_item-Done : (g : Gateway S) → Done (push_item client blob_unknown user id item g)
  unfolding push_item
  push_item-Done g =
      let before =
        (asked (client.digest item.repo item.reference) ~> if_moved client blob_unknown user item)
          g in
      pushed-Done _ _ (λ e.
        documented.put_sets item.repo item.reference item.content_type item.manifest_body
          before.1.registry e)

  -- The same with what was asked of the item and of the user beforehand, when the item was read.
  abbrev pub Restored : Db → Response × Gateway S → Type 0
  Restored d (r, g) =
      r.status ≡ 200
      → (is_pending item.status ≡ true)
        × ((user_can_access_repo user item.repo d).0 ≡ true)
        × ((user_can_write_repo user item.repo (user_can_access_repo user item.repo d).1).0 ≡ true)
        × (points_at item.repo item.reference g.registry ≡ some (content item.manifest_body))
        × AllRestored id g.db.recycle_bin

  if_pending-Restored :
      (g : Gateway S) (d : Db)
      → (user_can_access_repo user item.repo d).0 ≡ true
      → (user_can_write_repo user item.repo (user_can_access_repo user item.repo d).1).0 ≡ true
      → Restored d (if_pending client blob_unknown user id item g)
  unfolding if_pending
  if_pending-Restored g d access write =
      if_cases (λ (m : P S Response). Restored d (m g)) (is_pending item.status)
        (push_item client blob_unknown user id item)
        (say client blob_unknown user 409 (codes "recycle item is not pending_gc"))
        (λ pending n. (pending, access, write, (push_item-Done g n).0, (push_item-Done g n).1))
        (λ _ n. absurd (ground arith))

  with_rights-Restored :
      (g : Gateway S)
      → Restored g.db (
          with_rights client blob_unknown user item.repo
            (if_pending client blob_unknown user id item)
            g)
  unfolding with_rights if_accessed if_written
  with_rights-Restored g =
      if_cases (λ (m : P S Response). Restored g.db (m accessed))
        (user_can_access_repo user item.repo g.db).0
        (stored (user_can_write_repo user item.repo) ~> if_written client blob_unknown user k) no
        (λ access.
          if_cases (λ (m : P S Response). Restored g.db (m written))
            (user_can_write_repo user item.repo accessed.db).0 k no
            (λ write. if_pending-Restored written g.db access write) (λ _ n. absurd (ground arith)))
        (λ _ n. absurd (ground arith))
    where
      no : P S Response
      no = say client blob_unknown user 403 (codes "forbidden")

      k : P S Response
      k = if_pending client blob_unknown user id item

      accessed : Gateway S
      accessed = (stored (user_can_access_repo user item.repo) g).1

      written : Gateway S
      written = (stored (user_can_write_repo user item.repo) accessed).1

  restore-Restored :
      (g : Gateway S)
      → (get_recycle_item id g.db).0 ≡ ok item
      → Restored
          (get_recycle_item id g.db).1
          ((stored (get_recycle_item id) ~> restore client blob_unknown user id) g)
  unfolding restore
  restore-Restored g e =
      subst
        (λ r.
          Restored (get_recycle_item id g.db).1
            (restore client blob_unknown user id r (stored (get_recycle_item id) g).1))
        (sym e) (with_rights-Restored (stored (get_recycle_item id) g).1)

  by_parts-Restored :
      (head : Text) (g : Gateway S)
      → atoi head ≡ some (pos id)
      → (get_recycle_item id g.db).0 ≡ ok item
      → Restored
          (get_recycle_item id g.db).1
          (by_parts client blob_unknown user Method.post (head ∷ codes "restore" ∷ []) g)
  unfolding by_parts by_number by_rest restore_by item_of
  by_parts-Restored head g read e =
      if_cases (λ (m : P S Response). Restored (get_recycle_item id g.db).1 (m g)) (is_empty head)
        (say client blob_unknown user 404 (codes "404 page not found"))
        (by_number client blob_unknown user Method.post (atoi head) (codes "restore" ∷ []))
        (λ _ n. absurd (ground arith))
        (λ _. rw (read, text_eq_refl (codes "restore")) (restore-Restored g e))

abbrev pub restore_path : ℕ → Text
restore_path id = codes "/api/recycle/" ++ (itoa id ++ b'/' ∷ codes "restore")

split_restore :
    (id : ℕ)
    → split (trim_prefix (restore_path id) (codes "/api/recycle/")) (codes "/")
      ≡ itoa id ∷ codes "restore" ∷ []
split_restore id =
    ap (λ rest. split rest (codes "/"))
      (trim_prefix-append (codes "/api/recycle/") (itoa id ++ b'/' ∷ codes "restore"))
    ∙ split_joined b'/' (itoa id) (codes "restore") (itoa-NoneOf b'/' id (ground arith))
        (ground arith)

-- An item of the recycle bin whose restoring is answered with 200 was waiting in the bin, in a
-- repository that the user may read and write. Afterwards the registry's tag points at the manifest
-- that was kept, and every row of the item's id is marked as restored. The registry is assumed to
-- make a pushed tag point at what was pushed.
pub handle_recycle_by_id-Restored :
    {S : Type 0} (client : Client S) (blob_unknown : S → Bool) (user : Option User)
    (points_at : Text → Text → S → Option Text) (content : Text → Text)
    (documented : PushDocumented client points_at content) (id : ℕ) (item : RecycleItem)
    (g : Gateway S)
    → id < 2 ^ 63
    → (get_recycle_item id g.db).0 ≡ ok item
    → Restored client blob_unknown user points_at content documented id item
        (get_recycle_item id g.db).1
        (handle_recycle_by_id client blob_unknown user Method.post (restore_path id) g)
unfolding handle_recycle_by_id
handle_recycle_by_id-Restored client blob_unknown user points_at content documented id item g small
      read =
    subst
      (λ parts.
        Restored client blob_unknown user points_at content documented id item
          (get_recycle_item id g.db).1 (by_parts client blob_unknown user Method.post parts g))
      (sym (split_restore id))
      (by_parts-Restored client blob_unknown user points_at content documented id item (itoa id) g
        (atoi-itoa id small) read)
