-- ===== src/Deletion.antt =====
-- delete_tags.go: removing tags from a registry that only deletes digests. The webhooks that it fires
-- are sent in the background and left out.
pub mod Resolving
pub mod Snapshot
pub mod Records
pub mod Documented
pub mod Grouping
pub mod Survivors
pub mod Table
mod Tests
use registry_ui_go.Base.{
  ℕ, zero, suc, ◌+◌, Bool, true, false, Option, none, some, List, [], ◌∷◌, ◌++◌, if◌then◌else◌,
  Text, codes, ◌==◌, nat_eq_instance, text_eq_instance, ◌&&◌, ◌||◌, not, is_empty, contains, lookup,
  insert, map,
}
use registry_ui_go.Store.{Db, User}
use registry_ui_go.Registry.{Answer, answered, refused, unreachable, Manifest, Client}
use registry_ui_go.Deletion.Records.{
  TagDelete, outcome, resolve_rid, failed_delete, deleted_records, failed_untag, untagged_records,
  push_failed, cleanup_repo_db,
}
use registry_ui_go.Deletion.Snapshot.{ImageSize, snapshot_recycle_items}

-- Deduplicated, in order, without empty tags.
unfoldable pub selected : List Text → List Text → List Text
selected seen [] = []
selected seen (tag ∷ tags) =
    let rest = selected (if is_empty tag then seen else tag ∷ seen) tags in
    if is_empty tag || contains seen tag then rest else tag ∷ rest

-- selByDigest and digestOrder: the groups in the order in which their digests came up.
unfoldable pub add_to_group : Text → Text → List (Text × List Text) → List (Text × List Text)
add_to_group digest tag [] = (digest, tag ∷ []) ∷ []
add_to_group digest tag (group ∷ groups) =
    if group.0 == digest
    then (digest, group.1 ++ tag ∷ []) ∷ groups
    else group ∷ add_to_group digest tag groups

-- The groups so far, and the tags that have no digest.
abbrev pub Groups : Type 0
Groups = List (Text × List Text) × List Text

abbrev pub placed : Text → Text → Groups → Groups
placed [] tag acc = (acc.0, acc.1 ++ tag ∷ [])
placed (c ∷ digest) tag acc = (add_to_group (c ∷ digest) tag acc.0, acc.1)

-- `err == nil`, or no tags
abbrev pub tags_or_none : Answer (List Text) → List Text
tags_or_none (answered tags) = tags
tags_or_none _ = []

abbrev pub digest_or_empty : Answer Text → Text
digest_or_empty (answered d) = d
digest_or_empty _ = []

-- digestCache
abbrev pub Digests : Type 0
Digests = List (Text × Text)

abbrev pub readable : Answer Manifest → Option Manifest
readable (answered raw) = if is_empty raw.body then none else some raw
readable _ = none

-- Whether the list of tags read after a removal says that the repository is empty or gone.
abbrev pub is_gone : Answer (List Text) → Bool
is_gone (answered tags) = is_empty tags
is_gone (refused status) = status == 404
is_gone unreachable = false

module _ {S : Type 0} (client : Client S) (repo : Text) where
  unfoldable pub digest_from : Text → Option Text → Digests × S → Text × (Digests × S)
  digest_from tag (some d) x = (d, x)
  digest_from tag none x =
      let r = client.digest repo tag x.1 in
      (digest_or_empty r.0, (insert tag (digest_or_empty r.0) x.0, r.1))

  unfoldable pub digest_of : Text → Digests × S → Text × (Digests × S)
  digest_of tag x = digest_from tag (lookup tag x.0) x

  -- The groups of the selected tags, and the tags whose digest cannot be resolved.
  unfoldable pub grouped : List Text → Groups → Digests × S → Groups × (Digests × S)
  grouped [] acc x = (acc, x)
  grouped (tag ∷ tags) acc x = let r = digest_of tag x in grouped tags (placed r.0 tag acc) r.1

  unfoldable pub survives : List Text → Text → Text → Digests × S → Bool × (Digests × S)
  survives remove_set digest tag x =
      if contains remove_set tag
      then (false, x)
      else (let r = digest_of tag x in (r.0 == digest, r.1))

  unfoldable pub surviving_tags :
      List Text → List Text → Text → Digests × S → List Text × (Digests × S)
  surviving_tags [] remove_set digest x = ([], x)
  surviving_tags (tag ∷ tags) remove_set digest x =
      let r = survives remove_set digest tag x in
      let rest = surviving_tags tags remove_set digest r.1 in
      (if r.0 then tag ∷ rest.0 else rest.0, rest.1)

  -- The loop that pushes the manifest again: the tags for which it failed.
  abbrev pub with_failure : Answer (Unit {0}) → Text → List Text → List Text
  with_failure (answered a) tag lost = lost
  with_failure _ tag lost = tag ∷ lost

  unfoldable pub repush : Manifest → List Text → S → List Text × S
  repush raw [] s = ([], s)
  repush raw (tag ∷ tags) s =
      let r = client.put_manifest repo tag raw.content_type raw.body s in
      let rest = repush raw tags r.1 in (with_failure r.0 tag rest.0, rest.1)

  module _ (image_size : ImageSize S) (caller : Option User) (rid : ℕ) where
    -- The rest of the last-tag case, after DeleteManifest.
    unfoldable pub after_last_delete :
        Text → List Text → Answer (Unit {0}) → Db × S → List TagDelete × (Db × S)
    after_last_delete digest remove (answered a) w =
        let marked = deleted_records caller repo digest rid remove w.0 in
        let left = client.tags repo w.1 in
        (
          outcome (codes "delete") true [] remove,
          ((if is_gone left.0 then (cleanup_repo_db repo marked.1).1 else marked.1), left.1),
        )
    after_last_delete digest remove _ w =
        (outcome (codes "delete") false [] remove, ((failed_delete caller repo digest w.0).1, w.1))

    -- The last tags of a digest go: snapshot, then delete. The number counts snapshots.
    unfoldable pub delete_last : Text → List Text → Db × S → (List TagDelete × ℕ) × (Db × S)
    delete_last digest remove w =
        let snap = snapshot_recycle_items client image_size repo digest w in
        let r = client.delete_manifest repo digest snap.1.1 in
        let done = after_last_delete digest remove r.0 (snap.1.0, r.1) in ((done.0, snap.0), done.1)

    -- The rest of the untag case, after DeleteManifest.
    unfoldable pub after_untag :
        Text
        → List Text
        → List Text
        → Manifest
        → Answer (Unit {0})
        → Db × S
        → (List TagDelete × ℕ) × (Db × S)
    after_untag digest remove remaining raw (answered a) w =
        let r = repush raw remaining w.1 in
        (
          (outcome (codes "untag") true r.0 remove, 0),
          (
            (untagged_records caller repo digest rid r.0 remove
                (push_failed caller repo digest r.0 w.0).1).1,
            r.1,
          ),
        )
    after_untag digest remove remaining raw _ w = (
      (outcome (codes "untag") false [] remove, 0),
      ((failed_untag caller repo digest w.0).1, w.1),
    )

    unfoldable pub untag_with :
        Text → List Text → List Text → Option Manifest → Db × S → (List TagDelete × ℕ) × (Db × S)
    untag_with digest remove remaining none w = (
      (outcome (codes "untag") false [] remove, 0),
      ((failed_untag caller repo digest w.0).1, w.1),
    )
    untag_with digest remove remaining (some raw) w =
        let r = client.delete_manifest repo digest w.1 in
        after_untag digest remove remaining raw r.0 (w.0, r.1)

    unfoldable pub by_survivors :
        Text → List Text → List Text → Answer Manifest → Db × S → (List TagDelete × ℕ) × (Db × S)
    by_survivors digest remove [] raw w = delete_last digest remove w
    by_survivors digest remove (tag ∷ tags) raw w =
        untag_with digest remove (tag ∷ tags) (readable raw) w

    -- The body of the loop over the digests.
    unfoldable pub delete_group :
        List Text → Text × List Text → Digests → Db × S → (List TagDelete × ℕ) × Digests × (Db × S)
    delete_group all_tags (digest, remove) cache w =
        let remaining = surviving_tags all_tags remove digest (cache, w.1) in
        let raw = client.manifest_raw repo digest remaining.1.1 in
        let done = by_survivors digest remove remaining.0 raw.0 (w.0, raw.1) in
        (done.0, remaining.1.0, done.1)

    unfoldable pub delete_groups :
        List Text → List (Text × List Text) → Digests → Db × S → (List TagDelete × ℕ) × (Db × S)
    delete_groups all_tags [] cache w = (([], 0), w)
    delete_groups all_tags (group ∷ groups) cache w =
        let (done, cache', w') = delete_group all_tags group cache w in
        let rest = delete_groups all_tags groups cache' w' in
        ((done.0 ++ rest.0.0, done.1 + rest.0.1), rest.1)

  -- deleteTagsAware: the results and the number of snapshots.
  unfoldable pub delete_tags_aware :
      ImageSize S → Option User → List Text → Db × S → (List TagDelete × ℕ) × (Db × S)
  delete_tags_aware image_size caller tags w =
      let listed = client.tags repo w.1 in
      let groups = grouped (selected [] tags) ([], []) ([], listed.1) in
      let r = resolve_rid repo w.0 in
      let done =
        delete_groups image_size caller r.0 (tags_or_none listed.0) groups.0.0 groups.1.0
          (r.1, groups.1.1) in
      ((outcome [] false [] groups.0.1 ++ done.0.0, done.0.1), done.1)
