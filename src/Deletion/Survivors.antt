-- ===== src/Deletion/Survivors.antt =====
-- A tag that was not selected survives the deletion of others.
use registry_ui_go.Base.{
  ℕ, ◌≡◌, refl, sym, ◌∙◌, ap, subst, ◌≢◌, ◌⊎◌, inl, inr, Bool, true, false, Option, none, some,
  List, [], ◌∷◌, Text, arith, Bool-cases, contains, In, All, is_empty, lookup, text_eq_instance,
  text_eq, text_eq_iff, ◌&&◌, not,
}
use registry_ui_go.Store.{Db, User}
use registry_ui_go.Registry.{Answer, answered, refused, unreachable, Manifest, Client}
use registry_ui_go.Deletion.Documented.{PushDocumented}
use registry_ui_go.Deletion.Snapshot.{
  ImageSize, snapshot_recycle_items, snapshot_listed, snapshot_tags, snapshot_tag,
  snapshot_manifest, other_digest, points_here,
}
use registry_ui_go.Deletion.Records.{resolve_rid}
use registry_ui_go.Deletion.{
  Groups, selected, grouped, surviving_tags, repush, after_last_delete, delete_last, after_untag,
  untag_with, by_survivors, delete_group, delete_groups, delete_tags_aware, tags_or_none,
}
use registry_ui_go.Deletion.Grouping.{
  Fine, Spared, surviving-Fine, surviving_has, surviving_lacks, grouped-Fine, selected_lacks,
}

module _ {S : Type 0} (client : Client S) (points_at : Text → Text → S → Option Text)
    (content : Text → Text) (doc : PushDocumented client points_at content)
    (image_size : ImageSize S)
    (size_reads : (repo body other tag : Text) (s : S)
      → points_at other tag (image_size repo body s).1 ≡ points_at other tag s)
    (repo tag digest : Text) where
  -- The tag is where it was.
  abbrev There : S → Type 0
  There s = points_at repo tag s ≡ some digest

  snapshot_manifest-There :
      (d t : Text) (a : Answer Manifest) (w : Db × S)
      → There w.1
      → There (snapshot_manifest client image_size repo d t a w).1.1
  unfolding snapshot_manifest
  snapshot_manifest-There d t (refused status) w h = h
  snapshot_manifest-There d t unreachable w h = h
  snapshot_manifest-There d t (answered raw) w h = elim (Bool-cases (other_digest raw.digest d)) [
    | inl other ↦ rw other h
    | inr same ↦ rw same (size_reads repo raw.body repo tag w.1 ∙ h)
  ]

  snapshot_tag-There :
      (d : Text) (taken : Bool) (t : Text) (w : Db × S)
      → There w.1
      → There (snapshot_tag client image_size repo d taken t w).1.1
  unfolding snapshot_tag
  snapshot_tag-There d false t w h = h
  snapshot_tag-There d true t w h =
      snapshot_manifest-There d t (client.manifest_raw repo t w.1).0
        (w.0, (client.manifest_raw repo t w.1).1) (doc.raw_reads repo t repo tag w.1 ∙ h)

  snapshot_tags-There :
      (d : Text) (tags seen : List Text) (w : Db × S)
      → There w.1
      → There (snapshot_tags client image_size repo d seen tags w).1.1
  unfolding snapshot_tags
  snapshot_tags-There d [] seen w h = h
  snapshot_tags-There d (t ∷ tags) seen w h = snapshot_tags-There d tags _ _ (
      snapshot_tag-There d (points_here d (client.digest repo t w.1).0 && not (contains seen t)) t
        (w.0, (client.digest repo t w.1).1) (doc.common.digest_reads repo t repo tag w.1 ∙ h))

  snapshot-There :
      (d : Text) (w : Db × S)
      → There w.1
      → There (snapshot_recycle_items client image_size repo d w).1.1
  unfolding snapshot_recycle_items snapshot_listed
  snapshot-There d w h =
      listed (client.tags repo w.1).0 ((w.0, (client.tags repo w.1).1))
        (doc.common.tags_reads repo repo tag w.1 ∙ h)
    where
      listed :
          (a : Answer (List Text)) (v : Db × S)
          → There v.1
          → There (snapshot_listed client image_size repo d a v).1.1
      listed (answered tags) v k = snapshot_tags-There d tags [] v k
      listed (refused status) v k = k
      listed unreachable v k = k

  -- Pushing a manifest under other tags.
  repush_others :
      (raw : Manifest) (tags : List Text) (s : S)
      → contains tags tag ≡ false
      → There s
      → There (repush client repo raw tags s).1
  unfolding repush contains
  repush_others raw [] s n h = h
  repush_others raw (t ∷ tags) s n h =
      repush_others raw tags (client.put_manifest repo t raw.content_type raw.body s).1
        (ground arith)
        (doc.put_others repo t tag raw.content_type raw.body s
            (λ e. cc ((text_eq_iff t tag).1 e, differs))
          ∙ h)
    where
      differs : text_eq t tag ≡ false
      differs = ground arith

  module _
      (reads : (s : S)
        → points_at repo tag s ≡ some digest
        → (client.digest repo tag s).0 ≡ answered digest)
      (puts : (content_type body : Text) (s : S)
        → (client.put_manifest repo tag content_type body s).0 ≡ answered tt)
      (heard : (d : Text) (s : S) → (client.delete_manifest repo d s).0 ≢ unreachable) where
    -- Pushing the tag's own manifest under the tag, among others.
    repush_own :
        (raw : Manifest) (tags : List Text) (s : S)
        → content raw.body ≡ digest
        → In tag tags ⊎ There s
        → There (repush client repo raw tags s).1
    unfolding repush
    repush_own raw [] s same (inl m) = absurd m
    repush_own raw [] s same (inr h) = h
    repush_own raw (t ∷ tags) s same h = elim (Bool-cases (text_eq t tag)) [
      | inl hit ↦
          repush_own raw tags (client.put_manifest repo t raw.content_type raw.body s).1 same (
            inr (
              subst
                (λ u.
                  points_at repo tag (client.put_manifest repo u raw.content_type raw.body s).1
                  ≡ some digest)
                (sym ((text_eq_iff t tag).0 hit))
                (doc.put_sets repo tag raw.content_type raw.body s
                    (puts raw.content_type raw.body s)
                  ∙ ap some same)))
      | inr miss ↦
          repush_own raw tags (client.put_manifest repo t raw.content_type raw.body s).1 same
            (onward miss h)
    ]
      where
        onward :
            text_eq t tag ≡ false
            → In tag (t ∷ tags) ⊎ There s
            → In tag tags ⊎ There (client.put_manifest repo t raw.content_type raw.body s).1
        onward miss (inl (inl e)) = cc ((text_eq_iff t tag).1 (sym e), miss)
        onward miss (inl (inr m)) = inl m
        onward miss (inr k) = inr (
            doc.put_others repo t tag raw.content_type raw.body s
              (λ e. cc ((text_eq_iff t tag).1 e, miss))
            ∙ k)

    module _ (caller : Option User) (rid : ℕ) where
      last_lem :
          (d : Text) (remove : List Text) (w : Db × S)
          → d ≢ digest
          → There w.1
          → There (delete_last client repo image_size caller rid d remove w).1.1
      unfolding delete_last after_last_delete
      last_lem d remove w n h =
          ended (client.delete_manifest repo d snap.1).0
            (snap.0, (client.delete_manifest repo d snap.1).1)
            (doc.common.delete_other_digest repo d tag digest snap.1 (snapshot-There d w h) n)
        where
          snap : Db × S
          snap = (snapshot_recycle_items client image_size repo d w).1

          ended :
              (a : Answer (Unit {0})) (v : Db × S)
              → There v.1
              → There (after_last_delete client repo image_size caller rid d remove a v).1.1
          ended (answered a) v k = doc.common.tags_reads repo repo tag v.1 ∙ k
          ended (refused status) v k = k
          ended unreachable v k = k

      -- The survivors do not concern the tag, or have it, and its manifest is at hand.
      abbrev Ready : Text → List Text → Manifest → Type 0
      Ready d remaining raw =
          ((d ≢ digest) × (contains remaining tag ≡ false))
          ⊎ (In tag remaining × (content raw.body ≡ digest))

      untag_lem :
          (d : Text) (remove remaining : List Text) (raw : Manifest) (w : Db × S)
          → Ready d remaining raw
          → There w.1
          → There (untag_with client repo image_size caller rid d remove remaining (some raw) w).1.1
      unfolding untag_with after_untag
      untag_lem d remove remaining raw w r h = ended (client.delete_manifest repo d w.1).0 refl
        where
          pushed :
              Ready d remaining raw
              → There (repush client repo raw remaining (client.delete_manifest repo d w.1).1).1
          pushed (inl (n, out)) =
              repush_others raw remaining _ out
                (doc.common.delete_other_digest repo d tag digest w.1 h n)
          pushed (inr (m, same)) = repush_own raw remaining _ same (inl m)

          ended :
              (a : Answer (Unit {0}))
              → (client.delete_manifest repo d w.1).0 ≡ a
              → There
                  (after_untag client repo image_size caller rid d remove remaining raw a
                    (w.0, (client.delete_manifest repo d w.1).1)).1.1
          ended (answered a) e = pushed r
          ended (refused status) e = doc.refused_deletes repo d repo tag status w.1 e ∙ h
          ended unreachable e = absurd (heard d w.1 e)

      untag_none :
          (d : Text) (remove remaining : List Text) (w : Db × S)
          → There w.1
          → There (untag_with client repo image_size caller rid d remove remaining none w).1.1
      unfolding untag_with
      untag_none d remove remaining w h = h

      survivors_lem :
          (d : Text) (remove remaining : List Text) (a : Answer Manifest) (w : Db × S)
          → ((d ≢ digest) × (contains remaining tag ≡ false))
            ⊎ (In tag remaining × ((raw : Manifest) → a ≡ answered raw → content raw.body ≡ digest))
          → There w.1
          → There (by_survivors client repo image_size caller rid d remove remaining a w).1.1
      unfolding by_survivors
      survivors_lem d remove [] a w (inl (n, out)) h = last_lem d remove w n h
      survivors_lem d remove [] a w (inr (m, same)) h = absurd m
      survivors_lem d remove (t ∷ ts) (refused status) w r h = untag_none d remove (t ∷ ts) w h
      survivors_lem d remove (t ∷ ts) unreachable w r h = untag_none d remove (t ∷ ts) w h
      survivors_lem d remove (t ∷ ts) (answered raw) w r h = elim (Bool-cases (is_empty raw.body)) [
        | inl empty ↦ rw empty (untag_none d remove (t ∷ ts) w h)
        | inr filled ↦ rw filled (untag_lem d remove (t ∷ ts) raw w (ready r) h)
      ]
        where
          ready :
              ((d ≢ digest) × (contains (t ∷ ts) tag ≡ false))
                ⊎ (In tag (t ∷ ts)
                    × ((other : Manifest)
                        → answered raw ≡ answered other
                        → content other.body ≡ digest))
              → Ready d (t ∷ ts) raw
          ready (inl x) = inl x
          ready (inr (m, same)) = inr (m, same raw refl)

      -- One round of the loop.
      group_lem :
          (all_tags : List Text) (d : Text) (remove : List Text) (cache : List (Text × Text))
          (w : Db × S)
          → In tag all_tags
          → contains remove tag ≡ false
          → Fine client points_at doc.common repo tag digest reads (cache, w.1)
          → Fine client points_at doc.common repo tag digest reads (
            ((delete_group client repo image_size caller rid all_tags (d, remove) cache w).1),
            ((delete_group client repo image_size caller rid all_tags (d, remove) cache w).2.1),
          )
      unfolding delete_group
      group_lem all_tags d remove cache w m n h = (
        survivors_lem d remove rest.0 (client.manifest_raw repo d rest.1.1).0
            (w.0, (client.manifest_raw repo d rest.1.1).1) (ready (Bool-cases (text_eq d digest)))
            (doc.raw_reads repo d repo tag rest.1.1 ∙ fine.0),
        fine.1,
      )
        where
          rest : List Text × (List (Text × Text) × S)
          rest = surviving_tags client repo all_tags remove d (cache, w.1)

          fine : Fine client points_at doc.common repo tag digest reads rest.1
          fine =
              surviving-Fine client points_at doc.common repo tag digest reads all_tags remove d
                (cache, w.1) h

          ready :
              (text_eq d digest ≡ true) ⊎ (text_eq d digest ≡ false)
              → ((d ≢ digest) × (contains rest.0 tag ≡ false))
                ⊎ (In tag rest.0
                    × ((raw : Manifest)
                        → (client.manifest_raw repo d rest.1.1).0 ≡ answered raw
                        → content raw.body ≡ digest))
          ready (inr other) = inl (
            (λ e. cc ((text_eq_iff d digest).1 e, other)),
            surviving_lacks client points_at doc.common repo tag digest reads all_tags remove d
                (cache, w.1) h n (λ e. cc ((text_eq_iff d digest).1 e, other)),
          )
          ready (inl same) = inr (
            subst (λ e. In tag (surviving_tags client repo all_tags remove e (cache, w.1)).0)
                (sym ((text_eq_iff d digest).0 same))
                (surviving_has client points_at doc.common repo tag digest reads all_tags remove
                  (cache, w.1) h n m),
            λ raw e.
                doc.raw_content repo tag d rest.1.1 raw
                  (fine.0 ∙ ap some (sym ((text_eq_iff d digest).0 same))) e
                ∙ (text_eq_iff d digest).0 same,
          )

      groups_lem :
          (all_tags : List Text) (groups : List (Text × List Text)) (cache : List (Text × Text))
          (w : Db × S)
          → In tag all_tags
          → All (Spared client points_at doc.common repo tag digest reads) groups
          → Fine client points_at doc.common repo tag digest reads (cache, w.1)
          → There (delete_groups client repo image_size caller rid all_tags groups cache w).1.1
      unfolding delete_groups
      groups_lem all_tags [] cache w m n h = h.0
      groups_lem all_tags (group ∷ groups) cache w m n h =
          groups_lem all_tags groups
            (delete_group client repo image_size caller rid all_tags group cache w).1
            (delete_group client repo image_size caller rid all_tags group cache w).2 m n.1
            (group_lem all_tags group.0 group.1 cache w m n.0 h)

    -- The client behaving as the distribution specification documents it, the digest of the tag being
    -- read while it is there, a push under the tag and the list of tags being answered, and no deletion
    -- lost on the way: a deletion of other tags, of the same digest and of others, in any number and
    -- with whatever statements failing, leaves the tag pointing at its digest.
    pub delete_tags_aware_spares :
        (caller : Option User) (tags listed : List Text) (w : Db × S)
        → contains tags tag ≡ false
        → (client.tags repo w.1).0 ≡ answered listed
        → points_at repo tag w.1 ≡ some digest
        → points_at repo tag (delete_tags_aware client repo image_size caller tags w).1.1
          ≡ some digest
    unfolding delete_tags_aware lookup
    delete_tags_aware_spares caller tags listed w n seen h =
        groups_lem caller (resolve_rid repo w.0).0 (tags_or_none (client.tags repo w.1).0)
          sorted.0.0 sorted.1.0 ((resolve_rid repo w.0).1, sorted.1.1)
          (rw seen (doc.common.tags_complete repo tag digest w.1 listed h seen)) parted.0 parted.1
      where
        sorted : Groups × (List (Text × Text) × S)
        sorted = grouped client repo (selected [] tags) ([], []) ([], (client.tags repo w.1).1)

        parted :
            All (Spared client points_at doc.common repo tag digest reads) sorted.0.0
            × Fine client points_at doc.common repo tag digest reads sorted.1
        parted =
            grouped-Fine client points_at doc.common repo tag digest reads (selected [] tags)
              ([], []) ([], (client.tags repo w.1).1)
              (selected_lacks client points_at doc.common repo tag digest reads [] tags n) tt
              (doc.common.tags_reads repo repo tag w.1 ∙ h, tt)
