-- ===== src/Collector/LiveTags.antt =====
-- A tag that can be read survives the collection.
use registry_ui_go.Base.{
  ℕ, ◌≡◌, refl, sym, ◌∙◌, ap, subst, ◌≢◌, inl, inr, Bool, true, false, Option, none, some, List, [],
  ◌∷◌, Text, arith, Bool-cases, Option-cases, contains, In, is_empty, lookup, insert, lookup-insert,
  text_eq_instance, text_eq, text_eq_iff, nat_eq, nat_eq_iff,
}
use registry_ui_go.Store.{Db, RecycleItem, Result, ok, err}
use registry_ui_go.Registry.{Answer, answered, refused, unreachable, Client}
use registry_ui_go.Registry.Documented.{Documented}
use registry_ui_go.Collector.{
  with_live, live_of_tags, live_listed, live_digests_for_repo, after_delete, unless_live, verified,
  examine, process_gc_item, process_gc_items, run_registry_gc, sweep, gc_items,
}

module _ {S : Type 0} (client : Client S) (points_at : Text → Text → S → Option Text)
    (doc : Documented client points_at) (repo tag digest : Text) (named : is_empty digest ≡ false)
    (reads : (s : S)
      → points_at repo tag s ≡ some digest
      → (client.digest repo tag s).0 ≡ answered digest) where
  -- Where the cache knows the repository, it has the tag's digest.
  abbrev Known : Option (List Text) → Type 0
  Known none = Unit
  Known (some live) = contains live digest ≡ true

  -- The tag points at its digest, and the cache knows.
  abbrev pub Survives : List (Text × List Text) × ℕ → Db × S → Type 0
  Survives acc w = (points_at repo tag w.1 ≡ some digest) × Known (lookup repo acc.0)

  live_of_tags-reads :
      (other : Text) (tags : List Text) (s : S)
      → points_at repo tag s ≡ some digest
      → points_at repo tag (live_of_tags client other tags s).1 ≡ some digest
  unfolding live_of_tags
  live_of_tags-reads other [] s h = h
  live_of_tags-reads other (t ∷ tags) s h =
      live_of_tags-reads other tags (client.digest other t s).1
        (doc.digest_reads other t repo tag s ∙ h)

  with_live_grows :
      (a : Answer Text) (live : List Text)
      → contains live digest ≡ true
      → contains (with_live a live) digest ≡ true
  unfolding with_live contains
  with_live_grows (answered d) live h = ground arith
  with_live_grows (refused status) live h = h
  with_live_grows unreachable live h = h

  with_live_here :
      (a : Answer Text) (live : List Text)
      → a ≡ answered digest
      → contains (with_live a live) digest ≡ true
  unfolding with_live contains
  with_live_here a live e = rw (e, named) (ground (arith, text_eq_iff digest digest))

  live_of_tags_finds :
      (tags : List Text) (s : S)
      → In tag tags
      → points_at repo tag s ≡ some digest
      → contains (live_of_tags client repo tags s).0 digest ≡ true
  unfolding live_of_tags
  live_of_tags_finds [] s m h = absurd m
  live_of_tags_finds (t ∷ tags) s (inl e) h =
      with_live_here (client.digest repo t s).0 _
        (subst (λ x. (client.digest repo x s).0 ≡ answered digest) e (reads s h))
  live_of_tags_finds (t ∷ tags) s (inr m) h = with_live_grows (client.digest repo t s).0 _ (
      live_of_tags_finds tags (client.digest repo t s).1 m (doc.digest_reads repo t repo tag s ∙ h))

  after_delete-Survives :
      (item : RecycleItem) (a : Answer (Unit {0})) (acc : List (Text × List Text) × ℕ) (w : Db × S)
      → Survives acc w
      → Survives (after_delete client item a acc w).0 (after_delete client item a acc w).1
  unfolding after_delete
  after_delete-Survives item (answered a) acc w h = h
  after_delete-Survives item unreachable acc w h = h
  after_delete-Survives item (refused status) acc w h = elim (Bool-cases (nat_eq status 404)) [
    | inl gone ↦ rw gone h
    | inr kept ↦ rw kept h
  ]

  -- Removing a digest that is not among the live ones leaves the tag where it is.
  delete_spares :
      (item : RecycleItem) (live : List Text) (s : S)
      → points_at repo tag s ≡ some digest
      → (item.repo ≡ repo → contains live digest ≡ true)
      → contains live item.digest ≡ false
      → points_at repo tag (client.delete_manifest item.repo item.digest s).1 ≡ some digest
  delete_spares item live s there covered miss = elim (Bool-cases (text_eq item.repo repo)) [
    | inl same ↦
        subst
          (λ r. points_at r tag (client.delete_manifest item.repo item.digest s).1 ≡ some digest)
          ((text_eq_iff item.repo repo).0 same)
          (doc.delete_other_digest item.repo item.digest tag digest s
            (subst (λ r. points_at r tag s ≡ some digest)
              (sym ((text_eq_iff item.repo repo).0 same)) there)
            (λ e. cc (covered ((text_eq_iff item.repo repo).0 same), miss, e)))
    | inr other ↦
        doc.delete_other_repo item.repo item.digest repo tag s
          (λ e. cc ((text_eq_iff item.repo repo).1 e, other))
        ∙ there
  ]

  unless_live-Survives :
      (item : RecycleItem) (live : List Text) (acc : List (Text × List Text) × ℕ) (w : Db × S)
      → Survives acc w
      → (item.repo ≡ repo → contains live digest ≡ true)
      → Survives (unless_live client item live acc w).0 (unless_live client item live acc w).1
  unfolding unless_live
  unless_live-Survives item live acc w (there, known) covered =
      elim (Bool-cases (contains live item.digest)) [
        | inl hit ↦ rw hit (there, known)
        | inr miss ↦ rw miss (
            after_delete-Survives item (client.delete_manifest item.repo item.digest w.1).0 acc
              (w.0, (client.delete_manifest item.repo item.digest w.1).1)
              (delete_spares item live w.1 there covered miss, known))
      ]

  -- The cache after a repository was looked at.
  Known-insert :
      (other : Text) (live : List Text) (cache : List (Text × List Text))
      → (other ≡ repo → contains live digest ≡ true)
      → Known (lookup repo cache)
      → Known (lookup repo (insert other live cache))
  Known-insert other live cache covered known =
      rw (lookup-insert other repo live cache) (elim (Bool-cases (text_eq other repo)) [
        | inl same ↦ rw same (covered ((text_eq_iff other repo).0 same))
        | inr differs ↦ rw differs known
      ])

  verified-Survives :
      (item : RecycleItem) (a : Answer (List Text)) (acc : List (Text × List Text) × ℕ) (w : Db × S)
      → Survives acc w
      → (item.repo ≡ repo → (live : List Text) → a ≡ answered live → contains live digest ≡ true)
      → (item.repo ≡ repo → a ≢ refused 404)
      → Survives (verified client item a acc w).0 (verified client item a acc w).1
  unfolding verified
  verified-Survives item (answered live) acc w (there, known) covered present =
      unless_live-Survives item live (insert item.repo live acc.0, acc.1) w
        (there, Known-insert item.repo live acc.0 (λ e. covered e live refl) known)
        (λ e. covered e live refl)
  verified-Survives item unreachable acc w h covered present = h
  verified-Survives item (refused status) acc w (there, known) covered present =
      elim (Bool-cases (nat_eq status 404)) [
        | inl gone ↦ rw gone (
            unless_live-Survives item [] (insert item.repo [] acc.0, acc.1) w
              (there, Known-insert item.repo [] acc.0 (no_404 gone) known) (no_404 gone))
        | inr kept ↦ rw kept (there, known)
      ]
    where
      no_404 : nat_eq status 404 ≡ true → item.repo ≡ repo → contains {A = Text} [] digest ≡ true
      no_404 gone e = absurd (present e (ap refused ((nat_eq_iff status 404).0 gone)))

  digest_found :
      (other : Text) (tags : List Text) (s : S)
      → other ≡ repo
      → In tag tags
      → points_at repo tag s ≡ some digest
      → contains (live_of_tags client other tags s).0 digest ≡ true
  digest_found other tags s e m h =
      subst (λ r. contains (live_of_tags client r tags s).0 digest ≡ true) (sym e)
        (live_of_tags_finds tags s m h)

  -- Looking at the tags of a repository moves none of them, and finds the tag's digest.
  listed_lem :
      (other : Text) (a : Answer (List Text)) (s : S)
      → points_at repo tag s ≡ some digest
      → (other ≡ repo → (tags : List Text) → a ≡ answered tags → In tag tags)
      → (points_at repo tag (live_listed client other a s).1 ≡ some digest)
        × (other ≡ repo
            → (live : List Text) → (live_listed client other a s).0 ≡ answered live
            → contains live digest ≡ true)
  unfolding live_listed
  listed_lem other (answered tags) s there listed = (
    live_of_tags-reads other tags s there,
    λ e live same. cc (digest_found other tags s e (listed e tags refl) there, same),
  )
  listed_lem other (refused status) s there listed = (there, λ e live same. cc)
  listed_lem other unreachable s there listed = (there, λ e live same. cc)

  looked_up :
      (other : Text) (s : S)
      → points_at repo tag s ≡ some digest
      → (points_at repo tag (live_digests_for_repo client other s).1 ≡ some digest)
        × (other ≡ repo
            → (live : List Text) → (live_digests_for_repo client other s).0 ≡ answered live
            → contains live digest ≡ true)
  unfolding live_digests_for_repo
  looked_up other s there =
      listed_lem other (client.tags other s).0 (client.tags other s).1
        (doc.tags_reads other repo tag s ∙ there)
        λ e tags same.
          doc.tags_complete repo tag digest s tags there
            (subst (λ r. (client.tags r s).0 ≡ answered tags) e same)

  not_missing :
      (other : Text) (s : S)
      → points_at repo tag s ≡ some digest
      → other ≡ repo
      → (live_digests_for_repo client other s).0 ≢ refused 404
  unfolding live_digests_for_repo live_listed
  not_missing other s there e = refuses (client.tags other s).0 refl
    where
      refuses :
          (a : Answer (List Text))
          → (client.tags other s).0 ≡ a
          → (live_listed client other a (client.tags other s).1).0 ≢ refused 404
      refuses (answered tags) same h = cc
      refuses unreachable same h = cc
      refuses (refused status) same h = cc (
        doc.tags_missing repo tag s (subst (λ r. (client.tags r s).0 ≡ refused 404) e (same ∙ h)),
        there,
      )

  item-Survives :
      (item : RecycleItem) (acc : List (Text × List Text) × ℕ) (w : Db × S)
      → Survives acc w
      → Survives (process_gc_item client item acc w).0 (process_gc_item client item acc w).1
  unfolding process_gc_item examine
  item-Survives item acc w (there, known) = elim (Bool-cases (is_empty item.digest)) [
    | inl empty ↦ rw empty (there, known)
    | inr filled ↦ rw filled (elim (Option-cases (lookup item.repo acc.0)) [
      | inl new ↦ rw new (
          let (kept, covered) = looked_up item.repo w.1 there in
          verified-Survives item (live_digests_for_repo client item.repo w.1).0 acc
            (w.0, (live_digests_for_repo client item.repo w.1).1) (kept, known) covered
            (not_missing item.repo w.1 there))
      | inr (live, old) ↦ rw old (
          unless_live-Survives item live acc w (there, known)
            (λ e. subst Known (ap (λ r. lookup r acc.0) (sym e) ∙ old) known))
    ])
  ]

  process_gc_items-Survives :
      (items : List RecycleItem) (acc : List (Text × List Text) × ℕ) (w : Db × S)
      → Survives acc w
      → Survives (process_gc_items client items acc w).0 (process_gc_items client items acc w).1
  unfolding process_gc_items
  process_gc_items-Survives [] acc w h = h
  process_gc_items-Survives (item ∷ items) acc w h =
      process_gc_items-Survives items (process_gc_item client item acc w).0
        (process_gc_item client item acc w).1 (item-Survives item acc w h)

  sweep_keeps :
      (r : Option (Result (List RecycleItem))) (v : Db × S)
      → points_at repo tag v.1 ≡ some digest
      → points_at repo tag (sweep client r v).1.1 ≡ some digest
  unfolding sweep lookup
  sweep_keeps none v h = h
  sweep_keeps (some (err e)) v h = h
  sweep_keeps (some (ok items)) v h = (process_gc_items-Survives items ([], 0) v (h, tt)).0

  -- The client behaving as the distribution specification documents it, and the digest of a tag
  -- being read wherever the tag points at it: the whole sweep of a garbage collection, of the due
  -- items or of all, leaves the tag pointing at its digest.
  pub run_registry_gc_keeps :
      (all : Bool) (w : Db × S)
      → points_at repo tag w.1 ≡ some digest
      → points_at repo tag (run_registry_gc client all w).1.1 ≡ some digest
  unfolding run_registry_gc
  run_registry_gc_keeps all w h = sweep_keeps (gc_items all w.0).0 ((gc_items all w.0).1, w.1) h
