-- ===== src/Collector/Unread.antt =====
-- What the collection does with tags whose digests it could not read.
use registry_ui_go.Base.{
  ℕ, ◌≡◌, refl, ◌∙◌, false, none, List, [], ◌∷◌, Text, is_empty, lookup, contains, text_eq_instance,
  Bool-cases, nat_eq, inl, inr,
}
use registry_ui_go.Store.{Db, RecycleItem}
use registry_ui_go.Registry.{Answer, answered, refused, unreachable, Client}
use registry_ui_go.Collector.{
  with_live, live_of_tags, live_listed, live_digests_for_repo, after_delete, unless_live, verified,
  examine, process_gc_item,
}

-- An answer that tells no digest: an error, with or without a status, or an empty digest.
abbrev pub TellsNone : Answer Text → Type 0
TellsNone (answered digest) = digest ≡ []
TellsNone (refused status) = Unit
TellsNone unreachable = Unit

unlisted : (a : Answer Text) (live : List Text) → TellsNone a → with_live a live ≡ live
unfolding with_live
unlisted (answered digest) live none_told = rw none_told refl
unlisted (refused status) live none_told = refl
unlisted unreachable live none_told = refl

module _ {S : Type 0} (client : Client S) (item : RecycleItem)
    (blind : (tag : Text) (s : S) → TellsNone (client.digest item.repo tag s).0) where
  blind_lem : (tags : List Text) (s : S) → (live_of_tags client item.repo tags s).0 ≡ []
  unfolding live_of_tags
  blind_lem [] s = refl
  blind_lem (tag ∷ tags) s =
      unlisted (client.digest item.repo tag s).0 _ (blind tag s)
      ∙ blind_lem tags (client.digest item.repo tag s).1

  listed_blind :
      (a : Answer (List Text)) (tags : List Text) (s : S)
      → a ≡ answered tags
      → (live_listed client item.repo a s).0 ≡ answered []
  unfolding live_listed
  listed_blind a tags s e = rw (e, blind_lem tags s)

  after_delete_registry :
      (a : Answer (Unit {0})) (acc : List (Text × List Text) × ℕ) (w : Db × S)
      → (after_delete client item a acc w).1.1 ≡ w.1
  unfolding after_delete
  after_delete_registry (answered a) acc w = refl
  after_delete_registry unreachable acc w = refl
  after_delete_registry (refused status) acc w = elim (Bool-cases (nat_eq status 404)) [
    | inl gone ↦ rw gone refl
    | inr kept ↦ rw kept refl
  ]

  -- The tags of a repository being listed while none of their digests can be read, each read being
  -- answered with an error, with or without a status, or with an empty digest, no digest counts as
  -- live: the manifest of an item that has a digest and whose repository was not looked at
  -- before is deleted from the registry, whichever tags point at it.
  pub unread_tags_deleted :
      (acc : List (Text × List Text) × ℕ) (w : Db × S) (tags : List Text)
      → is_empty item.digest ≡ false
      → lookup item.repo acc.0 ≡ none
      → (client.tags item.repo w.1).0 ≡ answered tags
      → (process_gc_item client item acc w).1.1
        ≡ (client.delete_manifest item.repo item.digest
            (live_digests_for_repo client item.repo w.1).1).1
  unfolding process_gc_item examine verified unless_live live_digests_for_repo contains
  unread_tags_deleted acc w tags filled new listed =
      rw (filled, new)
        (rw (listed_blind (client.tags item.repo w.1).0 tags (client.tags item.repo w.1).1 listed)
          (after_delete_registry _ _ _))
