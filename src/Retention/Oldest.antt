-- ===== src/Retention/Oldest.antt =====
-- Retention proposes the oldest digests, and only tags that the registry lists.
use registry_ui_go.Base.{
  ℕ, zero, suc, ◌≡◌, refl, sym, subst, inl, inr, Bool, true, false, List, [], ◌∷◌, ◌++◌, Text,
  arith, Bool-cases, if◌then◌else◌, All, In, length, drop, leb, any, update, contains, text_eq_iff,
  text_eq_instance, ℤ, pos, negsuc,
}
use registry_ui_go.Store.{Image}
use registry_ui_go.Retention.{
  Group, of_digest, with_image, add_image, passed_over, group_images, sorted_groups,
  retention_candidates,
}
use registry_ui_go.Retention.Sorting.{In-sort, In-All, In-drop}

-- An order in which a map's entries may come.
pub record IsOrder (order : List Group → List Group) : Type 0 where
  pub same_length : (gs : List Group) → length (order gs) ≡ length gs
  pub same_members : (gs : List Group) (g : Group) → In g (order gs) → In g gs

-- A candidate is beyond the first keepCount groups of the sorted list.
candidate_dropped :
    (order : List Group → List Group) (images : List Image) (n : ℕ) (tags : List Text) (c : Group)
    → In c (retention_candidates order images (pos (suc n)) tags)
    → In c (drop (suc n) (sorted_groups order tags images))
unfolding retention_candidates
candidate_dropped order images n tags c h =
    branches (leb (length (group_images tags images [])) (suc n)) h
  where
    branches :
        (b : Bool)
        → In c (if b then [] else drop (suc n) (sorted_groups order tags images))
        → In c (drop (suc n) (sorted_groups order tags images))
    branches true h = absurd h
    branches false h = h

-- The tags of a group, each with a property of its digest and itself.
module _ (P : Text → Text → Type 0) where
  abbrev Sound : Group → Type 0
  Sound g = All (P g.digest) g.tags

  All-append : (d t : Text) (tags : List Text) → All (P d) tags → P d t → All (P d) (tags ++ t ∷ [])
  All-append d t [] h p = (p, tt)
  All-append d t (x ∷ tags) h p = (h.0, All-append d t tags h.1 p)

  update-Sound :
      (img : Image) (gs : List Group)
      → P img.digest img.tag
      → All Sound gs
      → All Sound (update (of_digest img.digest) (with_image img) gs)
  unfolding update
  update-Sound img [] p h = tt
  update-Sound img (g ∷ gs) p h = elim (Bool-cases (of_digest img.digest g)) [
    | inl same ↦ rw same (
      All-append g.digest img.tag g.tags h.0
          (subst (λ d. P d img.tag) (sym ((text_eq_iff g.digest img.digest).0 same)) p),
      update-Sound img gs p h.1,
    )
    | inr other ↦ rw other (h.0, update-Sound img gs p h.1)
  ]

  new-Sound :
      (img : Image) (gs : List Group)
      → P img.digest img.tag
      → All Sound gs
      → All Sound
          (gs ++ with_image img (record { digest = img.digest; tags = []; latest_at = 0 }) ∷ [])
  new-Sound img [] p h = ((p, tt), tt)
  new-Sound img (g ∷ gs) p h = (h.0, new-Sound img gs p h.1)

  add_image-Sound :
      (img : Image) (gs : List Group)
      → P img.digest img.tag
      → All Sound gs
      → All Sound (add_image img gs)
  unfolding add_image
  add_image-Sound img gs p h = elim (Bool-cases (any (of_digest img.digest) gs)) [
    | inl old ↦ rw old (update-Sound img gs p h)
    | inr new ↦ rw new (new-Sound img gs p h)
  ]

  group_images-Sound :
      (tags : List Text) (images : List Image) (gs : List Group)
      → ((img : Image) → In img images → passed_over tags img ≡ false → P img.digest img.tag)
      → All Sound gs
      → All Sound (group_images tags images gs)
  unfolding group_images
  group_images-Sound tags [] gs each h = h
  group_images-Sound tags (img ∷ images) gs each h = elim (Bool-cases (passed_over tags img)) [
    | inl over ↦ rw over (group_images-Sound tags images gs (λ i m. each i (inr m)) h)
    | inr taken ↦ rw taken (
        group_images-Sound tags images (add_image img gs) (λ i m. each i (inr m))
          (add_image-Sound img gs (each img (inl refl) taken) h))
  ]

-- The registry lists the tag, and an image row has it with the digest.
abbrev pub Listed : List Text → List Image → Text → Text → Type 0
Listed tags images digest tag =
    (contains tags tag ≡ true)
    × ((img : Image) × In img images × (img.digest ≡ digest) × (img.tag ≡ tag))

image-Listed :
    (tags : List Text) (images : List Image) (img : Image)
    → In img images
    → passed_over tags img ≡ false
    → Listed tags images img.digest img.tag
image-Listed tags images img m h = (ground arith, (img, m, refl, refl))

-- Every tag of a candidate is a tag that the registry lists, and is a tag of an image of the
-- candidate's digest, in whatever order the map is gone through and for every keep count.
pub retention_candidates-Listed :
    (order : List Group → List Group) (images : List Image) (n : ℤ) (tags : List Text) (c : Group)
    → IsOrder order
    → In c (retention_candidates order images n tags)
    → All (Listed tags images c.digest) c.tags
unfolding sorted_groups retention_candidates
retention_candidates-Listed order images (negsuc n) tags c o h = absurd h
retention_candidates-Listed order images (pos zero) tags c o h = absurd h
retention_candidates-Listed order images (pos (suc n)) tags c o h =
    In-All (Sound (Listed tags images)) (group_images tags images []) c
      (group_images-Sound (Listed tags images) tags images [] (image-Listed tags images) tt)
      (o.same_members _ c
        (In-sort c _ (In-drop (suc n) c _ (candidate_dropped order images n tags c h))))
