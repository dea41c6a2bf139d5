-- ===== src/Deletion/Grouping.antt =====
-- The tag that stays, while digests are read and tags are sorted into groups and survivors.
use registry_ui_go.Base.{
  ◌≡◌, refl, sym, ◌∙◌, ap, subst, ◌≢◌, inl, inr, Bool, true, false, Option, none, some, List, [],
  ◌∷◌, ◌++◌, Text, arith, Bool-cases, Option-cases, if◌then◌else◌, contains, In, All, is_empty,
  lookup, lookup-insert, text_eq_instance, text_eq, text_eq_iff,
}
use registry_ui_go.Registry.{answered, Client}
use registry_ui_go.Registry.Documented.{Documented}
use registry_ui_go.Deletion.{
  selected, add_to_group, digest_from, digest_of, digest_or_empty, Groups, placed, grouped,
  survives, surviving_tags,
}

module _ {S : Type 0} (client : Client S) (points_at : Text → Text → S → Option Text)
    (doc : Documented client points_at) (repo tag digest : Text)
    (reads : (s : S)
      → points_at repo tag s ≡ some digest
      → (client.digest repo tag s).0 ≡ answered digest) where
  abbrev Right : Option Text → Type 0
  Right none = Unit
  Right (some d) = d ≡ digest

  -- The tag points at its digest, and the cache says nothing else.
  abbrev pub Fine : List (Text × Text) × S → Type 0
  Fine x = (points_at repo tag x.1 ≡ some digest) × Right (lookup tag x.0)

  digest_of-Fine :
      (t : Text) (x : List (Text × Text) × S) → Fine x → Fine (digest_of client repo t x).1
  unfolding digest_of digest_from
  digest_of-Fine t x (there, right) = elim (Option-cases (lookup t x.0)) [
    | inr (d, known) ↦ rw known (there, right)
    | inl new ↦ rw new (
      doc.digest_reads repo t repo tag x.1 ∙ there,
      rw (lookup-insert t tag (digest_or_empty (client.digest repo t x.1).0) x.0)
          (elim (Bool-cases (text_eq t tag)) [
            | inr other ↦ rw other right
            | inl same ↦ rw same (
                ap digest_or_empty (
                  subst (λ u. (client.digest repo u x.1).0 ≡ answered digest)
                    (sym ((text_eq_iff t tag).0 same)) (reads x.1 there)))
          ]),
    )
  ]

  digest_of_lem : (x : List (Text × Text) × S) → Fine x → (digest_of client repo tag x).0 ≡ digest
  unfolding digest_of digest_from
  digest_of_lem x (there, right) = elim (Option-cases (lookup tag x.0)) [
    | inr (d, known) ↦ rw known (subst Right known right)
    | inl new ↦ rw new (ap digest_or_empty (reads x.1 there))
  ]

  survives-Fine :
      (remove : List Text) (d t : Text) (x : List (Text × Text) × S)
      → Fine x
      → Fine (survives client repo remove d t x).1
  unfolding survives
  survives-Fine remove d t x h = elim (Bool-cases (contains remove t)) [
    | inl hit ↦ rw hit h
    | inr miss ↦ rw miss (digest_of-Fine t x h)
  ]

  survives_lem :
      (remove : List Text) (d : Text) (x : List (Text × Text) × S)
      → Fine x
      → contains remove tag ≡ false
      → (survives client repo remove d tag x).0 ≡ text_eq digest d
  unfolding survives
  survives_lem remove d x h miss = rw miss (rw (digest_of_lem x h) refl)

  pub surviving-Fine :
      (tags remove : List Text) (d : Text) (x : List (Text × Text) × S)
      → Fine x
      → Fine (surviving_tags client repo tags remove d x).1
  unfolding surviving_tags
  surviving-Fine [] remove d x h = h
  surviving-Fine (t ∷ tags) remove d x h =
      surviving-Fine tags remove d (survives client repo remove d t x).1
        (survives-Fine remove d t x h)

  head_kept : (b : Bool) (t : Text) (ts : List Text) → In tag ts → In tag (if b then t ∷ ts else ts)
  head_kept true t ts m = inr m
  head_kept false t ts m = m

  head_here :
      (b : Bool) (t : Text) (ts : List Text)
      → b ≡ true
      → tag ≡ t
      → In tag (if b then t ∷ ts else ts)
  head_here true t ts k e = inl e
  head_here false t ts k e = cc

  -- The tag survives the removal of others from its digest.
  pub surviving_has :
      (tags remove : List Text) (x : List (Text × Text) × S)
      → Fine x
      → contains remove tag ≡ false
      → In tag tags
      → In tag (surviving_tags client repo tags remove digest x).0
  unfolding surviving_tags
  surviving_has [] remove x h miss m = absurd m
  surviving_has (t ∷ tags) remove x h miss (inl e) =
      head_here (survives client repo remove digest t x).0 t _
        (ap (λ u. (survives client repo remove digest u x).0) (sym e)
          ∙ survives_lem remove digest x h miss
          ∙ (text_eq_iff digest digest).1 refl)
        e
  surviving_has (t ∷ tags) remove x h miss (inr m) =
      head_kept (survives client repo remove digest t x).0 t _ (
        surviving_has tags remove (survives client repo remove digest t x).1
          (survives-Fine remove digest t x h) miss m)

  -- It is no survivor of another digest.
  pub surviving_lacks :
      (tags remove : List Text) (d : Text) (x : List (Text × Text) × S)
      → Fine x
      → contains remove tag ≡ false
      → d ≢ digest
      → contains (surviving_tags client repo tags remove d x).0 tag ≡ false
  unfolding surviving_tags contains
  surviving_lacks [] remove d x h miss n = refl
  surviving_lacks (t ∷ tags) remove d x h miss n = elim (Bool-cases (text_eq t tag)) [
    | inl same ↦ rw (out same) (
        surviving_lacks tags remove d (survives client repo remove d t x).1
          (survives-Fine remove d t x h) miss n)
    | inr other ↦ elim (Bool-cases (survives client repo remove d t x).0) [
      | inl kept ↦
          rw (kept, other)
            (surviving_lacks tags remove d (survives client repo remove d t x).1
              (survives-Fine remove d t x h) miss n)
      | inr gone ↦ rw gone (
          surviving_lacks tags remove d (survives client repo remove d t x).1
            (survives-Fine remove d t x h) miss n)
    ]
  ]
    where
      differs : text_eq digest d ≡ false
      differs = ground (arith, text_eq_iff digest d)

      out : text_eq t tag ≡ true → (survives client repo remove d t x).0 ≡ false
      out same =
          ap (λ u. (survives client repo remove d u x).0) ((text_eq_iff t tag).0 same)
          ∙ survives_lem remove d x h miss
          ∙ differs

  -- A group whose removals do not name the tag.
  abbrev pub Spared : Text × List Text → Type 0
  Spared g = contains g.1 tag ≡ false

  contains-append :
      (ts : List Text) (t : Text)
      → contains ts tag ≡ false
      → text_eq t tag ≡ false
      → contains (ts ++ t ∷ []) tag ≡ false
  unfolding contains
  contains-append [] t h n = ground arith
  contains-append (u ∷ ts) t h n = ground (arith, contains-append ts t)

  add_to_group-Spared :
      (d t : Text) (gs : List (Text × List Text))
      → text_eq t tag ≡ false
      → All Spared gs
      → All Spared (add_to_group d t gs)
  unfolding add_to_group contains
  add_to_group-Spared d t [] n h = (ground arith, tt)
  add_to_group-Spared d t (g ∷ gs) n h = elim (Bool-cases (text_eq g.0 d)) [
    | inl same ↦ rw same (contains-append g.1 t h.0 n, h.1)
    | inr other ↦ rw other (h.0, add_to_group-Spared d t gs n h.1)
  ]

  placed-Spared :
      (d t : Text) (acc : Groups)
      → text_eq t tag ≡ false
      → All Spared acc.0
      → All Spared (placed d t acc).0
  placed-Spared [] t acc n s = s
  placed-Spared (c ∷ d) t acc n s = add_to_group-Spared (c ∷ d) t acc.0 n s

  pub grouped-Fine :
      (tags : List Text) (acc : Groups) (x : List (Text × Text) × S)
      → contains tags tag ≡ false
      → All Spared acc.0
      → Fine x
      → All Spared (grouped client repo tags acc x).0.0 × Fine (grouped client repo tags acc x).1
  unfolding grouped contains
  grouped-Fine [] acc x n s h = (s, h)
  grouped-Fine (t ∷ tags) acc x n s h =
      grouped-Fine tags (placed (digest_of client repo t x).0 t acc) (digest_of client repo t x).1
        (ground arith) (placed-Spared (digest_of client repo t x).0 t acc (ground arith) s)
        (digest_of-Fine t x h)

  pub selected_lacks :
      (seen tags : List Text)
      → contains tags tag ≡ false
      → contains (selected seen tags) tag ≡ false
  unfolding selected contains
  selected_lacks seen [] n = refl
  selected_lacks seen (t ∷ tags) n =
      ground (arith, selected_lacks (if is_empty t then seen else t ∷ seen) tags)
