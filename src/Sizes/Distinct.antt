-- ===== src/Sizes/Distinct.antt =====
-- The walk for a size asks for no manifest twice.
use registry_ui_go.Base.{
  ℤ, ℕ, zero, suc, ◌+◌, ◌≤◌, ◌≡◌, ◌≢◌, refl, sym, subst, Bool, true, false, Option, none, some,
  List, [], ◌∷◌, Text, codes, arith, contains, text_eq, text_eq_iff, text_eq_instance, ◌||◌,
  is_empty, if◌then◌else◌, Bool-cases, inl, inr,
}
use registry_ui_go.Registry.{Answer, answered, refused, unreachable}
use registry_ui_go.Sizes.Decoded.{
  Json, Items, Fields, member, nil, cons, as_text, as_object, as_items,
}
use registry_ui_go.Sizes.{
  Walk, child_digest, plus, fetched, resolve_child, try_child, children_sizes, manifest_size,
  object_size, image_size_into, image_size,
}

same_some : (t digest : Text) → some t ≡ some digest → t ≡ digest
same_some t digest e = cc

chosen_new :
    (t digest : Text) (seen : List Text)
    → (if is_empty t || contains seen t then none else some t) ≡ some digest
    → contains seen digest ≡ false
chosen_new t digest seen = elim (Bool-cases (is_empty t)) [
  | inl h ↦ rw h (λ e. cc)
  | inr h ↦ rw h (elim (Bool-cases (contains seen t)) [
    | inl c ↦ rw c (λ e. cc)
    | inr c ↦ rw c (λ e. subst (λ u. contains seen u ≡ false) (same_some t digest e) c)
  ])
]

child_digest-contains :
    (o : Option Fields) (seen : List Text) (digest : Text)
    → child_digest o seen ≡ some digest
    → contains seen digest ≡ false
unfolding child_digest
child_digest-contains none seen digest e = cc
child_digest-contains (some child) seen digest e =
    chosen_new (as_text (member child (codes "digest"))) digest seen e

module _ {S : Type 0} (overflow : ℤ) (fetch : Text → Text → S → Answer Json × S) (name d : Text)
    (asked : S → ℕ) (others : (ref : Text) (s : S) → ref ≢ d → asked (fetch name ref s).1 ≡ asked s)
    (counts : (s : S) → asked (fetch name d s).1 ≤ suc (asked s)) where
  -- 1 while the manifest may still be asked for
  abbrev open_for : Bool → ℕ
  open_for true = 0
  open_for false = 1

  Once : ℕ → Walk S → Type 0
  Once c w = asked w.registry + open_for (contains w.seen_manifests d) ≤ c

  Careful : (Walk S → ℕ × Walk S) → Type 0
  Careful f = (c : ℕ) (w : Walk S) → Once c w → Once c (f w).1

  asked_one :
      (digest : Text) (c : ℕ) (w : Walk S)
      → contains w.seen_manifests digest ≡ false
      → Once c w
      → Once c (record w {
        registry = (fetch name digest w.registry).1;
        seen_manifests = digest ∷ w.seen_manifests;
      })
  unfolding Once contains
  asked_one digest c w new h = elim (Bool-cases (text_eq digest d)) [
    | inl hit ↦
        let e = (text_eq_iff digest d).0 hit in
        rw hit (
          once
            (subst (λ t. asked (fetch name t w.registry).1 ≤ suc (asked w.registry)) (sym e)
              (counts w.registry))
            (contains w.seen_manifests d) (subst (λ t. contains w.seen_manifests t ≡ false) e new)
            h)
    | inr miss ↦ rw (miss, others digest w.registry (λ e. cc ((text_eq_iff digest d).1 e))) h
  ]
    where
      once :
          asked (fetch name digest w.registry).1 ≤ suc (asked w.registry)
          → (b : Bool) → b ≡ false
          → asked w.registry + open_for b ≤ c
          → asked (fetch name digest w.registry).1 + 0 ≤ c
      once few true e h = cc
      once few false e h = omega (arith, few, h)

  module _ (below : Json → Walk S → ℕ × Walk S) (careful : (m : Json) → Careful (below m)) where
    fetched_lem : (a : Answer Json) → Careful (fetched overflow fetch name below a)
    unfolding Careful
    fetched_lem (answered m) c w h = careful m c w h
    fetched_lem (refused status) c w h = h
    fetched_lem unreachable c w h = h

    try_child_lem :
        (pass : Walk S → ℕ × Walk S) (rest : ℕ → Walk S → ℕ × Walk S) (o : Option Text) (c : ℕ)
        (w : Walk S)
        → ((digest : Text) → o ≡ some digest → contains w.seen_manifests digest ≡ false)
        → Careful pass
        → ((size : ℕ) → Careful (rest size))
        → Once c w
        → Once c (try_child overflow fetch name below pass rest o w).1
    unfolding Careful resolve_child
    try_child_lem pass rest none c w new p r h = p c w h
    try_child_lem pass rest (some digest) c w new p r h = r _ c _ (
        fetched_lem (fetch name digest w.registry).0 c _ (asked_one digest c w (new digest refl) h))

    children_sizes_lem :
        (left : ℕ) (children : Items) (total : ℕ)
        → Careful (children_sizes overflow fetch name below left children total)
    unfolding Careful children_sizes
    children_sizes_lem zero nil total c w h = h
    children_sizes_lem (suc left) nil total c w h = h
    children_sizes_lem zero (cons raw children) total c w h = h
    children_sizes_lem (suc left) (cons raw children) total c w h =
        try_child_lem (children_sizes overflow fetch name below (suc left) children total)
          (λ size. children_sizes overflow fetch name below left children (plus total size))
          (child_digest (as_object raw) w.seen_manifests) c w
          (child_digest-contains (as_object raw) w.seen_manifests)
          (children_sizes_lem (suc left) children total)
          (λ size. children_sizes_lem left children (plus total size)) h

    manifest_size_lem :
        (m : Fields) (items : Items) → Careful (manifest_size overflow fetch name below m items)
    unfolding Careful manifest_size Once
    manifest_size_lem m nil c w h = h
    manifest_size_lem m (cons raw children) c w h =
        children_sizes_lem 16 (cons raw children) 0 c w h

    object_size_lem : (o : Option Fields) → Careful (object_size overflow fetch name below o)
    unfolding Careful
    object_size_lem none c w h = h
    object_size_lem (some m) c w h =
        manifest_size_lem m (as_items (member m (codes "manifests"))) c w h

  image_size_into_lem : (n : ℕ) (m : Json) → Careful (image_size_into overflow fetch name n m)
  unfolding Careful image_size_into
  image_size_into_lem zero m c w h = h
  image_size_into_lem (suc n) m c w h =
      object_size_lem (image_size_into overflow fetch name n) (image_size_into_lem n) (as_object m)
        c w h

-- No manifest is asked for twice in the walk for a size: a measure of the registry that only a
-- request for the digest `d` can change, and raises by at most one, is raised by at most one.
pub image_size_distinct :
    {S : Type 0} (overflow : ℤ) (fetch : Text → Text → S → Answer Json × S) (name d : Text)
    (asked : S → ℕ)
    → ((ref : Text) (s : S) → ref ≢ d → asked (fetch name ref s).1 ≡ asked s)
    → ((s : S) → asked (fetch name d s).1 ≤ suc (asked s))
    → (m : Json) (s : S) → asked (image_size overflow fetch name m s).1 ≤ asked s + 1
unfolding image_size Careful Once contains
image_size_distinct overflow fetch name d asked others counts m s =
    let h =
      image_size_into_lem overflow fetch name d asked others counts 3 m (asked s + 1)
        (record { registry = s; seen_blobs = []; seen_manifests = [] }) (omega arith) in
    omega (arith, h)
