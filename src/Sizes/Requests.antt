-- ===== src/Sizes/Requests.antt =====
-- How many manifests the walk for a size asks the registry for.
use registry_ui_go.Base.{ℤ, ℕ, zero, suc, ◌+◌, ◌≤◌, Option, none, some, [], Text, codes, arith}
use registry_ui_go.Registry.{Answer, answered, refused, unreachable}
use registry_ui_go.Sizes.Decoded.{Json, Items, Fields, member, nil, cons, as_object, as_items}
use registry_ui_go.Sizes.{
  Walk, child_digest, plus, fetched, resolve_child, try_child, children_sizes, manifest_size,
  object_size, image_size_into, image_size,
}

-- What `left` children may ask for, each for itself and for `k` more.
spent : ℕ → ℕ → ℕ
spent zero k = 0
spent (suc left) k = suc k + spent left k

-- What `n` levels of an index may ask for.
budget : ℕ → ℕ
unfolding spent
budget zero = 0
budget (suc n) = spent 16 (budget n)

module _ {S : Type 0} (overflow : ℤ) (fetch : Text → Text → S → Answer Json × S) (name : Text)
    (asked : S → ℕ)
    (counts : (ref : Text) (s : S) → asked (fetch name ref s).1 ≤ suc (asked s)) where
  -- A walk that asks at most `k` times.
  Frugal : ℕ → (Walk S → ℕ × Walk S) → Type 0
  Frugal k f = (w : Walk S) → asked (f w).1.registry ≤ asked w.registry + k

  module _ (below : Json → Walk S → ℕ × Walk S) (k : ℕ)
      (frugal : (m : Json) → Frugal k (below m)) where
    fetched_lem :
        (a : Answer Json) (w : Walk S)
        → asked (fetched overflow fetch name below a w).1.registry ≤ asked w.registry + k
    unfolding Frugal
    fetched_lem (answered m) w = frugal m w
    fetched_lem (refused status) w = omega arith
    fetched_lem unreachable w = omega arith

    resolve_child_lem :
        (digest : Text) (w : Walk S)
        → asked (resolve_child overflow fetch name below digest w).1.registry
          ≤ asked w.registry + suc k
    unfolding resolve_child
    resolve_child_lem digest w =
        omega (arith, counts digest w.registry, fetched_lem (fetch name digest w.registry).0 _)

    try_child_lem :
        (pass : Walk S → ℕ × Walk S) (rest : ℕ → Walk S → ℕ × Walk S) (b : ℕ) (o : Option Text)
        → Frugal (suc k + b) pass
        → ((size : ℕ) → Frugal b (rest size))
        → Frugal (suc k + b) (try_child overflow fetch name below pass rest o)
    unfolding Frugal
    try_child_lem pass rest b none h g w = h w
    try_child_lem pass rest b (some digest) h g w = omega (
      arith,
      resolve_child_lem digest w,
      g (resolve_child overflow fetch name below digest w).0
          (resolve_child overflow fetch name below digest w).1,
    )

    children_sizes_lem :
        (left : ℕ) (children : Items) (total : ℕ)
        → Frugal (spent left k) (children_sizes overflow fetch name below left children total)
    unfolding Frugal children_sizes spent
    children_sizes_lem zero nil total w = omega arith
    children_sizes_lem (suc left) nil total w = omega arith
    children_sizes_lem zero (cons raw children) total w = omega arith
    children_sizes_lem (suc left) (cons raw children) total w =
        try_child_lem (children_sizes overflow fetch name below (suc left) children total)
          (λ size. children_sizes overflow fetch name below left children (plus total size))
          (spent left k) (child_digest (as_object raw) w.seen_manifests)
          (children_sizes_lem (suc left) children total)
          (λ size. children_sizes_lem left children (plus total size)) w

    object_size_lem :
        (o : Option Fields) → Frugal (spent 16 k) (object_size overflow fetch name below o)
    unfolding Frugal manifest_size
    object_size_lem none w = omega arith
    object_size_lem (some m) w = listed (as_items (member m (codes "manifests"))) w
      where
        listed :
            (items : Items) (w : Walk S)
            → asked (manifest_size overflow fetch name below m items w).1.registry
              ≤ asked w.registry + spent 16 k
        listed nil w = omega arith
        listed (cons raw children) w = children_sizes_lem 16 (cons raw children) 0 w

  image_size_into_lem :
      (n : ℕ) (m : Json) → Frugal (budget n) (image_size_into overflow fetch name n m)
  unfolding Frugal image_size_into budget
  image_size_into_lem zero m w = omega arith
  image_size_into_lem (suc n) m w =
      object_size_lem (image_size_into overflow fetch name n) (budget n) (image_size_into_lem n)
        (as_object m) w

-- Whatever the manifest and the registry's answers are, the walk for a size ends and asks the
-- registry for at most 16 + 16 * 16 + 16 * 16 * 16 manifests: with any measure of the registry that
-- one request raises by at most one, the measure is raised by no more than that.
pub image_size_bounded :
    {S : Type 0} (overflow : ℤ) (fetch : Text → Text → S → Answer Json × S) (name : Text)
    (asked : S → ℕ)
    → ((ref : Text) (s : S) → asked (fetch name ref s).1 ≤ suc (asked s))
    → (m : Json) (s : S) → asked (image_size overflow fetch name m s).1 ≤ asked s + 4368
unfolding image_size Frugal budget spent
image_size_bounded overflow fetch name asked counts m s =
    image_size_into_lem overflow fetch name asked counts 3 m
      (record { registry = s; seen_blobs = []; seen_manifests = [] })
