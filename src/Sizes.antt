-- ===== src/Sizes.antt =====
-- backend/internal/server/server.go: the size of an image, from the decoded JSON of its manifest. An int64 is a word below 2 ^ 64 in two's complement.
pub mod Decoded
pub mod Kinds
pub mod Requests
pub mod Floats
mod Tests
pub mod Distinct
use registry_ui_go.Base.{
  ℕ, zero, suc, ◌+◌, ◌%◌, ◌^◌, ◌-◌, Bool, true, false, Option, none, some, List, [], ◌∷◌,
  if◌then◌else◌, Text, codes, ◌==◌, text_eq_instance, ◌&&◌, ◌||◌, not, is_empty, contains, ltb, leb,
  ℤ, pos, negsuc,
}
use registry_ui_go.Sizes.Decoded.{
  Float, not_a_number, plus_infinite, minus_infinite, below_one, finite, Number, float, integer,
  rounded, unreadable, Json, null, boolean, number, text, array, object, Items, nil, cons, Fields,
  end, field, member, as_text, as_object, as_items,
}
use registry_ui_go.Registry.{Answer, answered}

-- math.MaxInt64
abbrev pub max_int64 : ℕ
max_int64 = 2 ^ 63 - 1

-- int64(s) for 0 ≤ s ≤ 2 ^ 63. What becomes of 2 ^ 63, which is no int64, Go leaves to the platform:
-- it is the parameter `overflow`.
abbrev pub to_int64 : ℤ → ℕ → ℤ
to_int64 overflow n = if leb n max_int64 then pos n else overflow

unfoldable pub float_size : ℤ → Float → ℤ
float_size overflow not_a_number = pos 0
float_size overflow plus_infinite = pos 0
float_size overflow minus_infinite = pos 0
float_size overflow below_one = pos 0
float_size overflow (finite (negsuc n)) = pos 0
float_size overflow (finite (pos n)) = if ltb (2 ^ 63) n then pos max_int64 else to_int64 overflow n

unfoldable pub number_size : ℤ → Number → ℤ
number_size overflow (float f) = float_size overflow f
number_size overflow (integer (pos n)) = pos n
number_size overflow (integer (negsuc n)) = pos 0
number_size overflow (rounded f) = float_size overflow f
number_size overflow unreadable = pos 0

-- parseSizeValue
unfoldable pub parse_size_value : ℤ → Json → ℤ
parse_size_value overflow (number n) = number_size overflow n
parse_size_value overflow _ = pos 0

abbrev pub max_index_size_children : ℕ
max_index_size_children = 16

abbrev pub max_index_size_depth : ℕ
max_index_size_depth = 2

-- What a walk changes: the registry, and the digests of blobs and of manifests that it has seen.
pub record Walk (S : Type 0) : Type 0 where
  pub registry : S
  pub seen_blobs : List Text
  pub seen_manifests : List Text

-- `total += …` on int64
abbrev pub plus : ℕ → ℕ → ℕ
plus total size = (total + size) % 2 ^ 64

-- The end of uniqueBlobSize, for a size that is positive.
unfoldable pub counted_once : ℕ → Text → List Text → ℕ × List Text
counted_once size digest seen =
    if is_empty digest
    then (size, seen)
    else if contains seen digest
    then (0, seen)
    else (size, digest ∷ seen)

abbrev pub when_positive : ℤ → Text → List Text → ℕ × List Text
when_positive (pos (suc n)) digest seen = counted_once (suc n) digest seen
when_positive (pos zero) digest seen = (0, seen)
when_positive (negsuc n) digest seen = (0, seen)

-- uniqueBlobSize
unfoldable pub unique_blob_size : ℤ → Fields → List Text → ℕ × List Text
unique_blob_size overflow descriptor seen =
    when_positive (parse_size_value overflow (member descriptor (codes "size")))
      (as_text (member descriptor (codes "digest"))) seen

-- A config or a layer that is no object adds nothing.
unfoldable pub blob_of : ℤ → Option Fields → List Text → ℕ × List Text
blob_of overflow none seen = (0, seen)
blob_of overflow (some descriptor) seen = unique_blob_size overflow descriptor seen

-- The loop over the layers, with the total so far.
unfoldable pub layer_sizes : ℤ → Items → ℕ → List Text → ℕ × List Text
layer_sizes overflow nil total seen = (total, seen)
layer_sizes overflow (cons raw layers) total seen =
    let (size, seen') = blob_of overflow (as_object raw) seen in
    layer_sizes overflow layers (plus total size) seen'

unfoldable pub blob_sizes : ℤ → Fields → List Text → ℕ × List Text
blob_sizes overflow m seen =
    let (size, seen') = blob_of overflow (as_object (member m (codes "config"))) seen in
    layer_sizes overflow (as_items (member m (codes "layers"))) size seen'

-- The digest of a child that is to be resolved.
unfoldable pub child_digest : Option Fields → List Text → Option Text
child_digest none seen = none
child_digest (some child) seen =
    let digest = as_text (member child (codes "digest")) in
    if is_empty digest || contains seen digest then none else some digest

module _ {S : Type 0} (overflow : ℤ) (fetch : Text → Text → S → Answer Json × S) (name : Text) where
  -- The size of a manifest that was asked for; an error adds nothing.
  abbrev pub fetched : (Json → Walk S → ℕ × Walk S) → Answer Json → Walk S → ℕ × Walk S
  fetched below (answered manifest) w = below manifest w
  fetched below _ w = (0, w)

  unfoldable pub resolve_child : (Json → Walk S → ℕ × Walk S) → Text → Walk S → ℕ × Walk S
  resolve_child below digest w =
      let (manifest, registry) = fetch name digest w.registry in
      fetched below manifest
        (record w { registry = registry; seen_manifests = digest ∷ w.seen_manifests })

  -- A child that is passed over, or one that is resolved before the rest.
  abbrev pub try_child :
      (Json → Walk S → ℕ × Walk S)
      → (Walk S → ℕ × Walk S)
      → (ℕ → Walk S → ℕ × Walk S)
      → Option Text
      → Walk S
      → ℕ × Walk S
  try_child below pass rest none w = pass w
  try_child below pass rest (some digest) w =
      let (size, w') = resolve_child below digest w in rest size w'

  -- The loop over the children: `left` may still be resolved.
  unfoldable pub children_sizes : (Json → Walk S → ℕ × Walk S) → ℕ → Items → ℕ → Walk S → ℕ × Walk S
  children_sizes below left nil total w = (total, w)
  children_sizes below zero (cons raw children) total w = (total, w)
  children_sizes below (suc left) (cons raw children) total w =
      try_child below (children_sizes below (suc left) children total)
        (λ size. children_sizes below left children (plus total size))
        (child_digest (as_object raw) w.seen_manifests) w

  unfoldable pub manifest_size : (Json → Walk S → ℕ × Walk S) → Fields → Items → Walk S → ℕ × Walk S
  manifest_size below m nil w =
      let (size, seen) = blob_sizes overflow m w.seen_blobs in
      (size, record w { seen_blobs = seen })
  manifest_size below m (cons raw children) w =
      children_sizes below max_index_size_children (cons raw children) 0 w

  abbrev pub object_size : (Json → Walk S → ℕ × Walk S) → Option Fields → Walk S → ℕ × Walk S
  object_size below none w = (0, w)
  object_size below (some m) w = manifest_size below m (as_items (member m (codes "manifests"))) w

  -- imageSizeInto; the first argument is 3 - depth
  unfoldable pub image_size_into : ℕ → Json → Walk S → ℕ × Walk S
  image_size_into zero manifest w = (0, w)
  image_size_into (suc n) manifest w = object_size (image_size_into n) (as_object manifest) w

  -- imageSize
  unfoldable pub image_size : Json → S → ℕ × S
  image_size manifest s =
      let (size, w) =
        image_size_into (max_index_size_depth + 1) manifest
          (record { registry = s; seen_blobs = []; seen_manifests = [] }) in
      (size, w.registry)
