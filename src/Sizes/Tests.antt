-- ===== src/Sizes/Tests.antt =====
-- The size of an index whose two entries name one manifest.
use registry_ui_go.Base.{
  ℤ, negsuc, ◌^◌, ◌↔◌, ℕ, suc, ◌+◌, ◌≤◌, ◌≡◌, ◌≢◌, refl, Text, codes, arith, pos, if◌then◌else◌,
  ◌==◌, text_eq, text_eq_iff, text_eq_instance, contains,
}
use registry_ui_go.Registry.{Answer, answered}
use registry_ui_go.Sizes.Decoded.{
  Float, Json, number, text, array, object, nil, cons, end, field, float, finite, member,
}
use registry_ui_go.Sizes.Floats.{IsSize, parse_size_value-IsSize}
use registry_ui_go.Sizes.{
  max_int64, image_size, image_size_into, manifest_size, children_sizes, child_digest,
  resolve_child, blob_sizes, layer_sizes, blob_of, unique_blob_size, counted_once, parse_size_value,
  number_size, float_size,
}
use registry_ui_go.Sizes.Requests.{image_size_bounded}
use registry_ui_go.Sizes.Distinct.{image_size_distinct}

-- What 2 ^ 63 becomes on amd64.
abbrev least_int64 : ℤ
least_int64 = negsuc max_int64

abbrev layer : Text → ℕ → Json
layer digest size = object (
    field (codes "digest") (text digest)
      (field (codes "size") (number (float (finite (pos size)))) end))

abbrev child : Json
child = object (field (codes "digest") (text (codes "c")) end)

-- Two entries of one digest.
abbrev index : Json
index = object (field (codes "manifests") (array (cons child (cons child nil))) end)

-- Two layers, one of them twice.
abbrev image : Json
image = object (
    field (codes "layers")
      (array
        (cons (layer (codes "x") 5) (cons (layer (codes "y") 7) (cons (layer (codes "x") 5) nil))))
      end)

-- A registry that counts the requests.
abbrev counting : Text → Text → ℕ → Answer Json × ℕ
counting name ref n = (answered image, suc n)

-- A registry that counts those for one digest.
abbrev counting_c : Text → Text → ℕ → Answer Json × ℕ
counting_c name ref n = (answered image, if ref == codes "c" then suc n else n)

index_size : image_size least_int64 counting (codes "r") index 0 ≡ (12, 1)
unfolding image_size image_size_into manifest_size children_sizes child_digest resolve_child
    blob_sizes layer_sizes blob_of unique_blob_size counted_once parse_size_value number_size
    float_size member contains text_eq
index_size = refl

image_size_bounded_example : (image_size least_int64 counting (codes "r") index 0).1 ≤ 0 + 4368
image_size_bounded_example =
    image_size_bounded least_int64 counting (codes "r") (λ n. n) (λ ref n. omega arith) index 0

others : (ref : Text) (n : ℕ) → ref ≢ codes "c" → (counting_c (codes "r") ref n).1 ≡ n
others ref n away = ground (arith, text_eq_iff ref (codes "c"))

few : (n : ℕ) → (counting_c (codes "r") (codes "c") n).1 ≤ suc n
few n = ground arith

image_size_distinct_example : (image_size least_int64 counting_c (codes "r") index 0).1 ≤ 0 + 1
image_size_distinct_example =
    image_size_distinct least_int64 counting_c (codes "r") (codes "c") (λ n. n) others few index 0

parse_size_value-IsSize_example :
    ((f : Float)
      → f ≢ finite (pos (2 ^ 63))
      → IsSize (parse_size_value least_int64 (number (float f))))
    × (((f : Float) → IsSize (parse_size_value least_int64 (number (float f))))
        ↔ IsSize least_int64)
parse_size_value-IsSize_example = parse_size_value-IsSize least_int64
