-- ===== src/Sizes/Floats.antt =====
-- Sizes that arrive as float64.
use registry_ui_go.Base.{
  ℕ, ◌^◌, ◌≤◌, ◌≡◌, ◌≢◌, ◌↔◌, refl, arith, ℤ, pos, negsuc, leb, ltb, if_cases, if◌then◌else◌,
}
use registry_ui_go.Sizes.Decoded.{
  Float, not_a_number, plus_infinite, minus_infinite, below_one, finite, float, number,
}
use registry_ui_go.Sizes.{parse_size_value, number_size, float_size, max_int64, to_int64}

-- A size that is neither negative nor above math.MaxInt64.
abbrev pub IsSize : ℤ → Type 0
IsSize v = (n : ℕ) × (v ≡ pos n) × (n ≤ max_int64)

finite_lem :
    (overflow : ℤ) (n : ℕ)
    → n ≢ 2 ^ 63
    → IsSize (if ltb (2 ^ 63) n then pos max_int64 else to_int64 overflow n)
finite_lem overflow n other =
    if_cases IsSize (ltb (2 ^ 63) n) (pos max_int64) (to_int64 overflow n)
      (λ _. (max_int64, refl, omega arith))
      (λ small.
        if_cases IsSize (leb n max_int64) (pos n) overflow (λ le. (n, refl, ground arith))
          (λ gt. absurd (other (ground arith))))

sized :
    (overflow : ℤ) (f : Float)
    → f ≢ finite (pos (2 ^ 63))
    → IsSize (parse_size_value overflow (number (float f)))
unfolding parse_size_value number_size float_size
sized overflow not_a_number other = (0, refl, omega arith)
sized overflow plus_infinite other = (0, refl, omega arith)
sized overflow minus_infinite other = (0, refl, omega arith)
sized overflow below_one other = (0, refl, omega arith)
sized overflow (finite (negsuc n)) other = (0, refl, omega arith)
sized overflow (finite (pos n)) other = finite_lem overflow n (λ e. other (cc e))

all_sized :
    (overflow : ℤ)
    → IsSize overflow
    → (f : Float) → IsSize (parse_size_value overflow (number (float f)))
unfolding parse_size_value number_size float_size
all_sized overflow h (finite (pos n)) =
    if_cases IsSize (ltb (2 ^ 63) n) (pos max_int64) (to_int64 overflow n)
      (λ _. (max_int64, refl, omega arith))
      (λ _.
        if_cases IsSize (leb n max_int64) (pos n) overflow (λ le. (n, refl, ground arith)) (λ _. h))
all_sized overflow h not_a_number = (0, refl, omega arith)
all_sized overflow h plus_infinite = (0, refl, omega arith)
all_sized overflow h minus_infinite = (0, refl, omega arith)
all_sized overflow h below_one = (0, refl, omega arith)
all_sized overflow h (finite (negsuc n)) = (0, refl, omega arith)

-- A float64 other than 2 ^ 63 gives a size between 0 and math.MaxInt64, whatever else it is, NaN,
-- infinite and negative values included. All float64 do exactly if the platform converts 2 ^ 63 to
-- such a size, since the test against float64(math.MaxInt64), which is 2 ^ 63, lets that one value
-- through to the conversion.
pub parse_size_value-IsSize :
    (overflow : ℤ)
    → ((f : Float)
        → f ≢ finite (pos (2 ^ 63))
        → IsSize (parse_size_value overflow (number (float f))))
      × (((f : Float) → IsSize (parse_size_value overflow (number (float f)))) ↔ IsSize overflow)
unfolding parse_size_value number_size float_size
parse_size_value-IsSize overflow =
    (sized overflow, (λ all. all (finite (pos (2 ^ 63))), all_sized overflow))
