-- ===== src/Base/Decimal.antt =====
-- strconv.Atoi and strconv.Itoa on 64-bit integers, and the integers that they read.
pub mod RoundTrip
use Prim.Native.Nat.{ℕ, zero, suc, ◌+◌, ◌-◌, ◌*◌, ◌/◌, ◌%◌, ◌^◌}
use mathlib.Core.Bool.{Bool, true, false, ◌&&◌}
use mathlib.Core.Option.{Option, none, some}
use mathlib.Core.List.{[], ◌∷◌, ◌++◌}
use registry_ui_go.Base.Tests.{if◌then◌else◌, ltb, leb, ◌==◌, nat_eq_instance}
use registry_ui_go.Base.Strings.{Text}

-- `negsuc n` is -(n + 1).
pub data ℤ : Type 0 where
  pos : ℕ → ℤ
  negsuc : ℕ → ℤ

-- a < b
abbrev pub ltz : ℤ → ℤ → Bool
ltz (pos a) (pos b) = ltb a b
ltz (pos a) (negsuc b) = false
ltz (negsuc a) (pos b) = true
ltz (negsuc a) (negsuc b) = ltb b a

-- The digits of a number, at least one; none on any other character.
unfoldable pub digits_value : ℕ → Text → Option ℕ
digits_value acc [] = some acc
digits_value acc (c ∷ s) =
    let rest = digits_value (acc * 10 + (c - b'0')) s in
    if leb b'0' c && leb c b'9' then rest else none

unfoldable pub natural : Text → Option ℕ
natural [] = none
natural (c ∷ s) = digits_value 0 (c ∷ s)

abbrev to_positive : Option ℕ → Option ℤ
to_positive none = none
to_positive (some n) = if ltb n (2 ^ 63) then some (pos n) else none

abbrev to_negative : Option ℕ → Option ℤ
to_negative none = none
to_negative (some zero) = some (pos 0)
to_negative (some (suc n)) = if leb (suc n) (2 ^ 63) then some (negsuc n) else none

-- strconv.Atoi: an optional sign and decimal digits, within 64 bits
unfoldable pub atoi : Text → Option ℤ
unfolding natural digits_value
atoi [] = none
atoi (c ∷ s) =
    if c == b'-'
    then to_negative (natural s)
    else if c == b'+'
    then to_positive (natural s)
    else to_positive (natural (c ∷ s))

-- The digits of a number below 10 ^ fuel.
digits_of : ℕ → ℕ → Text
digits_of zero n = []
digits_of (suc fuel) n =
    let front = digits_of fuel (n / 10) in
    if ltb n 10 then (n + b'0') ∷ [] else front ++ (n % 10 + b'0') ∷ []

-- strconv.Itoa of a number that is not negative: 64 bits have at most 20 digits
unfoldable pub itoa : ℕ → Text
unfolding digits_of
itoa n = digits_of 20 n
