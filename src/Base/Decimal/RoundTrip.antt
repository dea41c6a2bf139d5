-- ===== src/Base/Decimal/RoundTrip.antt =====
-- Reading a number that was written.
use Prim.Native.Nat.{ℕ, zero, suc, ◌+◌, ◌-◌, ◌*◌, ◌/◌, ◌%◌, ◌^◌, ◌<◌}
use mathlib.Core.Path.{◌≡◌, refl, ◌∙◌, ap}
use mathlib.Core.Logic.{inl, inr}
use mathlib.Core.Bool.{false}
use mathlib.Core.Option.{Option, none, some}
use mathlib.Core.List.{[], ◌∷◌, ◌++◌}
use native.Mathlib.Omega.{arith}
use registry_ui_go.Base.Tests.{Bool-cases, ltb, ◌==◌, nat_eq_instance, if_true, if_false, if_cases}
use registry_ui_go.Base.Lists.{is_empty, All, append-All}
use registry_ui_go.Base.Strings.{Text, NoneOf, append-NoneOf}
use registry_ui_go.Base.Decimal.{pos, digits_value, natural, atoi, digits_of, itoa, to_positive}

abbrev times_ten : ℕ → Option ℕ → Option ℕ
times_ten d none = none
times_ten d (some v) = some (v * 10 + d)

value_append :
    (acc d : ℕ) (s : Text)
    → d < 10
    → digits_value acc (s ++ (d + 48) ∷ []) ≡ times_ten d (digits_value acc s)
unfolding digits_value
value_append acc d [] small = ground arith
value_append acc d (c ∷ s) small = ground (arith, value_append (acc * 10 + (c - 48)) d s small)

nothing_read : digits_value 0 [] ≡ some 0
unfolding digits_value
nothing_read = refl

value_digit : (n : ℕ) → n < 10 → digits_value 0 ((n + 48) ∷ []) ≡ some n
unfolding digits_value
value_digit n small = ground arith

quotient : (n k : ℕ) → n < k * 10 → n / 10 < k
quotient n k small = omega arith

value_of : (fuel n : ℕ) → n < 10 ^ fuel → digits_value 0 (digits_of fuel n) ≡ some n
unfolding digits_of
value_of zero n small = zero_of n small
  where
    zero_of : (n : ℕ) → n < 1 → digits_value 0 [] ≡ some n
    zero_of zero small = nothing_read
    zero_of (suc n) small = absurd (omega arith)
value_of (suc fuel) n small = elim (Bool-cases (ltb n 10)) [
  | inl one ↦ rw one (value_digit n (ground arith))
  | inr more ↦
      rw
        (
          more,
          value_append 0 (n % 10) (digits_of fuel (n / 10)) (omega arith),
          value_of fuel (n / 10) (quotient n (10 ^ fuel) (omega (arith, small))),
        )
        (ap some (omega arith))
]

digits_of-NoneOf : (c fuel n : ℕ) → c < 48 → NoneOf c (digits_of fuel n)
unfolding digits_of
digits_of-NoneOf c zero n low = tt
digits_of-NoneOf c (suc fuel) n low =
    if_cases (NoneOf c) (ltb n 10) ((n + 48) ∷ []) (digits_of fuel (n / 10) ++ (n % 10 + 48) ∷ [])
      (λ _. (λ e. omega arith, tt))
      λ _.
        append-NoneOf c (digits_of fuel (n / 10)) ((n % 10 + 48) ∷ [])
          (digits_of-NoneOf c fuel (n / 10) low) (λ e. omega arith, tt)

pub itoa-NoneOf : (c n : ℕ) → c < 48 → NoneOf c (itoa n)
unfolding itoa
itoa-NoneOf c n low = digits_of-NoneOf c 20 n low

digits_of-Bytes : (fuel n : ℕ) → All (λ b. b < 256) (digits_of fuel n)
unfolding digits_of
digits_of-Bytes zero n = tt
digits_of-Bytes (suc fuel) n = elim (Bool-cases (ltb n 10)) [
  | inl one ↦ rw one (ground arith, tt)
  | inr more ↦ rw more (
      append-All (λ b. b < 256) (digits_of fuel (n / 10)) ((n % 10 + 48) ∷ [])
        (digits_of-Bytes fuel (n / 10)) (omega arith, tt))
]

pub itoa-Bytes : (n : ℕ) → All (λ b. b < 256) (itoa n)
unfolding itoa
itoa-Bytes n = digits_of-Bytes 20 n

not_empty : (s : Text) (c : ℕ) → is_empty (s ++ c ∷ []) ≡ false
not_empty [] c = refl
not_empty (x ∷ s) c = refl

digits_of_some : (fuel n : ℕ) → is_empty (digits_of (suc fuel) n) ≡ false
unfolding digits_of
digits_of_some fuel n =
    if_cases (λ s. is_empty s ≡ false) (ltb n 10) ((n + 48) ∷ [])
      (digits_of fuel (n / 10) ++ (n % 10 + 48) ∷ []) (λ _. refl)
      (λ _. not_empty (digits_of fuel (n / 10)) (n % 10 + 48))

atoi_plain :
    (s : Text) (n : ℕ)
    → is_empty s ≡ false
    → NoneOf b'-' s
    → NoneOf b'+' s
    → digits_value 0 s ≡ some n
    → n < 2 ^ 63
    → atoi s ≡ some (pos n)
unfolding atoi natural
atoi_plain [] n some_digit minus plus value small = cc
atoi_plain (c ∷ s) n some_digit (minus, _) (plus, _) value small =
    if_false (c == b'-') _ _ (ground arith)
    ∙ if_false (c == b'+') _ _ (ground arith)
    ∙ ap to_positive value
    ∙ if_true (ltb n (2 ^ 63)) (some (pos n)) none (ground arith)

-- A number of at most 63 bits is read as it was written.
pub atoi-itoa : (n : ℕ) → n < 2 ^ 63 → atoi (itoa n) ≡ some (pos n)
unfolding itoa
atoi-itoa n small =
    atoi_plain (digits_of 20 n) n (digits_of_some 19 n) (digits_of-NoneOf b'-' 20 n (omega arith))
      (digits_of-NoneOf b'+' 20 n (omega arith)) (value_of 20 n (omega arith)) small
