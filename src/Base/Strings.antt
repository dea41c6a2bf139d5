-- ===== src/Base/Strings.antt =====
-- Text as a list of code points, with the functions of Go's strings package that the server calls.
use Prim.Native.Nat.{ℕ, zero, suc, ◌+◌, ◌-◌, ◌≤◌}
use Prim.Native.Char.{code}
use Prim.Native.String.{String}
use mathlib.Core.Path.{◌≡◌, refl, ◌∙◌, ap}
use mathlib.Core.Logic.{◌≢◌, ◌↔◌}
use mathlib.Core.Bool.{Bool, true, false, ◌&&◌, ◌||◌}
use mathlib.Core.Option.{Option, none, some}
use mathlib.Core.List.{List, [], ◌∷◌, ◌++◌, reverse, map, append-nil, append_assoc}
use native.Mathlib.Omega.{arith}
use registry_ui_go.Base.Tests.{
  if◌then◌else◌, if_true, if_false, Eq, ◌==◌, nat_eq_instance, leb, ltb,
}
use registry_ui_go.Base.Lists.{length, take}

abbrev pub Text : Type 0
Text = List ℕ

-- The code points of a literal.
abbrev pub codes : String → Text
codes String.[] = []
codes (String.◌∷◌ c s) = code c ∷ codes s

unfoldable pub text_eq : Text → Text → Bool
text_eq [] [] = true
text_eq (x ∷ xs) (y ∷ ys) = x == y && text_eq xs ys
text_eq _ _ = false

pub text_eq_iff : (s t : Text) → (text_eq s t ≡ true) ↔ (s ≡ t)
unfolding text_eq
text_eq_iff [] [] = ground arith
text_eq_iff (x ∷ xs) (y ∷ ys) = ground (arith, text_eq_iff xs ys)
text_eq_iff [] (y ∷ ys) = ground arith
text_eq_iff (x ∷ xs) [] = ground arith

instance abbrev pub text_eq_instance : Eq Text
text_eq_instance = record { same = text_eq; same_iff = text_eq_iff }

pub text_eq_refl : (s : Text) → text_eq s s ≡ true
text_eq_refl s = (text_eq_iff s s).1 refl

-- What follows a prefix of a text.
unfoldable pub strip_prefix : Text → Text → Option Text
strip_prefix s [] = some s
strip_prefix [] (p ∷ ps) = none
strip_prefix (c ∷ s) (p ∷ ps) = if c == p then strip_prefix s ps else none

abbrev pub is_some {ℓ} : {A : Type ℓ} → Option A → Bool
is_some none = false
is_some (some a) = true

abbrev pub get_or {ℓ} : {A : Type ℓ} → Option A → A → A
get_or none d = d
get_or (some a) d = a

-- strings.HasPrefix, strings.TrimPrefix, strings.HasSuffix
unfoldable pub has_prefix : Text → Text → Bool
unfolding strip_prefix
has_prefix s p = is_some (strip_prefix s p)

unfoldable pub trim_prefix : Text → Text → Text
unfolding strip_prefix
trim_prefix s p = get_or (strip_prefix s p) s

pub strip_prefix-append : (p rest : Text) → strip_prefix (p ++ rest) p ≡ some rest
unfolding strip_prefix
strip_prefix-append [] rest = refl
strip_prefix-append (x ∷ p) rest = ground (arith, strip_prefix-append p rest)

pub has_prefix-append : (p rest : Text) → has_prefix (p ++ rest) p ≡ true
unfolding has_prefix
has_prefix-append p rest = rw (strip_prefix-append p rest) refl

-- A text begins with another if something follows the latter.
abbrev pub Begins : Text → Text → Type 0
Begins s p = (rest : Text) × (s ≡ p ++ rest)

strip_prefix_sound : (s p rest : Text) → strip_prefix s p ≡ some rest → s ≡ p ++ rest
unfolding strip_prefix
strip_prefix_sound s [] rest e = cc
strip_prefix_sound [] (x ∷ p) rest e = cc
strip_prefix_sound (c ∷ s) (x ∷ p) rest e = ground (arith, strip_prefix_sound s p rest)

is_some_found : (o : Option Text) → is_some o ≡ true → (rest : Text) × (o ≡ some rest)
is_some_found none e = cc
is_some_found (some rest) e = (rest, refl)

pub has_prefix_iff : (s p : Text) → (has_prefix s p ≡ true) ↔ Begins s p
unfolding has_prefix
has_prefix_iff s p = (
  λ e.
      let (rest, found) = is_some_found (strip_prefix s p) e in
      (rest, strip_prefix_sound s p rest found),
  λ (rest, e). ap (λ t. has_prefix t p) e ∙ has_prefix-append p rest,
)

pub trim_prefix-append : (p rest : Text) → trim_prefix (p ++ rest) p ≡ rest
unfolding trim_prefix
trim_prefix-append p rest = rw (strip_prefix-append p rest) refl

unfoldable pub has_suffix : Text → Text → Bool
unfolding has_prefix
has_suffix s p = has_prefix (reverse s) (reverse p)

-- strings.TrimSuffix
unfoldable pub trim_suffix : Text → Text → Text
trim_suffix s suffix = if has_suffix s suffix then take (length s - length suffix) s else s

-- strings.Contains
unfoldable pub contains_text : Text → Text → Bool
unfolding has_prefix
contains_text [] sub = has_prefix [] sub
contains_text (c ∷ s) sub = has_prefix (c ∷ s) sub || contains_text s sub

-- strings.LastIndex, with `none` for -1
unfoldable pub last_index : Text → Text → Option ℕ
unfolding has_prefix
last_index [] m = if has_prefix [] m then some 0 else none
last_index (c ∷ s) m = elim (last_index s m) [
  | some i ↦ some (suc i)
  | none ↦ if has_prefix (c ∷ s) m then some 0 else none
]

-- strings.SplitN(s, "/", 2) and its like for a one-character separator: what precedes the first
-- separator, and what follows it if there is one.
unfoldable pub cut : ℕ → Text → Text × Option Text
cut c [] = ([], none)
cut c (x ∷ s) = let rest = cut c s in if x == c then ([], some s) else (x ∷ rest.0, rest.1)

-- strings.SplitN(s, sep, 3) for a one-character separator, where it has three parts.
abbrev pub third_part : Text → Text × Option Text → Option (Text × Text × Text)
third_part a (b, none) = none
third_part a (b, some c) = some (a, b, c)

abbrev pub other_parts : ℕ → Text × Option Text → Option (Text × Text × Text)
other_parts sep (a, none) = none
other_parts sep (a, some rest) = third_part a (cut sep rest)

unfoldable pub split_three : ℕ → Text → Option (Text × Text × Text)
split_three sep s = other_parts sep (cut sep s)

abbrev pub NoneOf : ℕ → Text → Type 0
NoneOf c [] = Unit
NoneOf c (x ∷ s) = (x ≢ c) × NoneOf c s

-- The first separator is the one that was put in.
pub cut_joined : (c : ℕ) (s t : Text) → NoneOf c s → cut c (s ++ c ∷ t) ≡ (s, some t)
unfolding cut
cut_joined c [] t n = ground arith
cut_joined c (x ∷ s) t (other, n) = ground (arith, cut_joined c s t n)

pub split_three_joined :
    (c : ℕ) (s t u : Text)
    → NoneOf c s
    → NoneOf c t
    → split_three c (s ++ c ∷ (t ++ c ∷ u)) ≡ some (s, t, u)
unfolding split_three
split_three_joined c s t u n m = rw (cut_joined c s (t ++ c ∷ u) n, cut_joined c t u m) refl

split_from : Text → ℕ → Text → Text → List Text
split_from sep k cur [] = cur ∷ []
split_from sep (suc k) cur (c ∷ s) = split_from sep k cur s
split_from sep zero cur (c ∷ s) =
    let closed = cur ∷ split_from sep (length sep - 1) [] s in
    let longer = split_from sep 0 (cur ++ c ∷ []) s in
    if has_prefix (c ∷ s) sep then closed else longer

-- strings.Split by a separator that is not empty
unfoldable pub split : Text → Text → List Text
unfolding split_from has_prefix
split s sep = split_from sep 0 [] s

-- unicode.IsSpace
unfoldable pub is_space : ℕ → Bool
is_space c =
    (leb 9 c && leb c 13)
    || c == 32
    || c == 0x85
    || c == 0xa0
    || c == 0x1680
    || (leb 0x2000 c && leb c 0x200a)
    || c == 0x2028
    || c == 0x2029
    || c == 0x202f
    || c == 0x205f
    || c == 0x3000

unfoldable pub trim_left : Text → Text
unfolding is_space
trim_left [] = []
trim_left (c ∷ s) = if is_space c then trim_left s else c ∷ s

-- strings.TrimSpace
unfoldable pub trim_space : Text → Text
unfolding trim_left
trim_space s = reverse (trim_left (reverse (trim_left s)))

-- strings.TrimRight for one character
unfoldable pub drop_char : ℕ → Text → Text
drop_char c [] = []
drop_char c (x ∷ s) = if x == c then drop_char c s else x ∷ s

unfoldable pub trim_right : ℕ → Text → Text
unfolding drop_char
trim_right c s = reverse (drop_char c (reverse s))

-- strings.ToLower on the letters A to Z, which is all that the compared constants can need.
unfoldable pub to_lower : Text → Text
to_lower = map (λ c. if leb b'A' c && leb c b'Z' then c + 32 else c)

-- The length in bytes of the UTF-8 form, as Go's len counts it.
unfoldable pub byte_length : Text → ℕ
byte_length [] = 0
byte_length (c ∷ s) =
    (if ltb c 0x80 then 1 else if ltb c 0x800 then 2 else if ltb c 0x10000 then 3 else 4)
    + byte_length s

-- Every code point takes a byte at least.
pub length-le-byte_length : (s : Text) → length s ≤ byte_length s
unfolding byte_length
length-le-byte_length [] = omega arith
length-le-byte_length (c ∷ s) = ground (arith, length-le-byte_length s)

pub take-NoneOf : (c n : ℕ) (s : Text) → NoneOf c s → NoneOf c (take n s)
take-NoneOf c zero s n = tt
take-NoneOf c (suc k) [] n = tt
take-NoneOf c (suc k) (x ∷ s) (other, n) = (other, take-NoneOf c k s n)

pub append-NoneOf : (c : ℕ) (s t : Text) → NoneOf c s → NoneOf c t → NoneOf c (s ++ t)
append-NoneOf c [] t n m = m
append-NoneOf c (x ∷ s) t (other, n) m = (other, append-NoneOf c s t n m)

begins : (c x : ℕ) (s : Text) → has_prefix (x ∷ s) (c ∷ []) ≡ (x == c)
unfolding has_prefix strip_prefix
begins c x s = ground arith

split_rest : (c : ℕ) (cur s : Text) → NoneOf c s → split_from (c ∷ []) 0 cur s ≡ (cur ++ s) ∷ []
unfolding split_from
split_rest c cur [] n = rw (append-nil cur) refl
split_rest c cur (x ∷ s) (other, n) =
    if_false (has_prefix (x ∷ s) (c ∷ [])) (cur ∷ split_from (c ∷ []) 0 [] s)
      (split_from (c ∷ []) 0 (cur ++ x ∷ []) s) (begins c x s ∙ ground arith)
    ∙ split_rest c (cur ++ x ∷ []) s n
    ∙ ap (λ t. t ∷ []) (append_assoc cur (x ∷ []) s)

split_two :
    (c : ℕ) (cur s t : Text)
    → NoneOf c s
    → NoneOf c t
    → split_from (c ∷ []) 0 cur (s ++ c ∷ t) ≡ (cur ++ s) ∷ t ∷ []
unfolding split_from
split_two c cur [] t n m =
    if_true (has_prefix (c ∷ t) (c ∷ [])) (cur ∷ split_from (c ∷ []) 0 [] t)
      (split_from (c ∷ []) 0 (cur ++ c ∷ []) t) (begins c c t ∙ ground arith)
    ∙ rw (append-nil cur, split_rest c [] t m) refl
split_two c cur (x ∷ s) t (other, n) m =
    if_false (has_prefix (x ∷ (s ++ c ∷ t)) (c ∷ [])) (cur ∷ split_from (c ∷ []) 0 [] (s ++ c ∷ t))
      (split_from (c ∷ []) 0 (cur ++ x ∷ []) (s ++ c ∷ t)) (begins c x (s ++ c ∷ t) ∙ ground arith)
    ∙ split_two c (cur ++ x ∷ []) s t n m
    ∙ ap (λ u. u ∷ t ∷ []) (append_assoc cur (x ∷ []) s)

-- Two texts that were joined by a separator which neither has are split again.
pub split_joined :
    (c : ℕ) (s t : Text) → NoneOf c s → NoneOf c t → split (s ++ c ∷ t) (c ∷ []) ≡ s ∷ t ∷ []
unfolding split
split_joined c s t n m = split_two c [] s t n m
