-- ===== src/Immutable/Regex.antt =====
-- The part of Go's regexp syntax that the translation of a pattern uses: an anchored row of "." and
-- ".*", characters behind a backslash, and characters that stand for themselves. Any other
-- expression is outside this fragment, and `compile` gives none for it.
use registry_ui_go.Base.{
  ℕ, Bool, true, false, Option, none, some, List, [], ◌∷◌, if◌then◌else◌, Text, codes, ◌==◌,
  nat_eq_instance, ◌&&◌, ◌||◌, not, contains, is_empty,
}

-- ".*", "." and a character; "." matches no newline.
pub data Atom : Type 0 where
  star any_char : Atom
  lit : ℕ → Atom

abbrev pub Regexp : Type 0
Regexp = List Atom

pub data Mode : Type 0 where
  plain after_dot after_backslash : Mode

unfoldable pub cons : Atom → Option Regexp → Option Regexp
cons a none = none
cons a (some re) = some (a ∷ re)

abbrev pub operators : Text
operators = codes "*+?()[]{}^|"

-- One character outside an escape; `k` reads what follows it, and `last` says that nothing does.
unfoldable pub on_char : ℕ → (Mode → Option Regexp) → Bool → Option Regexp
on_char c k last =
    if c == b'.'
    then k after_dot
    else if c == 92
    then k after_backslash
    else if c == b'$'
    then if last then some [] else none
    else if contains operators c
    then none
    else cons (lit c) (k plain)

unfoldable pub parse : Mode → Text → Option Regexp
parse mode [] = none
parse plain (c ∷ s) = on_char c (λ m. parse m s) (is_empty s)
parse after_dot (c ∷ s) =
    if c == b'*'
    then cons star (parse plain s)
    else cons any_char (on_char c (λ m. parse m s) (is_empty s))
parse after_backslash (c ∷ s) = cons (lit c) (parse plain s)

-- regexp.Compile on the fragment; `none` is its error, or an expression outside the fragment
unfoldable pub compile : Text → Option Regexp
compile [] = none
compile (c ∷ s) = if c == b'^' then parse plain s else none

abbrev pub newline : ℕ
newline = 10

-- Regexp.MatchString, the expression being anchored at both ends
unfoldable pub matches : Regexp → Text → Bool
matches [] [] = true
matches [] (c ∷ s) = false
matches (star ∷ re) [] = matches re []
matches (star ∷ re) (c ∷ s) = matches re (c ∷ s) || not (c == newline) && matches (star ∷ re) s
matches (any_char ∷ re) [] = false
matches (any_char ∷ re) (c ∷ s) = not (c == newline) && matches re s
matches (lit x ∷ re) [] = false
matches (lit x ∷ re) (c ∷ s) = c == x && matches re s
