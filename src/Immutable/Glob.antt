-- ===== src/Immutable/Glob.antt =====
-- What a pattern means, and that its regular expression means the same.
use registry_ui_go.Base.{
  ℕ, ◌≡◌, refl, ◌≢◌, ◌↔◌, ◌⊎◌, inl, inr, Bool, true, false, Option, some, [], ◌∷◌, ◌++◌,
  if◌then◌else◌, Text, ◌==◌, nat_eq_instance, contains, is_empty, arith, Bool-cases, sym, subst,
  append_assoc, ℕ_discrete,
}
use registry_ui_go.Immutable.Regex.{
  Atom, star, any_char, lit, Regexp, Mode, plain, after_dot, cons, on_char, parse, compile, newline,
  matches,
}
use registry_ui_go.Immutable.{translate, translate_all, regexp_text, specials}

-- A pattern matches a text: "*" takes any characters but newlines, "?" takes one, and every other
-- character, the special ones of regular expressions included, stands for itself.
pub data Glob : Text → Text → Type 0 where
  end : Glob [] []
  leave : {c : ℕ} {p s : Text} → c ≡ b'*' → Glob p s → Glob (c ∷ p) s
  take : {c x : ℕ} {p s : Text} → c ≡ b'*' → x ≢ newline → Glob (c ∷ p) s → Glob (c ∷ p) (x ∷ s)
  one : {c x : ℕ} {p s : Text} → c ≡ b'?' → x ≢ newline → Glob p s → Glob (c ∷ p) (x ∷ s)
  same : {c x : ℕ} {p s : Text} → c ≢ b'*' → c ≢ b'?' → x ≡ c → Glob p s → Glob (c ∷ p) (x ∷ s)

-- The pattern read character by character.
atom : ℕ → Atom
atom c = if c == b'*' then star else if c == b'?' then any_char else lit c

pub atoms : Text → Regexp
atoms [] = []
atoms (c ∷ p) = atom c ∷ atoms p

abbrev tail_text : Text → Text
tail_text p = translate_all p ++ b'$' ∷ []

-- After the "." of a "?" nothing that follows reads as a repetition.
after_dot_translate :
    (c : ℕ) (s : Text)
    → parse after_dot (translate c ++ s) ≡ cons any_char (parse plain (translate c ++ s))
unfolding parse translate
after_dot_translate c s = elim (Bool-cases (c == b'*')) [
  | inl e ↦ rw e
  | inr n ↦ rw n (elim (Bool-cases (c == b'?')) [
    | inl e ↦ rw e
    | inr m ↦ rw m (elim (Bool-cases (contains specials c)) [ inl e ↦ rw e | inr o ↦ rw o (rw n) ])
  ])
]

regroup : (c : ℕ) (p : Text) → tail_text (c ∷ p) ≡ translate c ++ tail_text p
unfolding translate_all
regroup c p = append_assoc (translate c) (translate_all p) (b'$' ∷ [])

parse-after_dot :
    (p : Text) → parse after_dot (tail_text p) ≡ cons any_char (parse plain (tail_text p))
parse-after_dot [] = unfold parse translate_all in refl
parse-after_dot (c ∷ p) = rw (regroup c p) (after_dot_translate c (tail_text p))

-- A character that is no special one stands for itself.
ordinary :
    (c : ℕ) (k : Mode → Option Regexp) (last : Bool)
    → (c == b'*') ≡ false
    → (c == b'?') ≡ false
    → contains specials c ≡ false
    → on_char c k last ≡ cons (lit c) (k plain)
unfolding on_char contains
ordinary c k last n m o = ground arith

parse-translate :
    (c : ℕ) (s : Text)
    → parse after_dot s ≡ cons any_char (parse plain s)
    → parse plain (translate c ++ s) ≡ cons (atom c) (parse plain s)
unfolding translate atom parse
parse-translate c s h = elim (Bool-cases (c == b'*')) [
  | inl e ↦ rw e (unfold on_char in refl)
  | inr n ↦ rw n (elim (Bool-cases (c == b'?')) [
    | inl e ↦ rw e (unfold on_char in h)
    | inr m ↦ rw m (elim (Bool-cases (contains specials c)) [
      | inl e ↦ rw e (unfold on_char in refl)
      | inr o ↦ rw o (ordinary c (λ mode. parse mode s) (is_empty s) n m o)
    ])
  ])
]

parse-tail_text : (p : Text) → parse plain (tail_text p) ≡ some (atoms p)
parse-tail_text [] = unfold parse translate_all on_char atoms in refl
parse-tail_text (c ∷ p) = rw (regroup c p) (
    rw (parse-translate c (tail_text p) (parse-after_dot p))
      (rw (parse-tail_text p) (unfold cons atoms in refl)))

-- Every pattern compiles, to the expression read off character by character.
pub compile-regexp_text : (p : Text) → compile (regexp_text p) ≡ some (atoms p)
unfolding compile regexp_text
compile-regexp_text p = parse-tail_text p

-- The atom of a character, on the three kinds of characters.
atom_cases :
    (c : ℕ)
    → ((c ≡ b'*') × (atom c ≡ star))
      ⊎ ((c ≡ b'?') × (atom c ≡ any_char))
      ⊎ ((c ≢ b'*') × (c ≢ b'?') × (atom c ≡ lit c))
unfolding atom
atom_cases c = elim (ℕ_discrete c b'*') [
  | yes e ↦ inl (e, ground arith)
  | no n ↦ elim (ℕ_discrete c b'?') [
    | yes e ↦ inr (inl (e, ground arith))
    | no m ↦ inr (inr (n, m, ground arith))
  ]
]

star_inv :
    (re : Regexp) (x : ℕ) (s : Text)
    → matches (star ∷ re) (x ∷ s) ≡ true
    → (matches re (x ∷ s) ≡ true) ⊎ ((x ≢ newline) × (matches (star ∷ re) s ≡ true))
unfolding matches
star_inv re x s h = elim (Bool-cases (matches re (x ∷ s))) [
  | inl e ↦ inl e
  | inr n ↦ inr (ground arith, ground arith)
]

any_char_inv :
    (re : Regexp) (x : ℕ) (s : Text)
    → matches (any_char ∷ re) (x ∷ s) ≡ true
    → (x ≢ newline) × (matches re s ≡ true)
unfolding matches
any_char_inv re x s h = (ground arith, ground arith)

lit_inv :
    (c : ℕ) (re : Regexp) (x : ℕ) (s : Text)
    → matches (lit c ∷ re) (x ∷ s) ≡ true
    → (x ≡ c) × (matches re s ≡ true)
unfolding matches
lit_inv c re x s h = (ground arith, ground arith)

-- The head of the expression, exchanged for an equal one.
with_head :
    {a b : Atom} (re : Regexp) (s : Text)
    → a ≡ b
    → matches (a ∷ re) s ≡ true
    → matches (b ∷ re) s ≡ true
with_head re s e h = subst (λ x. matches (x ∷ re) s ≡ true) e h

matches→Glob : (p s : Text) → matches (atoms p) s ≡ true → Glob p s
unfolding atoms
matches→Glob [] [] h = end
matches→Glob [] (x ∷ s) h = unfold matches in cc
matches→Glob (c ∷ p) [] h = elim (atom_cases c) [
  | inl (e, a) ↦ leave e (matches→Glob p [] (unfold matches in with_head (atoms p) [] a h))
  | inr (inl (e, a)) ↦ absurd (unfold matches in cc (with_head (atoms p) [] a h))
  | inr (inr (n, m, a)) ↦ absurd (unfold matches in cc (with_head (atoms p) [] a h))
]
matches→Glob (c ∷ p) (x ∷ s) h = elim (atom_cases c) [
  | inl (e, a) ↦ elim (star_inv (atoms p) x s (with_head (atoms p) (x ∷ s) a h)) [
    | inl skip ↦ leave e (matches→Glob p (x ∷ s) skip)
    | inr (n, more) ↦ take e n (matches→Glob (c ∷ p) s (with_head (atoms p) s (sym a) more))
  ]
  | inr (inl (e, a)) ↦
      let (n, more) = any_char_inv (atoms p) x s (with_head (atoms p) (x ∷ s) a h) in
      one e n (matches→Glob p s more)
  | inr (inr (n, m, a)) ↦
      let (e, more) = lit_inv c (atoms p) x s (with_head (atoms p) (x ∷ s) a h) in
      same n m e (matches→Glob p s more)
]

Glob→matches : {p s : Text} → Glob p s → matches (atoms p) s ≡ true
unfolding atoms atom matches
Glob→matches end = refl
Glob→matches (leave {s = []} e g) = ground (arith, Glob→matches g)
Glob→matches (leave {s = x ∷ s} e g) = ground (arith, Glob→matches g)
Glob→matches (take e n g) = ground (arith, Glob→matches g)
Glob→matches (one e n g) = ground (arith, Glob→matches g)
Glob→matches (same n m e g) = ground (arith, Glob→matches g)

pub matches_iff : (p s : Text) → (matches (atoms p) s ≡ true) ↔ Glob p s
matches_iff p s = (matches→Glob p s, Glob→matches)
