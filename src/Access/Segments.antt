-- ===== src/Access/Segments.antt =====
-- A pattern covers a repository exactly at segment boundaries.
use registry_ui_go.Base.{
  has_prefix-append, ◌≡◌, refl, ◌⊎◌, inl, inr, true, Option, none, some, [], ◌∷◌, ◌++◌, Text, codes,
  arith, Bool-cases, has_prefix, strip_prefix, is_some, text_eq, text_eq_iff, append_assoc, ◌∙◌,
  subst,
}
use registry_ui_go.Access.{covers}

-- The repository is the pattern, or lies below it.
abbrev pub Below : Text → Text → Type 0
Below pattern_text repo =
    (repo ≡ pattern_text) ⊎ ((rest : Text) × (repo ≡ pattern_text ++ b'/' ∷ rest))

strip_prefix_sound : (s p rest : Text) → strip_prefix s p ≡ some rest → s ≡ p ++ rest
unfolding strip_prefix
strip_prefix_sound s [] rest e = ground arith
strip_prefix_sound [] (x ∷ p) rest e = cc
strip_prefix_sound (c ∷ s) (x ∷ p) rest e = ground (arith, strip_prefix_sound s p rest)

pub has_prefix_sound : (s p : Text) → has_prefix s p ≡ true → (rest : Text) × (s ≡ p ++ rest)
unfolding has_prefix
has_prefix_sound s p e = found (strip_prefix s p) refl e
  where
    found :
        (o : Option Text)
        → strip_prefix s p ≡ o
        → is_some o ≡ true
        → (rest : Text) × (s ≡ p ++ rest)
    found none e h = cc
    found (some rest) e h = (rest, strip_prefix_sound s p rest e)

pub covers→Below : (p repo : Text) → covers p repo ≡ true → Below p repo
unfolding covers
covers→Below p repo h = elim (Bool-cases (text_eq repo p)) [
  | inl same ↦ inl ((text_eq_iff repo p).0 same)
  | inr other ↦
      let (rest, e) = has_prefix_sound repo (p ++ codes "/") (ground arith) in
      inr (rest, e ∙ append_assoc p (codes "/") rest)
]

has_prefix-Below : (p rest : Text) → has_prefix (p ++ b'/' ∷ rest) (p ++ codes "/") ≡ true
has_prefix-Below p rest =
    subst (λ t. has_prefix t (p ++ codes "/") ≡ true) (append_assoc p (codes "/") rest)
      (has_prefix-append (p ++ codes "/") rest)

pub Below→covers : (p repo : Text) → Below p repo → covers p repo ≡ true
unfolding covers
Below→covers p repo (inl same) = ground (arith, text_eq_iff repo p)
Below→covers p repo (inr (rest, e)) =
    let below : has_prefix repo (p ++ codes "/") ≡ true = rw e (has_prefix-Below p rest) in
    elim (Bool-cases (text_eq repo p)) [ inl same ↦ rw same | inr other ↦ rw other below ]
