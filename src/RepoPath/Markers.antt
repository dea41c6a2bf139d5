-- ===== src/RepoPath/Markers.antt =====
-- How the last occurrence of a marker moves when text is put before it.
use registry_ui_go.Base.{
  ℕ, ◌+◌, ◌<◌, ◌≡◌, refl, ◌≢◌, inl, inr, ◌∙◌, false, none, some, [], ◌∷◌, ◌++◌, Text, length,
  has_prefix, last_index, arith, Option-cases, take, ap,
}

-- A text without a character.
abbrev pub Lacks : ℕ → Text → Type 0
Lacks c [] = Unit
Lacks c (x ∷ s) = (x ≢ c) × Lacks c s

-- An occurrence in the second part is the last one of the whole.
pub last_index-append_some :
    (r x m : Text) (i : ℕ) → last_index x m ≡ some i → last_index (r ++ x) m ≡ some (length r + i)
unfolding last_index
last_index-append_some [] x m i h = h ∙ ap some (omega arith)
last_index-append_some (c ∷ r) x m i h = ground (arith, last_index-append_some r x m i h)

-- Without one in the second part, the last occurrence begins in the first part.
pub last_index-append_none :
    (r x m : Text) (i : ℕ) → last_index x m ≡ none → last_index (r ++ x) m ≡ some i → i < length r
unfolding last_index
last_index-append_none [] x m i h e = cc
last_index-append_none (c ∷ r) x m i h e = elim (Option-cases (last_index (r ++ x) m)) [
  | inl no_later ↦ ground arith
  | inr (j, found) ↦ ground (arith, last_index-append_none r x m j h found)
]

-- A text without the slash begins with no text that holds one.
pub has_prefix-Lacks : (s p q : Text) (c : ℕ) → Lacks c s → has_prefix s (p ++ c ∷ q) ≡ false
unfolding has_prefix
has_prefix-Lacks [] [] q c h = refl
has_prefix-Lacks [] (y ∷ p) q c h = refl
has_prefix-Lacks (x ∷ s) [] q c h = ground (arith, h.0)
has_prefix-Lacks (x ∷ s) (y ∷ p) q c h = ground (arith, has_prefix-Lacks s p q c h.1)

pub last_index-Lacks : (s p q : Text) (c : ℕ) → Lacks c s → last_index s (p ++ c ∷ q) ≡ none
unfolding last_index
last_index-Lacks [] [] q c h = refl
last_index-Lacks [] (y ∷ p) q c h = refl
last_index-Lacks (x ∷ s) p q c h =
    ground (arith, last_index-Lacks s p q c h.1, has_prefix-Lacks (x ∷ s) p q c h)

pub take-length-append : (r x : Text) → take (length r) (r ++ x) ≡ r
take-length-append [] [] = refl
take-length-append [] (y ∷ x) = refl
take-length-append (c ∷ r) x = ap (λ t. c ∷ t) (take-length-append r x)
