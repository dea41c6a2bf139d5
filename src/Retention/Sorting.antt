-- ===== src/Retention/Sorting.antt =====
-- The sort puts its list in order and keeps its members.
use registry_ui_go.Base.{
  ℕ, ◌+◌, ◌≡◌, refl, sym, ◌⊎◌, inl, inr, Bool, true, false, List, [], ◌∷◌, arith, Bool-cases,
  if◌then◌else◌, All, In, length, take, drop, place, sort, zero, suc, subst,
}
use registry_ui_go.Retention.{Group, no_older}

-- Each group is at least as new as all that follow it.
pub Descending : List Group → Type 0
Descending [] = Unit
Descending (g ∷ gs) = All (λ h. no_older g h ≡ true) gs × Descending gs

All-place :
    (g x : Group) (gs : List Group)
    → no_older g x ≡ true
    → All (λ h. no_older g h ≡ true) gs
    → All (λ h. no_older g h ≡ true) (place no_older x gs)
unfolding place
All-place g x [] e h = (e, tt)
All-place g x (y ∷ ys) e (here, later) = elim (Bool-cases (no_older x y)) [
  | inl front ↦ rw front (e, (here, later))
  | inr back ↦ rw back (here, All-place g x ys e later)
]

All-newer :
    (x y : Group) (gs : List Group)
    → no_older x y ≡ true
    → All (λ h. no_older y h ≡ true) gs
    → All (λ h. no_older x h ≡ true) gs
All-newer x y [] e h = tt
All-newer x y (z ∷ zs) e h = (ground (arith, h.0), All-newer x y zs e h.1)

place-Descending : (x : Group) (gs : List Group) → Descending gs → Descending (place no_older x gs)
unfolding place Descending
place-Descending x [] h = (tt, tt)
place-Descending x (y ∷ ys) (first, rest) = elim (Bool-cases (no_older x y)) [
  | inl front ↦ rw front ((front, All-newer x y ys front first), (first, rest))
  | inr back ↦ rw back (All-place y x ys (ground arith) first, place-Descending x ys rest)
]

pub sort-Descending : (gs : List Group) → Descending (sort no_older gs)
unfolding sort Descending
sort-Descending [] = tt
sort-Descending (g ∷ gs) = place-Descending g (sort no_older gs) (sort-Descending gs)

In-place : (x g : Group) (gs : List Group) → In g (place no_older x gs) → (g ≡ x) ⊎ In g gs
unfolding place
In-place x g [] (inl e) = inl e
In-place x g [] (inr h) = absurd h
In-place x g (y ∷ ys) h = branches (In-place x g ys) (no_older x y) h
  where
    kept :
        (In g (place no_older x ys) → (g ≡ x) ⊎ In g ys)
        → In g (y ∷ place no_older x ys)
        → (g ≡ x) ⊎ In g (y ∷ ys)
    kept later (inl e) = inr (inl e)
    kept later (inr m) = elim (later m) [ inl e ↦ inl e | inr n ↦ inr (inr n) ]

    branches :
        (In g (place no_older x ys) → (g ≡ x) ⊎ In g ys)
        → (b : Bool) → In g (if b then x ∷ y ∷ ys else y ∷ place no_older x ys)
        → (g ≡ x) ⊎ In g (y ∷ ys)
    branches later true h = h
    branches later false h = kept later h

pub In-sort : (g : Group) (gs : List Group) → In g (sort no_older gs) → In g gs
unfolding sort
In-sort g [] h = h
In-sort g (x ∷ gs) h = elim (In-place x g (sort no_older gs) h) [
  | inl e ↦ inl e
  | inr m ↦ inr (In-sort g gs m)
]

length-place : (x : Group) (gs : List Group) → length (place no_older x gs) ≡ length gs + 1
unfolding place length
length-place x [] = refl
length-place x (y ∷ ys) = elim (Bool-cases (no_older x y)) [
  | inl front ↦ rw front (omega arith)
  | inr back ↦ rw back (omega (arith, length-place x ys))
]

pub length-sort : (gs : List Group) → length (sort no_older gs) ≡ length gs
unfolding sort length
length-sort [] = refl
length-sort (g ∷ gs) = omega (arith, length-place g (sort no_older gs), length-sort gs)

pub In-All : (P : Group → Type 0) (gs : List Group) (g : Group) → All P gs → In g gs → P g
In-All P [] g h m = absurd m
In-All P (x ∷ xs) g h (inl e) = subst P (sym e) h.0
In-All P (x ∷ xs) g h (inr m) = In-All P xs g h.1 m

pub In-drop : (n : ℕ) (g : Group) (gs : List Group) → In g (drop n gs) → In g gs
unfolding drop
In-drop zero g gs h = h
In-drop (suc n) g [] h = h
In-drop (suc n) g (x ∷ gs) h = inr (In-drop n g gs h)

-- In a descending list, what is dropped is no newer than what is taken.
pub take-no_older :
    (n : ℕ) (gs : List Group) (g h : Group)
    → Descending gs
    → In g (take n gs)
    → In h (drop n gs)
    → no_older g h ≡ true
unfolding take drop Descending
take-no_older zero gs g h d m k = absurd m
take-no_older (suc n) [] g h d m k = absurd m
take-no_older (suc n) (x ∷ xs) g h (first, rest) (inl e) k =
    subst (λ y. no_older y h ≡ true) (sym e)
      (In-All (λ z. no_older x z ≡ true) xs h first (In-drop n h xs k))
take-no_older (suc n) (x ∷ xs) g h (first, rest) (inr m) k = take-no_older n xs g h rest m k
