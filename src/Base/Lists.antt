-- ===== src/Base/Lists.antt =====
-- Lists measured by native numbers, tests over lists, and association lists.
use Prim.Native.Nat.{ℕ, zero, suc, ◌+◌}
use mathlib.Core.Path.{◌≡◌, refl, sym, ap, ◌∙◌}
use mathlib.Core.Logic.{◌↔◌, ◌⊎◌, inl, inr}
use mathlib.Core.Bool.{Bool, true, false, ◌||◌}
use mathlib.Core.Option.{Option, none, some}
use mathlib.Core.List.{List, [], ◌∷◌, ◌++◌}
use native.Mathlib.Omega.{arith}
use registry_ui_go.Base.Tests.{if◌then◌else◌, Eq, ◌==◌, Bool-cases}

module _ {ℓ} {A : Type ℓ} where
  abbrev pub length : List A → ℕ
  length [] = 0
  length (x ∷ xs) = suc (length xs)

  pub length-append : (xs ys : List A) → length (xs ++ ys) ≡ length xs + length ys
  length-append [] ys = omega arith
  length-append (x ∷ xs) ys = omega (arith, length-append xs ys)

  abbrev pub is_empty : List A → Bool
  is_empty [] = true
  is_empty (x ∷ xs) = false

  abbrev pub drop : ℕ → List A → List A
  drop zero xs = xs
  drop (suc n) [] = []
  drop (suc n) (x ∷ xs) = drop n xs

  abbrev pub take : ℕ → List A → List A
  take zero xs = []
  take (suc n) [] = []
  take (suc n) (x ∷ xs) = x ∷ take n xs

  -- The number of elements that pass a test.
  unfoldable pub count : (A → Bool) → List A → ℕ
  count p [] = 0
  count p (x ∷ xs) = (if p x then 1 else 0) + count p xs

  -- The elements that pass a test, in order.
  unfoldable pub keep : (A → Bool) → List A → List A
  keep p [] = []
  keep p (x ∷ xs) = if p x then x ∷ keep p xs else keep p xs

  unfoldable pub any : (A → Bool) → List A → Bool
  any p [] = false
  any p (x ∷ xs) = p x || any p xs

  -- The first element that passes a test.
  unfoldable pub find : (A → Bool) → List A → Option A
  find p [] = none
  find p (x ∷ xs) = if p x then some x else find p xs

  -- The rows of a table that pass a test are rewritten.
  unfoldable pub update : (A → Bool) → (A → A) → List A → List A
  update p f [] = []
  update p f (x ∷ xs) = (if p x then f x else x) ∷ update p f xs

  pub find_sound : (p : A → Bool) (xs : List A) {x : A} → find p xs ≡ some x → p x ≡ true
  unfolding find
  find_sound p [] e = ground arith
  find_sound p (y ∷ xs) {x} e = elim (Bool-cases (p y)) [
    | inl h ↦ ground arith
    | inr h ↦ find_sound p xs (ground arith)
  ]

  pub find-append_missing :
      (p : A → Bool) (xs ys : List A) → find p xs ≡ none → find p (xs ++ ys) ≡ find p ys
  unfolding find
  find-append_missing p [] ys e = ground arith
  find-append_missing p (x ∷ xs) ys e = ground (arith, find-append_missing p xs ys)

  some_of :
      (b : Bool) (x y : A) (o : Option A)
      → (if b then some y else o) ≡ some x
      → (b ≡ true → y ≡ x) × (b ≡ false → o ≡ some x)
  some_of true x y o e = (λ _. cc, λ h. cc)
  some_of false x y o e = (λ h. cc, λ _. e)

  -- The element that is found, if it is among those that are changed.
  pub find-update :
      (q p : A → Bool) (f : A → A) (xs : List A) (x : A)
      → ((u : A) → q (f u) ≡ q u)
      → find q xs ≡ some x
      → p x ≡ true
      → find q (update p f xs) ≡ some (f x)
  unfolding find update
  find-update q p f [] x same e h = cc
  find-update q p f (y ∷ ys) x same e h =
      let (here, later) = some_of (q y) x y (find q ys) e in
      elim (Bool-cases (q y)) [
        | inl hit ↦ let at : y ≡ x = here hit in rw (at, h, same x, sym (ap q at) ∙ hit) refl
        | inr miss ↦ elim (Bool-cases (p y)) [
          | inl changed ↦ rw (changed, same y, miss) (find-update q p f ys x same (later miss) h)
          | inr kept ↦ rw (kept, miss) (find-update q p f ys x same (later miss) h)
        ]
      ]

module _ {ℓ κ} {A : Type ℓ} where
  abbrev pub All : (A → Type κ) → List A → Type κ
  All P [] = Unit
  All P (x ∷ xs) = P x × All P xs

pub append-All {ℓ κ} :
    {A : Type ℓ} (P : A → Type κ) (xs ys : List A) → All P xs → All P ys → All P (xs ++ ys)
append-All P [] ys h g = g
append-All P (x ∷ xs) ys (p, h) g = (p, append-All P xs ys h g)

-- Membership as a recursive predicate.
abbrev pub In : {A : Type 0} → A → List A → Type 0
In a [] = ⊥
In a (x ∷ xs) = (a ≡ x) ⊎ In a xs

module _ {A : Type 0} ⦃e : Eq A⦄ where
  unfoldable pub contains : List A → A → Bool
  contains [] a = false
  contains (x ∷ xs) a = x == a || contains xs a

  pub contains_iff : (xs : List A) (a : A) → (contains xs a ≡ true) ↔ In a xs
  unfolding contains
  contains_iff [] a = (λ h. cc, λ h. absurd h)
  contains_iff (x ∷ xs) a = ground (arith, contains_iff xs a, e.same_iff x a)

module _ {ℓ κ} {K : Type ℓ} {V : Type κ} ⦃e : Eq K⦄ where
  unfoldable pub insert : K → V → List (K × V) → List (K × V)
  insert key value [] = (key, value) ∷ []
  insert key value (entry ∷ rest) =
      if entry.0 == key then (key, value) ∷ rest else entry ∷ insert key value rest

  unfoldable pub lookup : K → List (K × V) → Option V
  lookup key [] = none
  lookup key (entry ∷ rest) = if entry.0 == key then some entry.1 else lookup key rest

  pub lookup-insert :
      (key other : K) (value : V) (entries : List (K × V))
      → lookup other (insert key value entries)
        ≡ (if key == other then some value else lookup other entries)
  unfolding insert lookup
  lookup-insert key other value [] = ground arith
  lookup-insert key other value (entry ∷ rest) = ground (
    arith,
    lookup-insert key other value rest,
    e.same_iff entry.0 other,
    e.same_iff key other,
    e.same_iff entry.0 key,
  )

  -- Every entry of a key is removed.
  unfoldable pub remove_key : K → List (K × V) → List (K × V)
  remove_key k [] = []
  remove_key k ((j, v) ∷ m) = let rest = remove_key k m in if j == k then rest else (j, v) ∷ rest

  pub lookup-remove_key :
      (k j : K) (m : List (K × V))
      → lookup j (remove_key k m) ≡ (if k == j then none else lookup j m)
  unfolding lookup remove_key
  lookup-remove_key k j [] = ground arith
  lookup-remove_key k j ((i, w) ∷ m) =
      ground (arith, e.same_iff k j, e.same_iff i k, e.same_iff i j, lookup-remove_key k j m)

-- Insertion sort, stable: `before x y` says that x may stay in front of y.
module _ {ℓ} {A : Type ℓ} (before : A → A → Bool) where
  unfoldable pub place : A → List A → List A
  place x [] = x ∷ []
  place x (y ∷ ys) = if before x y then x ∷ y ∷ ys else y ∷ place x ys

  unfoldable pub sort : List A → List A
  sort [] = []
  sort (x ∷ xs) = place x (sort xs)
