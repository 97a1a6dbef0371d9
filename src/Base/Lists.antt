-- ===== src/Base/Lists.antt =====
-- Sequences, with native lengths and Boolean predicates.
use Prim.Native.Nat.{ℕ, zero, suc, ◌+◌, ◌≤◌}
use mathlib.Core.Path.{◌≡◌, refl, ap}
use mathlib.Core.Logic.{inl, inr}
use mathlib.Core.Bool.{Bool, true, false, not, ◌&&◌, ◌||◌}
use mathlib.Core.Option.{Option, none, some}
use mathlib.Core.List.{List, [], ◌∷◌, ◌++◌, map}
use native.Mathlib.Omega.{arith}
use watesly.Base.Tests.{◌==◌, if◌then◌else◌, Bool-cases, eq_of_==}

module _ {ℓ} {A : Type ℓ} where
  abbrev pub length : List A → ℕ
  length [] = 0
  length (x ∷ xs) = suc (length xs)

  abbrev pub take : ℕ → List A → List A
  take zero xs = []
  take (suc n) [] = []
  take (suc n) (x ∷ xs) = x ∷ take n xs

  abbrev pub drop : ℕ → List A → List A
  drop zero xs = xs
  drop (suc n) [] = []
  drop (suc n) (x ∷ xs) = drop n xs

  -- `[x for x in xs if test(x)]`, and the WHERE clause of a query.
  abbrev pub select : (A → Bool) → List A → List A
  select p [] = []
  select p (x ∷ xs) = if p x then x ∷ select p xs else select p xs

  abbrev pub first : List A → Option A
  first [] = none
  first (x ∷ xs) = some x

  abbrev pub is_empty : List A → Bool
  is_empty [] = true
  is_empty (x ∷ xs) = false

  abbrev pub all : (A → Bool) → List A → Bool
  all p [] = true
  all p (x ∷ xs) = p x && all p xs

  abbrev pub any : (A → Bool) → List A → Bool
  any p [] = false
  any p (x ∷ xs) = p x || any p xs

  -- Every item has the property.
  abbrev pub All {κ} : (A → Type κ) → List A → Type κ
  All P [] = Unit
  All P (x ∷ xs) = P x × All P xs

  pub length-take-le : (n : ℕ) (xs : List A) → length (take n xs) ≤ n
  length-take-le zero xs = omega arith
  length-take-le (suc n) [] = omega arith
  length-take-le (suc n) (x ∷ xs) = omega (arith, length-take-le n xs)

  pub length-select-le : (p : A → Bool) (xs : List A) → length (select p xs) ≤ length xs
  length-select-le p [] = omega arith
  length-select-le p (x ∷ xs) = ground (arith, length-select-le p xs)

  pub length-append : (xs ys : List A) → length (xs ++ ys) ≡ length xs + length ys
  length-append [] ys = omega arith
  length-append (x ∷ xs) ys = omega (arith, length-append xs ys)

-- `x in xs`, for identifiers.
abbrev pub contains : ℕ → List ℕ → Bool
contains n [] = false
contains n (x ∷ xs) = n == x || contains n xs

module _ {ℓ} {A : Type ℓ} where
  pub All-select : (p : A → Bool) (xs : List A) → All (λ x. p x ≡ true) (select p xs)
  All-select p [] = tt
  All-select p (x ∷ xs) = elim (Bool-cases (p x)) [
    | inl kept ↦ rw kept (kept, All-select p xs)
    | inr dropped ↦ rw dropped (All-select p xs)
  ]

  -- What holds of all items holds of those selected.
  pub All-select_of_All {κ} :
      (P : A → Type κ) (p : A → Bool) (xs : List A) → All P xs → All P (select p xs)
  All-select_of_All P p [] h = tt
  All-select_of_All P p (x ∷ xs) h = elim (Bool-cases (p x)) [
    | inl kept ↦ rw kept (h.0, All-select_of_All P p xs h.1)
    | inr dropped ↦ rw dropped (All-select_of_All P p xs h.1)
  ]

  pub All-map_of {κ ρ} :
      (P : A → Type κ) (Q : A → Type ρ) (imp : (x : A) → P x → Q x) (xs : List A)
      → All P xs
      → All Q xs
  All-map_of P Q imp [] h = tt
  All-map_of P Q imp (x ∷ xs) h = (imp x h.0, All-map_of P Q imp xs h.1)

  -- An id is among those selected exactly when some row has it and passes the test.
  pub contains-map-select :
      (i : ℕ) (f : A → ℕ) (p : A → Bool) (xs : List A)
      → contains i (map f (select p xs)) ≡ any (λ x. p x && i == f x) xs
  contains-map-select i f p [] = refl
  contains-map-select i f p (x ∷ xs) = ground (arith, contains-map-select i f p xs)

  pub is_empty-map-select {κ} :
      {B : Type κ} (f : A → B) (p : A → Bool) (xs : List A)
      → is_empty (map f (select p xs)) ≡ not (any p xs)
  is_empty-map-select f p [] = refl
  is_empty-map-select f p (x ∷ xs) = elim (Bool-cases (p x)) [
    | inl kept ↦ rw kept
    | inr dropped ↦ rw (dropped, is_empty-map-select f p xs)
  ]

  pub select-select :
      (p q : A → Bool) (xs : List A) → select p (select q xs) ≡ select (λ x. p x && q x) xs
  select-select p q [] = refl
  select-select p q (x ∷ xs) = elim (Bool-cases (q x)) [
    | inl kept ↦ ground (arith, select-select p q xs)
    | inr dropped ↦ ground (arith, select-select p q xs)
  ]

  pub any-take : (p : A → Bool) (n : ℕ) (xs : List A) → any p (take n xs) ≡ true → any p xs ≡ true
  any-take p zero xs h = cc
  any-take p (suc n) [] h = h
  any-take p (suc n) (x ∷ xs) h = ground (arith, any-take p n xs)

  pub any-select : (p q : A → Bool) (xs : List A) → any p (select q xs) ≡ any (λ x. q x && p x) xs
  any-select p q [] = refl
  any-select p q (x ∷ xs) = ground (arith, any-select p q xs)

  pub contains-map :
      (i : ℕ) (f : A → ℕ) (xs : List A) → contains i (map f xs) ≡ any (λ x. i == f x) xs
  contains-map i f [] = refl
  contains-map i f (x ∷ xs) = ground (arith, contains-map i f xs)

  pub length-map {κ} : {B : Type κ} (f : A → B) (xs : List A) → length (map f xs) ≡ length xs
  length-map f [] = refl
  length-map f (x ∷ xs) = ap suc (length-map f xs)

  pub All-both {κ ρ} :
      (P : A → Type κ) (Q : A → Type ρ) (xs : List A)
      → All P xs
      → All Q xs
      → All (λ x. P x × Q x) xs
  All-both P Q [] h k = tt
  All-both P Q (x ∷ xs) h k = ((h.0, k.0), All-both P Q xs h.1 k.1)

pub all_at :
    (p : ℕ → Bool) (i : ℕ) (xs : List ℕ) → all p xs ≡ true → contains i xs ≡ true → p i ≡ true
all_at p i [] h k = cc
all_at p i (x ∷ xs) h k = elim (Bool-cases (i == x)) [
  | inl here ↦ ground (arith, ap p (eq_of_== i x here))
  | inr there ↦ ground (arith, all_at p i xs)
]

pub all_trans :
    (p : ℕ → Bool) (ys xs : List ℕ)
    → all (λ x. contains x ys) xs ≡ true
    → all p ys ≡ true
    → all p xs ≡ true
all_trans p ys [] h k = refl
all_trans p ys (x ∷ xs) h k = ground (arith, all_at p x ys k, all_trans p ys xs)
