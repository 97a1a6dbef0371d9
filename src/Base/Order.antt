-- ===== src/Base/Order.antt =====
-- `ORDER BY`: a stable insertion sort by a Boolean order.
use Prim.Native.Nat.{suc}
use mathlib.Core.Path.{◌≡◌, refl, ap, ◌∙◌}
use mathlib.Core.Bool.{Bool}
use mathlib.Core.Option.{some}
use mathlib.Core.List.{List, [], ◌∷◌, map}
use native.Mathlib.Omega.{arith}
use watesly.Base.Tests.{if◌then◌else◌}
use watesly.Base.Lists.{length, any, select, first}

module _ {ℓ} {A : Type ℓ} (before : A → A → Bool) where
  -- A row goes behind the rows that stand before it and are not after it.
  abbrev pub insert_ordered : A → List A → List A
  insert_ordered a [] = a ∷ []
  insert_ordered a (x ∷ xs) = if before a x then a ∷ x ∷ xs else x ∷ insert_ordered a xs

  abbrev pub order_by : List A → List A
  order_by [] = []
  order_by (x ∷ xs) = insert_ordered x (order_by xs)

  pub any-insert_ordered :
      (p : A → Bool) (a : A) (xs : List A) → any p (insert_ordered a xs) ≡ any p (a ∷ xs)
  any-insert_ordered p a [] = refl
  any-insert_ordered p a (x ∷ xs) = ground (arith, any-insert_ordered p a xs)

  -- Ordering neither loses nor adds a row.
  pub any-order_by : (p : A → Bool) (xs : List A) → any p (order_by xs) ≡ any p xs
  any-order_by p [] = refl
  any-order_by p (x ∷ xs) = ground (arith, any-insert_ordered p x (order_by xs), any-order_by p xs)

  pub length-insert_ordered : (a : A) (xs : List A) → length (insert_ordered a xs) ≡ suc (length xs)
  length-insert_ordered a [] = refl
  length-insert_ordered a (x ∷ xs) = ground (arith, length-insert_ordered a xs)

  pub length-order_by : (xs : List A) → length (order_by xs) ≡ length xs
  length-order_by [] = refl
  length-order_by (x ∷ xs) =
      ground (arith, length-insert_ordered x (order_by xs), length-order_by xs)

-- A change of the rows that the order does not see.
module _ {ℓ} {A : Type ℓ} (before : A → A → Bool) (g : A → A)
    (blind : (x y : A) → before (g x) (g y) ≡ before x y) where
  insert_ordered-map :
      (a : A) (xs : List A)
      → insert_ordered before (g a) (map g xs) ≡ map g (insert_ordered before a xs)
  insert_ordered-map a [] = refl
  insert_ordered-map a (x ∷ xs) = ground (arith, blind a x, insert_ordered-map a xs)

  pub order_by-map : (xs : List A) → order_by before (map g xs) ≡ map g (order_by before xs)
  order_by-map [] = refl
  order_by-map (x ∷ xs) =
      ap (insert_ordered before (g x)) (order_by-map xs) ∙ insert_ordered-map x (order_by before xs)

module _ {ℓ} {A : Type ℓ} (g : A → A) where
  -- A change that moves no row in or out of a selection.
  pub select-map_same :
      (q : A → Bool) (same : (x : A) → q (g x) ≡ q x) (xs : List A)
      → select q (map g xs) ≡ map g (select q xs)
  select-map_same q same [] = refl
  select-map_same q same (x ∷ xs) = ground (arith, same x, select-map_same q same xs)

  pub first-map : (xs : List A) (a : A) → first xs ≡ some a → first (map g xs) ≡ some (g a)
  first-map [] a h = cc
  first-map (x ∷ xs) a h = ground (arith, h)
