-- ===== src/Base/Links.antt =====
-- Tables that link an owner to values: the values of one owner after its rows were replaced.
use Prim.Native.Nat.{ℕ}
use mathlib.Core.Path.{◌≡◌, refl}
use mathlib.Core.Logic.{◌≢◌}
use mathlib.Core.List.{List, [], ◌∷◌, ◌++◌, map}
use native.Mathlib.Omega.{arith}
use watesly.Base.Tests.{◌==◌, ==_refl}
use watesly.Base.Lists.{select}
use watesly.Base.Tables.{delete_where}

module _ {A : Type 0} (owner value : A → ℕ) (link : ℕ → ℕ → A)
    (owns : (a i : ℕ) → owner (link a i) ≡ a) (has : (a i : ℕ) → value (link a i) ≡ i) where
  abbrev pub values_of : ℕ → List A → List ℕ
  values_of a rows = map value (select (λ x. owner x == a) rows)

  pub values_of-append :
      (a : ℕ) (ids : List ℕ) (rows : List A)
      → values_of a (rows ++ map (link a) ids) ≡ values_of a rows ++ ids
  values_of-append a [] [] = refl
  values_of-append a (i ∷ ids) [] =
      ground (arith, ==_refl a, owns a i, has a i, values_of-append a ids [])
  values_of-append a ids (x ∷ rows) = ground (arith, values_of-append a ids rows)

  pub values_of-replaced :
      (a : ℕ) (ids : List ℕ) (rows : List A)
      → values_of a (delete_where (λ x. owner x == a) rows ++ map (link a) ids) ≡ ids
  values_of-replaced a ids [] = values_of-append a ids []
  values_of-replaced a ids (x ∷ rows) = ground (arith, values_of-replaced a ids rows)

  pub values_of-other :
      (a b : ℕ) (ids : List ℕ) (rows : List A)
      → a ≢ b
      → values_of b (delete_where (λ x. owner x == a) rows ++ map (link a) ids) ≡ values_of b rows
  values_of-other a b [] [] h = refl
  values_of-other a b (i ∷ ids) [] h = ground (arith, owns a i, values_of-other a b ids [] h)
  values_of-other a b ids (x ∷ rows) h = ground (arith, values_of-other a b ids rows h)
