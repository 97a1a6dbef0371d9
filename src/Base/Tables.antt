-- ===== src/Base/Tables.antt =====
-- Tables of an ORM session. A table is the list of its rows, in the order in which an unordered
-- query returns them; a row is found by its primary key, and an object that a session holds is
-- written back in place of the row with its key.
use Prim.Native.Nat.{ℕ, suc, ◌+◌}
use mathlib.Core.Path.{◌≡◌, refl, sym, ap, ◌∙◌}
use mathlib.Core.Logic.{◌≢◌, inl, inr}
use mathlib.Core.Bool.{Bool, true, false, not, ◌&&◌}
use mathlib.Core.Option.{Option, none, some}
use mathlib.Core.List.{List, [], ◌∷◌, ◌++◌, map}
use native.Mathlib.Omega.{arith}
use watesly.Base.Tests.{◌==◌, if◌then◌else◌, Bool-cases, eq_of_==, ==_refl}
use watesly.Base.Lists.{length, select, All, any}

-- A type of rows with its primary key.
pub record Row (A : Type 0) : Type 0 where
  pub key : A → ℕ

module _ {A : Type 0} ⦃r : Row A⦄ where
  -- `db.get(Model, id)`
  abbrev pub get : ℕ → List A → Option A
  get i [] = none
  get i (x ∷ xs) = if r.key x == i then some x else get i xs

  -- What a flush does with a changed object.
  abbrev pub put : A → List A → List A
  put a [] = []
  put a (x ∷ xs) = if r.key x == r.key a then a ∷ xs else x ∷ put a xs

  -- `db.delete(object)`
  abbrev pub remove : ℕ → List A → List A
  remove i [] = []
  remove i (x ∷ xs) = if r.key x == i then remove i xs else x ∷ remove i xs

  pub key-get : (i : ℕ) (a : A) (xs : List A) → get i xs ≡ some a → r.key a ≡ i
  key-get i a [] h = cc
  key-get i a (x ∷ xs) h = ground (arith, key-get i a xs)

  pub get-put_self :
      (a b : A) (xs : List A) → get (r.key a) xs ≡ some b → get (r.key a) (put a xs) ≡ some a
  get-put_self a b [] h = cc
  get-put_self a b (x ∷ xs) h = ground (arith, get-put_self a b xs)

  pub put_found : (a : A) (xs : List A) → get (r.key a) xs ≡ some a → put a xs ≡ xs
  put_found a [] h = refl
  put_found a (x ∷ xs) h = ground (arith, put_found a xs)

  -- Of two writes of an object the second stays.
  pub put-put : (a b : A) (xs : List A) → r.key a ≡ r.key b → put a (put b xs) ≡ put a xs
  put-put a b [] h = refl
  put-put a b (x ∷ xs) h = ground (arith, h, ==_refl (r.key b), put-put a b xs h)

  pub get-put_ne : (i : ℕ) (a : A) (xs : List A) → i ≢ r.key a → get i (put a xs) ≡ get i xs
  get-put_ne i a [] h = refl
  get-put_ne i a (x ∷ xs) h = ground (arith, get-put_ne i a xs h)

  pub get-remove_self : (i : ℕ) (xs : List A) → get i (remove i xs) ≡ none
  get-remove_self i [] = refl
  get-remove_self i (x ∷ xs) = ground (arith, get-remove_self i xs)

  pub get-remove_ne : (i j : ℕ) (xs : List A) → i ≢ j → get i (remove j xs) ≡ get i xs
  get-remove_ne i j [] h = refl
  get-remove_ne i j (x ∷ xs) h = ground (arith, get-remove_ne i j xs h)

  pub length-put : (a : A) (xs : List A) → length (put a xs) ≡ length xs
  length-put a [] = refl
  length-put a (x ∷ xs) = ground (arith, length-put a xs)

module _ {A : Type 0} ⦃r : Row A⦄ where
  -- The primary key constraint: no two rows have one key.
  abbrev pub HasUniqueKeys : List A → Type 0
  HasUniqueKeys [] = Unit
  HasUniqueKeys (x ∷ xs) = (get (r.key x) xs ≡ none) × HasUniqueKeys xs

  -- A row that is there and passes a test.
  abbrev pub satisfies : (A → Bool) → Option A → Bool
  satisfies p none = false
  satisfies p (some a) = p a

  any-absent :
      (p : A → Bool) (i : ℕ) (xs : List A)
      → get i xs ≡ none
      → any (λ x. p x && i == r.key x) xs ≡ false
  any-absent p i [] h = refl
  any-absent p i (x ∷ xs) h = ground (arith, any-absent p i xs)

  -- With unique keys, some row with key `i` passes a test exactly if the row found by `i` does.
  pub any-key :
      (p : A → Bool) (i : ℕ) (xs : List A)
      → HasUniqueKeys xs
      → any (λ x. p x && i == r.key x) xs ≡ satisfies p (get i xs)
  any-key p i [] h = refl
  any-key p i (x ∷ xs) h = elim (Bool-cases (r.key x == i)) [
    | inl here ↦
        let e : r.key x ≡ i = eq_of_== (r.key x) i here in
        let gone : get i xs ≡ none = ap (λ k. get k xs) (sym e) ∙ h.0 in
        ground (arith, any-absent p i xs gone)
    | inr there ↦ ground (arith, any-key p i xs h.1)
  ]

  found_under :
      (x : A) (xs ys : List A)
      → get (r.key x) ys ≡ none
      → All (λ y. get (r.key y) ys ≡ some y) xs
      → All (λ y. get (r.key y) (x ∷ ys) ≡ some y) xs
  found_under x [] ys h all = tt
  found_under x (y ∷ xs) ys h all =
      (ground (arith, all.0, ap (λ k. get k ys)), found_under x xs ys h all.1)

  -- With unique keys, every row is the one found under its key.
  pub All-found : (xs : List A) → HasUniqueKeys xs → All (λ x. get (r.key x) xs ≡ some x) xs
  All-found [] h = tt
  All-found (x ∷ xs) h =
      (ground (arith, ==_refl (r.key x)), found_under x xs xs h.0 (All-found xs h.1))

-- `UPDATE … SET … WHERE …`
module _ {ℓ} {A : Type ℓ} where
  abbrev pub update_where : (A → Bool) → (A → A) → List A → List A
  update_where p f [] = []
  update_where p f (x ∷ xs) = (if p x then f x else x) ∷ update_where p f xs

  -- `SELECT count(…) WHERE …`
  abbrev pub count_where : (A → Bool) → List A → ℕ
  count_where p [] = 0
  count_where p (x ∷ xs) = if p x then suc (count_where p xs) else count_where p xs

  -- `DELETE … WHERE …`
  abbrev pub delete_where : (A → Bool) → List A → List A
  delete_where p = select (λ x. not (p x))

  pub update_where-map :
      (p : A → Bool) (f : A → A) (xs : List A)
      → update_where p f xs ≡ map (λ x. if p x then f x else x) xs
  update_where-map p f [] = refl
  update_where-map p f (x ∷ xs) = ap (λ l. (if p x then f x else x) ∷ l) (update_where-map p f xs)

  pub count_where-eq-length : (p : A → Bool) (xs : List A) → count_where p xs ≡ length (select p xs)
  count_where-eq-length p [] = refl
  count_where-eq-length p (x ∷ xs) = ground (arith, count_where-eq-length p xs)

  pub count_where-append :
      (p : A → Bool) (xs ys : List A)
      → count_where p (xs ++ ys) ≡ count_where p xs + count_where p ys
  count_where-append p [] ys = omega arith
  count_where-append p (x ∷ xs) ys = ground (arith, count_where-append p xs ys)

  -- An update that a test does not see leaves the count.
  pub count_where-update_where :
      (p q : A → Bool) (f : A → A) (keeps : (x : A) → p (f x) ≡ p x) (xs : List A)
      → count_where p (update_where q f xs) ≡ count_where p xs
  count_where-update_where p q f keeps [] = refl
  count_where-update_where p q f keeps (x ∷ xs) =
      ground (arith, keeps x, count_where-update_where p q f keeps xs)

  pub All-update_where {κ} :
      (P : A → Type κ) (p : A → Bool) (f : A → A) (keep : (x : A) → P x → p x ≡ true → P (f x))
      (xs : List A)
      → All P xs
      → All P (update_where p f xs)
  All-update_where P p f keep [] h = tt
  All-update_where P p f keep (x ∷ xs) h = elim (Bool-cases (p x)) [
    | inl hit ↦ rw hit (keep x h.0 hit, All-update_where P p f keep xs h.1)
    | inr miss ↦ rw miss (h.0, All-update_where P p f keep xs h.1)
  ]

module _ {A : Type 0} ⦃r : Row A⦄ (p : A → Bool) (f : A → A)
    (keeps : (x : A) → r.key (f x) ≡ r.key x) where
  -- An update that keeps the keys acts on the row found under a key.
  pub get-update_where :
      (i : ℕ) (xs : List A)
      → get i (update_where p f xs)
        ≡ elim (get i xs) [ none ↦ none | some x ↦ some (if p x then f x else x) ]
  get-update_where i [] = refl
  get-update_where i (x ∷ xs) = ground (arith, keeps x, get-update_where i xs)

  get-update_none : (i : ℕ) (xs : List A) → get i xs ≡ none → get i (update_where p f xs) ≡ none
  get-update_none i [] h = refl
  get-update_none i (x ∷ xs) h = ground (arith, keeps x, get-update_none i xs)

  key-if : (x : A) → r.key (if p x then f x else x) ≡ r.key x
  key-if x = elim (Bool-cases (p x)) [ inl hit ↦ rw hit (keeps x) | inr miss ↦ rw miss ]

  pub HasUniqueKeys-update_where :
      (xs : List A) → HasUniqueKeys xs → HasUniqueKeys (update_where p f xs)
  HasUniqueKeys-update_where [] h = tt
  HasUniqueKeys-update_where (x ∷ xs) h =
      (rw (key-if x) (get-update_none (r.key x) xs h.0), HasUniqueKeys-update_where xs h.1)
