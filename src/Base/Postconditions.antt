-- ===== src/Base/Postconditions.antt =====
-- What holds of the result of a chain of checks, if it returns: one rule for each step.
use mathlib.Core.Path.{◌≡◌, refl, ap, subst}
use mathlib.Core.Bool.{Bool, true, false}
use mathlib.Core.Option.{Option, none, some}
use watesly.Base.Session.{Error, Result, ok, err, ensure, bind, found}
use watesly.Base.Tests.{if◌then◌else◌}

-- An error satisfies every condition on what is returned.
pub record Returns {ℓ κ} {A : Type ℓ} (P : A → Type κ) (r : Result A) : Type (ℓ ⊔ κ) where
  pub returned : (a : A) → r ≡ ok a → P a

module _ {ℓ κ} {A : Type ℓ} (P : A → Type κ) where
  abbrev value_or : A → Result A → A
  value_or b (ok a) = a
  value_or b (err e) = b

  pub ok-Returns : (a : A) → P a → Returns P (ok a)
  ok-Returns a p = record { returned = λ b h. subst P (ap (value_or a) h) p }

  pub err-Returns : (e : Error) → Returns P (err e)
  err-Returns e = record { returned = λ b h. absurd cc }

  pub if-Returns :
      (c : Bool) (r s : Result A)
      → (c ≡ true → Returns P r)
      → (c ≡ false → Returns P s)
      → Returns P (if c then r else s)
  if-Returns true r s hit miss = hit refl
  if-Returns false r s hit miss = miss refl

  pub bind-Returns {ρ} :
      {B : Type ρ} (r : Result B) (f : B → Result A)
      → ((b : B) → r ≡ ok b → Returns P (f b))
      → Returns P (bind r f)
  bind-Returns (ok b) f h = h b refl
  bind-Returns (err e) f h = err-Returns e

  pub found-Returns {ρ} :
      {B : Type ρ} (o : Option B) (e : Error) (f : B → Result A)
      → ((b : B) → o ≡ some b → Returns P (f b))
      → Returns P (found o e f)
  found-Returns (some b) e f h = h b refl
  found-Returns none e f h = err-Returns e

module _ {κ} {A : Type 0} (P : A → Type κ) where
  pub ensure-Returns :
      (c : Bool) (e : Error) (r : Result A) → (c ≡ true → Returns P r) → Returns P (ensure c e r)
  ensure-Returns true e r h = h refl
  ensure-Returns false e r h = err-Returns P e
