-- ===== src/Billing/Activity/Keys.antt =====
-- The rows of active contacts by their unique key.
use watesly.Base.{
  ℕ, ◌+◌, ◌≡◌, refl, ap, ◌∙◌, inl, inr, Bool, true, false, not, ◌&&◌, ◌||◌, List, [], ◌∷◌, ◌++◌,
  any, count_where-append, count_where-update_where, update_where, ◌==◌, if◌then◌else◌, Bool-cases,
  if_both, arith,
}
use watesly.Models.{DateTime, MonthlyActiveContact}
use watesly.Billing.Activity.{Key, has_key, same_time, upsert, count_mac_for_channel}

abbrev pub row_key : MonthlyActiveContact → Key
row_key r = record {
  account_id = r.account_id;
  channel_id = r.channel_id;
  contact_id = r.contact_id;
  billing_period_start = r.billing_period_start;
}

-- The unique constraint: no two rows have one key.
abbrev pub IsUnique : List MonthlyActiveContact → Type 0
IsUnique [] = Unit
IsUnique (x ∷ xs) = (any (has_key (row_key x)) xs ≡ false) × IsUnique xs

abbrev pub same_key : Key → Key → Bool
same_key k l =
    l.account_id == k.account_id
    && l.channel_id == k.channel_id
    && l.contact_id == k.contact_id
    && same_time l.billing_period_start k.billing_period_start

abbrev touched : DateTime → MonthlyActiveContact → MonthlyActiveContact
touched at r = record r { last_active_at = at }

has_key-sym :
    (x y : MonthlyActiveContact) → has_key (row_key y) x ≡ false → has_key (row_key x) y ≡ false
unfolding has_key
has_key-sym x y h = ground arith

module _ {ℓ} {A : Type ℓ} where
  pub any-append : (p : A → Bool) (xs ys : List A) → any p (xs ++ ys) ≡ any p xs || any p ys
  any-append p [] ys = refl
  any-append p (x ∷ xs) ys = ground (arith, any-append p xs ys)

  any-update_where :
      (p q : A → Bool) (f : A → A) (keeps : (x : A) → p (f x) ≡ p x) (xs : List A)
      → any p (update_where q f xs) ≡ any p xs
  any-update_where p q f keeps [] = refl
  any-update_where p q f keeps (x ∷ xs) = ground (arith, keeps x, any-update_where p q f keeps xs)

IsUnique-append :
    (y : MonthlyActiveContact) (xs : List MonthlyActiveContact)
    → IsUnique xs
    → any (has_key (row_key y)) xs ≡ false
    → IsUnique (xs ++ (y ∷ []))
IsUnique-append y [] h fresh = (refl, tt)
IsUnique-append y (x ∷ xs) h fresh = (
  ground (arith, any-append (has_key (row_key x)) xs (y ∷ []), h.0, has_key-sym x y, fresh),
  IsUnique-append y xs h.1 (ground (arith, fresh)),
)

row_key-touched :
    (q : MonthlyActiveContact → Bool) (at : DateTime) (x : MonthlyActiveContact)
    → row_key (if q x then touched at x else x) ≡ row_key x
row_key-touched q at x = if_both (λ r. row_key r ≡ row_key x) (q x) _ _ (λ _. refl) (λ _. refl)

has_key-touched :
    (k : Key) (at : DateTime) (x : MonthlyActiveContact) → has_key k (touched at x) ≡ has_key k x
unfolding has_key
has_key-touched k at x = refl

IsUnique-touched :
    (q : MonthlyActiveContact → Bool) (at : DateTime) (xs : List MonthlyActiveContact)
    → IsUnique xs
    → IsUnique (update_where q (touched at) xs)
IsUnique-touched q at [] h = tt
IsUnique-touched q at (x ∷ xs) h = (
  ap (λ k. any (has_key k) (update_where q (touched at) xs)) (row_key-touched q at x)
      ∙ any-update_where (has_key (row_key x)) q (touched at) (has_key-touched (row_key x) at) xs
      ∙ h.0,
  IsUnique-touched q at xs h.1,
)

any-same_key :
    (k l : Key) (rows : List MonthlyActiveContact)
    → same_key k l ≡ true
    → any (has_key k) rows ≡ any (has_key l) rows
unfolding has_key
any-same_key k l [] h = refl
any-same_key k l (x ∷ xs) h = ground (arith, h, any-same_key k l xs)

has_key_new : (k : Key) (x : MonthlyActiveContact) → has_key k x ≡ same_key k (row_key x)
unfolding has_key
has_key_new k x = refl

module _ (at : DateTime) (new : MonthlyActiveContact) (rows : List MonthlyActiveContact) where
  -- Upserting keeps the constraint.
  pub upsert-IsUnique : IsUnique rows → IsUnique (upsert (row_key new) at new rows)
  unfolding upsert
  upsert-IsUnique h =
      if_both IsUnique (any (has_key (row_key new)) rows) _ _
        (λ _. IsUnique-touched (has_key (row_key new)) at rows h)
        (λ fresh. IsUnique-append new rows h fresh)

  -- Afterwards the key is there, and the others are there as before.
  pub any-upsert :
      (k : Key)
      → any (has_key k) (upsert (row_key new) at new rows)
        ≡ same_key k (row_key new) || any (has_key k) rows
  unfolding upsert
  any-upsert k = elim (Bool-cases (any (has_key (row_key new)) rows)) [
    | inl there ↦
        rw
          (
            there,
            any-update_where (has_key k) (has_key (row_key new)) (touched at) (has_key-touched k at)
                rows,
          )
          (ground (arith, there, any-same_key k (row_key new) rows))
    | inr fresh ↦
        rw (fresh, any-append (has_key k) rows (new ∷ []), has_key_new k new) (ground arith)
  ]

  pub count-upsert :
      (account_id channel_id : ℕ) (period_start : DateTime)
      → count_mac_for_channel account_id channel_id period_start (upsert (row_key new) at new rows)
        ≡ count_mac_for_channel account_id channel_id period_start rows
          + (if not (any (has_key (row_key new)) rows)
                && (new.account_id == account_id
                    && new.channel_id == channel_id
                    && same_time new.billing_period_start period_start)
              then 1
              else 0)
  unfolding upsert count_mac_for_channel
  count-upsert account_id channel_id period_start =
      let p : MonthlyActiveContact → Bool = (λ r.
        r.account_id == account_id
        && r.channel_id == channel_id
        && same_time r.billing_period_start period_start) in
      elim (Bool-cases (any (has_key (row_key new)) rows)) [
        | inl there ↦
            rw
              (
                there,
                count_where-update_where p (has_key (row_key new)) (touched at) (λ x. refl) rows,
              )
              (omega arith)
        | inr fresh ↦ rw (fresh, count_where-append p rows (new ∷ [])) refl
      ]
