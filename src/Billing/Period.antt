-- ===== src/Billing/Period.antt =====
-- The billing period around an instant (backend/app/services/billing_period.py).
use watesly.Base.{
  ℕ, zero, suc, ◌+◌, ◌*◌, ◌≤◌, ◌<◌, ◌≡◌, inl, inr, true, false, not, ◌||◌, some, Bool-cases,
  if_both, arith,
}
use watesly.Models.{DateTime, BillingCycle, monthly, yearly, trial}
use watesly.Billing.{
  earlier, add_months, period_end, find_period, period_fuel, is_trial, billing_period_for_anchor,
}

-- A date of the calendar, as far as the months go.
pub record IsDated (t : DateTime) : Type 0 where
  pub from : 1 ≤ t.month
  pub until : t.month ≤ 12

abbrev months : DateTime → ℕ
months t = t.year * 12 + t.month

earlier_irrefl : (a : DateTime) → earlier a a ≡ false
unfolding earlier
earlier_irrefl a = ground arith

earlier-asym : (a b : DateTime) → earlier a b ≡ true → earlier b a ≡ false
unfolding earlier
earlier-asym a b h = ground (arith, h)

-- `a ≤ b ≤ c`, `≤` being the negation of the order the other way round.
not_earlier_trans :
    (a b c : DateTime) → earlier b a ≡ false → earlier c b ≡ false → earlier c a ≡ false
unfolding earlier
not_earlier_trans a b c h k = ground arith

earlier-months : (a b : DateTime) → IsDated a → IsDated b → earlier a b ≡ true → months a ≤ months b
unfolding earlier
earlier-months a b da db h = ground (arith, da.until, db.from)

months-earlier :
    (a b : DateTime) → IsDated a → IsDated b → months a < months b → earlier b a ≡ false
unfolding earlier
months-earlier a b da db h = ground (arith, da.from, da.until, db.from, db.until)

months-add_months : (t : DateTime) (n : ℕ) → IsDated t → months (add_months t n) ≡ months t + n
unfolding add_months
months-add_months t n d = omega (arith, d.from)

add_months-IsDated : (t : DateTime) (n : ℕ) → IsDated (add_months t n)
unfolding add_months
add_months-IsDated t n = record { from = omega arith; until = omega arith }

-- A period within `[start, ends]` that the instant lies in.
pub record Covers (ends reference start : DateTime) (p : DateTime × DateTime) : Type 0 where
  pub starts_in : earlier p.0 start ≡ false
  pub ends_in : earlier ends p.1 ≡ false
  pub begun : earlier reference p.0 ≡ false
  pub open_still : earlier reference p.1 ≡ true

module _ (step : ℕ) (ends reference : DateTime) (forward : 1 ≤ step) (dated : IsDated ends) where
  -- The end of a period is a date, not before its start, and not after the subscription's end.
  period_end-IsDated : (start : DateTime) → IsDated (period_end step ends start)
  unfolding period_end
  period_end-IsDated start =
      if_both IsDated (earlier ends (add_months start step)) _ _ (λ _. dated)
        (λ _. add_months-IsDated start step)

  period_end-within : (start : DateTime) → earlier ends (period_end step ends start) ≡ false
  unfolding period_end
  period_end-within start =
      if_both (λ e. earlier ends e ≡ false) (earlier ends (add_months start step)) _ _
        (λ _. earlier_irrefl ends) (λ h. h)

  period_end-after :
      (start : DateTime)
      → IsDated start
      → earlier ends start ≡ false
      → earlier (period_end step ends start) start ≡ false
  unfolding period_end
  period_end-after start d open_end =
      if_both (λ e. earlier e start ≡ false) (earlier ends (add_months start step)) _ _
        (λ _. open_end)
        (λ _.
          months-earlier start (add_months start step) d (add_months-IsDated start step)
            (omega (arith, months-add_months start step d, forward)))

  -- A period that ends before the subscription is a whole one.
  period_end-months :
      (start : DateTime)
      → IsDated start
      → earlier (period_end step ends start) ends ≡ true
      → months start < months (period_end step ends start)
  unfolding period_end
  period_end-months start d h = elim (Bool-cases (earlier ends (add_months start step))) [
    | inl cut ↦ absurd (ground (arith, cut, h, earlier_irrefl ends))
    | inr whole ↦ rw whole (omega (arith, months-add_months start step d, forward))
  ]

  here_covers :
      (start : DateTime)
      → earlier reference (period_end step ends start)
          || not (earlier (period_end step ends start) ends)
        ≡ true
      → earlier reference ends ≡ true
      → earlier reference (period_end step ends start) ≡ true
  here_covers start h before = elim (Bool-cases (earlier reference (period_end step ends start))) [
    | inl inside ↦ inside
    | inr outside ↦ absurd (
        ground (
          arith,
          before,
          h,
          outside,
          not_earlier_trans ends (period_end step ends start) reference (ground (arith, h, outside))
              outside,
        ))
  ]

  -- With fuel for the months that are left, the loop finds such a period.
  find_period-Covers :
      (fuel : ℕ) (start : DateTime)
      → IsDated start
      → months ends < months start + fuel
      → earlier start ends ≡ true
      → earlier reference start ≡ false
      → earlier reference ends ≡ true
      → (p : DateTime × DateTime) × (find_period fuel step ends reference start ≡ some p)
        × Covers ends reference start p
  unfolding find_period
  find_period-Covers zero start d enough opened begun before =
      absurd (omega (arith, enough, earlier-months start ends d dated opened))
  find_period-Covers (suc fuel) start d enough open_now begun before =
      let end : DateTime = period_end step ends start in
      elim (Bool-cases (earlier reference end || not (earlier end ends))) [
        | inl here ↦ (
          (start, end),
          ground (arith, open_now, here),
          record {
            starts_in = earlier_irrefl start;
            ends_in = period_end-within start;
            begun = begun;
            open_still = here_covers start here before;
          },
        )
        | inr later ↦
            let going : earlier end ends ≡ true = ground (arith, later) in
            let (p, found, covers) =
              find_period-Covers fuel end (period_end-IsDated start)
                (omega (arith, enough, period_end-months start d going)) going
                (ground (arith, later)) before in
            (
              p,
              ground (arith, open_now, later, found),
              record {
                starts_in =
                    not_earlier_trans start end p.0
                      (period_end-after start d (earlier-asym start ends open_now))
                      covers.starts_in;
                ends_in = covers.ends_in;
                begun = covers.begun;
                open_still = covers.open_still;
              },
            )
      ]

module _ (starts_at ends_at reference : DateTime) (dated_start : IsDated starts_at)
    (dated_end : IsDated ends_at) (starts_open : earlier starts_at ends_at ≡ true)
    (begun : earlier reference starts_at ≡ false) (still : earlier reference ends_at ≡ true) where
  search_ends :
      (step : ℕ)
      → 1 ≤ step
      → (p : DateTime × DateTime) × (find_period
            (period_fuel starts_at ends_at)
            step
            ends_at
            reference
            starts_at
          ≡ some p)
        × Covers ends_at reference starts_at p
  unfolding period_fuel
  search_ends step forward =
      find_period-Covers step ends_at reference forward dated_end (period_fuel starts_at ends_at)
        starts_at dated_start (omega arith) starts_open begun still

  -- In a subscription of whole months or years whose start is before its end, and for an instant
  -- from its start on and before its end, the search through the periods ends with a period that
  -- starts no earlier than the subscription, ends no later, has begun at the instant and has not
  -- ended at it. The start and the end have months from 1 to 12.
  pub billing_period_for_anchor-Covers :
      (cycle : BillingCycle)
      → is_trial cycle ≡ false
      → Covers ends_at reference starts_at
          (billing_period_for_anchor starts_at ends_at cycle reference)
  unfolding billing_period_for_anchor
  billing_period_for_anchor-Covers trial h = cc
  billing_period_for_anchor-Covers monthly h =
      let (p, found, covers) = search_ends 1 (omega arith) in rw found covers
  billing_period_for_anchor-Covers yearly h =
      let (p, found, covers) = search_ends 12 (omega arith) in rw found covers
