-- ===== src/Billing.antt =====
-- Billing: the period that an instant falls in (backend/app/services/billing_period.py), the limits
-- and charges of a channel (billing_limits.py, and the two calculations of mac_tracking.py) and the
-- active subscription (get_active_subscription of billing.py). Years are taken to stay below 10000,
-- where Python's `datetime` ends.
pub mod Period
pub mod Charges
pub mod Activity
mod Tests
use watesly.Base.{
  ℕ, zero, suc, ◌+◌, ◌-◌, ◌*◌, ◌/◌, ◌%◌, min, max, Bool, true, false, not, ◌&&◌, ◌||◌, Option, none,
  some, List, [], ◌∷◌, get, select, first, ltb, ◌==◌, if◌then◌else◌, is_some, or_else,
}
use watesly.Models.{
  Database, Channel, channel_row, DateTime, BillingCycle, monthly, yearly, trial, Plan,
  Subscription,
}

-- `a < b` on instants
unfoldable pub earlier : DateTime → DateTime → Bool
earlier a b =
    ltb a.year b.year
    || (a.year == b.year
        && (ltb a.month b.month
            || (a.month == b.month && (ltb a.day b.day || (a.day == b.day && ltb a.time b.time)))))

pub is_leap : ℕ → Bool
is_leap year = year % 4 == 0 && (not (year % 100 == 0) || year % 400 == 0)

-- `_days_in_month`: the days from the first of the month to the first of the next.
pub days_in_month : ℕ → ℕ → ℕ
days_in_month year month =
    if month == 2
    then if is_leap year then 29 else 28
    else if month == 4 || month == 6 || month == 9 || month == 11
    then 30
    else 31

pub add_months : DateTime → ℕ → DateTime
add_months dt months =
    let month_index = dt.month - 1 + months in
    let year = dt.year + month_index / 12 in
    let month = month_index % 12 + 1 in
    record dt { year = year; month = month; day = min dt.day (days_in_month year month) }

abbrev pub step_months : BillingCycle → ℕ
step_months yearly = 12
step_months _ = 1

-- `period_end`, cut off at the end of the subscription.
pub period_end : ℕ → DateTime → DateTime → DateTime
period_end step ends_at period_start =
    let next = add_months period_start step in if earlier ends_at next then ends_at else next

-- The loop, on fuel; without a period the caller returns the whole subscription.
pub find_period : ℕ → ℕ → DateTime → DateTime → DateTime → Option (DateTime × DateTime)
find_period zero step ends_at reference period_start = none
find_period (suc fuel) step ends_at reference period_start =
    let end = period_end step ends_at period_start in
    let rest = find_period fuel step ends_at reference end in
    if not (earlier period_start ends_at)
    then none
    else if earlier reference end || not (earlier end ends_at)
    then some (period_start, end)
    else rest

-- Every turn goes on by a month at least, so there are at most as many turns as months.
pub period_fuel : DateTime → DateTime → ℕ
period_fuel starts_at ends_at =
    suc (suc (ends_at.year * 12 + ends_at.month - (starts_at.year * 12 + starts_at.month)))

abbrev pub is_trial : BillingCycle → Bool
is_trial trial = true
is_trial _ = false

pub billing_period_for_anchor : DateTime → DateTime → BillingCycle → DateTime → DateTime × DateTime
billing_period_for_anchor starts_at ends_at cycle reference =
    if is_trial cycle
    then (starts_at, ends_at)
    else or_else
        (find_period (period_fuel starts_at ends_at) (step_months cycle) ends_at reference
          starts_at)
        (starts_at, ends_at)

-- `cycle_month_key`: the year and the month.
abbrev pub cycle_month_key : DateTime → ℕ × ℕ
cycle_month_key period_start = (period_start.year, period_start.month)

abbrev pub find_plan : List Plan → ℕ → Option Plan
find_plan [] i = none
find_plan (p ∷ ps) i = if p.id == i then some p else find_plan ps i

abbrev pub unexpired : List Plan → DateTime → Option Subscription → Option (Subscription × Plan)
unexpired plans now none = none
unexpired plans now (some s) = elim (find_plan plans s.plan_id) [
  | none ↦ none
  | some plan ↦ if earlier now s.ends_at then some (s, plan) else none
]

-- An account has at most one subscription.
unfoldable pub get_active_subscription :
    List Subscription → List Plan → DateTime → ℕ → Option (Subscription × Plan)
get_active_subscription subscriptions plans now account_id =
    unexpired plans now (first (select (λ s. s.account_id == account_id) subscriptions))

abbrev first_of_month : DateTime → DateTime
first_of_month t = record t { day = 1; time = 0 }

subscription_period : DateTime → Option (Subscription × Plan) → DateTime × DateTime
subscription_period reference none =
    (first_of_month reference, add_months (first_of_month reference) 1)
subscription_period reference (some (s, plan)) =
    billing_period_for_anchor s.starts_at s.ends_at s.billing_cycle reference

-- The period of an account; `now` is the clock that decides whether the subscription is active.
pub resolve_billing_period :
    List Subscription → List Plan → DateTime → ℕ → DateTime → DateTime × DateTime
resolve_billing_period subscriptions plans now account_id reference =
    subscription_period reference (get_active_subscription subscriptions plans now account_id)

channel_period :
    Channel
    → Option DateTime
    → Option DateTime
    → DateTime × DateTime
    → DateTime
    → DateTime × DateTime
channel_period channel (some starts) (some ends) account reference =
    billing_period_for_anchor starts ends channel.billing_cycle reference
channel_period channel _ _ account reference = account

pub resolve_channel_billing_period :
    Database
    → List Subscription
    → List Plan
    → DateTime
    → ℕ
    → DateTime
    → Option (DateTime × DateTime)
resolve_channel_billing_period db subscriptions plans now channel_id reference =
    elim (get channel_id db.channels) [
      | none ↦ none
      | some channel ↦
          if is_some channel.deleted_at
          then none
          else some (
              channel_period channel channel.billing_starts_at channel.billing_ends_at
                (resolve_billing_period subscriptions plans now channel.account_id reference)
                reference)
    ]

plan_included : Option Plan → ℕ
plan_included none = 1000
plan_included (some plan) = plan.included_mac

subscription_included : Option Subscription → Option ℕ
subscription_included none = none
subscription_included (some s) = s.included_mac_override

pub effective_included_mac : Option Subscription → Option Plan → ℕ
effective_included_mac s plan = or_else (subscription_included s) (plan_included plan)

pub effective_channel_included_mac : Channel → Option Subscription → Option Plan → ℕ
effective_channel_included_mac channel s plan =
    or_else channel.included_mac (effective_included_mac s plan)

plan_price : Option Plan → ℕ
plan_price none = 12000
plan_price (some plan) = plan.over_mac_price_per_100

subscription_price : Option Subscription → Option ℕ
subscription_price none = none
subscription_price (some s) = s.over_mac_price_per_100_override

pub effective_workspace_over_price : Option Subscription → Option Plan → ℕ
effective_workspace_over_price s plan = or_else (subscription_price s) (plan_price plan)

pub effective_channel_over_price : Channel → Option Subscription → Option Plan → ℕ
effective_channel_over_price channel s plan =
    or_else channel.over_mac_price_per_100 (effective_workspace_over_price s plan)

pub record MacBalance : Type 0 where
  pub mac_remaining : ℕ
  pub is_over_mac : Bool
  pub over_mac_count : ℕ
  pub over_mac_blocks : ℕ

-- `max(0, a - b)` is the subtraction of natural numbers.
pub compute_mac_balance : ℕ → ℕ → MacBalance
compute_mac_balance mac_count included_mac = record {
  mac_remaining = included_mac - mac_count;
  is_over_mac = ltb included_mac mac_count;
  over_mac_count = mac_count - included_mac;
  over_mac_blocks = (mac_count - included_mac + 99) / 100;
}

-- In thousandths, where rounding to three places changes nothing.
pub estimate_over_mac_charge : ℕ → ℕ → ℕ
estimate_over_mac_charge over_mac_count price_per_100 =
    if over_mac_count == 0 then 0 else (over_mac_count + 99) / 100 * price_per_100

pub record ChannelCharge : Type 0 where
  pub attributed_over_mac_count : ℕ
  pub blocks : ℕ
  pub charge : ℕ

pub compute_channel_over_mac_charge : ℕ → ℕ → ℕ → Bool → ChannelCharge
compute_channel_over_mac_charge channel_mac included_mac price_per_100 overage_enabled =
    let balance = compute_mac_balance channel_mac included_mac in
    if not overage_enabled || balance.over_mac_count == 0
    then record { attributed_over_mac_count = 0; blocks = 0; charge = 0 }
    else record {
      attributed_over_mac_count = balance.over_mac_count;
      blocks = balance.over_mac_blocks;
      charge = estimate_over_mac_charge balance.over_mac_count price_per_100;
    }
