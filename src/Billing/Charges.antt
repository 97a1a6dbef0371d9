-- ===== src/Billing/Charges.antt =====
-- What the active contacts of a channel above the included ones cost
-- (backend/app/services/billing_limits.py, and mac_tracking.py's compute_mac_balance).
use watesly.Base.{
  ℕ, ◌+◌, ◌-◌, ◌*◌, ◌/◌, ◌≤◌, ◌<◌, min, ◌≡◌, refl, sym, true, false, not, ◌==◌, inl, inr,
  Bool-cases, arith,
}
use watesly.Billing.{compute_mac_balance, estimate_over_mac_charge, compute_channel_over_mac_charge}

-- Hundreds begun: enough hundreds, and no whole hundred too many.
pub record IsRoundedUp (count blocks : ℕ) : Type 0 where
  pub enough : count ≤ blocks * 100
  pub no_more : blocks * 100 < count + 100

hundreds_begun : (count : ℕ) → IsRoundedUp count ((count + 99) / 100)
hundreds_begun count = record { enough = omega arith; no_more = omega arith }

-- Active contacts that are included and not used, and those over the included ones, are a
-- partition: the contacts and what remains are the included ones and what is over, not both are
-- left, a channel is over exactly if some are over, and the blocks are the hundreds begun.
pub compute_mac_balance_lem :
    (mac_count included_mac : ℕ)
    → (let b = compute_mac_balance mac_count included_mac in
        (mac_count + b.mac_remaining ≡ included_mac + b.over_mac_count)
        × (min b.mac_remaining b.over_mac_count ≡ 0)
        × (b.is_over_mac ≡ not (b.over_mac_count == 0))
        × IsRoundedUp b.over_mac_count b.over_mac_blocks)
unfolding compute_mac_balance
compute_mac_balance_lem mac_count included_mac =
    (omega arith, omega arith, ground arith, hundreds_begun (mac_count - included_mac))

-- With overage enabled, a channel is charged for all contacts over its included ones: the blocks
-- are the hundreds begun, and the charge is the price of a hundred for each. With overage disabled
-- nothing is charged.
pub compute_channel_over_mac_charge_lem :
    (mac included price : ℕ)
    → (let c = compute_channel_over_mac_charge mac included price true in
        (c.attributed_over_mac_count ≡ mac - included)
        × IsRoundedUp (mac - included) c.blocks
        × (c.charge ≡ c.blocks * price))
      × ((compute_channel_over_mac_charge mac included price false).charge ≡ 0)
unfolding compute_channel_over_mac_charge compute_mac_balance estimate_over_mac_charge
compute_channel_over_mac_charge_lem mac included price = elim (Bool-cases (mac - included == 0)) [
  | inl none_over ↦
      let e : mac - included ≡ 0 = ground (arith, none_over) in
      rw none_over (
        ((sym e, rw e (record { enough = omega arith; no_more = omega arith }), omega arith), refl))
  | inr over ↦ rw over ((refl, hundreds_begun (mac - included), refl), refl)
]
