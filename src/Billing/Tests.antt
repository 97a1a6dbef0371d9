-- ===== src/Billing/Tests.antt =====
-- Periods and charges on concrete inputs: a subscription that starts on 31 January.
use watesly.Base.{◌*◌, ◌≡◌, refl, true, false, arith}
use watesly.Models.{DateTime, monthly, yearly}
use watesly.Billing.{
  is_leap, days_in_month, add_months, period_end, period_fuel, find_period, earlier,
  billing_period_for_anchor, compute_channel_over_mac_charge,
}
use watesly.Billing.Period.{IsDated, Covers, billing_period_for_anchor-Covers}
use watesly.Billing.Charges.{IsRoundedUp, compute_channel_over_mac_charge_lem}

abbrev january : DateTime
january = record { year = 2025; month = 1; day = 31; time = 0 }

abbrev next_january : DateTime
next_january = record { year = 2026; month = 1; day = 31; time = 0 }

abbrev mid_march : DateTime
mid_march = record { year = 2025; month = 3; day = 15; time = 7 }

january-IsDated : IsDated january
january-IsDated = record { from = omega arith; until = omega arith }

next_january-IsDated : IsDated next_january
next_january-IsDated = record { from = omega arith; until = omega arith }

-- The day moves to the 28th in February and stays there.
march_period : billing_period_for_anchor january next_january monthly mid_march ≡ (
  record { year = 2025; month = 2; day = 28; time = 0 },
  record { year = 2025; month = 3; day = 28; time = 0 },
)
unfolding billing_period_for_anchor find_period period_fuel earlier period_end add_months
    days_in_month is_leap
march_period = refl

whole_year :
    billing_period_for_anchor january next_january yearly mid_march ≡ (january, next_january)
unfolding billing_period_for_anchor find_period period_fuel earlier period_end add_months
    days_in_month
whole_year = refl

billing_period_for_anchor-Covers_example :
    Covers next_january mid_march january
      (billing_period_for_anchor january next_january monthly mid_march)
unfolding earlier
billing_period_for_anchor-Covers_example =
    billing_period_for_anchor-Covers january next_january mid_march january-IsDated
      next_january-IsDated refl refl refl monthly refl

-- 250 contacts over the included ones are three hundreds begun, at 12 each.
compute_channel_over_mac_charge_lem_example :
    (let c = compute_channel_over_mac_charge 1250 1000 12000 true in
      (c.attributed_over_mac_count ≡ 250)
      × IsRoundedUp 250 c.blocks
      × (c.charge ≡ c.blocks * 12000))
    × ((compute_channel_over_mac_charge 1250 1000 12000 false).charge ≡ 0)
compute_channel_over_mac_charge_lem_example = compute_channel_over_mac_charge_lem 1250 1000 12000
