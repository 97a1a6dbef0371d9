-- ===== src/Campaigns/Lookup.antt =====
-- Finding a campaign, counting its recipients, and writing it back
-- (backend/app/services/campaigns.py).
use watesly.Base.{
  ℕ, Option, none, some, count_where, get, put, campaign_not_found, Result, ok, Action, ensure,
  bind, found, ◌==◌,
}
use watesly.Models.{Database, Membership, Campaign, campaign_row}
use watesly.Access.{ensure_campaign_access}

-- The check of the optional member.
abbrev pub ensure_member : Database → ℕ → Option Membership → Campaign → Result (Unit {0})
ensure_member db account_id none campaign = ok tt
ensure_member db account_id (some m) campaign = ensure_campaign_access db account_id m campaign

unfoldable pub get_campaign : Database → ℕ → ℕ → Option Membership → Result Campaign
get_campaign db account_id campaign_id membership =
    found (get campaign_id db.campaigns) campaign_not_found λ campaign.
      ensure (campaign.account_id == account_id) campaign_not_found
        (bind (ensure_member db account_id membership campaign) λ _. ok campaign)

unfoldable pub recipient_count : Database → ℕ → ℕ
recipient_count db campaign_id = count_where (λ r. r.campaign_id == campaign_id) db.recipients

-- `db.commit(); db.refresh(campaign)` on a changed campaign.
abbrev pub save : Campaign → Action Database Campaign
save campaign db = ok (campaign, record db { campaigns = put campaign db.campaigns })
