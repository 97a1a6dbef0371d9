-- ===== src/Campaigns/Create/Tests.antt =====
-- Runs of the creation of a campaign.
use watesly.Base.{◌+◌, true, false, none, some, [], ◌∷◌, ◌++◌}
use watesly.Models.{Database, Campaign, CampaignRecipient, ident}
use watesly.Fixtures.{sample, spring, first_recipient, notice}
use watesly.Campaigns.Create.{CampaignCreateRequest, FreshIds}

-- A request for both contacts that does not ask to leave out those that opted out.
abbrev request : CampaignCreateRequest
request = record {
  organization_id = 2;
  whatsapp_account_id = 3;
  template_id = 4;
  name = "summer";
  scheduled_at = none;
  recipients =
      record { contact_id = 11; template_parameters = "{}" }
      ∷ record { contact_id = 12; template_parameters = "{}" }
      ∷ [];
  include_opt_out_option = true;
  exclude_marketing_opt_out = false;
  exclude_unreachable = true;
  exclude_risky = false;
  only_never_sent = false;
}

abbrev new_ids : FreshIds
new_ids = record { campaign = 8; event = 61; recipient = λ i. i + 100 }

abbrev summer : Campaign
summer = record spring {
  id = 8;
  name = "summer";
  created_at = 300;
  approved_by_user_id = none;
  approved_at = none;
  max_recipients = 1;
}

abbrev summer_recipient : CampaignRecipient
summer_recipient = record first_recipient {
  id = 111;
  campaign_id = 8;
  template_parameters = some "{}";
}

abbrev summer_db : Database
summer_db = record sample {
  campaigns = spring ∷ summer ∷ [];
  recipients = sample.recipients ++ summer_recipient ∷ [];
  outbox =
      record notice {
        id = 61;
        event_type = "campaign.created";
        aggregate_id = 8;
        payload = ("campaign_id", ident 8) ∷ [];
        available_at = 300;
        created_at = 300;
        max_attempts = 10;
      }
      ∷ [];
}
