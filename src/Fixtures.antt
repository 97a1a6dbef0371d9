-- ===== src/Fixtures.antt =====
-- Sample rows for the tests of the other modules: one account with two branches, a WhatsApp
-- account on the first branch's channel, a campaign with two contacts, and three members.
use watesly.Base.{ℕ, Bool, true, false, ◌&&◌, none, some, [], ◌∷◌, leb, PythonText, codes}
use watesly.Models.{
  Database, monthly, Membership, MembershipStatus, owner, manager, agent, Organization,
  OrganizationStatus, Channel, WhatsAppAccount, yellow, WhatsAppTemplate, TemplateStatus, Campaign,
  CampaignStatus, CampaignRecipient, RecipientStatus, Contact, OutboxEvent, OutboxStatus,
}

abbrev pub ascii_digit : ℕ → Bool
ascii_digit n = leb 48 n && leb n 57

-- Python's texts on texts that are upper case, or lower case, already.
abbrev pub plain_text : PythonText
plain_text = record { is_digit = ascii_digit; upper = λ t. t; strip_lower = λ t. t }

abbrev pub the_owner : Membership
the_owner = record {
  id = 31;
  account_id = 1;
  user_id = 41;
  role = owner;
  status = MembershipStatus.active;
  custom_permissions = none;
  created_at = 100;
}

abbrev pub the_manager : Membership
the_manager = record the_owner { id = 32; user_id = 42; role = manager }

abbrev pub the_agent : Membership
the_agent = record the_owner { id = 33; user_id = 43; role = agent }

abbrev pub north : Organization
north = record { id = 2; account_id = 1; status = OrganizationStatus.active; max_users = 0 }

abbrev pub south : Organization
south = record { id = 7; account_id = 1; status = OrganizationStatus.suspended; max_users = 0 }

abbrev pub north_channel : Channel
north_channel = record {
  id = 6;
  account_id = 1;
  organization_id = 2;
  deleted_at = none;
  over_mac_price_per_100 = none;
  billing_starts_at = none;
  billing_ends_at = none;
  billing_cycle = monthly;
  included_mac = none;
}

abbrev pub north_account : WhatsAppAccount
north_account = record {
  id = 3;
  account_id = 1;
  organization_id = 2;
  channel_id = 6;
  quality_rating = some yellow;
  messaging_limit = some 250;
  display_phone_number = codes "96522200000";
}

abbrev pub offer : WhatsAppTemplate
offer = record {
  id = 4;
  account_id = 1;
  organization_id = 2;
  whatsapp_account_id = 3;
  status = TemplateStatus.approved;
}

abbrev pub spring : Campaign
spring = record {
  id = 5;
  account_id = 1;
  organization_id = 2;
  whatsapp_account_id = 3;
  template_id = 4;
  created_by_user_id = 41;
  name = "spring";
  status = CampaignStatus.draft;
  created_at = 200;
  scheduled_at = none;
  started_at = none;
  completed_at = none;
  approved_by_user_id = some 41;
  approved_at = some 210;
  paused_at = none;
  cancelled_reason = none;
  max_recipients = 2;
  requires_approval = true;
  execution_token = none;
  active_task_id = none;
  last_heartbeat_at = none;
  parent_campaign_id = none;
  include_opt_out_option = true;
  archived_at = none;
}

abbrev pub willing : Contact
willing = record {
  id = 11;
  account_id = 1;
  organization_id = 2;
  channel_id = 6;
  external_address = codes "+965 55501234";
  display_name = none;
  country_code = some "KW";
  marketing_opt_in = true;
  reachability_status = none;
  reachability_reason = none;
  delivery_failure_count = 0;
  last_delivery_failure_at = none;
  last_inbound_at = none;
  deleted_at = none;
}

abbrev pub unwilling : Contact
unwilling = record willing {
  id = 12;
  external_address = codes "55505678";
  marketing_opt_in = false;
}

abbrev pub first_recipient : CampaignRecipient
first_recipient = record {
  id = 21;
  campaign_id = 5;
  contact_id = 11;
  status = RecipientStatus.pending;
  template_parameters = none;
  external_message_id = none;
  error_message = none;
  delivery_key = none;
  sending_started_at = none;
  last_attempt_at = none;
}

abbrev pub second_recipient : CampaignRecipient
second_recipient = record first_recipient { id = 22; contact_id = 12 }

abbrev pub notice : OutboxEvent
notice = record {
  id = 51;
  account_id = 1;
  event_type = "campaign.created";
  aggregate_type = "campaign";
  aggregate_id = 5;
  payload = [];
  status = OutboxStatus.pending;
  attempts = 0;
  available_at = 200;
  created_at = 200;
  locked_at = none;
  lock_owner = none;
  max_attempts = 2;
  processed_at = none;
  last_error = none;
}

-- The database with the campaign in a given state.
abbrev pub sample_with : Campaign → Database
sample_with campaign = record {
  memberships = the_owner ∷ the_manager ∷ the_agent ∷ [];
  organizations = north ∷ south ∷ [];
  organization_memberships =
      record { organization_id = 2; membership_id = 32 }
      ∷ record { organization_id = 2; membership_id = 33 }
      ∷ [];
  channel_access = record { membership_id = 33; channel_id = 6 } ∷ [];
  channels = north_channel ∷ [];
  whatsapp_accounts = north_account ∷ [];
  templates = offer ∷ [];
  contacts = willing ∷ unwilling ∷ [];
  campaigns = campaign ∷ [];
  recipients = first_recipient ∷ second_recipient ∷ [];
  messages = [];
  conversations = [];
  outbox = [];
  teams = [];
  team_members = [];
  rules = [];
}

abbrev pub sample : Database
sample = sample_with spring
