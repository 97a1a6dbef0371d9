-- ===== src/Models/Campaigns.antt =====
-- Campaigns, their recipients and the contacts they go to: models/campaign.py,
-- campaign_recipient.py and contact.py; the reachability scale of services/contact_reachability.py.
use watesly.Base.{ℕ, String, Bool, Option, List}

pub data CampaignStatus : Type 0 where
  draft scheduled running completed completed_with_errors paused cancelled failed : CampaignStatus

pub record Campaign : Type 0 where
  pub id : ℕ
  pub account_id : ℕ
  pub organization_id : ℕ
  pub whatsapp_account_id : ℕ
  pub template_id : ℕ
  pub created_by_user_id : ℕ
  pub name : String
  pub status : CampaignStatus
  pub created_at : ℕ
  pub scheduled_at : Option ℕ
  pub started_at : Option ℕ
  pub completed_at : Option ℕ
  pub approved_by_user_id : Option ℕ
  pub approved_at : Option ℕ
  pub paused_at : Option ℕ
  pub cancelled_reason : Option String
  pub max_recipients : ℕ
  pub requires_approval : Bool
  pub execution_token : Option ℕ
  pub active_task_id : Option ℕ
  pub last_heartbeat_at : Option ℕ
  pub parent_campaign_id : Option ℕ
  pub include_opt_out_option : Bool
  pub archived_at : Option ℕ

pub data RecipientStatus : Type 0 where
  pending queued sending sent delivered read failed skipped : RecipientStatus

pub record CampaignRecipient : Type 0 where
  pub id : ℕ
  pub campaign_id : ℕ
  pub contact_id : ℕ
  pub status : RecipientStatus
  pub template_parameters : Option String
  pub external_message_id : Option String
  pub error_message : Option String
  pub delivery_key : Option (ℕ × ℕ)
  pub sending_started_at : Option ℕ
  pub last_attempt_at : Option ℕ

pub data ReachabilityStatus : Type 0 where
  reachable risky unreachable : ReachabilityStatus

pub record Contact : Type 0 where
  pub id : ℕ
  pub account_id : ℕ
  pub organization_id : ℕ
  pub channel_id : ℕ
  pub external_address : List ℕ
  pub display_name : Option String
  pub country_code : Option String
  pub marketing_opt_in : Bool
  pub reachability_status : Option ReachabilityStatus
  pub reachability_reason : Option String
  pub delivery_failure_count : ℕ
  pub last_delivery_failure_at : Option ℕ
  pub last_inbound_at : Option ℕ
  pub deleted_at : Option ℕ
