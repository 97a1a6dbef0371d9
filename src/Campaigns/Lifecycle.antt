-- ===== src/Campaigns/Lifecycle.antt =====
-- Approving, starting, pausing, cancelling, archiving and deleting a campaign
-- (backend/app/services/campaigns.py, enforce_campaign_tier_limit of whatsapp_window.py). The
-- instant `now`, the fresh `token` and the id of a new outbox event are arguments.
pub mod Transitions
pub mod Moves
pub mod Requests
pub mod Guards
mod Tests
use watesly.Base.{
  ℕ, String, Bool, true, false, not, ◌&&◌, ◌||◌, Option, none, some, List, [], ◌∷◌, ◌++◌,
  count_where, get, put, remove, Error, campaign_not_found, campaign_cannot_be_approved,
  recipient_limit_exceeded, campaign_cannot_start, campaign_approval_required, quality_red,
  tier_limit_exceeded, campaign_cannot_pause, campaign_cannot_cancel, campaign_cannot_archive,
  campaign_not_archived, campaign_cannot_delete, campaign_has_follow_ups, Result, ok, err, Action,
  query, reads, modify, raise_if, pure, ◌>>=◌, ◌>>◌, ensure, bind, found, ltb, ◌==◌, if◌then◌else◌,
  is_some, is_value, truncate, delete_where,
}
use watesly.Models.{
  Database, Membership, Campaign, CampaignStatus, draft, scheduled, running, completed,
  completed_with_errors, paused, cancelled, failed, CampaignRecipient, RecipientStatus, Value,
  ident, text, WhatsAppAccount, is_red, campaign_row, whatsapp_account_row,
}
use watesly.Campaigns.Lookup.{ensure_member, get_campaign, recipient_count, save}
use watesly.Outbox.{add_outbox_event}

-- `{CampaignStatus.DRAFT, CampaignStatus.PAUSED}`
abbrev pub can_approve : CampaignStatus → Bool
can_approve draft = true
can_approve paused = true
can_approve _ = false

pub approve_campaign : ℕ → ℕ → ℕ → ℕ → Option Membership → Action Database Campaign
approve_campaign now account_id campaign_id user_id membership = do
  campaign ← query (λ db. get_campaign db account_id campaign_id membership)
  raise_if (not (can_approve campaign.status)) campaign_cannot_be_approved
  count ← reads (λ db. recipient_count db campaign.id)
  raise_if (ltb campaign.max_recipients count) recipient_limit_exceeded
  save (record campaign { approved_by_user_id = some user_id; approved_at = some now })

-- `{PENDING, QUEUED, SENDING}`
abbrev pub is_unsent : RecipientStatus → Bool
is_unsent RecipientStatus.pending = true
is_unsent RecipientStatus.queued = true
is_unsent RecipientStatus.sending = true
is_unsent _ = false

pub unsent_count : Database → ℕ → ℕ
unsent_count db campaign_id =
    count_where (λ r. r.campaign_id == campaign_id && is_unsent r.status) db.recipients

-- The checks behind the early return; a limit of 0 is no limit.
tier_checks : Database → ℕ → WhatsAppAccount → Option ℕ → Result (Unit {0})
tier_checks db campaign_id wa none = ok tt
tier_checks db campaign_id wa (some limit) =
    if limit == 0
    then ok tt
    else ensure (not (is_red wa.quality_rating)) quality_red
        (ensure (not (ltb limit (unsent_count db campaign_id))) tier_limit_exceeded (ok tt))

pub enforce_campaign_tier_limit : Database → Campaign → Result (Unit {0})
enforce_campaign_tier_limit db campaign =
    elim (get campaign.whatsapp_account_id db.whatsapp_accounts) [
      | none ↦ ok tt
      | some wa ↦ tier_checks db campaign.id wa wa.messaging_limit
    ]

abbrev pub can_start : CampaignStatus → Bool
can_start draft = true
can_start scheduled = true
can_start paused = true
can_start _ = false

-- `SELECT … WHERE id = … AND account_id = … FOR UPDATE`
locked_campaign : Database → ℕ → ℕ → Result Campaign
locked_campaign db account_id campaign_id = get_campaign db account_id campaign_id none

-- The access check that comes first if there is a member.
pub member_check : Database → ℕ → ℕ → Option Membership → Result (Unit {0})
member_check db account_id campaign_id none = ok tt
member_check db account_id campaign_id (some m) =
    bind (get_campaign db account_id campaign_id (some m)) λ _. ok tt

pub prepare_campaign_start : ℕ → ℕ → ℕ → Option Membership → Action Database Campaign
prepare_campaign_start token account_id campaign_id membership = do
  query (λ db. member_check db account_id campaign_id membership)
  campaign ← query (λ db. locked_campaign db account_id campaign_id)
  raise_if (not (can_start campaign.status)) campaign_cannot_start
  raise_if (campaign.requires_approval && not (is_some campaign.approved_at))
      campaign_approval_required
  count ← reads (λ db. recipient_count db campaign.id)
  raise_if (ltb campaign.max_recipients count) recipient_limit_exceeded
  query (λ db. enforce_campaign_tier_limit db campaign)
  save (record campaign {
    status = scheduled;
    execution_token = some token;
    active_task_id = none;
    paused_at = none;
    cancelled_reason = none;
  })

abbrev pub can_pause : CampaignStatus → Bool
can_pause scheduled = true
can_pause running = true
can_pause _ = false

pub pause_campaign : ℕ → ℕ → ℕ → Option Membership → Action Database Campaign
pause_campaign now account_id campaign_id membership = do
  campaign ← query (λ db. get_campaign db account_id campaign_id membership)
  raise_if (not (can_pause campaign.status)) campaign_cannot_pause
  save (record campaign { status = paused; paused_at = some now })

-- `{CampaignStatus.COMPLETED, CampaignStatus.CANCELLED}`
abbrev pub is_over : CampaignStatus → Bool
is_over completed = true
is_over cancelled = true
is_over _ = false

pub cancel_campaign : ℕ → ℕ → ℕ → String → Option Membership → Action Database Campaign
cancel_campaign now account_id campaign_id reason membership = do
  campaign ← query (λ db. get_campaign db account_id campaign_id membership)
  raise_if (is_over campaign.status) campaign_cannot_cancel
  save (record campaign {
    status = cancelled;
    cancelled_reason = some (truncate 2000 reason);
    completed_at = some now;
  })

-- `_ARCHIVABLE_STATUSES`
abbrev pub is_archivable : CampaignStatus → Bool
is_archivable completed = true
is_archivable completed_with_errors = true
is_archivable failed = true
is_archivable cancelled = true
is_archivable paused = true
is_archivable _ = false

-- The branch of `archive_campaign` on a campaign that is not archived yet.
archive_now : ℕ → ℕ → ℕ → Campaign → Action Database Campaign
archive_now now event_id account_id campaign = do
  add_outbox_event now event_id account_id "campaign.archived" "campaign" campaign.id
      (("campaign_id", ident campaign.id) ∷ [])
  save (record campaign { archived_at = some now })

pub archive_campaign : ℕ → ℕ → ℕ → ℕ → Option Membership → Action Database Campaign
archive_campaign now event_id account_id campaign_id membership = do
  campaign ← query (λ db. get_campaign db account_id campaign_id membership)
  raise_if (not (is_archivable campaign.status)) campaign_cannot_archive
  if is_some campaign.archived_at
      then pure campaign
      else archive_now now event_id account_id campaign

pub unarchive_campaign : ℕ → ℕ → ℕ → ℕ → Option Membership → Action Database Campaign
unarchive_campaign now event_id account_id campaign_id membership = do
  campaign ← query (λ db. get_campaign db account_id campaign_id membership)
  raise_if (not (is_some campaign.archived_at)) campaign_not_archived
  add_outbox_event now event_id account_id "campaign.unarchived" "campaign" campaign.id
      (("campaign_id", ident campaign.id) ∷ [])
  save (record campaign { archived_at = none })

abbrev pub is_draft : CampaignStatus → Bool
is_draft draft = true
is_draft _ = false

pub sent_count : Database → ℕ → ℕ
sent_count db campaign_id =
    count_where (λ r. r.campaign_id == campaign_id && is_some r.external_message_id) db.recipients

pub follow_up_count : Database → ℕ → ℕ
follow_up_count db campaign_id =
    count_where (λ c. is_value c.parent_campaign_id campaign_id) db.campaigns

-- `db.delete(campaign)`; the foreign key of the recipients is ON DELETE CASCADE.
abbrev delete_campaign : ℕ → Database → Database
delete_campaign campaign_id db = record db {
  campaigns = remove campaign_id db.campaigns;
  recipients = delete_where (λ r. r.campaign_id == campaign_id) db.recipients;
}

pub delete_draft_campaign : ℕ → ℕ → ℕ → ℕ → Option Membership → Action Database (Unit {0})
delete_draft_campaign now event_id account_id campaign_id membership = do
  campaign ← query (λ db. get_campaign db account_id campaign_id membership)
  raise_if (not (is_draft campaign.status)) campaign_cannot_delete
  sent ← reads (λ db. sent_count db campaign.id)
  raise_if (ltb 0 sent) campaign_cannot_delete
  follow_ups ← reads (λ db. follow_up_count db campaign.id)
  raise_if (ltb 0 follow_ups) campaign_has_follow_ups
  add_outbox_event now event_id account_id "campaign.deleted" "campaign" campaign.id
      (("campaign_id", ident campaign.id) ∷ ("name", text campaign.name) ∷ [])
  modify (delete_campaign campaign.id)
