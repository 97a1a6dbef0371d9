-- ===== src/Campaigns/Recovery.antt =====
-- Restarting campaigns whose task was lost, and sending again what failed
-- (backend/app/services/campaign_recovery.py). The queue's answer to `apply_async`, the fresh
-- tokens and the clock are arguments; the task itself runs later (`Worker`). Instants are in
-- seconds.
pub mod Retry
pub mod Stuck
mod Tests
use watesly.Base.{
  ℕ, suc, ◌+◌, Bool, true, false, not, ◌&&◌, ◌||◌, Option, none, some, List, [], ◌∷◌, ◌++◌, map,
  select, take, contains, order_by, count_where, put, update_where, campaign_cannot_retry,
  no_failed_recipients, Action, query, reads, modify, raise_if, pure, ◌>>=◌, ◌>>◌, ltb, leb, ◌==◌,
  if◌then◌else◌, is_some, or_else,
}
use watesly.Models.{
  Database, Membership, Campaign, CampaignStatus, scheduled, running, completed,
  completed_with_errors, paused, failed, CampaignRecipient, RecipientStatus, campaign_row,
}
use watesly.Campaigns.Lookup.{get_campaign, save}

abbrev pub can_retry : CampaignStatus → Bool
can_retry completed = true
can_retry completed_with_errors = true
can_retry paused = true
can_retry failed = true
can_retry _ = false

abbrev pub is_failed : RecipientStatus → Bool
is_failed RecipientStatus.failed = true
is_failed _ = false

-- `{PENDING, QUEUED}`
abbrev pub is_sendable : RecipientStatus → Bool
is_sendable RecipientStatus.pending = true
is_sendable RecipientStatus.queued = true
is_sendable _ = false

pub count_sendable_recipients : Database → ℕ → ℕ
count_sendable_recipients db campaign_id =
    count_where (λ r. r.campaign_id == campaign_id && is_sendable r.status) db.recipients

unfoldable pub failed_of : ℕ → CampaignRecipient → Bool
failed_of campaign_id r = r.campaign_id == campaign_id && is_failed r.status

-- The `values(…)` of the update.
unfoldable pub reset_recipient : CampaignRecipient → CampaignRecipient
reset_recipient r = record r {
  status = RecipientStatus.pending;
  error_message = none;
  external_message_id = none;
  sending_started_at = none;
}

abbrev reset_failed : ℕ → Database → Database
reset_failed campaign_id db = record db {
  recipients = update_where (failed_of campaign_id) reset_recipient db.recipients;
}

-- The number of recipients that are reset, with the database.
unfoldable pub retry_failed_campaign_recipients :
    ℕ → ℕ → ℕ → ℕ → ℕ → Option Membership → Action Database ℕ
retry_failed_campaign_recipients now token task_id account_id campaign_id membership = do
  campaign ← query (λ db. get_campaign db account_id campaign_id membership)
  raise_if (not (can_retry campaign.status)) campaign_cannot_retry
  reset_count ← reads (λ db. count_where (failed_of campaign.id) db.recipients)
  modify (reset_failed campaign.id)
  raise_if (reset_count == 0) no_failed_recipients
  prepared ← save (record campaign {
    status = scheduled;
    execution_token = some token;
    active_task_id = none;
    completed_at = none;
    last_heartbeat_at = some now;
  })
  started ← save (record prepared { active_task_id = some task_id; status = running })
  pure reset_count

abbrev pub is_running : CampaignStatus → Bool
is_running running = true
is_running _ = false

abbrev pub is_scheduled : CampaignStatus → Bool
is_scheduled scheduled = true
is_scheduled _ = false

-- `at is not None and at < cutoff`, the cutoff being `minutes` before `now`.
pub older_than : Option ℕ → ℕ → ℕ → Bool
older_than none minutes now = false
older_than (some at_) minutes now = ltb (at_ + minutes) now

pub is_stale_running : ℕ → Campaign → Bool
is_stale_running now c = is_running c.status && older_than c.last_heartbeat_at 900 now

pub is_stale_scheduled : ℕ → Campaign → Bool
is_stale_scheduled now c =
    is_scheduled c.status && not (is_some c.started_at) && older_than (some c.created_at) 180 now

pub running_rows : ℕ → ℕ → List Campaign → List Campaign
running_rows now limit campaigns = take limit (
    order_by (λ a b. leb (or_else a.last_heartbeat_at 0) (or_else b.last_heartbeat_at 0))
      (select (is_stale_running now) campaigns))

pub scheduled_rows : ℕ → ℕ → List Campaign → List Campaign
scheduled_rows now limit campaigns =
    take limit
      (order_by (λ a b. leb a.created_at b.created_at) (select (is_stale_scheduled now) campaigns))

-- `rows[:limit]`
pub stuck_campaigns : ℕ → ℕ → List Campaign → List Campaign
stuck_campaigns now limit campaigns =
    let running = running_rows now limit campaigns in
    take limit (
      running
      ++ select (λ c. not (contains c.id (map (λ r. r.id) running)))
          (scheduled_rows now limit campaigns))

-- What one turn of the loop makes of a campaign.
pub restarted : ℕ → ℕ → ℕ → Campaign → Campaign
restarted now token task_id c = record c {
  execution_token = some token;
  active_task_id = some task_id;
  status = running;
  last_heartbeat_at = some now;
}

restart_all : ℕ → (ℕ → ℕ) → (ℕ → ℕ) → List Campaign → Database → ℕ × Database
restart_all now token task_id [] db = (0, db)
restart_all now token task_id (c ∷ cs) db =
    let restarted_db = record db {
      campaigns = put (restarted now (token c.id) (task_id c.id) c) db.campaigns;
    } in
    let (recovered, db') = restart_all now token task_id cs restarted_db in (suc recovered, db')

-- `token` and `task_id` give a campaign's fresh token and the id of its new task.
pub recover_stuck_campaigns : ℕ → (ℕ → ℕ) → (ℕ → ℕ) → ℕ → Database → ℕ × Database
recover_stuck_campaigns now token task_id limit db =
    restart_all now token task_id (stuck_campaigns now limit db.campaigns) db
