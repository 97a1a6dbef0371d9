-- ===== src/Campaigns/Recovery/Retry.antt =====
-- Sending again what failed (backend/app/services/campaign_recovery.py).
use watesly.Base.{ℕ, ◌+◌, ◌<◌, ◌≡◌, true, some, get, count_where}
use watesly.Models.{Database, Campaign, running, campaign_row}
use watesly.Campaigns.Recovery.{can_retry, count_sendable_recipients, failed_of}

-- What a retry that returns has done.
pub record Retried (i token task_id reset : ℕ) (db db' : Database) : Type 0 where
  pub before : Campaign
  pub after : Campaign
  pub found_before : get i db.campaigns ≡ some before
  pub allowed : can_retry before.status ≡ true
  pub found_after : get i db'.campaigns ≡ some after
  pub is_running : after.status ≡ running
  pub token_set : after.execution_token ≡ some token
  pub task_set : after.active_task_id ≡ some task_id
  pub all_counted : reset ≡ count_where (failed_of i) db.recipients
  pub some_counted : 0 < reset
  pub none_left : count_where (failed_of i) db'.recipients ≡ 0
  pub sendable : count_sendable_recipients db' i ≡ count_sendable_recipients db i + reset
