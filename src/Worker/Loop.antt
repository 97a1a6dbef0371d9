-- ===== src/Worker/Loop.antt =====
-- The task from its first checks to its end (backend/app/workers/campaign_tasks.py). The loop has
-- no bound of its own, since a message that Meta refuses for the moment is queued again: on fuel,
-- it stops with no status, and the fuel counts batches.
use watesly.Base.{
  ℕ, zero, suc, ◌+◌, Bool, true, false, not, ◌&&◌, Option, none, some, List, [], ◌∷◌, select, take,
  map, get, update_where, ltb, ◌==◌, if◌then◌else◌, is_some, or_else, PythonText,
}
use watesly.Models.{
  Database, Campaign, CampaignStatus, failed, running, completed, completed_with_errors,
  CampaignRecipient, RecipientStatus, Contact, campaign_row, contact_row, whatsapp_account_row,
  template_row, WhatsAppAccount,
}
use watesly.Worker.{
  Environment, Progress, TaskStatus, not_found, stale_task, blocked, cancelled_task,
  missing_configuration, superseded, stopped, finished, aborted, Task, update_campaign,
}
use watesly.Worker.Row.{is_stopped, same_token, refresh, heartbeat, on_db, process_row}

abbrev pub is_sending : RecipientStatus → Bool
is_sending RecipientStatus.sending = true
is_sending _ = false

abbrev pub is_waiting : RecipientStatus → Bool
is_waiting RecipientStatus.pending = true
is_waiting RecipientStatus.queued = true
is_waiting _ = false

-- `started < now - ten minutes`, in seconds, for a start that may be unset.
abbrev pub is_stale : Option ℕ → ℕ → Bool
is_stale none now = false
is_stale (some started) now = ltb (started + 600) now

-- Recipients that a broken-off task left as being sent.
unfoldable pub fail_stale : ℕ → ℕ → Database → Database
fail_stale campaign_id now db = record db {
  recipients =
      update_where
        (λ r.
          r.campaign_id == campaign_id
          && is_sending r.status
          && is_stale r.sending_started_at now
          && not (is_some r.external_message_id))
        (λ r. record r {
          status = RecipientStatus.failed;
          error_message =
              some "Delivery state unknown after worker interruption; reconcile before retry";
          sending_started_at = none;
        })
        db.recipients;
}

-- The join with the contacts that are not deleted.
unfoldable pub join_row :
    CampaignRecipient
    → Option Contact
    → List (CampaignRecipient × Contact)
    → List (CampaignRecipient × Contact)
join_row r none rows = rows
join_row r (some contact) rows = if is_some contact.deleted_at then rows else (r, contact) ∷ rows

unfoldable pub with_contacts :
    Database → List CampaignRecipient → List (CampaignRecipient × Contact)
with_contacts db [] = []
with_contacts db (r ∷ rs) = join_row r (get r.contact_id db.contacts) (with_contacts db rs)

-- The rows of the query, without those that another transaction has locked.
unfoldable pub next_batch : Environment → ℕ → Database → ℕ → ℕ → List (CampaignRecipient × Contact)
next_batch env n db campaign_id batch_size = take batch_size (
    select (λ row. not (env.locked n row))
      (with_contacts db
        (select (λ r. r.campaign_id == campaign_id && is_waiting r.status) db.recipients)))

-- What comes after a part of the loop, unless that part ended the task.
abbrev pub unless_ended :
    Progress × Option TaskStatus
    → (Progress → Progress × Option TaskStatus)
    → Progress × Option TaskStatus
unless_ended (p, some status) k = (p, some status)
unless_ended (p, none) k = k p

-- The inner loop: it ends with the first row that ends the task.
unfoldable pub process_rows :
    PythonText
    → Environment
    → Task
    → List (CampaignRecipient × Contact)
    → Progress
    → Progress × Option TaskStatus
process_rows py env task [] p = (p, none)
process_rows py env task ((recipient, contact) ∷ rows) p =
    unless_ended (process_row py env task recipient contact p) (process_rows py env task rows)

unfoldable pub final_status : Progress → CampaignStatus
final_status p = if p.failed_count == 0 then completed else completed_with_errors

unfoldable pub finish : Environment → Task → Progress → Progress × Option TaskStatus
finish env task p =
    let status = final_status p in
    (
      on_db
          (update_campaign task.campaign_id λ c. record c {
            status = status;
            completed_at = some (env.now p.reads);
            active_task_id = none;
          })
          p,
      some (finished status),
    )

-- One turn of the outer loop up to the query of the batch: the task's end, or the rows.
unfoldable pub check_turn :
    Environment → Task → Progress → Option Campaign → Progress × Option TaskStatus
check_turn env task p none = (p, some aborted)
check_turn env task p (some campaign) =
    if not (same_token campaign.execution_token task.execution_token)
    then (p, some superseded)
    else if is_stopped campaign.status
    then (p, some (stopped campaign.status))
    else (on_db (fail_stale task.campaign_id (env.now p.reads)) p, none)

unfoldable pub start_turn : Environment → Task → Progress → Progress × Option TaskStatus
start_turn env task p =
    let q = refresh env p in check_turn env task q (get task.campaign_id q.db.campaigns)

-- One batch and what comes after it; an empty one ends the loop.
unfoldable pub run_batch :
    PythonText
    → Environment
    → Task
    → (Progress → Progress × Option TaskStatus)
    → Progress
    → List (CampaignRecipient × Contact)
    → Progress × Option TaskStatus
run_batch py env task rest p [] = finish env task p
run_batch py env task rest p (row ∷ rows) =
    unless_ended (process_rows py env task (row ∷ rows) p) rest

unfoldable pub run_batches :
    PythonText → Environment → Task → ℕ → Progress → Progress × Option TaskStatus
run_batches py env task zero p = (p, none)
run_batches py env task (suc fuel) p =
    let rest = run_batches py env task fuel in
    unless_ended (start_turn env task p) λ q.
      run_batch py env task rest (record q { queried = q.db })
        (map (env.held q.reads) (next_batch env q.reads q.db task.campaign_id task.batch_size))

abbrev pub is_cancelled : CampaignStatus → Bool
is_cancelled CampaignStatus.cancelled = true
is_cancelled _ = false

unfoldable pub fresh_progress : Database → Progress
fresh_progress db = record {
  db = db;
  queried = db;
  reads = 0;
  sent = 0;
  failed_count = 0;
  rate_limited = 0;
  log = [];
}

unfoldable pub fail_configuration : ℕ → Database → Database
fail_configuration campaign_id db =
    update_campaign campaign_id (λ c. record c { status = failed }) db

unfoldable pub set_running : ℕ → ℕ → Database → Database
set_running campaign_id now db = heartbeat campaign_id now (
    update_campaign campaign_id
      (λ c. record c { status = running; started_at = some (or_else c.started_at now) }) db)

-- The lines after the checks of the campaign row: the task with the channel's account, unless a
-- row of the configuration is missing.
unfoldable pub prepare :
    Environment → ℕ → ℕ → Bool → Database → Option WhatsAppAccount → Bool → Database × Option Task
prepare env campaign_id token fast db none template = (fail_configuration campaign_id db, none)
prepare env campaign_id token fast db (some wa) false = (fail_configuration campaign_id db, none)
prepare env campaign_id token fast db (some wa) true = (
  set_running campaign_id (env.now 0) db,
  some record {
    campaign_id = campaign_id;
    execution_token = token;
    batch_size = if fast then 50 else 25;
    wa = wa;
  },
)

unfoldable pub launch :
    PythonText → Environment → ℕ → Database × (Option Task) → Progress × Option TaskStatus
launch py env fuel (db, none) = (fresh_progress db, some missing_configuration)
launch py env fuel (db, some task) = run_batches py env task fuel (fresh_progress db)

unfoldable pub enter :
    PythonText
    → Environment
    → ℕ
    → Bool
    → ℕ
    → Database
    → Option Campaign
    → Progress × Option TaskStatus
enter py env token fast fuel db none = (fresh_progress db, some not_found)
enter py env token fast fuel db (some campaign) =
    if not (same_token campaign.execution_token token)
    then (fresh_progress db, some stale_task)
    else if campaign.requires_approval && not (is_some campaign.approved_at)
    then (fresh_progress db, some blocked)
    else if is_cancelled campaign.status
    then (fresh_progress db, some cancelled_task)
    else launch py env fuel (
        prepare env campaign.id token fast db
          (get campaign.whatsapp_account_id db.whatsapp_accounts)
          (is_some (get campaign.template_id db.templates)))

-- `_run_campaign`; `fast` is the account's flag for fast campaigns.
unfoldable pub run_campaign :
    PythonText → Environment → ℕ → ℕ → Bool → ℕ → Database → Progress × Option TaskStatus
run_campaign py env campaign_id token fast fuel db =
    enter py env token fast fuel db (get campaign_id db.campaigns)
