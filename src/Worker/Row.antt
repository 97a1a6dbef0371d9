-- ===== src/Worker/Row.antt =====
-- The body of the task's inner loop: one recipient with its contact, as the query of the batch
-- returned them (backend/app/workers/campaign_tasks.py).
use watesly.Base.{
  ℕ, suc, String, Bool, true, false, not, ◌||◌, Option, none, some, List, ◌∷◌, is_empty, get, ◌==◌,
  if◌then◌else◌, truncate, or_else, PythonText,
}
use watesly.Models.{
  Database, Campaign, CampaignStatus, paused, cancelled, CampaignRecipient, RecipientStatus,
  Contact, campaign_row,
}
use watesly.Phone.{normalize_whatsapp_phone}
use watesly.Reachability.{record_delivery_failure, country_or_default, dial_lookup, country_dial}
use watesly.Worker.{
  Reply, accepted, transient, permanent, crashed, Environment, Delivery, Progress, TaskStatus,
  stopped, aborted, Task, has_text, update_campaign, update_recipient, update_contact,
  record_campaign_outbound_message,
}

-- `status in {PAUSED, CANCELLED}`
abbrev pub is_stopped : CampaignStatus → Bool
is_stopped paused = true
is_stopped cancelled = true
is_stopped _ = false

-- `execution_token == token`, for a token that may be unset.
abbrev pub same_token : Option ℕ → ℕ → Bool
same_token none t = false
same_token (some s) t = s == t

-- What other transactions committed before the next read.
unfoldable pub refresh : Environment → Progress → Progress
refresh env p = record p { db = env.other p.reads p.db; reads = suc p.reads }

unfoldable pub heartbeat : ℕ → ℕ → Database → Database
heartbeat i now db = update_campaign i (λ c. record c { last_heartbeat_at = some now }) db

abbrev pub on_db : (Database → Database) → Progress → Progress
on_db f p = record p { db = f p.db }

-- The number in international form, empty if it cannot be used.
unfoldable pub address_of : PythonText → Contact → List ℕ
address_of py contact =
    normalize_whatsapp_phone py.is_digit contact.external_address
      (dial_lookup (py.upper (country_or_default contact.country_code)) country_dial)

unfoldable pub skip_row : ℕ → Campaign → CampaignRecipient → Progress → Progress
skip_row now campaign recipient p =
    on_db
      (λ db. heartbeat campaign.id now (
        update_recipient recipient.id
          (λ r. record r {
            status = RecipientStatus.skipped;
            error_message = some "Marketing opt-out";
            last_attempt_at = some now;
          })
          db))
      p

-- A recipient that Meta has already accepted.
unfoldable pub settle_row : ℕ → Campaign → CampaignRecipient → Progress → Progress
settle_row now campaign recipient p =
    record (on_db
      (λ db. heartbeat campaign.id now (
        update_recipient recipient.id
          (λ r. record r {
            status = RecipientStatus.sent;
            error_message = none;
            sending_started_at = none;
          })
          db))
      p) { sent = suc p.sent }

unfoldable pub mark_sending : ℕ → Campaign → CampaignRecipient → Progress → Progress
mark_sending now campaign recipient p =
    on_db
      (λ db. heartbeat campaign.id now (
        update_recipient recipient.id
          (λ r. record r {
            status = RecipientStatus.sending;
            sending_started_at = some now;
            last_attempt_at = some now;
            delivery_key = some (or_else recipient.delivery_key (campaign.id, recipient.id));
          })
          db))
      p

-- A failure that another attempt would not cure: the contact hears of it too.
unfoldable pub fail_row :
    PythonText → ℕ → CampaignRecipient → Contact → String → Progress → Progress
fail_row py now recipient contact message p =
    record (on_db
      (λ db. update_contact (record_delivery_failure py now (some message) contact) (
        update_recipient recipient.id
          (λ r. record r {
            status = RecipientStatus.failed;
            error_message = some message;
            sending_started_at = none;
          })
          db))
      p) { failed_count = suc p.failed_count }

unfoldable pub requeue_row : CampaignRecipient → String → Progress → Progress
requeue_row recipient message p =
    record (on_db
      (update_recipient recipient.id λ r. record r {
        status = RecipientStatus.queued;
        error_message = some message;
        sending_started_at = none;
      })
      p) { rate_limited = suc p.rate_limited }

-- The message id of an accepted call, recorded in the inbox if it is not empty.
unfoldable pub record_sent :
    Environment → Task → Campaign → Contact → List ℕ → Option String → ℕ → Database → Database
record_sent env task campaign contact to none n db = db
record_sent env task campaign contact to (some i) n db =
    record_campaign_outbound_message (env.now n) (env.fresh n) (env.fresh (suc n)) campaign contact
      task.wa to i RecipientStatus.sent db

unfoldable pub accept_row :
    Environment
    → Task
    → Campaign
    → CampaignRecipient
    → Contact
    → List ℕ
    → Option String
    → Progress
    → Progress
accept_row env task campaign recipient contact to message_id p =
    record (on_db
      (λ db. record_sent env task campaign contact to message_id p.reads (
        update_recipient recipient.id
          (λ r. record r {
            status = RecipientStatus.sent;
            error_message = none;
            external_message_id = message_id;
            sending_started_at = none;
          })
          db))
      p) { sent = suc p.sent }

unfoldable pub logged : Delivery → Progress → Progress
logged d p = record p { log = d ∷ p.log }

-- How the answer of the API is written down. An exception of another kind leaves the task with
-- what was committed, the recipient marked as being sent.
unfoldable pub take_reply :
    PythonText
    → Environment
    → Task
    → Campaign
    → CampaignRecipient
    → Contact
    → List ℕ
    → Progress
    → Reply
    → Progress × Option TaskStatus
take_reply py env task campaign recipient contact to p (accepted message_id) =
    (accept_row env task campaign recipient contact to message_id p, none)
take_reply py env task campaign recipient contact to p (transient message) =
    (requeue_row recipient (truncate 2000 message) p, none)
take_reply py env task campaign recipient contact to p (permanent message) =
    (fail_row py (env.now p.reads) recipient contact (truncate 2000 message) p, none)
take_reply py env task campaign recipient contact to p crashed = (p, some aborted)

-- The `try` block.
unfoldable pub attempt_row :
    PythonText
    → Environment
    → Task
    → Campaign
    → CampaignRecipient
    → Contact
    → Progress
    → Progress × Option TaskStatus
attempt_row py env task campaign recipient contact p =
    let to = address_of py contact in
    if is_empty to
    then (fail_row py (env.now p.reads) recipient contact "Invalid phone number" p, none)
    else take_reply py env task campaign recipient contact to
        (logged
          (record {
            campaign = campaign;
            recipient = recipient;
            contact = contact;
            to = to;
            queried = p.queried;
          })
          p)
        (env.reply p.reads)

-- The row once the campaign was read again.
unfoldable pub handle_row :
    PythonText
    → Environment
    → Task
    → Campaign
    → CampaignRecipient
    → Contact
    → Progress
    → Progress × Option TaskStatus
handle_row py env task campaign recipient contact p =
    let now = env.now p.reads in
    if not (same_token campaign.execution_token task.execution_token) || is_stopped campaign.status
    then (p, some (stopped campaign.status))
    else if not contact.marketing_opt_in
    then (skip_row now campaign recipient p, none)
    else if has_text recipient.external_message_id
    then (settle_row now campaign recipient p, none)
    else attempt_row py env task campaign recipient contact (mark_sending now campaign recipient p)

-- A campaign that is gone makes the refresh raise.
unfoldable pub refreshed_row :
    PythonText
    → Environment
    → Task
    → CampaignRecipient
    → Contact
    → Progress
    → Option Campaign
    → Progress × Option TaskStatus
refreshed_row py env task recipient contact p none = (p, some aborted)
refreshed_row py env task recipient contact p (some campaign) =
    handle_row py env task campaign recipient contact p

unfoldable pub process_row :
    PythonText
    → Environment
    → Task
    → CampaignRecipient
    → Contact
    → Progress
    → Progress × Option TaskStatus
process_row py env task recipient contact p =
    let q = refresh env p in
    refreshed_row py env task recipient contact q (get task.campaign_id q.db.campaigns)
