-- ===== src/Inbound/Statuses.antt =====
-- The statuses of sent messages that Meta reports: the branch for `message_status` of
-- store_and_process_webhook in services/whatsapp.py. Realtime events and the stored payload of the
-- provider are left out; `detail` is the title, the message or the code of the first error.
pub mod Order
mod Tests
use watesly.Base.{
  ℕ, suc, String, Bool, true, false, ◌||◌, Option, none, some, List, [], ◌∷◌, select, first, get,
  put, update_where, is_some, codes, truncate, or_else, ◌==◌, if◌then◌else◌, same_text, PythonText,
}
use watesly.Models.{
  Database, Message, MessageStatus, Conversation, CampaignRecipient, recipient_row, RecipientStatus,
  Contact, contact_row,
}
use watesly.Reachability.{record_delivery_failure, record_delivery_success}
use watesly.Inbound.{given, has_external_id}

pub record StatusItem : Type 0 where
  pub id : Option String
  pub status : Option String
  pub detail : Option String

-- `MessageStatus(value)`
abbrev pub message_status_of : String → Option MessageStatus
message_status_of t =
    if same_text t "received"
    then some MessageStatus.received
    else if same_text t "queued"
    then some MessageStatus.queued
    else if same_text t "sent"
    then some MessageStatus.sent
    else if same_text t "delivered"
    then some MessageStatus.delivered
    else if same_text t "read"
    then some MessageStatus.read
    else if same_text t "failed"
    then some MessageStatus.failed
    else none

-- `CampaignRecipientStatus(value)`
abbrev pub recipient_status_of : String → Option RecipientStatus
recipient_status_of t =
    if same_text t "pending"
    then some RecipientStatus.pending
    else if same_text t "queued"
    then some RecipientStatus.queued
    else if same_text t "sending"
    then some RecipientStatus.sending
    else if same_text t "sent"
    then some RecipientStatus.sent
    else if same_text t "delivered"
    then some RecipientStatus.delivered
    else if same_text t "read"
    then some RecipientStatus.read
    else if same_text t "failed"
    then some RecipientStatus.failed
    else if same_text t "skipped"
    then some RecipientStatus.skipped
    else none

abbrev pub reported : Option String → Option MessageStatus
reported none = none
reported (some t) = message_status_of t

abbrev pub set_status : Option String → Message → Message
set_status status m = record m { status = or_else (reported status) m.status }

abbrev pub touch_conversation : ℕ → Option ℕ → Database → Database
touch_conversation now none db = db
touch_conversation now (some i) db = record db {
  conversations =
      update_where (λ c. c.id == i) (λ c. record c { last_message_at = some now }) db.conversations;
}

-- The message that was found takes the status over, if it is a known one.
abbrev pub message_from : ℕ → String → Option String → Option Message → Database → Database
message_from now external status none db = db
message_from now external status (some m) db = touch_conversation now m.conversation_id (record db {
  messages = update_where (has_external_id external) (set_status status) db.messages;
})

unfoldable pub update_message : ℕ → String → Option String → Database → Database
update_message now external status db =
    message_from now external status (first (select (has_external_id external) db.messages)) db

abbrev pub sent_as : String → CampaignRecipient → Bool
sent_as e r = elim r.external_message_id [ none ↦ false | some t ↦ same_text t e ]

abbrev pub is_failure : String → Bool
is_failure t = same_text t "failed"

abbrev pub is_arrival : String → Bool
is_arrival t = same_text t "delivered" || same_text t "read"

-- The recipient's row for a status that is given.
abbrev pub settled : String → Option String → CampaignRecipient → CampaignRecipient
settled t detail r = record r {
  status = or_else (recipient_status_of t) r.status;
  error_message =
      if is_failure t
      then elim (given detail) [ none ↦ r.error_message | some d ↦ some (truncate 2000 d) ]
      else r.error_message;
}

-- What the contact of the recipient learns.
unfoldable pub learn : PythonText → ℕ → String → Option String → Contact → Contact
learn py now t error c =
    if is_failure t
    then record_delivery_failure py now error c
    else if is_arrival t
    then record_delivery_success c
    else c

abbrev pub learnt_by : (Contact → Contact) → Option Contact → Database → Database
learnt_by f none db = db
learnt_by f (some c) db = record db { contacts = put (f c) db.contacts }

abbrev pub recipient_from :
    PythonText → ℕ → String → Option String → Option CampaignRecipient → Database → Database
recipient_from py now t detail none db = db
recipient_from py now t detail (some r) db =
    learnt_by (learn py now t (settled t detail r).error_message) (get r.contact_id db.contacts)
      (record db { recipients = put (settled t detail r) db.recipients })

unfoldable pub update_recipient_status :
    PythonText → ℕ → String → String → Option String → Database → Database
update_recipient_status py now external t detail db =
    recipient_from py now t detail (first (select (sent_as external) db.recipients)) db

abbrev pub with_status :
    PythonText → ℕ → String → Option String → Option String → Database → Database
with_status py now external none detail db = db
with_status py now external (some t) detail db = update_recipient_status py now external t detail db

abbrev pub status_for : PythonText → ℕ → StatusItem → Option String → Database → Database
status_for py now item none db = db
status_for py now item (some external) db =
    with_status py now external (given item.status) item.detail
      (update_message now external item.status db)

-- One item of `value["statuses"]`.
unfoldable pub apply_status : PythonText → ℕ → StatusItem → Database → Database
apply_status py now item db = status_for py now item (given item.id) db

abbrev pub is_found : Option String → Database → Bool
is_found none db = false
is_found (some external) db =
    is_some (first (select (has_external_id external) db.messages))
    || is_some (first (select (sent_as external) db.recipients))

-- `value["statuses"]`: the tables, and how many items were for a message or a recipient.
unfoldable pub apply_statuses : PythonText → ℕ → List StatusItem → Database → ℕ × Database
apply_statuses py now [] db = (0, db)
apply_statuses py now (item ∷ items) db =
    let rest = apply_statuses py now items (apply_status py now item db) in
    (if is_found (given item.id) db then suc rest.0 else rest.0, rest.1)
