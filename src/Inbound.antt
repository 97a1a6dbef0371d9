-- ===== src/Inbound.antt =====
-- Taking in a message of a contact: `persist_inbound_message` of services/inbound_whatsapp.py, with
-- the contact found by find_contact_on_channel_by_phone of contacts.py. The text, the media and the
-- notification of a new conversation are left out; the request is taken to run alone, so that a
-- conflict of a unique constraint, which is tried a second time, is met again.
pub mod Stored
pub mod Live
pub mod Batch
pub mod Statuses
mod Tests
use watesly.Base.{
  ℕ, suc, String, Bool, true, false, not, ◌&&◌, ◌||◌, Option, none, some, List, [], ◌∷◌, ◌++◌,
  select, any, first, is_empty, put, Error, update_where, invalid_sender, integrity_conflict,
  Result, ok, err, ensure, bind, ◌==◌, if◌then◌else◌, is_some, codes, same_text,
}
use watesly.Models.{
  Database, Contact, contact_row, WhatsAppAccount, Conversation, open_status, is_live, Message,
  MessageStatus, inbound, Plan, Subscription, DateTime, MacTriggerSource,
}
use watesly.Phone.{normalize_whatsapp_phone, phones_match, default_country_code, eq_text}
use watesly.Assignments.{auto_assign_conversation}
use watesly.Billing.Activity.{Usage, Context, Activity, of_trigger, record_activity}

-- The clock (once as a number, once as a date), what billing reads, and the identifiers of new rows.
pub record Arrival : Type 0 where
  pub is_digit : ℕ → Bool
  pub now : ℕ
  pub today : DateTime
  pub subscriptions : List Subscription
  pub plans : List Plan
  pub contact_id : ℕ
  pub conversation_id : ℕ
  pub message_id : ℕ
  pub mac_id : ℕ
  pub audit_id : ℕ

-- The item of a webhook, and the name of the profile that comes with it.
pub record InboundItem : Type 0 where
  pub id : Option String
  pub sender : List ℕ
  pub contact_name : Option String

pub record Inbox : Type 0 where
  pub db : Database
  pub usage : Usage

-- A text that is neither missing nor empty.
abbrev pub given : Option String → Option String
given none = none
given (some t) = if is_empty (codes t) then none else some t

abbrev pub has_external_id : String → Message → Bool
has_external_id e m = elim m.external_message_id [ none ↦ false | some t ↦ same_text t e ]

abbrev pub stored_before : Option String → List Message → Bool
stored_before none messages = false
stored_before (some e) messages = any (has_external_id e) messages

unfoldable pub find_duplicate_inbound : Database → Option String → Bool
find_duplicate_inbound db external_id = stored_before (given external_id) db.messages

abbrev pub on_channel : WhatsAppAccount → Contact → Bool
on_channel wa c =
    c.organization_id == wa.organization_id
    && c.channel_id == wa.channel_id
    && not (is_some c.deleted_at)

-- `find_contact_on_channel_by_phone` for an address in the normal form of the default country.
unfoldable pub find_contact : (ℕ → Bool) → WhatsAppAccount → List ℕ → List Contact → Option Contact
find_contact is_digit wa address contacts = first (
    select (λ c. phones_match is_digit c.external_address address default_country_code)
      (select (on_channel wa) contacts))

abbrev pub new_contact : Arrival → WhatsAppAccount → List ℕ → Option String → Contact
new_contact arrival wa address name = record {
  id = arrival.contact_id;
  account_id = wa.account_id;
  organization_id = wa.organization_id;
  channel_id = wa.channel_id;
  external_address = address;
  display_name = name;
  country_code = none;
  marketing_opt_in = true;
  reachability_status = none;
  reachability_reason = none;
  delivery_failure_count = 0;
  last_delivery_failure_at = none;
  last_inbound_at = none;
  deleted_at = none;
}

-- A known contact gets a name if it has none, or else the address in its normal form.
abbrev pub refreshed : List ℕ → Option String → Contact → Contact
refreshed address name c =
    if is_some (given name) && not (is_some (given c.display_name))
    then record c { display_name = name }
    else if not (eq_text c.external_address address)
    then record c { external_address = address }
    else c

-- `uq_contacts_org_channel_address`, which deleted contacts take part in.
abbrev pub has_address : WhatsAppAccount → List ℕ → Contact → Bool
has_address wa address c =
    c.organization_id == wa.organization_id
    && c.channel_id == wa.channel_id
    && eq_text c.external_address address

unfoldable pub contact_from :
    Arrival
    → WhatsAppAccount
    → List ℕ
    → Option String
    → Option Contact
    → Database
    → Result (Contact × Database)
contact_from arrival wa address name none db =
    ensure (not (any (has_address wa address) db.contacts)) integrity_conflict (
      ok (
        new_contact arrival wa address name,
        record db { contacts = db.contacts ++ (new_contact arrival wa address name ∷ []) },
      ))
contact_from arrival wa address name (some c) db =
    ensure
      (eq_text (refreshed address name c).external_address c.external_address
        || not (any (has_address wa address) db.contacts))
      integrity_conflict
      (ok (
        refreshed address name c,
        record db { contacts = put (refreshed address name c) db.contacts },
      ))

unfoldable pub contact_for :
    Arrival → WhatsAppAccount → List ℕ → Option String → Database → Result (Contact × Database)
contact_for arrival wa address name db =
    contact_from arrival wa address name (find_contact arrival.is_digit wa address db.contacts) db

abbrev pub is_live_for : ℕ → ℕ → Conversation → Bool
is_live_for contact_id channel_id c =
    c.contact_id == contact_id
    && c.channel_id == channel_id
    && not (is_some c.deleted_at)
    && is_live c.status

abbrev pub new_conversation : Arrival → WhatsAppAccount → ℕ → Conversation
new_conversation arrival wa contact_id = record {
  id = arrival.conversation_id;
  account_id = wa.account_id;
  organization_id = wa.organization_id;
  channel_id = wa.channel_id;
  contact_id = contact_id;
  assigned_membership_id = none;
  status = open_status;
  last_message_at = none;
  deleted_at = none;
}

-- The open or pending conversation; a new one is assigned to a member.
abbrev pub conversation_from :
    Arrival → WhatsAppAccount → ℕ → Option Conversation → Database → Conversation × Database
conversation_from arrival wa contact_id (some c) db = (c, db)
conversation_from arrival wa contact_id none db =
    let c : Conversation = new_conversation arrival wa contact_id in
    (c, (auto_assign_conversation c (record db { conversations = db.conversations ++ (c ∷ []) })).1)

unfoldable pub conversation_for : Arrival → WhatsAppAccount → ℕ → Database → Conversation × Database
conversation_for arrival wa contact_id db =
    conversation_from arrival wa contact_id
      (first (select (is_live_for contact_id wa.channel_id) db.conversations)) db

abbrev pub new_message : Arrival → WhatsAppAccount → InboundItem → ℕ → ℕ → Message
new_message arrival wa item contact_id conversation_id = record {
  id = arrival.message_id;
  account_id = wa.account_id;
  organization_id = wa.organization_id;
  channel_id = wa.channel_id;
  contact_id = some contact_id;
  conversation_id = some conversation_id;
  external_message_id = item.id;
  direction = inbound;
  to_address = wa.display_phone_number;
  status = MessageStatus.received;
}

abbrev pub inbound_activity : Arrival → WhatsAppAccount → InboundItem → Contact → Activity
inbound_activity arrival wa item contact = record {
  account_id = wa.account_id;
  contact_id = some contact.id;
  channel_id = wa.channel_id;
  activity_type = of_trigger MacTriggerSource.inbound;
  activity_at = none;
  organization_id = some contact.organization_id;
  source_event_id = item.id;
  new_mac_id = arrival.mac_id;
  new_audit_id = arrival.audit_id;
}

abbrev pub billing_context : Arrival → Database → Context
billing_context arrival db = record {
  db = db;
  subscriptions = arrival.subscriptions;
  plans = arrival.plans;
  now = arrival.today;
}

abbrev pub write_message : Arrival → Message → ℕ → Database → Database
write_message arrival message conversation_id db = record db {
  messages = db.messages ++ (message ∷ []);
  conversations =
      update_where (λ c. c.id == conversation_id)
        (λ c. record c { last_message_at = some arrival.now }) db.conversations;
}

-- What a stored message comes with.
pub record InboundMessageContext : Type 0 where
  pub contact : Contact
  pub conversation : Conversation
  pub message : Message

abbrev pub store_message :
    Arrival
    → WhatsAppAccount
    → InboundItem
    → Contact
    → Conversation × Database
    → Usage
    → InboundMessageContext × Inbox
store_message arrival wa item contact (conversation, db) usage =
    let message : Message = new_message arrival wa item contact.id conversation.id in
    let written : Database = write_message arrival message conversation.id db in
    (
      record { contact = contact; conversation = conversation; message = message },
      record {
        db = written;
        usage =
            (record_activity (billing_context arrival written)
              (inbound_activity arrival wa item contact) usage).1;
      },
    )

unfoldable pub persist_inbound_message :
    Arrival → WhatsAppAccount → InboundItem → Inbox → Result (Option InboundMessageContext × Inbox)
persist_inbound_message arrival wa item s =
    let sender : List ℕ =
      normalize_whatsapp_phone arrival.is_digit item.sender default_country_code in
    if find_duplicate_inbound s.db item.id
    then ok (none, s)
    else ensure (not (is_empty sender)) invalid_sender (
        bind (contact_for arrival wa sender item.contact_name s.db) λ found.
          let stored : InboundMessageContext × Inbox =
            store_message arrival wa item found.0 (conversation_for arrival wa found.0.id found.1)
              s.usage in
          ok (some stored.0, stored.1))

-- What a batch has come to: the messages stored, the errors that were met, and the tables.
pub record Received : Type 0 where
  pub processed_count : ℕ
  pub processing_errors : List Error
  pub inbox : Inbox

-- The tables after one item: those before it, if it raised an error.
abbrev pub inbox_after : Inbox → Result (Option InboundMessageContext × Inbox) → Inbox
inbox_after s (err e) = s
inbox_after s (ok (context, s')) = s'

abbrev pub tally : Result (Option InboundMessageContext × Inbox) → Received → Received
tally (err e) rest = record rest { processing_errors = e ∷ rest.processing_errors }
tally (ok (none, s')) rest = rest
tally (ok (some context, s')) rest = record rest { processed_count = suc rest.processed_count }

-- The loop over `value["messages"]` in store_and_process_webhook of whatsapp.py, without the side
-- effects of a stored message: an error of one item is noted, and the loop goes on.
unfoldable pub receive : (ℕ → Arrival) → WhatsAppAccount → List InboundItem → ℕ → Inbox → Received
receive arrivals wa [] n s = record { processed_count = 0; processing_errors = []; inbox = s }
receive arrivals wa (item ∷ items) n s =
    let r : Result (Option InboundMessageContext × Inbox) =
      persist_inbound_message (arrivals n) wa item s in
    tally r (receive arrivals wa items (suc n) (inbox_after s r))
