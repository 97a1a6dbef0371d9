-- ===== src/Worker.antt =====
-- The task that sends a campaign (backend/app/workers/campaign_tasks.py), with the inbox record of
-- a sent message (record_campaign_outbound_message of backend/app/services/campaigns.py). Between
-- two reads of the campaign other transactions may commit anything: they, the clock, the new ids
-- and the answers of the Meta API are given by an `Environment`, at the number of reads so far. So
-- are the rows that other transactions have `locked` when a batch is read, and the objects that the
-- session has `held` for rows which it had loaded before and does not load again.
-- Sleeps, the realtime notice and the text of the message are left out.
pub mod Row
pub mod Loop
pub mod Offers
pub mod Safety
pub mod Ends
mod Tests
use text.Mathlib.Text.{◌==◌ as str_eq}
use watesly.Base.{
  ℕ, zero, suc, ◌-◌, String, Bool, true, false, not, ◌&&◌, ◌||◌, Option, none, some, List, [], ◌∷◌,
  ◌++◌, select, take, first, is_empty, get, update_where, ltb, ◌==◌, if◌then◌else◌, is_some,
  is_value, codes, truncate, or_else, PythonText, String,
}
use watesly.Models.{
  Database, Campaign, CampaignStatus, paused, cancelled, failed, running, completed,
  completed_with_errors, CampaignRecipient, RecipientStatus, Contact, Message, MessageStatus,
  outbound, Conversation, ConversationStatus, open_status, is_live, WhatsAppAccount, campaign_row,
  contact_row, whatsapp_account_row, template_row,
}
use watesly.Phone.{default_country_code, normalize_whatsapp_phone}
use watesly.Reachability.{record_delivery_failure, country_or_default, dial_lookup, country_dial}

-- How a call of the Meta API ends: accepted with a message id or without one, refused for the
-- moment (status 429, 500, 502, 503 or 504), refused for good, or with any other exception.
pub data Reply : Type 0 where
  accepted : Option String → Reply
  transient permanent : String → Reply
  crashed : Reply

pub record Environment : Type 0 where
  pub other : ℕ → Database → Database
  pub now : ℕ → ℕ
  pub reply : ℕ → Reply
  pub fresh : ℕ → ℕ
  pub locked : ℕ → CampaignRecipient × Contact → Bool
  pub held : ℕ → CampaignRecipient × Contact → CampaignRecipient × Contact

-- One call of `client.send_template`, with what the task had read, and the database that the query
-- of the batch saw.
pub record Delivery : Type 0 where
  pub campaign : Campaign
  pub recipient : CampaignRecipient
  pub contact : Contact
  pub to : List ℕ
  pub queried : Database

-- The session's database, the one that the last batch was read from, and the variables of the loop.
pub record Progress : Type 0 where
  pub db : Database
  pub queried : Database
  pub reads : ℕ
  pub sent : ℕ
  pub failed_count : ℕ
  pub rate_limited : ℕ
  pub log : List Delivery

-- The `status` of the dictionary that the task returns.
pub data TaskStatus : Type 0 where
  not_found stale_task blocked cancelled_task missing_configuration superseded : TaskStatus
  stopped finished : CampaignStatus → TaskStatus
  aborted : TaskStatus

-- `if text:`
abbrev pub has_text : Option String → Bool
has_text none = false
has_text (some s) = not (is_empty (codes s))

-- What the task's arguments and first queries give it.
pub record Task : Type 0 where
  pub campaign_id : ℕ
  pub execution_token : ℕ
  pub batch_size : ℕ
  pub wa : WhatsAppAccount

unfoldable pub update_campaign : ℕ → (Campaign → Campaign) → Database → Database
update_campaign i f db = record db { campaigns = update_where (λ c. c.id == i) f db.campaigns }

unfoldable pub update_recipient : ℕ → (CampaignRecipient → CampaignRecipient) → Database → Database
update_recipient i f db = record db { recipients = update_where (λ r. r.id == i) f db.recipients }

-- A flush writes the columns that a failure changed.
unfoldable pub update_contact : Contact → Database → Database
update_contact contact db = record db {
  contacts =
      update_where (λ c. c.id == contact.id)
        (λ c. record c {
          delivery_failure_count = contact.delivery_failure_count;
          last_delivery_failure_at = contact.last_delivery_failure_at;
          reachability_reason = contact.reachability_reason;
          reachability_status = contact.reachability_status;
        })
        db.contacts;
}

-- `_RECIPIENT_TO_MESSAGE_STATUS`
unfoldable pub message_status : RecipientStatus → Option MessageStatus
message_status RecipientStatus.sent = some MessageStatus.sent
message_status RecipientStatus.delivered = some MessageStatus.delivered
message_status RecipientStatus.read = some MessageStatus.read
message_status RecipientStatus.failed = some MessageStatus.failed
message_status _ = none

same_text : Option String → String → Bool
same_text none s = false
same_text (some t) s = str_eq t s

-- The open or pending conversation of the contact on the channel.
live_conversation : Database → ℕ → ℕ → Option Conversation
live_conversation db contact_id channel_id = first (
    select
      (λ c.
        c.contact_id == contact_id
        && c.channel_id == channel_id
        && not (is_some c.deleted_at)
        && is_live c.status)
      db.conversations)

-- The conversation to write to; a new one stands at the end of the table.
with_conversation : ℕ → Campaign → Contact → WhatsAppAccount → Database → Conversation × Database
with_conversation conversation_id campaign contact wa db =
    elim (live_conversation db contact.id wa.channel_id) [
      | some c ↦ (c, db)
      | none ↦
          let c : Conversation = record {
            id = conversation_id;
            account_id = campaign.account_id;
            organization_id = campaign.organization_id;
            channel_id = wa.channel_id;
            contact_id = contact.id;
            assigned_membership_id = none;
            status = open_status;
            last_message_at = none;
            deleted_at = none;
          } in
          (c, record db { conversations = db.conversations ++ c ∷ [] })
    ]

-- `record_campaign_outbound_message` with the recipient status that it is given. An existing
-- message with the id only takes the status over.
pub record_campaign_outbound_message :
    ℕ
    → ℕ
    → ℕ
    → Campaign
    → Contact
    → WhatsAppAccount
    → List ℕ
    → String
    → RecipientStatus
    → Database
    → Database
record_campaign_outbound_message now message_id conversation_id campaign contact wa to external
      status db =
    if is_empty (codes external)
    then db
    else if is_some (first (select (λ m. same_text m.external_message_id external) db.messages))
    then record db {
      messages =
          update_where (λ m. same_text m.external_message_id external)
            (λ m. record m { status = or_else (message_status status) m.status }) db.messages;
    }
    else let (conversation, db') = with_conversation conversation_id campaign contact wa db in
      record db' {
        messages =
            db'.messages
            ++ record {
              id = message_id;
              account_id = campaign.account_id;
              organization_id = campaign.organization_id;
              channel_id = wa.channel_id;
              contact_id = some contact.id;
              conversation_id = some conversation.id;
              external_message_id = some external;
              direction = outbound;
              to_address = to;
              status = or_else (message_status status) MessageStatus.sent;
            }
              ∷ [];
        conversations =
            update_where (λ c. c.id == conversation.id)
              (λ c. record c { last_message_at = some now }) db'.conversations;
      }
