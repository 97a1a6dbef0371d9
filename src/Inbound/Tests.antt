-- ===== src/Inbound/Tests.antt =====
-- Messages of a contact on concrete inputs.
use watesly.Phone.{phones_match, international, localize, normalize_whatsapp_phone}
use watesly.Base.{◌≡◌, refl, none, some, [], ◌∷◌, err, codes, arith, integrity_conflict}
use watesly.Models.{DateTime}
use watesly.Fixtures.{sample, north_account, willing, ascii_digit}
use watesly.Billing.Activity.Keys.{IsUnique}
use watesly.Inbound.{
  find_contact, contact_from, contact_for, find_duplicate_inbound, Arrival, InboundItem, Inbox,
  inbox_after, persist_inbound_message, receive,
}
use watesly.Inbound.Live.{HasOneLive}
use watesly.Inbound.Stored.{persist_inbound_message-keeps}
use watesly.Inbound.Batch.{receive-again}

abbrev noon : DateTime
noon = record { year = 2025; month = 5; day = 4; time = 9 }

abbrev arrival : Arrival
arrival = record {
  is_digit = ascii_digit;
  now = 500;
  today = noon;
  subscriptions = [];
  plans = [];
  contact_id = 91;
  conversation_id = 92;
  message_id = 93;
  mac_id = 94;
  audit_id = 95;
}

abbrev hello : InboundItem
hello = record { id = some "wamid.7"; sender = codes "96555501234"; contact_name = none }

abbrev inbox : Inbox
inbox = record { db = sample; usage = record { contacts = []; audits = [] } }

-- A contact that was deleted and writes again meets the unique constraint, and its message is lost.
abbrev without_contact : Inbox
without_contact = record inbox {
  db = record sample {
    contacts =
        record willing { external_address = codes "96555501234"; deleted_at = some 400 } ∷ [];
  };
}

deleted_contact_writes :
    persist_inbound_message arrival north_account hello without_contact ≡ err integrity_conflict
unfolding persist_inbound_message find_duplicate_inbound normalize_whatsapp_phone localize
    international contact_for contact_from find_contact
deleted_contact_writes = refl

no_conversations : HasOneLive sample
no_conversations k ch = omega arith

persist_inbound_message-keeps_example :
    (let out = inbox_after inbox (persist_inbound_message arrival north_account hello inbox) in
      HasOneLive out.db × IsUnique out.usage.contacts)
unfolding persist_inbound_message find_duplicate_inbound normalize_whatsapp_phone localize
    international contact_for contact_from find_contact phones_match
persist_inbound_message-keeps_example =
    persist_inbound_message-keeps arrival north_account hello inbox _ refl no_conversations tt

receive-again_example :
    receive
      (λ n. arrival)
      north_account
      (hello ∷ [])
      0
      (receive (λ n. arrival) north_account (hello ∷ []) 0 inbox).inbox
    ≡ record {
      processed_count = 0;
      processing_errors = [];
      inbox = (receive (λ n. arrival) north_account (hello ∷ []) 0 inbox).inbox;
    }
unfolding receive persist_inbound_message find_duplicate_inbound normalize_whatsapp_phone localize
    international contact_for contact_from find_contact phones_match
receive-again_example =
    receive-again (λ n. arrival) (λ n. arrival) north_account north_account (hello ∷ []) 0 0 inbox
      (refl, tt) refl
