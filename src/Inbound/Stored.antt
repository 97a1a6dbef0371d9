-- ===== src/Inbound/Stored.antt =====
-- What persist_inbound_message stores, and that it stores a message once
-- (services/inbound_whatsapp.py).
use watesly.Base.{
  ℕ, String, ◌≡◌, ◌⊎◌, refl, ap, ◌∙◌, inl, inr, true, false, not, Option, none, some, List, [], ◌∷◌,
  ◌++◌, is_empty, ok, Returns, ok-Returns, ensure-Returns, bind-Returns, Bool-cases,
}
use watesly.Models.{Database, Contact, WhatsAppAccount, Conversation}
use watesly.Phone.{normalize_whatsapp_phone, default_country_code}
use watesly.Assignments.Kept.{auto_assign_conversation-IsKept}
use watesly.Billing.Activity.Keys.{IsUnique}
use watesly.Billing.Activity.Laws.{record_activity-IsUnique}
use watesly.Inbound.{
  Arrival, InboundItem, Inbox, InboundMessageContext, find_duplicate_inbound, contact_from,
  contact_for, conversation_from, conversation_for, new_message, store_message,
  persist_inbound_message,
}
use watesly.Inbound.Live.{HasOneLive, conversation_for-HasOneLive, write_message-HasOneLive}

-- Making a contact changes no message and no conversation.
pub record SameTalk (db db' : Database) : Type 0 where
  pub same_messages : db'.messages ≡ db.messages
  pub same_conversations : db'.conversations ≡ db.conversations

same_talk :
    (db : Database) (contacts : List Contact) → SameTalk db (record db { contacts = contacts })
same_talk db contacts = record { same_messages = refl; same_conversations = refl }

contact_from-SameTalk :
    (arrival : Arrival) (wa : WhatsAppAccount) (address : List ℕ) (name : Option String)
    (o : Option Contact) (db : Database)
    → Returns
        (λ (out : Contact × Database). SameTalk db out.1)
        (contact_from arrival wa address name o db)
unfolding contact_from
contact_from-SameTalk arrival wa address name none db =
    search (ensure-Returns, ok-Returns, same_talk)
contact_from-SameTalk arrival wa address name (some c) db =
    search (ensure-Returns, ok-Returns, same_talk)

contact_for-SameTalk :
    (arrival : Arrival) (wa : WhatsAppAccount) (address : List ℕ) (name : Option String)
    (db : Database)
    → Returns
        (λ (out : Contact × Database). SameTalk db out.1)
        (contact_for arrival wa address name db)
unfolding contact_for
contact_for-SameTalk arrival wa address name db = contact_from-SameTalk arrival wa address name _ db

conversation_from-messages :
    (arrival : Arrival) (wa : WhatsAppAccount) (k : ℕ) (o : Option Conversation) (db : Database)
    → (conversation_from arrival wa k o db).1.messages ≡ db.messages
conversation_from-messages arrival wa k (some c) db = refl
conversation_from-messages arrival wa k none db =
    (auto_assign_conversation-IsKept _ _).same_messages

conversation_for-messages :
    (arrival : Arrival) (wa : WhatsAppAccount) (k : ℕ) (db : Database)
    → (conversation_for arrival wa k db).1.messages ≡ db.messages
unfolding conversation_for
conversation_for-messages arrival wa k db = conversation_from-messages arrival wa k _ db

pub record IsDuplicate (item : InboundItem) (s : Inbox) (out : Option InboundMessageContext × Inbox)
    : Type 0 where
  pub known : find_duplicate_inbound s.db item.id ≡ true
  pub unchanged : out ≡ (none, s)

-- A message was stored behind the others with its contact and conversation.
pub record IsStored (item : InboundItem) (s : Inbox) (out : Option InboundMessageContext × Inbox)
    : Type 0 where
  pub context : InboundMessageContext
  pub returned : out.0 ≡ some context
  pub new : find_duplicate_inbound s.db item.id ≡ false
  pub behind : out.1.db.messages ≡ s.db.messages ++ (context.message ∷ [])
  pub same_id : context.message.external_message_id ≡ item.id
  pub of_contact : context.message.contact_id ≡ some context.contact.id
  pub of_conversation : context.message.conversation_id ≡ some context.conversation.id
  pub keeps_one_live : HasOneLive s.db → HasOneLive out.1.db
  pub keeps_unique : IsUnique s.usage.contacts → IsUnique out.1.usage.contacts

module _ (arrival : Arrival) (wa : WhatsAppAccount) (item : InboundItem) (s : Inbox) where
  abbrev sender : List ℕ
  sender = normalize_whatsapp_phone arrival.is_digit item.sender default_country_code

  stored :
      (found : Contact × Database)
      → find_duplicate_inbound s.db item.id ≡ false
      → contact_for arrival wa sender item.contact_name s.db ≡ ok found
      → (let x : InboundMessageContext × Inbox =
            store_message arrival wa item found.0
              (conversation_for arrival wa found.0.id found.1)
              s.usage in
          IsStored item s (some x.0, x.1))
  stored found new made =
      let talk =
        (contact_for-SameTalk arrival wa sender item.contact_name s.db).returned found made in
      record {
        context =
            (store_message arrival wa item found.0 (conversation_for arrival wa found.0.id found.1)
              s.usage).0;
        returned = refl;
        new = new;
        behind =
            ap
              (λ ms.
                ms
                ++ (new_message arrival wa item found.0.id
                      (conversation_for arrival wa found.0.id found.1).0.id
                    ∷ []))
              (conversation_for-messages arrival wa found.0.id found.1 ∙ talk.same_messages);
        same_id = refl;
        of_contact = refl;
        of_conversation = refl;
        keeps_one_live = λ h.
            write_message-HasOneLive arrival
              (new_message arrival wa item found.0.id
                (conversation_for arrival wa found.0.id found.1).0.id)
              (conversation_for arrival wa found.0.id found.1).0.id
              (conversation_for arrival wa found.0.id found.1).1
              (conversation_for-HasOneLive arrival wa found.0.id found.1
                (rw (talk.same_conversations) h));
        keeps_unique = λ h. record_activity-IsUnique _ _ s.usage h;
      }

  -- The result of one arrival: a duplicate changes nothing, and anything else is stored.
  pub persist_inbound_message-cases :
      Returns
        (λ (out : Option InboundMessageContext × Inbox).
          IsDuplicate item s out ⊎ IsStored item s out)
        (persist_inbound_message arrival wa item s)
  unfolding persist_inbound_message
  persist_inbound_message-cases = elim (Bool-cases (find_duplicate_inbound s.db item.id)) [
    | inl duplicate ↦
        rw duplicate (ok-Returns _ _ (inl (record { known = duplicate; unchanged = refl })))
    | inr new ↦ rw new (
        ensure-Returns _ (not (is_empty sender)) _ _ (λ usable.
          bind-Returns _ (contact_for arrival wa sender item.contact_name s.db) _
            (λ found made. ok-Returns _ _ (inr (stored found new made)))))
  ]

module _ (arrival : Arrival) (wa : WhatsAppAccount) (item : InboundItem) (s : Inbox)
    (out : Option InboundMessageContext × Inbox)
    (h : persist_inbound_message arrival wa item s ≡ ok out) where
  abbrev c : IsDuplicate item s out ⊎ IsStored item s out
  c = (persist_inbound_message-cases arrival wa item s).returned out h

  -- Taking in a message keeps two invariants of the tables: no contact has two open or pending
  -- conversations on one channel, and no two rows of active contacts have one key.
  pub persist_inbound_message-keeps :
      HasOneLive s.db
      → IsUnique s.usage.contacts
      → HasOneLive out.1.db × IsUnique out.1.usage.contacts
  persist_inbound_message-keeps live unique = elim c [
    | inl duplicate ↦ rw (duplicate.unchanged) (live, unique)
    | inr k ↦ (k.keeps_one_live live, k.keeps_unique unique)
  ]
