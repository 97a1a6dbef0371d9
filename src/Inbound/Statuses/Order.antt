-- ===== src/Inbound/Statuses/Order.antt =====
-- The order of status reports (store_and_process_webhook of services/whatsapp.py).
use watesly.Base.{
  ℕ, String, ◌≡◌, refl, sym, ap, ◌∙◌, Bool, Option, none, some, List, [], ◌∷◌, select, first, get,
  update_where, arith, PythonText,
}
use watesly.Models.{Database, Message, MessageStatus, CampaignRecipient, Contact, contact_row}
use watesly.Inbound.{given, has_external_id}
use watesly.Inbound.Statuses.{
  StatusItem, reported, set_status, touch_conversation, update_message, message_from, learnt_by,
  recipient_from, update_recipient_status, with_status, status_for, apply_status,
}

module _ {A : Type 0} where
  update_where-none :
      (p : A → Bool) (f : A → A) (xs : List A)
      → first (select p xs) ≡ none
      → update_where p f xs ≡ xs
  update_where-none p f [] h = refl
  update_where-none p f (x ∷ xs) h = ground (arith, h, update_where-none p f xs)

  -- Of two updates of the same rows the second stays, if it undoes the first.
  update_where_twice :
      (p : A → Bool) (f g : A → A) (keeps : (x : A) → p (f x) ≡ p x)
      (undoes : (x : A) → g (f x) ≡ g x) (xs : List A)
      → update_where p g (update_where p f xs) ≡ update_where p g xs
  update_where_twice p f g keeps undoes [] = refl
  update_where_twice p f g keeps undoes (x ∷ xs) =
      ground (arith, keeps x, undoes x, update_where_twice p f g keeps undoes xs)

touch_conversation-messages :
    (now : ℕ) (i : Option ℕ) (db : Database) → (touch_conversation now i db).messages ≡ db.messages
touch_conversation-messages now none db = refl
touch_conversation-messages now (some i) db = refl

message_from-messages :
    (now : ℕ) (e : String) (status : Option String) (o : Option Message) (db : Database)
    → first (select (has_external_id e) db.messages) ≡ o
    → (message_from now e status o db).messages
      ≡ update_where (has_external_id e) (set_status status) db.messages
message_from-messages now e status none db missing =
    sym (update_where-none (has_external_id e) (set_status status) db.messages missing)
message_from-messages now e status (some m) db there =
    touch_conversation-messages now m.conversation_id _

update_message-messages :
    (now : ℕ) (e : String) (status : Option String) (db : Database)
    → (update_message now e status db).messages
      ≡ update_where (has_external_id e) (set_status status) db.messages
unfolding update_message
update_message-messages now e status db = message_from-messages now e status _ db refl

learnt_by-messages :
    (f : Contact → Contact) (o : Option Contact) (db : Database)
    → (learnt_by f o db).messages ≡ db.messages
learnt_by-messages f none db = refl
learnt_by-messages f (some c) db = refl

recipient_from-messages :
    (py : PythonText) (now : ℕ) (t : String) (detail : Option String) (o : Option CampaignRecipient)
    (db : Database)
    → (recipient_from py now t detail o db).messages ≡ db.messages
recipient_from-messages py now t detail none db = refl
recipient_from-messages py now t detail (some r) db =
    learnt_by-messages _ (get r.contact_id db.contacts) _

update_recipient_status-messages :
    (py : PythonText) (now : ℕ) (e t : String) (detail : Option String) (db : Database)
    → (update_recipient_status py now e t detail db).messages ≡ db.messages
unfolding update_recipient_status
update_recipient_status-messages py now e t detail db = recipient_from-messages py now t detail _ db

with_status-messages :
    (py : PythonText) (now : ℕ) (e : String) (o detail : Option String) (db : Database)
    → (with_status py now e o detail db).messages ≡ db.messages
with_status-messages py now e none detail db = refl
with_status-messages py now e (some t) detail db =
    update_recipient_status-messages py now e t detail db

pub apply_status-messages :
    (py : PythonText) (now : ℕ) (item : StatusItem) (e : String) (db : Database)
    → given item.id ≡ some e
    → (apply_status py now item db).messages
      ≡ update_where (has_external_id e) (set_status item.status) db.messages
unfolding apply_status
apply_status-messages py now item e db named =
    ap (λ o. (status_for py now item o db).messages) named
    ∙ with_status-messages py now e (given item.status) item.detail
        (update_message now e item.status db)
    ∙ update_message-messages now e item.status db

has_id-set_status :
    (e : String) (status : Option String) (m : Message)
    → has_external_id e (set_status status m) ≡ has_external_id e m
has_id-set_status e status m = refl

set_status-undoes :
    (a b : Option String) (st : MessageStatus) (m : Message)
    → reported b ≡ some st
    → set_status b (set_status a m) ≡ set_status b m
set_status-undoes a b st m known = rw known refl

-- The last report wins: when a report with a known status follows another one for the same message,
-- the messages are as if the first had not come, whichever statuses the two have and whenever they
-- come.
pub apply_status-last_wins :
    (py : PythonText) (now later : ℕ) (a b : StatusItem) (e : String) (st : MessageStatus)
    (db : Database)
    → given a.id ≡ some e
    → given b.id ≡ some e
    → reported b.status ≡ some st
    → (apply_status py later b (apply_status py now a db)).messages
      ≡ (apply_status py later b db).messages
apply_status-last_wins py now later a b e st db first_id second_id known =
    apply_status-messages py later b e (apply_status py now a db) second_id
    ∙ ap (update_where (has_external_id e) (set_status b.status))
        (apply_status-messages py now a e db first_id)
    ∙ update_where_twice (has_external_id e) (set_status a.status) (set_status b.status)
        (has_id-set_status e a.status) (λ m. set_status-undoes a.status b.status st m known)
        db.messages
    ∙ sym (apply_status-messages py later b e db second_id)
