-- ===== src/Inbound/Live.antt =====
-- The conversations of a contact when messages come in (services/inbound_whatsapp.py).
use watesly.Base.{
  ℕ, ◌≤◌, ◌≡◌, refl, sym, ap, ◌∙◌, subst, inl, inr, Bool, ◌&&◌, Option, none, some, List, [], ◌∷◌,
  ◌++◌, select, first, count_where, count_where-append, count_where-update_where, arith, ◌==◌,
  Bool-cases, eq_of_==,
}
use watesly.Models.{Database, WhatsAppAccount, Conversation, Message}
use watesly.Assignments.Kept.{auto_assign_conversation-IsKept}
use watesly.Inbound.{
  Arrival, is_live_for, new_conversation, conversation_from, conversation_for, write_message,
}

-- No contact has two open or pending conversations on one channel.
abbrev pub HasOneLive : Database → Type 0
HasOneLive db = (k ch : ℕ) → count_where (is_live_for k ch) db.conversations ≤ 1

none_selected :
    {A : Type 0} (p : A → Bool) (xs : List A) → first (select p xs) ≡ none → count_where p xs ≡ 0
none_selected p [] h = refl
none_selected p (x ∷ xs) h = ground (arith, h, none_selected p xs)

module _ (arrival : Arrival) (wa : WhatsAppAccount) (contact_id : ℕ) where
  abbrev fresh : Conversation
  fresh = new_conversation arrival wa contact_id

  fresh_count :
      (k ch : ℕ) (xs : List Conversation)
      → count_where (is_live_for contact_id wa.channel_id) xs ≡ 0
      → count_where (is_live_for k ch) xs ≤ 1
      → count_where (is_live_for k ch) (xs ++ (fresh ∷ [])) ≤ 1
  fresh_count k ch xs nothing h = elim (Bool-cases (contact_id == k && wa.channel_id == ch)) [
    | inl same ↦
        let e : count_where (is_live_for k ch) xs ≡ 0 =
          ap (λ i. count_where (is_live_for i ch) xs)
            (sym (eq_of_== contact_id k (ground (arith, same))))
          ∙ ap (λ i. count_where (is_live_for contact_id i) xs)
              (sym (eq_of_== wa.channel_id ch (ground (arith, same))))
          ∙ nothing in
        ground (arith, e, same, count_where-append (is_live_for k ch) xs (fresh ∷ []))
    | inr other ↦ ground (arith, h, other, count_where-append (is_live_for k ch) xs (fresh ∷ []))
  ]

  conversation_from-HasOneLive :
      (o : Option Conversation) (db : Database)
      → first (select (is_live_for contact_id wa.channel_id) db.conversations) ≡ o
      → HasOneLive db
      → HasOneLive (conversation_from arrival wa contact_id o db).1
  conversation_from-HasOneLive (some c) db e h = h
  conversation_from-HasOneLive none db e h = λ k ch.
      let grown : Database = record db { conversations = db.conversations ++ (fresh ∷ []) } in
      subst (λ n. n ≤ 1)
        (sym (
          (auto_assign_conversation-IsKept fresh grown).same_counts (is_live_for k ch)
            (λ c m. refl)))
        (fresh_count k ch db.conversations
          (none_selected (is_live_for contact_id wa.channel_id) db.conversations e) (h k ch))

  pub conversation_for-HasOneLive :
      (db : Database) → HasOneLive db → HasOneLive (conversation_for arrival wa contact_id db).1
  unfolding conversation_for
  conversation_for-HasOneLive db h = conversation_from-HasOneLive _ db refl h

pub write_message-HasOneLive :
    (arrival : Arrival) (message : Message) (i : ℕ) (db : Database)
    → HasOneLive db
    → HasOneLive (write_message arrival message i db)
write_message-HasOneLive arrival message i db h = λ k ch.
    subst (λ n. n ≤ 1)
      (sym (
        count_where-update_where (is_live_for k ch) (λ c. c.id == i)
          (λ c. record c { last_message_at = some arrival.now }) (λ c. refl) db.conversations))
      (h k ch)
