-- ===== src/Inbound/Batch.antt =====
-- A batch of messages that is delivered again (store_and_process_webhook of services/whatsapp.py).
use watesly.Base.{
  ℕ, suc, String, ◌≡◌, refl, sym, ap, ◌∙◌, subst, inl, inr, true, false, Option, none, some, List,
  [], ◌∷◌, ◌++◌, All, is_some, codes, Result, ok, err, arith, same_text, same_text_refl,
  Result-cases, Option-cases, Bool-cases, is_empty,
}
use watesly.Models.{WhatsAppAccount, Message}
use watesly.Billing.Activity.Keys.{any-append}
use watesly.Inbound.{
  Arrival, InboundItem, Inbox, InboundMessageContext, Received, given, has_external_id,
  stored_before, find_duplicate_inbound, persist_inbound_message, receive, tally, inbox_after,
}
use watesly.Inbound.Stored.{persist_inbound_message-cases}

-- The message of an item is there.
abbrev pub IsKnown : Inbox → InboundItem → Type 0
IsKnown s item = find_duplicate_inbound s.db item.id ≡ true

known_later :
    (e : Option String) (xs ys : List Message)
    → stored_before e xs ≡ true
    → stored_before e (xs ++ ys) ≡ true
known_later none xs ys h = cc
known_later (some e) xs ys h = ground (arith, h, any-append (has_external_id e) xs ys)

given_eq : (t e : String) → given (some t) ≡ some e → t ≡ e
given_eq t e h = elim (Bool-cases (is_empty (codes t))) [
  | inl empty ↦ absurd (ground (arith, empty, h))
  | inr full ↦ ground (arith, full, h)
]

has_id :
    (e t : String) (o : Option String)
    → o ≡ some t
    → t ≡ e
    → (elim o [ none ↦ false | some u ↦ same_text u e ]) ≡ true
has_id e t none h k = cc
has_id e t (some u) h k = ap (λ x. same_text x e) (ground (arith, h, k)) ∙ same_text_refl e

known_now :
    (id : Option String) (e : String) (m : Message) (xs : List Message)
    → given id ≡ some e
    → m.external_message_id ≡ id
    → stored_before (given id) (xs ++ (m ∷ [])) ≡ true
known_now none e m xs named same = cc
known_now (some t) e m xs named same =
    subst (λ o. stored_before o (xs ++ (m ∷ [])) ≡ true) (sym named)
      (any-append (has_external_id e) xs (m ∷ [])
        ∙ ground (arith, has_id e t m.external_message_id same (given_eq t e named)))

module _ (arrival : Arrival) (wa : WhatsAppAccount) (item : InboundItem) (s : Inbox)
    (out : Option InboundMessageContext × Inbox)
    (h : persist_inbound_message arrival wa item s ≡ ok out) where
  -- What is there stays there.
  persist-IsKnown : (other : InboundItem) → IsKnown s other → IsKnown out.1 other
  unfolding find_duplicate_inbound
  persist-IsKnown other known =
      elim ((persist_inbound_message-cases arrival wa item s).returned out h) [
        | inl duplicate ↦ rw (duplicate.unchanged) known
        | inr k ↦ rw (k.behind) (known_later (given other.id) s.db.messages _ known)
      ]

known_unchanged :
    (arrival : Arrival) (wa : WhatsAppAccount) (item : InboundItem) (s : Inbox)
    → IsKnown s item
    → persist_inbound_message arrival wa item s ≡ ok (none, s)
unfolding persist_inbound_message
known_unchanged arrival wa item s known = rw known refl

-- The tables after one item, whatever came of it.
inbox_after-IsKnown :
    (arrival : Arrival) (wa : WhatsAppAccount) (item other : InboundItem) (s : Inbox)
    → IsKnown s other
    → IsKnown (inbox_after s (persist_inbound_message arrival wa item s)) other
inbox_after-IsKnown arrival wa item other s known =
    elim (Result-cases (persist_inbound_message arrival wa item s)) [
      | inl (out, e) ↦ rw e (persist-IsKnown arrival wa item s out e other known)
      | inr (error, e) ↦ rw e known
    ]

tally-inbox :
    (r : Result (Option InboundMessageContext × Inbox)) (rest : Received)
    → (tally r rest).inbox ≡ rest.inbox
tally-inbox (err e) rest = refl
tally-inbox (ok (none, s)) rest = refl
tally-inbox (ok (some context, s)) rest = refl

-- An item that met no error is known afterwards, and so were those behind it without one.
tally-clean :
    (r : Result (Option InboundMessageContext × Inbox)) (rest : Received)
    → (tally r rest).processing_errors ≡ []
    → ((out : Option InboundMessageContext × Inbox) × (r ≡ ok out)) × (rest.processing_errors ≡ [])
tally-clean (err e) rest h = cc
tally-clean (ok (none, s)) rest h = (((none, s), refl), h)
tally-clean (ok (some context, s)) rest h = (((some context, s), refl), h)

itself-IsKnown :
    (arrival : Arrival) (wa : WhatsAppAccount) (item : InboundItem) (s : Inbox)
    (out : Option InboundMessageContext × Inbox)
    → is_some (given item.id) ≡ true
    → persist_inbound_message arrival wa item s ≡ ok out
    → IsKnown out.1 item
unfolding find_duplicate_inbound
itself-IsKnown arrival wa item s out named h =
    elim ((persist_inbound_message-cases arrival wa item s).returned out h) [
      | inl duplicate ↦ rw (duplicate.unchanged) (duplicate.known)
      | inr k ↦ elim (Option-cases (given item.id)) [
        | inl missing ↦ absurd (ground (arith, missing, named))
        | inr (e, there) ↦
            rw (k.behind) (known_now item.id e k.context.message s.db.messages there k.same_id)
      ]
    ]

receive-IsKnown :
    (arrivals : ℕ → Arrival) (wa : WhatsAppAccount) (items : List InboundItem) (n : ℕ) (s : Inbox)
    (other : InboundItem)
    → IsKnown s other
    → IsKnown (receive arrivals wa items n s).inbox other
unfolding receive
receive-IsKnown arrivals wa [] n s other known = known
receive-IsKnown arrivals wa (item ∷ items) n s other known =
    rw
      (tally-inbox (persist_inbound_message (arrivals n) wa item s) (
        receive arrivals wa items (suc n)
          (inbox_after s (persist_inbound_message (arrivals n) wa item s))))
      (receive-IsKnown arrivals wa items (suc n) _ other
        (inbox_after-IsKnown (arrivals n) wa item other s known))

All-IsKnown :
    (arrivals : ℕ → Arrival) (wa : WhatsAppAccount) (items : List InboundItem) (n : ℕ) (s : Inbox)
    → All (λ item. is_some (given item.id) ≡ true) items
    → (receive arrivals wa items n s).processing_errors ≡ []
    → All (IsKnown (receive arrivals wa items n s).inbox) items
unfolding receive
All-IsKnown arrivals wa [] n s named clean = tt
All-IsKnown arrivals wa (item ∷ items) n s named clean =
    let r : Result (Option InboundMessageContext × Inbox) =
      persist_inbound_message (arrivals n) wa item s in
    let rest : Received = receive arrivals wa items (suc n) (inbox_after s r) in
    let ((out, e), clean_rest) = tally-clean r rest clean in
    let itself : IsKnown (inbox_after s r) item =
      rw e (itself-IsKnown (arrivals n) wa item s out named.0 e) in
    subst (λ i. All (IsKnown i) (item ∷ items)) (sym (tally-inbox r rest))
      (
        receive-IsKnown arrivals wa items (suc n) (inbox_after s r) item itself,
        All-IsKnown arrivals wa items (suc n) (inbox_after s r) named.1 clean_rest,
      )

nothing_new :
    (arrivals : ℕ → Arrival) (wa : WhatsAppAccount) (items : List InboundItem) (n : ℕ) (s : Inbox)
    → All (IsKnown s) items
    → receive arrivals wa items n s
      ≡ record { processed_count = 0; processing_errors = []; inbox = s }
unfolding receive
nothing_new arrivals wa [] n s known = refl
nothing_new arrivals wa (item ∷ items) n s known =
    rw (known_unchanged (arrivals n) wa item s known.0)
      (nothing_new arrivals wa items (suc n) s known.1)

-- A batch of messages that all have identifiers, and that was taken in without an error, can be
-- delivered again: whatever the clock and the account it is sent to, nothing is counted, no error is
-- met and the tables stay as they are.
pub receive-again :
    (arrivals later : ℕ → Arrival) (wa again : WhatsAppAccount) (items : List InboundItem) (n m : ℕ)
    (s : Inbox)
    → All (λ item. is_some (given item.id) ≡ true) items
    → (receive arrivals wa items n s).processing_errors ≡ []
    → receive later again items m (receive arrivals wa items n s).inbox ≡ record {
      processed_count = 0;
      processing_errors = [];
      inbox = (receive arrivals wa items n s).inbox;
    }
receive-again arrivals later wa again items n m s named clean =
    nothing_new later again items m (receive arrivals wa items n s).inbox
      (All-IsKnown arrivals wa items n s named clean)
