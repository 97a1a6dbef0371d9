-- ===== src/Reachability/Laws.antt =====
-- What deliveries teach of a contact, and the numbers shown before a campaign
-- (backend/app/services/contact_reachability.py).
use watesly.Base.{
  ℕ, suc, ◌+◌, ◌≡◌, refl, sym, ap, ◌∙◌, inl, inr, String, Bool, true, false, not, ◌&&◌, ◌||◌,
  Option, none, some, List, [], ◌∷◌, select, contains, length, count_where, is_some, Bool-cases,
  ◌==◌, eq_of_==, if◌then◌else◌, if_both, arith, PythonText,
}
use watesly.Models.{Database, Contact, ReachabilityStatus, unreachable}
use watesly.Reachability.{
  classify_delivery_error, is_phone_valid_for_whatsapp, is_contact_campaign_eligible,
  record_delivery_failure, record_delivery_success, record_inbound_activity, was_sent_to,
  get_previously_sent_contact_ids, filter_never_sent_contact_ids, Summary, no_contacts,
  count_contact, summarize, summarize_reachability, is_unreachable, is_risky,
}

-- After two failures in a row, whatever their messages, a campaign that leaves out unreachable
-- contacts leaves out the contact; and after a success or a message from the contact, only its
-- number and, if asked for, its consent decide.
eligible_after :
    (py : PythonText) (t u : ℕ) (m n : Option String) (c : Contact) (no_risky opt_in : Bool)
    → (is_contact_campaign_eligible py
          (record_delivery_failure py u n (record_delivery_failure py t m c))
          true
          no_risky
          opt_in
        ≡ false)
      × (is_contact_campaign_eligible py (record_delivery_success c) true no_risky opt_in
          ≡ (not (opt_in && not c.marketing_opt_in) && is_phone_valid_for_whatsapp py c))
      × (is_contact_campaign_eligible py (record_inbound_activity t c) true no_risky opt_in
          ≡ (not (opt_in && not c.marketing_opt_in) && is_phone_valid_for_whatsapp py c))
unfolding is_contact_campaign_eligible record_delivery_failure record_delivery_success
    record_inbound_activity is_phone_valid_for_whatsapp
eligible_after py t u m n c no_risky opt_in = (ground arith, ground arith, ground arith)

-- The first failure of a contact without failures leaves it risky, unless the message says that
-- the number cannot be reached; the second makes it unreachable.
pub failure_grows :
    (py : PythonText) (t u : ℕ) (m n : Option String) (c : Contact)
    → c.delivery_failure_count ≡ 0
    → ((record_delivery_failure py t m c).reachability_status ≡ some (classify_delivery_error py m))
      × ((record_delivery_failure py u n (record_delivery_failure py t m c)).reachability_status
          ≡ some unreachable)
unfolding record_delivery_failure classify_delivery_error
failure_grows py t u none n c h = (ground arith, ground arith)
failure_grows py t u (some m) n c h = (ground arith, ground arith)

contains-select :
    (p : ℕ → Bool) (i : ℕ) (xs : List ℕ) → contains i (select p xs) ≡ (contains i xs && p i)
contains-select p i [] = refl
contains-select p i (x ∷ xs) = elim (Bool-cases (i == x)) [
  | inl here ↦ rw (eq_of_== i x here) (ground (arith, contains-select p x xs))
  | inr there ↦ ground (arith, there, contains-select p i xs)
]

-- Of the given contacts, exactly those stay that no message and no sent campaign recipient of the
-- account stands for.
pub filter_never_sent-contains :
    (db : Database) (account_id i : ℕ) (ids : List ℕ)
    → contains i (filter_never_sent_contact_ids db account_id ids)
      ≡ (contains i ids && not (was_sent_to db account_id i))
unfolding filter_never_sent_contact_ids get_previously_sent_contact_ids
filter_never_sent-contains db account_id i ids =
    let previously = select (was_sent_to db account_id) ids in
    contains-select (λ j. not (contains j previously)) i ids
    ∙ ap (λ b. contains i ids && not b) (contains-select (was_sent_to db account_id) i ids)
    ∙ ground arith

-- The contact wrote before.
abbrev pub was_heard : (ℕ → Option ℕ) → Contact → Bool
was_heard last_inbound c = is_some (last_inbound c.id) || is_some c.last_inbound_at

module _ (py : PythonText) (last_inbound : ℕ → Option ℕ) where
  abbrev pub is_warm : Contact → Bool
  is_warm c = is_phone_valid_for_whatsapp py c && was_heard last_inbound c

  abbrev pub is_cold : Contact → Bool
  is_cold c = is_phone_valid_for_whatsapp py c && not (was_heard last_inbound c)

  abbrev pub is_lost : Contact → Bool
  is_lost c = is_phone_valid_for_whatsapp py c && is_unreachable c.reachability_status

  -- A contact that never wrote is a risk too.
  abbrev pub is_at_risk : Contact → Bool
  is_at_risk c =
      is_phone_valid_for_whatsapp py c
      && not (is_unreachable c.reachability_status)
      && (is_risky c.reachability_status || not (was_heard last_inbound c))

  abbrev pub is_reached : Contact → Bool
  is_reached c =
      is_phone_valid_for_whatsapp py c
      && not (is_unreachable c.reachability_status)
      && not (is_risky c.reachability_status)
      && was_heard last_inbound c

-- A summary counts the contacts of a list: those with a usable number by what is known of their
-- reachability, the same ones by whether they wrote before, and the others as invalid.
pub record Counts (py : PythonText) (last_inbound : ℕ → Option ℕ) (cs : List Contact) (s : Summary)
    : Type 0 where
  pub invalid : s.invalid_phone ≡ count_where (λ c. not (is_phone_valid_for_whatsapp py c)) cs
  pub warm : s.warm_audience ≡ count_where (is_warm py last_inbound) cs
  pub cold : s.cold_audience ≡ count_where (is_cold py last_inbound) cs
  pub lost : s.unreachable_count ≡ count_where (is_lost py last_inbound) cs
  pub at_risk : s.risky_count ≡ count_where (is_at_risk py last_inbound) cs
  pub reached : s.reachable_count ≡ count_where (is_reached py last_inbound) cs

pub by_status : Summary → ℕ
by_status s = s.reachable_count + s.risky_count + s.unreachable_count + s.invalid_phone

pub by_warmth : Summary → ℕ
by_warmth s = s.cold_audience + s.warm_audience + s.invalid_phone

count_contact-adds :
    (wrote : Bool) (status : Option ReachabilityStatus) (s : Summary)
    → (by_status (count_contact wrote status s) ≡ suc (by_status s))
      × (by_warmth (count_contact wrote status s) ≡ suc (by_warmth s))
unfolding count_contact by_status by_warmth
count_contact-adds true status s = (ground arith, ground arith)
count_contact-adds false status s = (ground arith, ground arith)

summarize-partition :
    (py : PythonText) (last_inbound : ℕ → Option ℕ) (cs : List Contact) (s : Summary)
    → (by_status (summarize py last_inbound cs s) ≡ by_status s + length cs)
      × (by_warmth (summarize py last_inbound cs s) ≡ by_warmth s + length cs)
unfolding summarize by_status by_warmth count_contact
summarize-partition py last_inbound [] s = (omega arith, omega arith)
summarize-partition py last_inbound (c ∷ cs) s =
    let next : Summary =
      if not (is_phone_valid_for_whatsapp py c)
      then record s { invalid_phone = suc s.invalid_phone }
      else count_contact (is_some (last_inbound c.id) || is_some c.last_inbound_at)
          c.reachability_status s in
    let (status, warmth) = summarize-partition py last_inbound cs next in
    let one_more : (by_status next ≡ suc (by_status s)) × (by_warmth next ≡ suc (by_warmth s)) =
      if_both (λ k. (by_status k ≡ suc (by_status s)) × (by_warmth k ≡ suc (by_warmth s)))
        (not (is_phone_valid_for_whatsapp py c)) _ _ (λ _. (omega arith, omega arith))
        (λ _.
          count_contact-adds (is_some (last_inbound c.id) || is_some c.last_inbound_at)
            c.reachability_status s) in
    (omega (arith, status, one_more.0), omega (arith, warmth, one_more.1))

module _ (py : PythonText) (last_inbound : ℕ → Option ℕ) where
  -- The summary with one more contact, as the loop counts it.
  abbrev counted : Contact → Summary → Summary
  counted c s =
      if not (is_phone_valid_for_whatsapp py c)
      then record s { invalid_phone = suc s.invalid_phone }
      else count_contact (is_some (last_inbound c.id) || is_some c.last_inbound_at)
          c.reachability_status s

  -- A counter that goes up by one for the contacts of a kind counts them.
  counts-kind :
      (field : Summary → ℕ) (kind : Contact → Bool)
      (step : (c : Contact) (s : Summary)
        → field (counted c s) ≡ (if kind c then suc (field s) else field s))
      (cs : List Contact) (s : Summary)
      → field (summarize py last_inbound cs s) ≡ field s + count_where kind cs
  unfolding summarize
  counts-kind field kind step [] s = omega arith
  counts-kind field kind step (c ∷ cs) s =
      ground (arith, step c s, counts-kind field kind step cs (counted c s))

  counts-all :
      (field : Summary → ℕ) (kind : Contact → Bool)
      → ((c : Contact) (s : Summary)
          → field (counted c s) ≡ (if kind c then suc (field s) else field s))
      → field no_contacts ≡ 0
      → (cs : List Contact) → field (summarize py last_inbound cs no_contacts) ≡ count_where kind cs
  counts-all field kind step start cs =
      omega (arith, counts-kind field kind step cs no_contacts, start)

  summarize-Counts :
      (cs : List Contact) → Counts py last_inbound cs (summarize py last_inbound cs no_contacts)
  unfolding no_contacts count_contact
  summarize-Counts cs = record {
    invalid =
        counts-all (λ s. s.invalid_phone) (λ c. not (is_phone_valid_for_whatsapp py c))
          (λ c s. ground arith) refl cs;
    warm =
        counts-all (λ s. s.warm_audience) (is_warm py last_inbound) (λ c s. ground arith) refl cs;
    cold =
        counts-all (λ s. s.cold_audience) (is_cold py last_inbound) (λ c s. ground arith) refl cs;
    lost =
        counts-all (λ s. s.unreachable_count) (is_lost py last_inbound) (λ c s. ground arith) refl
          cs;
    at_risk =
        counts-all (λ s. s.risky_count) (is_at_risk py last_inbound) (λ c s. ground arith) refl cs;
    reached =
        counts-all (λ s. s.reachable_count) (is_reached py last_inbound) (λ c s. ground arith) refl
          cs;
  }

-- The contacts of the account that are asked for and not deleted.
abbrev pub asked : Database → ℕ → List ℕ → List Contact
asked db account_id ids =
    select (λ c. c.account_id == account_id && contains c.id ids && not (is_some c.deleted_at))
      db.contacts

-- Of the contacts of the account that are asked for and not deleted, the summary counts those
-- without a usable number as invalid, the others once as warm or cold, by whether they wrote before,
-- and once as unreachable, as risky (also if they only never wrote), or as reachable; so both scales
-- count every contact once, those with an invalid number included.
pub summarize_reachability-partition :
    (py : PythonText) (db : Database) (account_id : ℕ) (ids : List ℕ) (last_inbound : ℕ → Option ℕ)
    → Counts py last_inbound
        (asked db account_id ids)
        (summarize_reachability py db account_id ids last_inbound)
      × (by_status (summarize_reachability py db account_id ids last_inbound)
          ≡ length (asked db account_id ids))
      × (by_warmth (summarize_reachability py db account_id ids last_inbound)
          ≡ by_status (summarize_reachability py db account_id ids last_inbound))
unfolding summarize_reachability no_contacts by_status by_warmth
summarize_reachability-partition py db account_id ids last_inbound =
    let (status, warmth) =
      summarize-partition py last_inbound (asked db account_id ids) no_contacts in
    (
      summarize-Counts py last_inbound (asked db account_id ids),
      omega (arith, status),
      warmth ∙ sym status,
    )
