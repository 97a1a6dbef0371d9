-- ===== src/Reachability.antt =====
-- Whether a contact can be reached by a campaign, and what a delivery teaches
-- (backend/app/services/contact_reachability.py).
pub mod Laws
mod Tests
use watesly.Base.{
  ℕ, suc, String, Bool, true, false, not, ◌&&◌, ◌||◌, Option, none, some, List, [], ◌∷◌, ◌++◌, map,
  select, any, contains, is_empty, get, count_where, satisfies, leb, ◌==◌, if◌then◌else◌, is_some,
  codes, truncate, PythonText,
}
use watesly.Models.{
  Database, Contact, ReachabilityStatus, reachable, risky, unreachable, RecipientStatus, Message,
  CampaignRecipient, is_outbound, campaign_row,
}
use watesly.Access.{column_in}
use watesly.Phone.{eq_text, starts_with, default_country_code, normalize_whatsapp_phone}

-- `pattern in text`
abbrev pub has_part : List ℕ → List ℕ → Bool
has_part pattern [] = is_empty pattern
has_part pattern (c ∷ cs) = starts_with pattern (c ∷ cs) || has_part pattern cs

-- `_UNREACHABLE_PATTERNS`
abbrev pub unreachable_patterns : List String
unreachable_patterns =
    "healthy ecosystem engagement" ∷ "not on whatsapp" ∷ "no longer on whatsapp" ∷ "invalid phone"
    ∷ "131026" ∷ "131049" ∷ "recipient not valid" ∷ "undeliverable" ∷ "message undeliverable" ∷ []

-- `COUNTRY_DIAL`
unfoldable pub country_dial : List (String × String)
country_dial =
    ("KW", "965")
    ∷ ("SA", "966")
    ∷ ("AE", "971")
    ∷ ("BH", "973")
    ∷ ("OM", "968")
    ∷ ("QA", "974")
    ∷ []

unfoldable pub dial_lookup : List ℕ → List (String × String) → List ℕ
dial_lookup key [] = default_country_code
dial_lookup key ((country, dial) ∷ rest) =
    if eq_text key (codes country) then codes dial else dial_lookup key rest

-- `country_code or "KW"`
unfoldable pub country_or_default : Option String → List ℕ
country_or_default none = codes "KW"
country_or_default (some text) = if is_empty (codes text) then codes "KW" else codes text

abbrev pub is_unreachable : Option ReachabilityStatus → Bool
is_unreachable (some unreachable) = true
is_unreachable _ = false

abbrev pub is_risky : Option ReachabilityStatus → Bool
is_risky (some risky) = true
is_risky _ = false

abbrev pub is_reachable : Option ReachabilityStatus → Bool
is_reachable (some reachable) = true
is_reachable _ = false

module _ (py : PythonText) where
  -- Of the texts that match no unreachable pattern, those that match a risky one are risky, and so
  -- are the others.
  pub classify_delivery_error : Option String → ReachabilityStatus
  classify_delivery_error none = risky
  classify_delivery_error (some message) =
      let normalized = py.strip_lower (codes message) in
      if is_empty normalized
      then risky
      else if any (λ pattern. has_part (codes pattern) normalized) unreachable_patterns
      then unreachable
      else risky

  unfoldable pub is_phone_valid_for_whatsapp : Contact → Bool
  is_phone_valid_for_whatsapp contact =
      let dial = dial_lookup (py.upper (country_or_default contact.country_code)) country_dial in
      not (is_empty (normalize_whatsapp_phone py.is_digit contact.external_address dial))

  -- The flags are exclude_unreachable, exclude_risky and require_marketing_opt_in.
  unfoldable pub is_contact_campaign_eligible : Contact → Bool → Bool → Bool → Bool
  is_contact_campaign_eligible contact exclude_unreachable exclude_risky require_opt_in =
      let status = contact.reachability_status in
      if require_opt_in && not contact.marketing_opt_in
      then false
      else if not (is_phone_valid_for_whatsapp contact)
      then false
      else if exclude_unreachable && is_unreachable status
      then false
      else if exclude_risky && is_risky status
      then false
      else not (exclude_risky && not (is_some contact.last_inbound_at) && not (is_reachable status))

  -- The message of a failure is kept if it is not empty.
  reason_of : Option String → Option String → Option String
  reason_of none old = old
  reason_of (some message) old =
      if is_empty (codes message) then old else some (truncate 500 message)

  pub record_delivery_failure : ℕ → Option String → Contact → Contact
  record_delivery_failure now error_message contact =
      let failures = suc contact.delivery_failure_count in
      record contact {
        delivery_failure_count = failures;
        last_delivery_failure_at = some now;
        reachability_reason = reason_of error_message contact.reachability_reason;
        reachability_status =
            if is_unreachable (some (classify_delivery_error error_message)) || leb 2 failures
            then some unreachable
            else some risky;
      }

pub record_delivery_success : Contact → Contact
record_delivery_success contact = record contact {
  reachability_status = some reachable;
  reachability_reason = none;
  delivery_failure_count = 0;
  last_delivery_failure_at = none;
}

pub record_inbound_activity : ℕ → Contact → Contact
record_inbound_activity now contact = record contact {
  reachability_status = some reachable;
  reachability_reason = none;
  last_inbound_at = some now;
}

-- `sent_statuses`
abbrev pub is_sent_status : RecipientStatus → Bool
is_sent_status RecipientStatus.queued = true
is_sent_status RecipientStatus.sending = true
is_sent_status RecipientStatus.sent = true
is_sent_status RecipientStatus.delivered = true
is_sent_status RecipientStatus.read = true
is_sent_status _ = false

-- The contact was sent a message, or stands among the sent recipients of a campaign of the account.
pub was_sent_to : Database → ℕ → ℕ → Bool
was_sent_to db account_id contact_id =
    any
      (λ m.
        m.account_id == account_id
        && column_in m.contact_id (contact_id ∷ [])
        && is_outbound m.direction)
      db.messages
    || any
        (λ r.
          any (λ c. c.id == r.campaign_id && c.account_id == account_id) db.campaigns
          && r.contact_id == contact_id
          && is_sent_status r.status)
        db.recipients

-- The ids among those given of contacts that were sent to, as a set.
pub get_previously_sent_contact_ids : Database → ℕ → List ℕ → List ℕ
get_previously_sent_contact_ids db account_id contact_ids =
    select (was_sent_to db account_id) contact_ids

pub filter_never_sent_contact_ids : Database → ℕ → List ℕ → List ℕ
filter_never_sent_contact_ids db account_id contact_ids =
    let previously = get_previously_sent_contact_ids db account_id contact_ids in
    select (λ i. not (contains i previously)) contact_ids

pub count_campaign_eligible : PythonText → Database → ℕ → List ℕ → Bool → Bool → ℕ
count_campaign_eligible py db account_id contact_ids exclude_unreachable exclude_risky =
    count_where (λ c. is_contact_campaign_eligible py c exclude_unreachable exclude_risky true)
      (select
        (λ c.
          c.account_id == account_id
          && contains c.id contact_ids
          && not (is_some c.deleted_at)
          && c.marketing_opt_in)
        db.contacts)

-- The dictionary that `summarize_reachability` returns.
pub record Summary : Type 0 where
  pub reachable_count : ℕ
  pub risky_count : ℕ
  pub unreachable_count : ℕ
  pub invalid_phone : ℕ
  pub cold_audience : ℕ
  pub warm_audience : ℕ

no_contacts : Summary
no_contacts = record {
  reachable_count = 0;
  risky_count = 0;
  unreachable_count = 0;
  invalid_phone = 0;
  cold_audience = 0;
  warm_audience = 0;
}

-- The counters of one contact with a valid phone: whether it wrote before, and its status.
count_contact : Bool → Option ReachabilityStatus → Summary → Summary
count_contact wrote status s =
    let heard =
      if wrote
      then record s { warm_audience = suc s.warm_audience }
      else record s { cold_audience = suc s.cold_audience } in
    if is_unreachable status
    then record heard { unreachable_count = suc s.unreachable_count }
    else if is_risky status || not wrote
    then record heard { risky_count = suc s.risky_count }
    else record heard { reachable_count = suc s.reachable_count }

-- The loop over the contacts; `last_inbound` is the dictionary that the caller passes.
summarize : PythonText → (ℕ → Option ℕ) → List Contact → Summary → Summary
summarize py last_inbound [] s = s
summarize py last_inbound (c ∷ cs) s = summarize py last_inbound cs (
    if not (is_phone_valid_for_whatsapp py c)
    then record s { invalid_phone = suc s.invalid_phone }
    else count_contact (is_some (last_inbound c.id) || is_some c.last_inbound_at)
        c.reachability_status s)

pub summarize_reachability : PythonText → Database → ℕ → List ℕ → (ℕ → Option ℕ) → Summary
summarize_reachability py db account_id contact_ids last_inbound =
    summarize py last_inbound
      (select
        (λ c. c.account_id == account_id && contains c.id contact_ids && not (is_some c.deleted_at))
        db.contacts)
      no_contacts
