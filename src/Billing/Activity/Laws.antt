-- ===== src/Billing/Activity/Laws.antt =====
-- Recording an activity, against a set of keys: which contacts count in which period.
use watesly.Base.{
  ℕ, ◌+◌, ◌≡◌, refl, ap, ◌∙◌, ◌⊎◌, inl, inr, Bool, true, false, not, ◌&&◌, ◌||◌, Option, none, some,
  List, any, String, ◌==◌, if◌then◌else◌, Bool-cases, arith, same_text, same_text_refl, ==_refl,
}
use watesly.Models.{DateTime, MacActivationAudit}
use watesly.Billing.Activity.{
  Context, Usage, Activity, duplicate_event, MacActivityResult, Key, has_key, key_of, same_time,
  is_counted, resolved_activity, activity_period, is_duplicate_event, is_duplicate_named,
  event_name, is_event, new_contact, new_audit, store_activity, record_in_period, record_for,
  record_activity, count_mac_for_channel, refused,
}
use watesly.Billing.Activity.Keys.{
  IsUnique, same_key, any-append, upsert-IsUnique, any-upsert, count-upsert,
}

-- The contact and the period that an activity counts for: that of a contact, of a kind that counts,
-- in a period, and not of an event that was recorded before.
abbrev counts_in :
    Activity → Usage → Option ℕ → Option (DateTime × DateTime) → Option (ℕ × (DateTime × DateTime))
counts_in activity usage none period = none
counts_in activity usage (some contact) none = none
counts_in activity usage (some contact) (some period) =
    if is_counted (resolved_activity activity.activity_type)
      && not (is_duplicate_event activity.account_id activity.source_event_id usage.audits)
    then some (contact, period)
    else none

abbrev pub counts : Context → Activity → Usage → Option (ℕ × (DateTime × DateTime))
counts env activity usage =
    counts_in activity usage activity.contact_id (activity_period env activity)

abbrev pub is_counted_key : Activity → Option (ℕ × (DateTime × DateTime)) → Key → Bool
is_counted_key activity none k = false
is_counted_key activity (some (contact, period)) k = same_key k (key_of activity contact period.0)

abbrev pub is_new_key : Activity → Usage → Option (ℕ × (DateTime × DateTime)) → Bool
is_new_key activity usage none = false
is_new_key activity usage (some (contact, period)) =
    not (any (has_key (key_of activity contact period.0)) usage.contacts)

abbrev pub is_counted_for : Activity → Option (ℕ × (DateTime × DateTime)) → ℕ → ℕ → DateTime → Bool
is_counted_for activity none account_id channel_id period_start = false
is_counted_for activity (some (contact, period)) account_id channel_id period_start =
    activity.account_id == account_id
    && activity.channel_id == channel_id
    && same_time period.0 period_start

-- Either nothing is counted and nothing changes, or the activity is stored.
pub record Refused (out : MacActivityResult × Usage) (usage : Usage)
    (c : Option (ℕ × (DateTime × DateTime))) : Type 0 where
  pub not_counted : c ≡ none
  pub unchanged : out.1 ≡ usage
  pub not_created : out.0.created ≡ false

pub record Stored (env : Context) (activity : Activity) (usage : Usage)
    (out : MacActivityResult × Usage) (c : Option (ℕ × (DateTime × DateTime))) : Type 0 where
  pub contact : ℕ
  pub period : DateTime × DateTime
  pub counted : c ≡ some (contact, period)
  pub stored : out ≡ store_activity env activity contact period usage

is_event-name :
    (source : Option String) (event : String)
    → event_name source ≡ some event
    → is_event event source ≡ true
is_event-name none event h = cc
is_event-name (some e) event h = elim (Bool-cases (same_text e "")) [
  | inl empty ↦ absurd (ground (arith, empty, h))
  | inr named ↦ ground (arith, named, h, same_text_refl e, same_text_refl event)
]

module _ (env : Context) (activity : Activity) (usage : Usage) where
  store-IsUnique :
      (contact : ℕ) (period : DateTime × DateTime)
      → IsUnique usage.contacts
      → IsUnique (store_activity env activity contact period usage).1.contacts
  unfolding store_activity new_contact key_of
  store-IsUnique contact period h =
      upsert-IsUnique _ (new_contact env activity contact period) usage.contacts h

  store-any :
      (contact : ℕ) (period : DateTime × DateTime) (k : Key)
      → any (has_key k) (store_activity env activity contact period usage).1.contacts
        ≡ same_key k (key_of activity contact period.0) || any (has_key k) usage.contacts
  unfolding store_activity new_contact key_of
  store-any contact period k =
      any-upsert _ (new_contact env activity contact period) usage.contacts k

  store-count :
      (contact : ℕ) (period : DateTime × DateTime) (account_id channel_id : ℕ)
      (period_start : DateTime)
      → count_mac_for_channel account_id channel_id period_start
          (store_activity env activity contact period usage).1.contacts
        ≡ count_mac_for_channel account_id channel_id period_start usage.contacts
          + (if (store_activity env activity contact period usage).0.created
                && is_counted_for activity
                    (some (contact, period))
                    account_id
                    channel_id
                    period_start
              then 1
              else 0)
  unfolding store_activity new_contact key_of
  store-count contact period account_id channel_id period_start =
      count-upsert _ (new_contact env activity contact period) usage.contacts account_id channel_id
        period_start

  outcome_with :
      (contact : ℕ) (period : Option (DateTime × DateTime))
      → activity_period env activity ≡ period
      → (counted : Bool) → is_counted (resolved_activity activity.activity_type) ≡ counted
      → (again : Bool)
      → is_duplicate_event activity.account_id activity.source_event_id usage.audits ≡ again
      → (let c = counts_in activity usage (some contact) (activity_period env activity) in
          let out = record_for env activity (some contact) usage in
          Refused out usage c ⊎ Stored env activity usage out c)
  unfolding record_for record_in_period
  outcome_with contact none found false counted again known =
      inl
        (rw (found, counted) (record { not_counted = refl; unchanged = refl; not_created = refl }))
  outcome_with contact none found true counted again known =
      inl
        (rw (found, counted) (record { not_counted = refl; unchanged = refl; not_created = refl }))
  outcome_with contact (some period) found false counted again known =
      inl
        (rw (found, counted) (record { not_counted = refl; unchanged = refl; not_created = refl }))
  outcome_with contact (some period) found true counted true known = inl (
      rw (found, counted, known)
        (record { not_counted = refl; unchanged = refl; not_created = refl }))
  outcome_with contact (some period) found true counted false known = inr (
      rw (found, counted, known)
        (record { contact = contact; period = period; counted = refl; stored = refl }))

  outcome_for :
      (contact : Option ℕ)
      → (let c = counts_in activity usage contact (activity_period env activity) in
          let out = record_for env activity contact usage in
          Refused out usage c ⊎ Stored env activity usage out c)
  unfolding record_for
  outcome_for none = inl (record { not_counted = refl; unchanged = refl; not_created = refl })
  outcome_for (some contact) = outcome_with contact _ refl _ refl _ refl

  pub record_activity-cases :
      (let c = counts env activity usage in
        let out = record_activity env activity usage in
        Refused out usage c ⊎ Stored env activity usage out c)
  unfolding record_activity
  record_activity-cases = outcome_for activity.contact_id

  -- Recording keeps the unique constraint: no two rows of active contacts have the same account,
  -- channel, contact and start of the period.
  pub record_activity-IsUnique :
      IsUnique usage.contacts → IsUnique (record_activity env activity usage).1.contacts
  record_activity-IsUnique h = elim record_activity-cases [
    | inl r ↦ rw (r.unchanged) h
    | inr s ↦ rw (s.stored) (store-IsUnique s.contact s.period h)
  ]

  -- As a set of keys: recording adds the key that the activity counts for, if it counts, and no
  -- other, and reports a new contact exactly if that key was not there.
  pub record_activity-refines :
      ((k : Key)
        → any (has_key k) (record_activity env activity usage).1.contacts
          ≡ is_counted_key activity (counts env activity usage) k || any (has_key k) usage.contacts)
      × ((record_activity env activity usage).0.created
          ≡ is_new_key activity usage (counts env activity usage))
  unfolding store_activity
  record_activity-refines = elim record_activity-cases [
    | inl r ↦ rw (r.unchanged, r.not_created, r.not_counted) (λ k. refl, refl)
    | inr s ↦ rw (s.stored, s.counted) (store-any s.contact s.period, refl)
  ]

  -- For any account, channel and start of a period: recording raises the count by one if it reports
  -- a new contact and the activity counts for that account, channel and period, and leaves it
  -- otherwise.
  pub count_mac_for_channel-record_activity :
      (account_id channel_id : ℕ) (period_start : DateTime)
      → count_mac_for_channel account_id channel_id period_start
          (record_activity env activity usage).1.contacts
        ≡ count_mac_for_channel account_id channel_id period_start usage.contacts
          + (if (record_activity env activity usage).0.created
                && is_counted_for activity
                    (counts env activity usage)
                    account_id
                    channel_id
                    period_start
              then 1
              else 0)
  count_mac_for_channel-record_activity account_id channel_id period_start =
      elim record_activity-cases [
        | inl r ↦ rw (r.unchanged, r.not_created) (omega arith)
        | inr s ↦
            rw (s.stored, s.counted)
              (store-count s.contact s.period account_id channel_id period_start)
      ]

  counted_parts :
      (contact : Option ℕ) (period : Option (DateTime × DateTime)) (x : ℕ × (DateTime × DateTime))
      → counts_in activity usage contact period ≡ some x
      → (contact ≡ some x.0) × (is_counted (resolved_activity activity.activity_type) ≡ true)
  counted_parts none period x h = cc
  counted_parts (some c) none x h = cc
  counted_parts (some c) (some p) x h = ground (arith, h)

  duplicate_stored :
      (contact : ℕ) (period : DateTime × DateTime) (event : String)
      → event_name activity.source_event_id ≡ some event
      → is_duplicate_event activity.account_id activity.source_event_id
          (store_activity env activity contact period usage).1.audits
        ≡ true
  unfolding store_activity is_duplicate_event new_audit
  duplicate_stored contact period event named =
      let rows : List MacActivationAudit =
        (store_activity env activity contact period usage).1.audits in
      ap (λ n. is_duplicate_named activity.account_id n rows) named
      ∙ any-append (λ x. x.account_id == activity.account_id && is_event event x.source_event_id)
          usage.audits _
      ∙ ground
          (arith, ==_refl activity.account_id, is_event-name activity.source_event_id event named)

  refused_again :
      (activity : Activity) (s : Usage) (c : Option ℕ) (contact : ℕ) (period : DateTime × DateTime)
      → c ≡ some contact
      → is_counted (resolved_activity activity.activity_type) ≡ true
      → is_duplicate_event activity.account_id activity.source_event_id s.audits ≡ true
      → activity_period env activity ≡ some period
      → record_for env activity c s ≡ refused duplicate_event s
  unfolding record_for record_in_period
  refused_again activity s c contact period present counted again found =
      rw (present, counted, found, again) refl

  store-again :
      (event : String) (contact : ℕ) (period : DateTime × DateTime) (id audit_id : ℕ)
      (time : Option DateTime)
      → event_name activity.source_event_id ≡ some event
      → counts env activity usage ≡ some (contact, period)
      → (let later = record activity {
        new_mac_id = id;
        new_audit_id = audit_id;
        activity_at = time;
      } in
          let s = (store_activity env activity contact period usage).1 in
          (next : DateTime × DateTime)
          → activity_period env later ≡ some next
          → record_activity env later s ≡ refused duplicate_event s)
  unfolding record_activity
  store-again event contact period id audit_id time named counted next inside =
      let later : Activity = record activity {
        new_mac_id = id;
        new_audit_id = audit_id;
        activity_at = time;
      } in
      let (present, known) =
        counted_parts activity.contact_id (activity_period env activity) (contact, period)
          counted in
      refused_again later (store_activity env activity contact period usage).1 activity.contact_id
        contact next present known (duplicate_stored contact period event named) inside

  -- An activity that counts and names an event is recorded once: recording it again, with any
  -- identifiers for the new rows and at any time that is in a period, finds the duplicate and
  -- changes nothing.
  pub record_activity-again :
      (event : String) (id audit_id : ℕ) (time : Option DateTime) (next : DateTime × DateTime)
      (c : ℕ × (DateTime × DateTime))
      → event_name activity.source_event_id ≡ some event
      → counts env activity usage ≡ some c
      → (let later = record activity {
        new_mac_id = id;
        new_audit_id = audit_id;
        activity_at = time;
      } in
          let s = (record_activity env activity usage).1 in
          activity_period env later ≡ some next
          → record_activity env later s ≡ refused duplicate_event s)
  record_activity-again event id audit_id time next c named counted inside =
      elim record_activity-cases [
        | inl r ↦ absurd (ground (arith, counted, r.not_counted))
        | inr s ↦
            rw (s.stored)
              (store-again event s.contact s.period id audit_id time named s.counted next inside)
      ]
