-- ===== src/Billing/Activity.antt =====
-- Recording the activity of contacts for billing (backend/app/services/mac_usage.py, and the counts
-- of mac_tracking.py). The identifiers that `uuid4` draws are given; the message and the metadata
-- of an audit row are left out.
pub mod Keys
pub mod Laws
mod Tests
use watesly.Base.{
  ℕ, suc, Bool, true, false, not, ◌&&◌, String, Option, none, some, List, [], ◌∷◌, ◌++◌, get,
  select, first, any, count_where, update_where, ◌==◌, if◌then◌else◌, same_text, or_else,
}
use watesly.Models.{
  Database, Contact, contact_row, DateTime, Plan, Subscription, MacTriggerSource, inbound,
  inbox_outbound, ai_outbound, MonthlyActiveContact, MacActivityType, message_inbound,
  message_outbound, call, broadcast, MacActivationAudit,
}
use watesly.Billing.{resolve_channel_billing_period, cycle_month_key}

-- What the services read: the tables of the session, the subscriptions, the plans and the clock.
pub record Context : Type 0 where
  pub db : Database
  pub subscriptions : List Subscription
  pub plans : List Plan
  pub now : DateTime

-- The two tables that recording writes.
pub record Usage : Type 0 where
  pub contacts : List MonthlyActiveContact
  pub audits : List MacActivationAudit

-- `MacActivityType | MacTriggerSource`
pub data ActivityType : Type 0 where
  of_trigger : MacTriggerSource → ActivityType
  of_activity : MacActivityType → ActivityType

pub record Activity : Type 0 where
  pub account_id : ℕ
  pub contact_id : Option ℕ
  pub channel_id : ℕ
  pub activity_type : ActivityType
  pub activity_at : Option DateTime
  pub organization_id : Option ℕ
  pub source_event_id : Option String
  pub new_mac_id : ℕ
  pub new_audit_id : ℕ

pub data Reason : Type 0 where
  missing_contact activity_not_counted no_billing_period duplicate_event : Reason
  created already_active : Reason

pub record MacActivityResult : Type 0 where
  pub created : Bool
  pub mac_record_id : Option ℕ
  pub reason : Reason

abbrev pub from_trigger : MacTriggerSource → MacActivityType
from_trigger inbound = message_inbound
from_trigger inbox_outbound = message_outbound
from_trigger ai_outbound = message_outbound

abbrev pub activity_to_trigger : MacActivityType → MacTriggerSource
activity_to_trigger message_inbound = inbound
activity_to_trigger call = inbound
activity_to_trigger _ = inbox_outbound

abbrev pub resolved_activity : ActivityType → MacActivityType
resolved_activity (of_trigger t) = from_trigger t
resolved_activity (of_activity a) = a

abbrev pub resolved_trigger : ActivityType → MacTriggerSource
resolved_trigger (of_trigger t) = t
resolved_trigger (of_activity a) = activity_to_trigger a

-- `MAC_COUNTED_ACTIVITIES`
abbrev pub is_counted : MacActivityType → Bool
is_counted broadcast = false
is_counted _ = true

abbrev pub same_time : DateTime → DateTime → Bool
same_time a b = a.year == b.year && a.month == b.month && a.day == b.day && a.time == b.time

-- The columns of the unique constraint.
pub record Key : Type 0 where
  pub account_id : ℕ
  pub channel_id : ℕ
  pub contact_id : ℕ
  pub billing_period_start : DateTime

unfoldable pub has_key : Key → MonthlyActiveContact → Bool
has_key k r =
    r.account_id == k.account_id
    && r.channel_id == k.channel_id
    && r.contact_id == k.contact_id
    && same_time r.billing_period_start k.billing_period_start

-- `if source_event_id:`, an empty text being no identifier.
abbrev pub event_name : Option String → Option String
event_name none = none
event_name (some e) = if same_text e "" then none else some e

abbrev pub is_event : String → Option String → Bool
is_event e none = false
is_event e (some f) = same_text f e

abbrev pub is_duplicate_named : ℕ → Option String → List MacActivationAudit → Bool
is_duplicate_named account_id none audits = false
is_duplicate_named account_id (some e) audits =
    any (λ x. x.account_id == account_id && is_event e x.source_event_id) audits

unfoldable pub is_duplicate_event : ℕ → Option String → List MacActivationAudit → Bool
is_duplicate_event account_id source audits =
    is_duplicate_named account_id (event_name source) audits

contact_organization : Option Contact → Option ℕ
contact_organization none = none
contact_organization (some c) = some c.organization_id

row_id : Option MonthlyActiveContact → Option ℕ
row_id none = none
row_id (some r) = some r.id

activity_time : Context → Activity → DateTime
activity_time env activity = or_else activity.activity_at env.now

organization_of : Context → Activity → ℕ → Option ℕ
organization_of env activity contact_id = elim activity.organization_id [
  | none ↦ contact_organization (get contact_id env.db.contacts)
  | some o ↦ some o
]

pub new_contact : Context → Activity → ℕ → DateTime × DateTime → MonthlyActiveContact
new_contact env activity contact_id period = record {
  id = activity.new_mac_id;
  account_id = activity.account_id;
  organization_id = organization_of env activity contact_id;
  channel_id = activity.channel_id;
  contact_id = contact_id;
  cycle_month = cycle_month_key period.0;
  billing_period_start = period.0;
  billing_period_end = period.1;
  trigger_source = resolved_trigger activity.activity_type;
  first_activity_at = activity_time env activity;
  last_active_at = activity_time env activity;
  source_event_id = activity.source_event_id;
}

pub key_of : Activity → ℕ → DateTime → Key
key_of activity contact_id period_start = record {
  account_id = activity.account_id;
  channel_id = activity.channel_id;
  contact_id = contact_id;
  billing_period_start = period_start;
}

-- `INSERT … ON CONFLICT DO NOTHING`, and the update of the row that is there.
pub upsert :
    Key → DateTime → MonthlyActiveContact → List MonthlyActiveContact → List MonthlyActiveContact
upsert k at new rows =
    if any (has_key k) rows
    then update_where (has_key k) (λ r. record r { last_active_at = at }) rows
    else rows ++ (new ∷ [])

pub new_audit : Context → Activity → ℕ → DateTime × DateTime → Bool → Option ℕ → MacActivationAudit
new_audit env activity contact_id period is_new mac_id = record {
  id = activity.new_audit_id;
  account_id = activity.account_id;
  organization_id = organization_of env activity contact_id;
  contact_id = contact_id;
  channel_id = activity.channel_id;
  mac_record_id = mac_id;
  billing_period_start = period.0;
  billing_period_end = period.1;
  activity_type = resolved_activity activity.activity_type;
  activation_source = resolved_trigger activity.activity_type;
  source_event_id = activity.source_event_id;
  created_new_mac = is_new;
  created_at = activity_time env activity;
}

-- What follows the guards of `record_activity`.
pub store_activity :
    Context → Activity → ℕ → DateTime × DateTime → Usage → MacActivityResult × Usage
store_activity env activity contact_id period usage =
    let k = key_of activity contact_id period.0 in
    let is_new : Bool = not (any (has_key k) usage.contacts) in
    let mac_id : Option ℕ =
      if is_new
      then some activity.new_mac_id
      else row_id (first (select (has_key k) usage.contacts)) in
    (
      record {
        created = is_new;
        mac_record_id = mac_id;
        reason = if is_new then created else already_active;
      },
      record {
        contacts =
            upsert k (activity_time env activity) (new_contact env activity contact_id period)
              usage.contacts;
        audits = usage.audits ++ (new_audit env activity contact_id period is_new mac_id ∷ []);
      },
    )

abbrev pub refused : Reason → Usage → MacActivityResult × Usage
refused reason usage = (record { created = false; mac_record_id = none; reason = reason }, usage)

pub record_in_period :
    Context → Activity → ℕ → Option (DateTime × DateTime) → Usage → MacActivityResult × Usage
record_in_period env activity contact_id none usage = refused no_billing_period usage
record_in_period env activity contact_id (some period) usage =
    if is_duplicate_event activity.account_id activity.source_event_id usage.audits
    then refused duplicate_event usage
    else store_activity env activity contact_id period usage

pub activity_period : Context → Activity → Option (DateTime × DateTime)
activity_period env activity =
    resolve_channel_billing_period env.db env.subscriptions env.plans env.now activity.channel_id
      (activity_time env activity)

pub record_for : Context → Activity → Option ℕ → Usage → MacActivityResult × Usage
record_for env activity none usage = refused missing_contact usage
record_for env activity (some contact_id) usage =
    if not (is_counted (resolved_activity activity.activity_type))
    then refused activity_not_counted usage
    else record_in_period env activity contact_id (activity_period env activity) usage

unfoldable pub record_activity : Context → Activity → Usage → MacActivityResult × Usage
record_activity env activity usage = record_for env activity activity.contact_id usage

-- The count for a channel whose period is given.
pub count_mac_for_channel : ℕ → ℕ → DateTime → List MonthlyActiveContact → ℕ
count_mac_for_channel account_id channel_id period_start = count_where (λ r.
    r.account_id == account_id
    && r.channel_id == channel_id
    && same_time r.billing_period_start period_start)
