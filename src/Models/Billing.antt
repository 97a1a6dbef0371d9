-- ===== src/Models/Billing.antt =====
-- Plans, subscriptions and the contacts that count in a billing period: models/subscription.py,
-- plan.py, monthly_active_contact.py and mac_activation_audit.py. Where the code computes with the
-- calendar, an instant is a date and a time of day, in UTC; a price is the number of its thousandths
-- (`Numeric(12, 3)`).
use watesly.Base.{ℕ, String, Bool, Option}

-- Python's `datetime`: the time is the number of microseconds since midnight.
pub record DateTime : Type 0 where
  pub year : ℕ
  pub month : ℕ
  pub day : ℕ
  pub time : ℕ

pub data BillingCycle : Type 0 where
  monthly yearly trial : BillingCycle

pub record Plan : Type 0 where
  pub id : ℕ
  pub max_users : ℕ
  pub included_mac : ℕ
  pub over_mac_price_per_100 : ℕ
  pub overage_enabled : Bool

pub record Subscription : Type 0 where
  pub id : ℕ
  pub account_id : ℕ
  pub plan_id : ℕ
  pub billing_cycle : BillingCycle
  pub starts_at : DateTime
  pub ends_at : DateTime
  pub included_mac_override : Option ℕ
  pub over_mac_price_per_100_override : Option ℕ

pub data MacTriggerSource : Type 0 where
  inbound inbox_outbound ai_outbound : MacTriggerSource

-- `cycle_month` is the year and the month of the period's start.
pub record MonthlyActiveContact : Type 0 where
  pub id : ℕ
  pub account_id : ℕ
  pub organization_id : Option ℕ
  pub channel_id : ℕ
  pub contact_id : ℕ
  pub cycle_month : ℕ × ℕ
  pub billing_period_start : DateTime
  pub billing_period_end : DateTime
  pub trigger_source : MacTriggerSource
  pub first_activity_at : DateTime
  pub last_active_at : DateTime
  pub source_event_id : Option String

pub data MacActivityType : Type 0 where
  message_inbound message_outbound call broadcast : MacActivityType

pub record MacActivationAudit : Type 0 where
  pub id : ℕ
  pub account_id : ℕ
  pub organization_id : Option ℕ
  pub contact_id : ℕ
  pub channel_id : ℕ
  pub mac_record_id : Option ℕ
  pub billing_period_start : DateTime
  pub billing_period_end : DateTime
  pub activity_type : MacActivityType
  pub activation_source : MacTriggerSource
  pub source_event_id : Option String
  pub created_new_mac : Bool
  pub created_at : DateTime
