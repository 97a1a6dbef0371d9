-- ===== src/Billing/Activity/Tests.antt =====
-- Recording activities on concrete inputs: a message of a contact in May 2025, in an account without
-- a subscription, where a period is a calendar month.
use watesly.Billing.{resolve_channel_billing_period}
use watesly.Base.{◌+◌, ◌≡◌, refl, true, ◌||◌, none, some, [], any, if◌then◌else◌, ◌&&◌}
use watesly.Models.{DateTime, message_inbound, broadcast}
use watesly.Fixtures.{sample}
use watesly.Billing.Activity.{
  store_activity, is_duplicate_event, record_in_period, record_for, Context, Usage, Activity,
  of_activity, Key, has_key, activity_period, record_activity, refused, activity_not_counted,
  duplicate_event, count_mac_for_channel,
}
use watesly.Billing.Activity.Laws.{
  counts, is_counted_key, is_new_key, is_counted_for, record_activity-refines,
  count_mac_for_channel-record_activity, record_activity-again,
}

abbrev may : DateTime
may = record { year = 2025; month = 5; day = 4; time = 9 }

abbrev first_of_may : DateTime
first_of_may = record { year = 2025; month = 5; day = 1; time = 0 }

abbrev env : Context
env = record { db = sample; subscriptions = []; plans = []; now = may }

abbrev hello : Activity
hello = record {
  account_id = 1;
  contact_id = some 11;
  channel_id = 6;
  activity_type = of_activity message_inbound;
  activity_at = none;
  organization_id = none;
  source_event_id = some "wamid.1";
  new_mac_id = 81;
  new_audit_id = 82;
}

abbrev empty_usage : Usage
empty_usage = record { contacts = []; audits = [] }

hello_created : (record_activity env hello empty_usage).0.created ≡ true
unfolding record_activity record_for record_in_period activity_period resolve_channel_billing_period
    is_duplicate_event store_activity
hello_created = refl

broadcast_refused :
    record_activity env (record hello { activity_type = of_activity broadcast }) empty_usage
    ≡ refused activity_not_counted empty_usage
unfolding record_activity record_for
broadcast_refused = refl

record_activity-refines_example :
    ((k : Key)
      → any (has_key k) (record_activity env hello empty_usage).1.contacts
        ≡ is_counted_key hello (counts env hello empty_usage) k || any (has_key k) [])
    × ((record_activity env hello empty_usage).0.created
        ≡ is_new_key hello empty_usage (counts env hello empty_usage))
record_activity-refines_example = record_activity-refines env hello empty_usage

count_mac_for_channel-record_activity_example :
    count_mac_for_channel 1 6 first_of_may (record_activity env hello empty_usage).1.contacts
    ≡ count_mac_for_channel 1 6 first_of_may []
      + (if (record_activity env hello empty_usage).0.created
            && is_counted_for hello (counts env hello empty_usage) 1 6 first_of_may
          then 1
          else 0)
count_mac_for_channel-record_activity_example =
    count_mac_for_channel-record_activity env hello empty_usage 1 6 first_of_may

record_activity-again_example :
    (let s = (record_activity env hello empty_usage).1 in
      record_activity env
        (record hello { new_mac_id = 83; new_audit_id = 84; activity_at = none })
        s
      ≡ refused duplicate_event s)
unfolding activity_period resolve_channel_billing_period is_duplicate_event
record_activity-again_example =
    record_activity-again env hello empty_usage "wamid.1" 83 84 none _ _ refl refl refl
