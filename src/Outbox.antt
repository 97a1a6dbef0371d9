-- ===== src/Outbox.antt =====
-- The transactional outbox: services write events, a worker claims them in batches and publishes
-- them (backend/app/services/outbox.py and backend/app/workers/outbox_tasks.py). The table is the
-- list of its rows; an instant is a number of seconds.
pub mod Invariant
pub mod Delivery
mod Tests
use watesly.Base.{
  ℕ, ◌+◌, ◌-◌, ◌^◌, min, String, Bool, true, false, ◌&&◌, Option, none, some, List, [], ◌∷◌, ◌++◌,
  map, select, take, contains, update_where, order_by, length, get, put, Action, modify, ltb, leb,
  ◌==◌, if◌then◌else◌, suc, truncate,
}
use watesly.Models.{Database, OutboxEvent, OutboxStatus, Value, outbox_row}

unfoldable pub add_outbox_event :
    ℕ → ℕ → ℕ → String → String → ℕ → List (String × Value) → Action Database (Unit {0})
add_outbox_event now event_id account_id event_type aggregate_type aggregate_id payload =
    modify λ db. record db {
      outbox =
          db.outbox
          ++ record {
            id = event_id;
            account_id = account_id;
            event_type = event_type;
            aggregate_type = aggregate_type;
            aggregate_id = aggregate_id;
            payload = payload;
            status = OutboxStatus.pending;
            attempts = 0;
            available_at = now;
            created_at = now;
            locked_at = none;
            lock_owner = none;
            max_attempts = 10;
            processed_at = none;
            last_error = none;
          }
            ∷ [];
    }

-- `event.status == PROCESSING and event.locked_at < cutoff`; NULL is not less than anything.
abbrev pub is_stale : ℕ → OutboxStatus → Option ℕ → Bool
is_stale cutoff OutboxStatus.processing (some t) = ltb t cutoff
is_stale cutoff _ _ = false

pub reclaim : OutboxEvent → OutboxEvent
reclaim e = record e {
  status = OutboxStatus.failed;
  lock_owner = none;
  locked_at = none;
  last_error = some "stale processing lock reclaimed";
}

-- Besides the rows, the source returns how many it changed; no caller uses that.
pub reclaim_stale_events : ℕ → ℕ → List OutboxEvent → List OutboxEvent
reclaim_stale_events now stale_after_seconds =
    update_where (λ e. is_stale (now - stale_after_seconds) e.status e.locked_at) reclaim

-- `status IN (PENDING, FAILED)`
abbrev pub is_waiting : OutboxStatus → Bool
is_waiting OutboxStatus.pending = true
is_waiting OutboxStatus.failed = true
is_waiting _ = false

abbrev pub is_claimable : ℕ → OutboxEvent → Bool
is_claimable now e = is_waiting e.status && leb e.available_at now && ltb e.attempts e.max_attempts

pub claim : ℕ → String → OutboxEvent → OutboxEvent
claim now worker_id e = record e {
  status = OutboxStatus.processing;
  locked_at = some now;
  lock_owner = some worker_id;
  attempts = suc e.attempts;
}

-- The ids that the claiming query selects: the oldest claimable rows, `limit` of them at most.
claimed_ids : ℕ → ℕ → List OutboxEvent → List ℕ
claimed_ids now limit events =
    map (λ e. e.id)
      (take limit
        (order_by (λ a b. leb a.created_at b.created_at) (select (is_claimable now) events)))

-- The claimed rows, by their ids, and the table after the claim.
pub claim_outbox_events : ℕ → String → ℕ → List OutboxEvent → List ℕ × List OutboxEvent
claim_outbox_events now worker_id limit events =
    let table = reclaim_stale_events now 120 events in
    let ids = claimed_ids now limit table in
    (ids, update_where (λ e. contains e.id ids) (claim now worker_id) table)

-- `next_retry`: 2^min(attempts, 8) seconds, five minutes at most.
pub next_retry : ℕ → ℕ → ℕ
next_retry now attempts = now + min 300 (2 ^ min attempts 8)

-- What publishing one event to the bus does: it returns, or it raises with a message.
pub data Outcome : Type 0 where
  published : Outcome
  raised : String → Outcome

-- One round of the worker's loop over a claimed event.
pub settle : ℕ → Outcome → OutboxEvent → OutboxEvent
settle now published e = record e {
  status = OutboxStatus.published;
  processed_at = some now;
  last_error = none;
  lock_owner = none;
  locked_at = none;
}
settle now (raised message) e = record e {
  status = if leb e.max_attempts e.attempts then OutboxStatus.dead else OutboxStatus.failed;
  lock_owner = none;
  locked_at = none;
  last_error = some (truncate 2000 message);
  available_at = next_retry now e.attempts;
}

-- The loop over the claimed ids; the outcome of each publication comes from the event bus.
pub settle_all : ℕ → (ℕ → Outcome) → List ℕ → List OutboxEvent → List OutboxEvent
settle_all now outcome [] table = table
settle_all now outcome (i ∷ ids) table =
    settle_all now outcome ids (update_where (λ e. e.id == i) (settle now (outcome i)) table)

count_published : (ℕ → Outcome) → List ℕ → ℕ
count_published outcome [] = 0
count_published outcome (i ∷ ids) = elim (outcome i) [
  | published ↦ suc (count_published outcome ids)
  | raised message ↦ count_published outcome ids
]

pub record Published : Type 0 where
  pub claimed : ℕ
  pub published_count : ℕ
  pub failed_count : ℕ

-- `_publish`: claim, publish one by one, report.
pub publish_outbox_events :
    ℕ → String → (ℕ → Outcome) → List OutboxEvent → Published × List OutboxEvent
publish_outbox_events now worker_id outcome events =
    let (ids, table) = claim_outbox_events now worker_id 100 events in
    let sent = count_published outcome ids in
    (
      record { claimed = length ids; published_count = sent; failed_count = length ids - sent },
      settle_all now outcome ids table,
    )
