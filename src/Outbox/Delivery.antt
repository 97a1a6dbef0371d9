-- ===== src/Outbox/Delivery.antt =====
-- How an event leaves the outbox (backend/app/services/outbox.py, backend/app/workers/outbox_tasks.py).
use watesly.Base.{
  ℕ, zero, suc, ◌≤◌, ◌<◌, ◌+◌, ◌^◌, min, String, Bool, true, false, ◌&&◌, ◌≡◌, List, [], ◌∷◌,
  length, length-take-le, length-map, arith, ◌||◌, ltb, if◌then◌else◌, Bool-cases, inl, inr,
}
use watesly.Models.{OutboxEvent, OutboxStatus, outbox_row}
use watesly.Outbox.{
  is_waiting, claim, claimed_ids, claim_outbox_events, next_retry, Outcome, published, raised,
  settle,
}
use watesly.Outbox.Invariant.{is_published, is_dead}

-- One try of a waiting event that has tries left: it is claimed, published and settled.
pub try_event : String → ℕ × Outcome → OutboxEvent → OutboxEvent
try_event worker_id (now, o) e =
    if is_waiting e.status && ltb e.attempts e.max_attempts
    then settle now o (claim now worker_id e)
    else e

pub try_all : String → List (ℕ × Outcome) → OutboxEvent → OutboxEvent
try_all worker_id [] e = e
try_all worker_id (t ∷ ts) e = try_all worker_id ts (try_event worker_id t e)

abbrev is_settled : OutboxStatus → Bool
is_settled OutboxStatus.published = true
is_settled OutboxStatus.dead = true
is_settled _ = false

-- Waiting with tries left, or settled.
record IsLive (e : OutboxEvent) : Type 0 where
  waiting :
      is_settled e.status ≡ false → (is_waiting e.status ≡ true) × (e.attempts < e.max_attempts)

try_event-IsLive :
    (worker_id : String) (now : ℕ) (o : Outcome) (e : OutboxEvent)
    → IsLive e
    → IsLive (try_event worker_id (now, o) e)
unfolding try_event settle claim
try_event-IsLive worker_id now published e h = ground (arith, h.waiting)
try_event-IsLive worker_id now (raised m) e h = ground (arith, h.waiting)

-- How far one try brings an event: it is settled, or one of its tries is used up.
try_event-progress :
    (worker_id : String) (now : ℕ) (o : Outcome) (e : OutboxEvent) (n : ℕ)
    → IsLive e
    → (is_settled e.status ≡ false → e.max_attempts ≤ e.attempts + suc n)
    → let e' = try_event worker_id (now, o) e in
      is_settled e'.status ≡ false → e'.max_attempts ≤ e'.attempts + n
unfolding try_event settle claim
try_event-progress worker_id now published e n h bound = ground (arith, h.waiting)
try_event-progress worker_id now (raised m) e n h bound = ground (arith, h.waiting)

try_all-settles :
    (worker_id : String) (ts : List (ℕ × Outcome)) (e : OutboxEvent)
    → IsLive e
    → (is_settled e.status ≡ false → e.max_attempts ≤ e.attempts + length ts)
    → is_settled (try_all worker_id ts e).status ≡ true
unfolding try_all
try_all-settles worker_id [] e h bound = elim (Bool-cases (is_settled e.status)) [
  | inl settled ↦ settled
  | inr unsettled ↦ absurd (omega (arith, bound unsettled, h.waiting unsettled))
]
try_all-settles worker_id ((now, o) ∷ ts) e h bound =
    try_all-settles worker_id ts (try_event worker_id (now, o) e)
      (try_event-IsLive worker_id now o e h)
      (try_event-progress worker_id now o e (length ts) h bound)

-- A waiting event is published or dead after as many tries as it has left, whatever each try of
-- the event bus does, provided that no worker crashes in the middle of a try.
pub delivery_settles :
    (worker_id : String) (ts : List (ℕ × Outcome)) (e : OutboxEvent)
    → is_waiting e.status ≡ true
    → e.attempts < e.max_attempts
    → e.max_attempts ≤ e.attempts + length ts
    → let e' = try_all worker_id ts e in (is_published e'.status || is_dead e'.status) ≡ true
delivery_settles worker_id ts e w a enough =
    ground (arith, try_all-settles worker_id ts e (record { waiting = λ _. (w, a) }) (λ _. enough))

-- A worker claims at most `limit` events.
pub length-claimed-le :
    (now : ℕ) (worker_id : String) (limit : ℕ) (es : List OutboxEvent)
    → length (claim_outbox_events now worker_id limit es).0 ≤ limit
unfolding claim_outbox_events claimed_ids
length-claimed-le now worker_id limit es = rw length-map (length-take-le limit _)

pow_min_8 : (a : ℕ) → (2 ≤ 2 ^ min (suc a) 8) × (2 ^ min (suc a) 8 ≤ 256)
pow_min_8 zero = omega arith
pow_min_8 (suc zero) = omega arith
pow_min_8 (suc (suc zero)) = omega arith
pow_min_8 (suc (suc (suc zero))) = omega arith
pow_min_8 (suc (suc (suc (suc zero)))) = omega arith
pow_min_8 (suc (suc (suc (suc (suc zero))))) = omega arith
pow_min_8 (suc (suc (suc (suc (suc (suc zero)))))) = omega arith
pow_min_8 (suc (suc (suc (suc (suc (suc (suc a))))))) =
    let e : min (suc (suc (suc (suc (suc (suc (suc (suc a)))))))) 8 ≡ 8 = omega arith in
    rw e (omega arith)

-- The wait before a retry is at least two seconds and at most 256: the cap of five minutes is
-- never reached.
pub next_retry_bounds :
    (now attempts : ℕ)
    → (now + 2 ≤ next_retry now (suc attempts)) × (next_retry now (suc attempts) ≤ now + 256)
unfolding next_retry
next_retry_bounds now attempts = omega (arith, pow_min_8 attempts)
