-- ===== src/Outbox/Invariant.antt =====
-- What holds of every row of the outbox between two transactions
-- (backend/app/services/outbox.py, backend/app/workers/outbox_tasks.py).
use watesly.Base.{
  ℕ, ◌≤◌, ◌<◌, String, Bool, true, false, ◌≡◌, refl, sym, ◌∙◌, some, List, [], ◌∷◌, All, select,
  contains, update_where, order_by, get, satisfies, HasUniqueKeys, HasUniqueKeys-update_where,
  All-update_where, All-found, any-key, any-take, any-select, any-order_by, contains-map, arith,
  is_some, leb, ◌==◌, Bool-cases, inl, inr,
}
use watesly.Models.{OutboxEvent, OutboxStatus, outbox_row}
use watesly.Outbox.{
  reclaim, reclaim_stale_events, is_claimable, claim, claimed_ids, claim_outbox_events, Outcome,
  published, raised, settle, settle_all, publish_outbox_events,
}

abbrev pub is_processing : OutboxStatus → Bool
is_processing OutboxStatus.processing = true
is_processing _ = false

abbrev pub is_published : OutboxStatus → Bool
is_published OutboxStatus.published = true
is_published _ = false

abbrev pub is_dead : OutboxStatus → Bool
is_dead OutboxStatus.dead = true
is_dead _ = false

-- Locked exactly while it is processed, never tried too often, dated when published, and given up
-- only after the last try.
pub record IsConsistent (e : OutboxEvent) : Type 0 where
  pub locked : is_some e.locked_at ≡ is_processing e.status
  pub owned : is_some e.lock_owner ≡ is_processing e.status
  pub bounded : e.attempts ≤ e.max_attempts
  pub dated : is_published e.status ≡ true → is_some e.processed_at ≡ true
  pub exhausted : is_dead e.status ≡ true → e.attempts ≡ e.max_attempts

reclaim-IsConsistent : (e : OutboxEvent) → IsConsistent e → IsConsistent (reclaim e)
unfolding reclaim
reclaim-IsConsistent e h = ground arith

claim-IsConsistent :
    (now : ℕ) (worker_id : String) (e : OutboxEvent)
    → e.attempts < e.max_attempts
    → IsConsistent (claim now worker_id e)
unfolding claim
claim-IsConsistent now worker_id e h = ground arith

settle-IsConsistent :
    (now : ℕ) (o : Outcome) (e : OutboxEvent) → IsConsistent e → IsConsistent (settle now o e)
unfolding settle
settle-IsConsistent now published e h = ground arith
settle-IsConsistent now (raised message) e h = ground arith

update-IsConsistent :
    (p : OutboxEvent → Bool) (f : OutboxEvent → OutboxEvent)
    (keep : (e : OutboxEvent) → IsConsistent e → IsConsistent (f e)) (es : List OutboxEvent)
    → All IsConsistent es
    → All IsConsistent (update_where p f es)
update-IsConsistent p f keep es h = All-update_where IsConsistent p f (λ e c hit. keep e c) es h

reclaim_stale-IsConsistent :
    (now s : ℕ) (es : List OutboxEvent)
    → All IsConsistent es
    → All IsConsistent (reclaim_stale_events now s es)
unfolding reclaim_stale_events
reclaim_stale-IsConsistent now s es h = update-IsConsistent _ reclaim reclaim-IsConsistent es h

-- A claimed id belongs to a claimable row.
claimed-claimable :
    (now limit i : ℕ) (es : List OutboxEvent)
    → HasUniqueKeys es
    → contains i (claimed_ids now limit es) ≡ true
    → satisfies (is_claimable now) (get i es) ≡ true
unfolding claimed_ids
claimed-claimable now limit i es unique h =
    let before = λ (a b : OutboxEvent). leb a.created_at b.created_at in
    let named = λ (e : OutboxEvent). i == e.id in
    let rows = select (is_claimable now) es in
    sym (any-key (is_claimable now) i es unique)
    ∙ sym (any-select named (is_claimable now) es)
    ∙ sym (any-order_by before named rows)
    ∙ any-take named limit (order_by before rows)
        (sym (contains-map i (λ (e : OutboxEvent). e.id) _) ∙ h)

claim_rows-IsConsistent :
    (now : ℕ) (worker_id : String) (ids : List ℕ) (table es : List OutboxEvent)
    → ((i : ℕ) → contains i ids ≡ true → satisfies (is_claimable now) (get i table) ≡ true)
    → All (λ e. get e.id table ≡ some e) es
    → All IsConsistent es
    → All IsConsistent (update_where (λ e. contains e.id ids) (claim now worker_id) es)
claim_rows-IsConsistent now worker_id ids table [] claimable found h = tt
claim_rows-IsConsistent now worker_id ids table (e ∷ es) claimable found h =
    elim (Bool-cases (contains e.id ids)) [
      | inl hit ↦ rw hit (
        claim-IsConsistent now worker_id e (ground (arith, claimable e.id hit, found.0)),
        claim_rows-IsConsistent now worker_id ids table es claimable found.1 h.1,
      )
      | inr miss ↦
          rw miss (h.0, claim_rows-IsConsistent now worker_id ids table es claimable found.1 h.1)
    ]

-- The table of the outbox: unique ids, and every row consistent.
pub record IsSound (es : List OutboxEvent) : Type 0 where
  pub unique : HasUniqueKeys es
  pub rows : All IsConsistent es

reclaim_stale_unique :
    (now s : ℕ) (es : List OutboxEvent)
    → HasUniqueKeys es
    → HasUniqueKeys (reclaim_stale_events now s es)
unfolding reclaim_stale_events reclaim
reclaim_stale_unique now s es h = HasUniqueKeys-update_where _ reclaim (λ e. refl) es h

-- Claiming keeps the table sound: ids stay unique, a lock and its owner are set exactly while a row
-- is processed, no row is tried more often than its maximum, a published row is dated, and a dead
-- one has used all its tries.
pub claim-IsSound :
    (now : ℕ) (worker_id : String) (limit : ℕ) (es : List OutboxEvent)
    → IsSound es
    → IsSound (claim_outbox_events now worker_id limit es).1
unfolding claim_outbox_events claim
claim-IsSound now worker_id limit es h =
    let table = reclaim_stale_events now 120 es in
    let unique : HasUniqueKeys table = reclaim_stale_unique now 120 es h.unique in
    let ids = claimed_ids now limit table in
    record {
      unique =
          HasUniqueKeys-update_where (λ e. contains e.id ids) (claim now worker_id) (λ e. refl)
            table unique;
      rows =
          claim_rows-IsConsistent now worker_id ids table table
            (λ i hit. claimed-claimable now limit i table unique hit) (All-found table unique)
            (reclaim_stale-IsConsistent now 120 es h.rows);
    }

settle-key : (now : ℕ) (o : Outcome) (e : OutboxEvent) → (settle now o e).id ≡ e.id
unfolding settle
settle-key now published e = refl
settle-key now (raised message) e = refl

settle_all-IsSound :
    (now : ℕ) (outcome : ℕ → Outcome) (ids : List ℕ) (es : List OutboxEvent)
    → IsSound es
    → IsSound (settle_all now outcome ids es)
unfolding settle_all
settle_all-IsSound now outcome [] es h = h
settle_all-IsSound now outcome (i ∷ ids) es h =
    settle_all-IsSound now outcome ids (update_where (λ e. e.id == i) (settle now (outcome i)) es)
      (record {
        unique =
            HasUniqueKeys-update_where _ (settle now (outcome i)) (settle-key now (outcome i)) es
              h.unique;
        rows =
            update-IsConsistent _ (settle now (outcome i)) (settle-IsConsistent now (outcome i)) es
              h.rows;
      })

-- A whole run of the worker, whatever the event bus does with each event, keeps the table sound:
-- ids stay unique, and every row has its lock, its number of tries and its dates in order.
pub publish_outbox_events-IsSound :
    (now : ℕ) (worker_id : String) (outcome : ℕ → Outcome) (es : List OutboxEvent)
    → IsSound es
    → IsSound (publish_outbox_events now worker_id outcome es).1
unfolding publish_outbox_events
publish_outbox_events-IsSound now worker_id outcome es h =
    settle_all-IsSound now outcome (claim_outbox_events now worker_id 100 es).0
      (claim_outbox_events now worker_id 100 es).1 (claim-IsSound now worker_id 100 es h)
