-- ===== src/Outbox/Tests.antt =====
-- Runs of the outbox.
use watesly.Base.{true, ◌||◌, ◌≡◌, refl, some, [], ◌∷◌, arith}
use watesly.Models.{OutboxEvent, OutboxStatus, outbox_row}
use watesly.Fixtures.{notice}
use watesly.Outbox.{publish_outbox_events, raised}
use watesly.Outbox.Invariant.{IsSound, publish_outbox_events-IsSound, is_published, is_dead}
use watesly.Outbox.Delivery.{try_all, delivery_settles}

notice-IsSound : IsSound (notice ∷ [])
notice-IsSound = record {
  unique = (refl, tt);
  rows = (
    record {
      locked = refl;
      owned = refl;
      bounded = omega arith;
      dated = λ h. cc;
      exhausted = λ h. cc;
    },
    tt,
  );
}

publish_outbox_events-IsSound_example :
    IsSound (publish_outbox_events 300 "worker" (λ _. raised "no bus") (notice ∷ [])).1
publish_outbox_events-IsSound_example =
    publish_outbox_events-IsSound 300 "worker" (λ _. raised "no bus") (notice ∷ []) notice-IsSound

abbrev broken_off : OutboxEvent
broken_off = record notice {
  status = OutboxStatus.processing;
  attempts = 2;
  locked_at = some 300;
  lock_owner = some "worker";
}

delivery_settles_example :
    let e = try_all "worker" ((300, raised "a") ∷ (400, raised "b") ∷ []) notice in
    (is_published e.status || is_dead e.status) ≡ true
delivery_settles_example =
    delivery_settles "worker" ((300, raised "a") ∷ (400, raised "b") ∷ []) notice refl (omega arith)
      (omega arith)
