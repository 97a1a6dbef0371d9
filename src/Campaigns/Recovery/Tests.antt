-- ===== src/Campaigns/Recovery/Tests.antt =====
-- Runs of the recovery of campaigns.
use watesly.Base.{◌≡◌, refl, some, [], ◌∷◌, map}
use watesly.Models.{Database, Campaign, scheduled, running, paused, RecipientStatus, campaign_row}
use watesly.Fixtures.{sample, sample_with, spring, first_recipient, second_recipient}
use watesly.Campaigns.Recovery.{
  older_than, is_stale_scheduled, scheduled_rows, is_stale_running, running_rows, stuck_campaigns,
}
use watesly.Campaigns.Recovery.Stuck.{reschedule, stuck_campaigns-reschedule}

abbrev paused_spring : Campaign
paused_spring = record spring { status = paused }

abbrev one_failed : Database
one_failed = record (sample_with paused_spring) {
  recipients =
      record first_recipient { status = RecipientStatus.failed; error_message = some "gone" }
      ∷ second_recipient
      ∷ [];
}

abbrev retried : Database
retried = sample_with (record spring {
  status = running;
  execution_token = some 77;
  active_task_id = some 78;
  last_heartbeat_at = some 500;
})

abbrev tomorrow : Campaign
tomorrow = record spring { status = scheduled; scheduled_at = some 90000 }

stuck_campaigns-reschedule_example :
    stuck_campaigns 500 20 (map (reschedule (λ _. some 90000)) (tomorrow ∷ []))
    ≡ map (reschedule (λ _. some 90000)) (stuck_campaigns 500 20 (tomorrow ∷ []))
stuck_campaigns-reschedule_example =
    stuck_campaigns-reschedule (λ _. some 90000) 500 20 (tomorrow ∷ [])

-- A campaign that is scheduled for a much later time counts as stuck after three minutes.
tomorrow_is_stuck : stuck_campaigns 500 20 (tomorrow ∷ []) ≡ tomorrow ∷ []
unfolding stuck_campaigns running_rows is_stale_running scheduled_rows is_stale_scheduled older_than
tomorrow_is_stuck = refl

abbrev two_campaigns : Database
two_campaigns = record sample { campaigns = tomorrow ∷ record spring { id = 9 } ∷ [] }
