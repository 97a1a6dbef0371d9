-- ===== src/Campaigns/Lifecycle/Tests.antt =====
-- Runs of the campaign requests.
use watesly.Outbox.{add_outbox_event}
use watesly.Base.{String, ◌≡◌, refl, ◌↔◌, none, some, List, [], ◌∷◌, ok}
use watesly.Models.{
  OutboxEvent, Value, ident, text, Database, Campaign, scheduled, running, paused, cancelled,
  campaign_row,
}
use watesly.Fixtures.{notice, sample, sample_with, spring}
use watesly.Campaigns.Lookup.{recipient_count, get_campaign}
use watesly.Campaigns.Lifecycle.{
  follow_up_count, sent_count, pause_campaign, locked_campaign, member_check,
  prepare_campaign_start, delete_draft_campaign, enforce_campaign_tier_limit, unsent_count,
  tier_checks,
}
use watesly.Campaigns.Lifecycle.Transitions.{pause, start, retry, Moved, perform}
use watesly.Campaigns.Lifecycle.Moves.{perform-Moved}
use watesly.Campaigns.Lifecycle.Requests.{Request, serve, IsCancelled, serve-IsCancelled}
use watesly.Campaigns.Lifecycle.Guards.{
  Started, prepare_campaign_start_iff, Deleted, delete_draft_campaign-Deleted,
}

abbrev running_spring : Campaign
running_spring = record spring { status = running }

abbrev paused_spring : Campaign
paused_spring = record spring { status = paused; paused_at = some 300 }

perform-Moved_example : Moved (sample_with running_spring) 1 5 pause (sample_with paused_spring)
unfolding perform pause_campaign get_campaign
perform-Moved_example =
    perform-Moved 300 1 5 none pause (sample_with running_spring) (sample_with paused_spring) refl

abbrev cancelled_spring : Campaign
cancelled_spring = record spring { status = cancelled }

abbrev restart_request : Request
restart_request = record {
  now = 400;
  account_id = 1;
  campaign_id = 5;
  membership = none;
  operation = start 77;
}

abbrev retry_request : Request
retry_request = record restart_request { operation = retry 78 79 }

serve-IsCancelled_example :
    IsCancelled 5 (serve (restart_request ∷ retry_request ∷ []) (sample_with cancelled_spring))
serve-IsCancelled_example =
    serve-IsCancelled 5 (restart_request ∷ retry_request ∷ []) (sample_with cancelled_spring)
      (record { row = cancelled_spring; exists = refl; over = refl })

abbrev started_spring : Campaign
started_spring = record spring { status = scheduled; execution_token = some 77 }

prepare_campaign_start_example :
    (prepare_campaign_start 77 1 5 none sample ≡ ok (started_spring, sample_with started_spring))
    ↔ Started 77 1 5 none sample started_spring (sample_with started_spring)
prepare_campaign_start_example =
    prepare_campaign_start_iff 77 1 5 none sample started_spring (sample_with started_spring)

abbrev archived_spring : Campaign
archived_spring = record paused_spring { archived_at = some 500 }

abbrev event_of : String → List (String × Value) → OutboxEvent
event_of event_type payload = record notice {
  id = 61;
  event_type = event_type;
  payload = payload;
  available_at = 500;
  created_at = 500;
  max_attempts = 10;
}

abbrev archived_db : Database
archived_db = record (sample_with archived_spring) {
  outbox = event_of "campaign.archived" (("campaign_id", ident 5) ∷ []) ∷ [];
}

abbrev emptied_db : Database
emptied_db = record sample {
  campaigns = [];
  recipients = [];
  outbox =
      event_of "campaign.deleted" (("campaign_id", ident 5) ∷ ("name", text "spring") ∷ []) ∷ [];
}

delete_draft_campaign_example : Deleted 1 5 none sample emptied_db
unfolding delete_draft_campaign get_campaign sent_count follow_up_count add_outbox_event
delete_draft_campaign_example = delete_draft_campaign-Deleted 500 61 1 5 none sample emptied_db refl

-- A start is possible, and uses the fresh token.
start_run :
    prepare_campaign_start 77 1 5 none sample ≡ ok (started_spring, sample_with started_spring)
unfolding prepare_campaign_start member_check locked_campaign get_campaign recipient_count
    enforce_campaign_tier_limit tier_checks unsent_count
start_run = refl
