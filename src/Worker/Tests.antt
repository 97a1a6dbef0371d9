-- ===== src/Worker/Tests.antt =====
-- Runs of the task.
use watesly.Base.{◌+◌, false, refl, some, All}
use watesly.Models.{Campaign, paused, campaign_row}
use watesly.Fixtures.{sample_with, spring, plain_text}
use watesly.Worker.{accepted, Environment}
use watesly.Worker.Loop.{run_campaign}
use watesly.Worker.Safety.{IsGuarded, run_campaign-IsGuarded}

-- Nothing happens beside the task, and Meta accepts every message.
abbrev quiet : Environment
quiet = record {
  other = λ _ db. db;
  now = λ n. n + 1000;
  reply = λ _. accepted (some "wamid.1");
  fresh = λ n. n + 500;
  locked = λ _ _. false;
  held = λ _ row. row;
}

abbrev paused_spring : Campaign
paused_spring = record spring { status = paused; execution_token = some 77 }

run_campaign-IsGuarded_example :
    All
      (IsGuarded plain_text 5 77)
      (run_campaign plain_text quiet 5 77 false 3 (sample_with paused_spring)).0.log
run_campaign-IsGuarded_example =
    run_campaign-IsGuarded plain_text quiet 5 77 false 3 (sample_with paused_spring)
      λ n row. (refl, refl)
