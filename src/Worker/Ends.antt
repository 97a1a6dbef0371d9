-- ===== src/Worker/Ends.antt =====
-- How the task ends (backend/app/workers/campaign_tasks.py).
use watesly.Base.{ℕ, ◌≡◌, Option, none, some, [], ◌==◌, if◌then◌else◌, PythonText}
use watesly.Models.{
  completed, completed_with_errors, campaign_row, contact_row, whatsapp_account_row, template_row,
}
use watesly.Worker.{Environment, Progress, TaskStatus, finished}
use watesly.Worker.Loop.{next_batch}

-- A task that says it is finished has said so of the failures it counted, and leaves no waiting
-- recipient with a live contact but those that other transactions had locked.
abbrev pub IsSettled : Environment → ℕ → ℕ → Progress × Option TaskStatus → Type 0
IsSettled env campaign_id size (p, none) = Unit
IsSettled env campaign_id size (p, some (finished status)) =
    (status ≡ (if p.failed_count == 0 then completed else completed_with_errors))
    × (next_batch env p.reads p.db campaign_id size ≡ [])
IsSettled env campaign_id size (p, some _) = Unit

module _ (py : PythonText) (env : Environment) (i n : ℕ) where
  abbrev S : Progress × Option TaskStatus → Type 0
  S = IsSettled env i n
