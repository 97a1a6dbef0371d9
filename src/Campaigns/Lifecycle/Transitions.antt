-- ===== src/Campaigns/Lifecycle/Transitions.antt =====
-- The states of a campaign and the moves between them (backend/app/services/campaigns.py, the retry
-- of campaign_recovery.py).
use watesly.Base.{
  ℕ, String, Bool, true, false, not, ◌≡◌, ◌≢◌, ap, ◌∙◌, Option, none, some, List, select, get, put,
  remove, key-get, Result, ok, err, arith, ◌==◌, is_some,
}
use watesly.Models.{
  Database, Membership, Campaign, CampaignStatus, draft, scheduled, running, paused, cancelled,
  completed, campaign_row,
}
use watesly.Campaigns.Lookup.{get_campaign}
use watesly.Campaigns.Lifecycle.{
  approve_campaign, prepare_campaign_start, pause_campaign, cancel_campaign, archive_campaign,
  unarchive_campaign, delete_draft_campaign,
}
use watesly.Campaigns.Recovery.{retry_failed_campaign_recipients}

-- The requests that change one campaign, with what they carry: the user, the fresh tokens, the id of
-- a task or of an outbox event, the reason.
pub data Operation : Type 0 where
  approve : ℕ → Operation
  start : ℕ → Operation
  pause : Operation
  cancel : String → Operation
  archive : ℕ → Operation
  unarchive : ℕ → Operation
  retry : ℕ → ℕ → Operation
  delete : ℕ → Operation

-- The database that a request commits.
abbrev pub committed : {A : Type 0} → Result (A × Database) → Result Database
committed (ok (a, db)) = ok db
committed (err e) = err e

unfoldable pub perform : ℕ → ℕ → ℕ → Option Membership → Operation → Database → Result Database
perform now account_id i m (approve user_id) db =
    committed (approve_campaign now account_id i user_id m db)
perform now account_id i m (start token) db =
    committed (prepare_campaign_start token account_id i m db)
perform now account_id i m pause db = committed (pause_campaign now account_id i m db)
perform now account_id i m (cancel reason) db =
    committed (cancel_campaign now account_id i reason m db)
perform now account_id i m (archive event_id) db =
    committed (archive_campaign now event_id account_id i m db)
perform now account_id i m (unarchive event_id) db =
    committed (unarchive_campaign now event_id account_id i m db)
perform now account_id i m (retry token task_id) db =
    committed (retry_failed_campaign_recipients now token task_id account_id i m db)
perform now account_id i m (delete event_id) db =
    committed (delete_draft_campaign now event_id account_id i m db)

-- The diagram of the requests: which of them is possible in which state, and the state after it,
-- none if the campaign is gone.
pub data Move : Operation → CampaignStatus → Option CampaignStatus → Type 0 where
  approve_draft : {u : ℕ} → Move (approve u) draft (some draft)
  approve_paused : {u : ℕ} → Move (approve u) paused (some paused)
  begin_draft : {t : ℕ} → Move (start t) draft (some scheduled)
  begin_again : {t : ℕ} → Move (start t) scheduled (some scheduled)
  restart : {t : ℕ} → Move (start t) paused (some scheduled)
  hold_scheduled : Move pause scheduled (some paused)
  hold_running : Move pause running (some paused)
  call_off :
      {r : String} {s : CampaignStatus}
      → s ≢ completed
      → s ≢ cancelled
      → Move (cancel r) s (some cancelled)
  put_away :
      {e : ℕ} {s : CampaignStatus}
      → s ≢ draft
      → s ≢ scheduled
      → s ≢ running
      → Move (archive e) s (some s)
  bring_back : {e : ℕ} {s : CampaignStatus} → Move (unarchive e) s (some s)
  try_again :
      {t k : ℕ} {s : CampaignStatus}
      → s ≢ draft
      → s ≢ scheduled
      → s ≢ running
      → s ≢ cancelled
      → Move (retry t k) s (some running)
  discard : {e : ℕ} → Move (delete e) draft none

abbrev pub status_of : Option Campaign → Option CampaignStatus
status_of none = none
status_of (some c) = some c.status

-- The table once the campaign with the id was changed, or is gone.
abbrev pub rows_after : ℕ → Option Campaign → List Campaign → List Campaign
rows_after i none rows = remove i rows
rows_after i (some c) rows = put c rows

-- The requests that leave the recipients alone.
abbrev pub keeps_recipients : Operation → Bool
keeps_recipients (retry t k) = false
keeps_recipients (delete e) = false
keeps_recipients _ = true

abbrev pub is_unarchive : Operation → Bool
is_unarchive (unarchive e) = true
is_unarchive _ = false

-- What a request that succeeds has done: the campaign was one of the account, it moved along the
-- diagram, only an archived one was brought back, it is the only campaign that changed, and only a
-- retry and a deletion touched recipients, those of the campaign.
pub record Moved (db : Database) (account_id i : ℕ) (op : Operation) (db' : Database) : Type 0 where
  pub before : Campaign
  pub after : Option Campaign
  pub exists : get i db.campaigns ≡ some before
  pub owned : before.account_id ≡ account_id
  pub move : Move op before.status (status_of after)
  pub archived : is_unarchive op ≡ true → is_some before.archived_at ≡ true
  pub same_id : (c : Campaign) → after ≡ some c → c.id ≡ i
  pub stored : db'.campaigns ≡ rows_after i after db.campaigns
  pub recipients : keeps_recipients op ≡ true → db'.recipients ≡ db.recipients
  pub others :
      select (λ r. not (r.campaign_id == i)) db'.recipients
      ≡ select (λ r. not (r.campaign_id == i)) db.recipients

pub get_campaign-ok :
    (db : Database) (account_id i : ℕ) (m : Option Membership) (c : Campaign) (o : Option Campaign)
    → get i db.campaigns ≡ o
    → get_campaign db account_id i m ≡ ok c
    → (get i db.campaigns ≡ some c) × (c.account_id ≡ account_id) × (c.id ≡ i)
unfolding get_campaign
get_campaign-ok db account_id i m c none e h = absurd (ground arith)
get_campaign-ok db account_id i m c (some d) e h =
    let same : d ≡ c = ground arith in
    (e ∙ ap some same, ground (arith, same), key-get i c db.campaigns (e ∙ ap some same))
