-- ===== src/Campaigns/Lifecycle/Moves.antt =====
-- Every request moves its campaign along the diagram (backend/app/services/campaigns.py, the retry of
-- campaign_recovery.py).
use watesly.Base.{
  ℕ, String, true, false, not, ◌≡◌, refl, sym, ap, ◌∙◌, Option, none, some, List, [], ◌∷◌, select,
  get, put, remove, put_found, put-put, update_where, delete_where, Result, ok, err, Result-cases,
  inl, inr, arith, ◌==◌, is_some,
}
use watesly.Models.{
  Database, Membership, Campaign, CampaignStatus, draft, scheduled, running, paused, cancelled,
  CampaignRecipient, campaign_row,
}
use watesly.Campaigns.Lookup.{get_campaign}
use watesly.Campaigns.Lifecycle.{
  approve_campaign, prepare_campaign_start, pause_campaign, cancel_campaign, archive_campaign,
  unarchive_campaign, delete_draft_campaign, can_approve, can_start, can_pause, is_over,
  is_archivable, is_draft, archive_now, locked_campaign,
}
use watesly.Campaigns.Lifecycle.Transitions.{
  Operation, approve, start, pause, cancel, archive, unarchive, retry, delete, committed, perform,
  Move, approve_draft, approve_paused, begin_draft, begin_again, restart, hold_scheduled,
  hold_running, call_off, put_away, bring_back, try_again, discard, is_unarchive, Moved,
  get_campaign-ok,
}
use watesly.Campaigns.Recovery.{
  can_retry, failed_of, reset_recipient, retry_failed_campaign_recipients,
}
use watesly.Outbox.{add_outbox_event}

some_eq : {A : Type 0} (a b : A) → some a ≡ some b → a ≡ b
some_eq a b h = cc

ok_eq : {A : Type 0} (a b : A) → (ok a) ≡ ok b → a ≡ b
ok_eq a b h = cc

module _ (account_id i : ℕ) (m : Option Membership) (db : Database) where
  -- A request that writes the campaign and no recipient.
  written :
      (op : Operation) (c c' : Campaign) (db' : Database)
      → get_campaign db account_id i m ≡ ok c
      → Move op c.status (some c'.status)
      → (is_unarchive op ≡ true → is_some c.archived_at ≡ true)
      → c'.id ≡ c.id
      → db'.campaigns ≡ put c' db.campaigns
      → db'.recipients ≡ db.recipients
      → Moved db account_id i op db'
  written op c c' db' e move archived same stored recipients =
      let (exists, owned, key) = get_campaign-ok db account_id i m c _ refl e in
      record {
        before = c;
        after = some c';
        exists = exists;
        owned = owned;
        move = move;
        archived = archived;
        same_id = λ d there. ap (λ (k : Campaign). k.id) (sym (some_eq c' d there)) ∙ same ∙ key;
        stored = stored;
        recipients = λ _. recipients;
        others = ap (select (λ r. not (r.campaign_id == i))) recipients;
      }

approving :
    (u : ℕ) (s t : CampaignStatus) → can_approve s ≡ true → t ≡ s → Move (approve u) s (some t)
approving u draft t h e = rw e approve_draft
approving u paused t h e = rw e approve_paused
approving u _ t h e = cc

hold : (s t : CampaignStatus) → can_pause s ≡ true → t ≡ paused → Move pause s (some t)
hold scheduled t h e = rw e hold_scheduled
hold running t h e = rw e hold_running
hold _ t h e = cc

begin :
    (k : ℕ) (s t : CampaignStatus) → can_start s ≡ true → t ≡ scheduled → Move (start k) s (some t)
begin k draft t h e = rw e begin_draft
begin k scheduled t h e = rw e begin_again
begin k paused t h e = rw e restart
begin k _ t h e = cc

stop :
    (r : String) (s t : CampaignStatus)
    → is_over s ≡ false
    → t ≡ cancelled
    → Move (cancel r) s (some t)
stop r s t h e = rw e (call_off (λ k. cc (ap is_over k, h)) (λ k. cc (ap is_over k, h)))

putting_away :
    (event_id : ℕ) (s t : CampaignStatus)
    → is_archivable s ≡ true
    → t ≡ s
    → Move (archive event_id) s (some t)
putting_away event_id s t h e = rw e (
    put_away (λ k. cc (ap is_archivable k, h)) (λ k. cc (ap is_archivable k, h))
      (λ k. cc (ap is_archivable k, h)))

trying_again :
    (token task_id : ℕ) (s : CampaignStatus)
    → can_retry s ≡ true
    → Move (retry token task_id) s (some running)
trying_again token task_id s h =
    try_again (λ k. cc (ap can_retry k, h)) (λ k. cc (ap can_retry k, h))
      (λ k. cc (ap can_retry k, h)) (λ k. cc (ap can_retry k, h))

discarding : (e : ℕ) (s : CampaignStatus) → is_draft s ≡ true → Move (delete e) s none
discarding e draft h = discard
discarding e _ h = cc

-- The recipients of other campaigns, after those of one were reset or deleted.
select-reset :
    (i : ℕ) (rs : List CampaignRecipient)
    → select (λ r. not (r.campaign_id == i)) (update_where (failed_of i) reset_recipient rs)
      ≡ select (λ r. not (r.campaign_id == i)) rs
unfolding failed_of reset_recipient
select-reset i [] = refl
select-reset i (r ∷ rs) = ground (arith, select-reset i rs)

select-delete_where :
    (i : ℕ) (rs : List CampaignRecipient)
    → select (λ r. not (r.campaign_id == i)) (delete_where (λ r. r.campaign_id == i) rs)
      ≡ select (λ r. not (r.campaign_id == i)) rs
select-delete_where i [] = refl
select-delete_where i (r ∷ rs) = ground (arith, select-delete_where i rs)

committed-ok :
    {A : Type 0} (r : Result (A × Database)) (db' : Database)
    → committed r ≡ ok db'
    → (a : A) × (r ≡ ok (a, db'))
committed-ok (ok (a, d)) db' h = (a, ap (λ k. ok (a, k)) (ok_eq d db' h))
committed-ok (err e) db' h = absurd (ground (arith, h))

module _ (account_id i : ℕ) (m : Option Membership) (db : Database) (now : ℕ) (db' : Database) where
  approve-Moved :
      (u : ℕ) (c' : Campaign)
      → approve_campaign now account_id i u m db ≡ ok (c', db')
      → Moved db account_id i (approve u) db'
  unfolding approve_campaign
  approve-Moved u c' h = elim (Result-cases (get_campaign db account_id i m)) [
    | inl (c, e) ↦
        written account_id i m db (approve u) c c' db' e
          (approving u c.status c'.status (ground (arith, e)) (ground (arith, e))) (λ k. cc)
          (ground (arith, e)) (ground (arith, e)) (ground (arith, e))
    | inr (x, e) ↦ absurd (ground (arith, e))
  ]

  start-Moved :
      (token : ℕ) (c' : Campaign)
      → prepare_campaign_start token account_id i m db ≡ ok (c', db')
      → Moved db account_id i (start token) db'
  unfolding prepare_campaign_start locked_campaign
  start-Moved token c' h = elim (Result-cases (get_campaign db account_id i none)) [
    | inl (c, e) ↦
        written account_id i none db (start token) c c' db' e
          (begin token c.status c'.status (ground (arith, e)) (ground (arith, e))) (λ k. cc)
          (ground (arith, e)) (ground (arith, e)) (ground (arith, e))
    | inr (x, e) ↦ absurd (ground (arith, e))
  ]

  pause-Moved :
      (c' : Campaign)
      → pause_campaign now account_id i m db ≡ ok (c', db')
      → Moved db account_id i pause db'
  unfolding pause_campaign
  pause-Moved c' h = elim (Result-cases (get_campaign db account_id i m)) [
    | inl (c, e) ↦
        written account_id i m db pause c c' db' e
          (hold c.status c'.status (ground (arith, e)) (ground (arith, e))) (λ k. cc)
          (ground (arith, e)) (ground (arith, e)) (ground (arith, e))
    | inr (x, e) ↦ absurd (ground (arith, e))
  ]

  cancel-Moved :
      (reason : String) (c' : Campaign)
      → cancel_campaign now account_id i reason m db ≡ ok (c', db')
      → Moved db account_id i (cancel reason) db'
  unfolding cancel_campaign
  cancel-Moved reason c' h = elim (Result-cases (get_campaign db account_id i m)) [
    | inl (c, e) ↦
        written account_id i m db (cancel reason) c c' db' e
          (stop reason c.status c'.status (ground (arith, e)) (ground (arith, e))) (λ k. cc)
          (ground (arith, e)) (ground (arith, e)) (ground (arith, e))
    | inr (x, e) ↦ absurd (ground (arith, e))
  ]

  archive-Moved :
      (event_id : ℕ) (c' : Campaign)
      → archive_campaign now event_id account_id i m db ≡ ok (c', db')
      → Moved db account_id i (archive event_id) db'
  unfolding archive_campaign archive_now add_outbox_event
  archive-Moved event_id c' h = elim (Result-cases (get_campaign db account_id i m)) [
    | inl (c, e) ↦
        let (exists, owned, key) = get_campaign-ok db account_id i m c _ refl e in
        let kept : put c db.campaigns ≡ db.campaigns =
          put_found c db.campaigns (ap (λ k. get k db.campaigns) key ∙ exists) in
        written account_id i m db (archive event_id) c c' db' e
          (putting_away event_id c.status c'.status (ground (arith, e)) (ground (arith, e)))
          (λ k. cc) (ground (arith, e)) (ground (arith, e, kept)) (ground (arith, e))
    | inr (x, e) ↦ absurd (ground (arith, e))
  ]

  unarchive-Moved :
      (event_id : ℕ) (c' : Campaign)
      → unarchive_campaign now event_id account_id i m db ≡ ok (c', db')
      → Moved db account_id i (unarchive event_id) db'
  unfolding unarchive_campaign add_outbox_event
  unarchive-Moved event_id c' h = elim (Result-cases (get_campaign db account_id i m)) [
    | inl (c, e) ↦
        let same : c'.status ≡ c.status = ground (arith, e) in
        written account_id i m db (unarchive event_id) c c' db' e (rw same bring_back)
          (λ _. ground (arith, e)) (ground (arith, e)) (ground (arith, e)) (ground (arith, e))
    | inr (x, e) ↦ absurd (ground (arith, e))
  ]

  retry-Moved :
      (token task_id reset : ℕ)
      → retry_failed_campaign_recipients now token task_id account_id i m db ≡ ok (reset, db')
      → Moved db account_id i (retry token task_id) db'
  unfolding retry_failed_campaign_recipients
  retry-Moved token task_id reset h = elim (Result-cases (get_campaign db account_id i m)) [
    | inr (x, e) ↦ absurd (ground (arith, e))
    | inl (c, e) ↦
        let (exists, owned, key) = get_campaign-ok db account_id i m c _ refl e in
        let prepared : Campaign = record c {
          status = scheduled;
          execution_token = some token;
          active_task_id = none;
          completed_at = none;
          last_heartbeat_at = some now;
        } in
        let after : Campaign = record prepared {
          active_task_id = some task_id;
          status = running;
        } in
        let stored : db'.campaigns ≡ put after (put prepared db.campaigns) = ground (arith, e) in
        let rows : db'.recipients ≡ update_where (failed_of c.id) reset_recipient db.recipients =
          ground (arith, e) in
        record {
          before = c;
          after = some after;
          exists = exists;
          owned = owned;
          move = trying_again token task_id c.status (ground (arith, e));
          archived = λ k. cc;
          same_id = λ d there. ap (λ (k : Campaign). k.id) (sym (some_eq after d there)) ∙ key;
          stored = stored ∙ put-put after prepared db.campaigns refl;
          recipients = λ k. cc;
          others =
              ap (select (λ r. not (r.campaign_id == i)))
                (rows ∙ ap (λ k. update_where (failed_of k) reset_recipient db.recipients) key)
              ∙ select-reset i db.recipients;
        }
  ]

  delete-Moved :
      (event_id : ℕ)
      → delete_draft_campaign now event_id account_id i m db ≡ ok (tt, db')
      → Moved db account_id i (delete event_id) db'
  unfolding delete_draft_campaign add_outbox_event
  delete-Moved event_id h = elim (Result-cases (get_campaign db account_id i m)) [
    | inr (x, e) ↦ absurd (ground (arith, e))
    | inl (c, e) ↦
        let (exists, owned, key) = get_campaign-ok db account_id i m c _ refl e in
        let stored : db'.campaigns ≡ remove c.id db.campaigns = ground (arith, e) in
        let rows : db'.recipients ≡ delete_where (λ r. r.campaign_id == c.id) db.recipients =
          ground (arith, e) in
        record {
          before = c;
          after = none;
          exists = exists;
          owned = owned;
          move = discarding event_id c.status (ground (arith, e));
          archived = λ k. cc;
          same_id = λ d there. cc;
          stored = stored ∙ ap (λ k. remove k db.campaigns) key;
          recipients = λ k. cc;
          others =
              ap (select (λ r. not (r.campaign_id == i)))
                (rows ∙ ap (λ k. delete_where (λ r. r.campaign_id == k) db.recipients) key)
              ∙ select-delete_where i db.recipients;
        }
  ]

-- Every one of the eight requests for a campaign (approve, start, pause, cancel, archive, unarchive,
-- retry what failed, delete) that succeeds moves the campaign along the diagram, from one of the
-- states in which the request is possible, and changes or deletes no other campaign. Only a retry and
-- a deletion touch recipients, and those of other campaigns stay as they are.
pub perform-Moved :
    (now account_id i : ℕ) (m : Option Membership) (op : Operation) (db db' : Database)
    → perform now account_id i m op db ≡ ok db'
    → Moved db account_id i op db'
unfolding perform
perform-Moved now account_id i m (approve u) db db' h =
    let (c, e) = committed-ok _ db' h in approve-Moved account_id i m db now db' u c e
perform-Moved now account_id i m (start token) db db' h =
    let (c, e) = committed-ok _ db' h in start-Moved account_id i m db now db' token c e
perform-Moved now account_id i m pause db db' h =
    let (c, e) = committed-ok _ db' h in pause-Moved account_id i m db now db' c e
perform-Moved now account_id i m (cancel reason) db db' h =
    let (c, e) = committed-ok _ db' h in cancel-Moved account_id i m db now db' reason c e
perform-Moved now account_id i m (archive event_id) db db' h =
    let (c, e) = committed-ok _ db' h in archive-Moved account_id i m db now db' event_id c e
perform-Moved now account_id i m (unarchive event_id) db db' h =
    let (c, e) = committed-ok _ db' h in unarchive-Moved account_id i m db now db' event_id c e
perform-Moved now account_id i m (retry token task_id) db db' h =
    let (n, e) = committed-ok _ db' h in retry-Moved account_id i m db now db' token task_id n e
perform-Moved now account_id i m (delete event_id) db db' h =
    let (u, e) = committed-ok _ db' h in delete-Moved account_id i m db now db' event_id e
