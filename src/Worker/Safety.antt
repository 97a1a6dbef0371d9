-- ===== src/Worker/Safety.antt =====
-- What the task sends: every call of the Meta API stands in the log with what the task had read
-- (backend/app/workers/campaign_tasks.py).
use watesly.Base.{
  ℕ, zero, suc, ◌≡◌, refl, sym, subst, inl, inr, Bool, true, false, not, ◌&&◌, Option, none, some,
  List, [], ◌∷◌, All, is_empty, get, is_some, PythonText, arith, if_both, Option-cases, key-get,
  ◌||◌,
}
use watesly.Models.{
  Database, WhatsAppAccount, Campaign, CampaignRecipient, Contact, campaign_row, contact_row,
  whatsapp_account_row, template_row,
}
use watesly.Worker.{
  Reply, accepted, transient, permanent, crashed, Environment, Delivery, Progress, TaskStatus, Task,
  has_text,
}
use watesly.Worker.Row.{
  is_stopped, same_token, refresh, address_of, skip_row, settle_row, mark_sending, fail_row,
  requeue_row, accept_row, logged, take_reply, attempt_row, handle_row, refreshed_row, process_row,
}
use watesly.Worker.Offers.{
  IsWaitingRow, HoldsKeys, IsRow, Rows, next_batch-waiting, objects-waiting,
}
use watesly.Worker.Loop.{
  unless_ended, process_rows, start_turn, run_batches, finish, fresh_progress, prepare, launch,
  enter, run_campaign, check_turn, run_batch, is_cancelled,
}

-- A call that the task may make: the campaign as last read still belongs to the task and is
-- neither paused nor cancelled; the contact takes marketing; the recipient has no message yet; the
-- number is the contact's, and not empty; and the batch offered this recipient with this contact.
abbrev pub IsGuarded : PythonText → ℕ → ℕ → Delivery → Type 0
IsGuarded py campaign_id token d =
    (same_token d.campaign.execution_token token ≡ true)
    × (is_stopped d.campaign.status ≡ false)
    × (d.contact.marketing_opt_in ≡ true)
    × (has_text d.recipient.external_message_id ≡ false)
    × (is_empty d.to ≡ false)
    × (d.to ≡ address_of py d.contact)
    × IsWaitingRow campaign_id d.queried d.recipient.id d.contact.id

module _ (py : PythonText) (env : Environment) (campaign_id : ℕ) where
  abbrev IsGuardedLog : ℕ → Progress → Type 0
  IsGuardedLog token p = All (IsGuarded py campaign_id token) p.log

  abbrev Guarded : ℕ → Progress × Option TaskStatus → Type 0
  Guarded token q = IsGuardedLog token q.0

  -- While the rows of one batch are handled, the batch is that of one database.
  module _ (db : Database) where
    abbrev InBatch : ℕ → Progress → Type 0
    InBatch token p = IsGuardedLog token p × (p.queried ≡ db)

    take_reply-Guarded :
        (task : Task) (c : Campaign) (r : CampaignRecipient) (contact : Contact) (to : List ℕ)
        (p : Progress) (reply : Reply)
        → InBatch task.execution_token p
        → InBatch task.execution_token (take_reply py env task c r contact to p reply).0
    unfolding take_reply accept_row requeue_row fail_row
    take_reply-Guarded task c r contact to p (accepted i) h = h
    take_reply-Guarded task c r contact to p (transient m) h = h
    take_reply-Guarded task c r contact to p (permanent m) h = h
    take_reply-Guarded task c r contact to p crashed h = h

    attempt_row-Guarded :
        (task : Task) (c : Campaign) (r : CampaignRecipient) (contact : Contact) (p : Progress)
        → same_token c.execution_token task.execution_token ≡ true
        → is_stopped c.status ≡ false
        → contact.marketing_opt_in ≡ true
        → has_text r.external_message_id ≡ false
        → IsRow env campaign_id db r contact
        → InBatch task.execution_token p
        → InBatch task.execution_token (attempt_row py env task c r contact p).0
    unfolding attempt_row fail_row logged
    attempt_row-Guarded task c r contact p t s o x w h =
        let G : Progress × Option TaskStatus → Type 0 = λ q. InBatch task.execution_token q.0 in
        if_both G (is_empty (address_of py contact)) _ _ (λ _. h)
          λ usable.
            let row = subst (λ d. IsWaitingRow campaign_id d r.id contact.id) (sym h.1) w in
            take_reply-Guarded task c r contact (address_of py contact) _ (env.reply p.reads)
              (((t, s, o, x, usable, refl, row), h.0), h.1)

    handle_row-Guarded :
        (task : Task) (c : Campaign) (r : CampaignRecipient) (contact : Contact) (p : Progress)
        → IsRow env campaign_id db r contact
        → InBatch task.execution_token p
        → InBatch task.execution_token (handle_row py env task c r contact p).0
    unfolding handle_row skip_row settle_row mark_sending
    handle_row-Guarded task c r contact p w h =
        let G : Progress × Option TaskStatus → Type 0 = λ q. InBatch task.execution_token q.0 in
        if_both G (not (same_token c.execution_token task.execution_token) || is_stopped c.status) _
          _ (λ _. h)
          λ mine.
            if_both G (not contact.marketing_opt_in) _ _ (λ _. h)
              λ opted_in.
                if_both G (has_text r.external_message_id) _ _ (λ _. h)
                  λ new.
                    attempt_row-Guarded task c r contact (mark_sending (env.now p.reads) c r p)
                      (ground (arith, mine)) (ground (arith, mine)) (ground (arith, opted_in)) new w
                      h

    refreshed_row-Guarded :
        (task : Task) (r : CampaignRecipient) (contact : Contact) (p : Progress)
        (campaign : Option Campaign)
        → IsRow env campaign_id db r contact
        → InBatch task.execution_token p
        → InBatch task.execution_token (refreshed_row py env task r contact p campaign).0
    unfolding refreshed_row
    refreshed_row-Guarded task r contact p none w h = h
    refreshed_row-Guarded task r contact p (some c) w h = handle_row-Guarded task c r contact p w h

    unless_ended-InBatch :
        (token : ℕ) (q : Progress × Option TaskStatus) (k : Progress → Progress × Option TaskStatus)
        → ((p : Progress) → InBatch token p → InBatch token (k p).0)
        → InBatch token q.0
        → InBatch token (unless_ended q k).0
    unless_ended-InBatch token (p, some s) k step h = h
    unless_ended-InBatch token (p, none) k step h = step p h

    process_rows-Guarded :
        (task : Task) (rows : List (CampaignRecipient × Contact)) (p : Progress)
        → Rows env campaign_id db rows
        → InBatch task.execution_token p
        → InBatch task.execution_token (process_rows py env task rows p).0
    unfolding process_rows process_row refresh
    process_rows-Guarded task [] p w h = h
    process_rows-Guarded task ((r, contact) ∷ rows) p w h =
        unless_ended-InBatch task.execution_token (process_row py env task r contact p)
          (process_rows py env task rows) (λ q k. process_rows-Guarded task rows q w.1 k)
          (refreshed_row-Guarded task r contact (refresh env p) _ w.0 h)

  unless_ended-Guarded :
      (token : ℕ) (q : Progress × Option TaskStatus) (k : Progress → Progress × Option TaskStatus)
      → ((p : Progress) → IsGuardedLog token p → Guarded token (k p))
      → Guarded token q
      → Guarded token (unless_ended q k)
  unless_ended-Guarded token (p, some s) k step h = h
  unless_ended-Guarded token (p, none) k step h = step p h

  check_turn-Guarded :
      (task : Task) (p : Progress) (campaign : Option Campaign)
      → IsGuardedLog task.execution_token p
      → Guarded task.execution_token (check_turn env task p campaign)
  unfolding check_turn
  check_turn-Guarded task p none h = h
  check_turn-Guarded task p (some c) h =
      let G = Guarded task.execution_token in
      if_both G (not (same_token c.execution_token task.execution_token)) _ _ (λ _. h)
        λ _. if_both G (is_stopped c.status) _ _ (λ _. h) (λ _. h)

  run_batch-Guarded :
      (task : Task) (rest : Progress → Progress × Option TaskStatus) (p : Progress)
      (rows : List (CampaignRecipient × Contact))
      → ((q : Progress)
          → IsGuardedLog task.execution_token q
          → Guarded task.execution_token (rest q))
      → Rows env campaign_id p.queried rows
      → IsGuardedLog task.execution_token p
      → Guarded task.execution_token (run_batch py env task rest p rows)
  unfolding run_batch finish
  run_batch-Guarded task rest p [] step w h = h
  run_batch-Guarded task rest p (row ∷ rows) step w h =
      unless_ended-Guarded task.execution_token (process_rows py env task (row ∷ rows) p) rest step
        (process_rows-Guarded p.queried task (row ∷ rows) p w (h, refl)).0

  module _ (keys : HoldsKeys env) where
    run_batches-Guarded :
        (task : Task) (fuel : ℕ) (p : Progress)
        → task.campaign_id ≡ campaign_id
        → IsGuardedLog task.execution_token p
        → Guarded task.execution_token (run_batches py env task fuel p)
    unfolding run_batches start_turn refresh
    run_batches-Guarded task zero p own h = h
    run_batches-Guarded task (suc fuel) p own h =
        unless_ended-Guarded task.execution_token (start_turn env task p) _
          (λ q k.
            run_batch-Guarded task (run_batches py env task fuel) (record q { queried = q.db }) _
              (λ after. run_batches-Guarded task fuel after own)
              (rw own (
                objects-waiting env campaign_id q.db keys q.reads _
                  (next_batch-waiting env campaign_id q.db q.reads task.batch_size)))
              k)
          (check_turn-Guarded task (refresh env p) _ h)

    prepared-Guarded :
        (token fuel : ℕ) (fast template : Bool) (db : Database) (wa : Option WhatsAppAccount)
        → Guarded token (launch py env fuel (prepare env campaign_id token fast db wa template))
    unfolding launch prepare fresh_progress
    prepared-Guarded token fuel fast template db none = tt
    prepared-Guarded token fuel fast false db (some wa) = tt
    prepared-Guarded token fuel fast true db (some wa) = run_batches-Guarded _ fuel _ refl tt

-- Whatever other transactions, the clock and the Meta API do, whichever rows are locked and however
-- many batches the task runs, if the session's object for a row has the keys of that row: each
-- message that it sends goes to a recipient whose row, in the database that its batch was read from,
-- was a waiting one of the campaign and named the contact that the message goes to, and whose
-- contact was there and not deleted. As far as the session's objects tell, the recipient had no
-- message id, the contact took marketing and the number is its own and usable; and when the campaign
-- was last read before the message, it belonged to this task and was neither paused nor cancelled.
pub run_campaign-IsGuarded :
    (py : PythonText) (env : Environment) (campaign_id token : ℕ) (fast : Bool) (fuel : ℕ)
    (db : Database)
    → HoldsKeys env
    → All
        (IsGuarded py campaign_id token)
        (run_campaign py env campaign_id token fast fuel db).0.log
unfolding run_campaign enter fresh_progress
run_campaign-IsGuarded py env campaign_id token fast fuel db keys =
    elim (Option-cases (get campaign_id db.campaigns)) [
      | inl gone ↦ rw gone tt
      | inr (c, e) ↦
          let G = Guarded py env campaign_id token in
          let own : c.id ≡ campaign_id = key-get campaign_id c db.campaigns e in
          rw e (
            if_both G (not (same_token c.execution_token token)) _ _ (λ _. tt)
              λ _.
                if_both G (c.requires_approval && not (is_some c.approved_at)) _ _ (λ _. tt)
                  λ _.
                    if_both G (is_cancelled c.status) _ _ (λ _. tt)
                      λ _. rw own (prepared-Guarded py env campaign_id keys token fuel fast _ db _))
    ]
