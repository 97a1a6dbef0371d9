-- ===== src/Campaigns/Lifecycle/Requests.antt =====
-- Sequences of requests for campaigns (backend/app/services/campaigns.py and campaign_recovery.py).
use watesly.Base.{
  ℕ, ◌≡◌, refl, sym, ap, ◌∙◌, Option, some, List, [], ◌∷◌, get, put, get-put_self, get-put_ne,
  get-remove_ne, false, none, Bool-cases, Result, ok, err, Result-cases, inl, inr, arith, ◌==◌,
  eq_of_==,
}
use watesly.Models.{Database, Membership, Campaign, CampaignStatus, cancelled, campaign_row}
use watesly.Campaigns.Lifecycle.Transitions.{
  Operation, perform, Move, approve_draft, approve_paused, begin_draft, begin_again, restart,
  hold_scheduled, hold_running, call_off, put_away, bring_back, try_again, discard, status_of,
  rows_after, Moved,
}
use watesly.Campaigns.Lifecycle.Moves.{perform-Moved}

-- A request of some account for some campaign.
pub record Request : Type 0 where
  pub now : ℕ
  pub account_id : ℕ
  pub campaign_id : ℕ
  pub membership : Option Membership
  pub operation : Operation

-- A request that raises changes nothing.
settled : Database → Result Database → Database
settled db (ok db') = db'
settled db (err e) = db

serve_one : Request → Database → Database
unfolding settled
serve_one r db = settled db (perform r.now r.account_id r.campaign_id r.membership r.operation db)

pub serve : List Request → Database → Database
unfolding serve_one
serve [] db = db
serve (r ∷ rs) db = serve rs (serve_one r db)

-- The campaign is there, and it is cancelled.
pub record IsCancelled (i : ℕ) (db : Database) : Type 0 where
  pub row : Campaign
  pub exists : get i db.campaigns ≡ some row
  pub over : row.status ≡ cancelled

-- No move leads out of the state.
Move-cancelled :
    {op : Operation} {s : CampaignStatus} {o : Option CampaignStatus}
    → Move op s o
    → s ≡ cancelled
    → o ≡ some cancelled
Move-cancelled approve_draft e = cc
Move-cancelled approve_paused e = cc
Move-cancelled begin_draft e = cc
Move-cancelled begin_again e = cc
Move-cancelled restart e = cc
Move-cancelled hold_scheduled e = cc
Move-cancelled hold_running e = cc
Move-cancelled (call_off h k) e = refl
Move-cancelled (put_away h k l) e = ap some e
Move-cancelled bring_back e = ap some e
Move-cancelled (try_again h k l n) e = absurd (n e)
Move-cancelled discard e = cc

-- The campaign after a move is there, if it is not gone.
after-IsCancelled :
    (i : ℕ) (o : Option Campaign) (db db' : Database)
    → ((c : Campaign) → o ≡ some c → c.id ≡ i)
    → db'.campaigns ≡ rows_after i o db.campaigns
    → status_of o ≡ some cancelled
    → IsCancelled i db
    → IsCancelled i db'
after-IsCancelled i none db db' key stored over h = cc
after-IsCancelled i (some c) db db' key stored over h =
    let same : c.id ≡ i = key c refl in
    record {
      row = c;
      exists =
          ap (get i) stored
          ∙ ap (λ k. get k (put c db.campaigns)) (sym same)
          ∙ get-put_self c h.row db.campaigns (ap (λ k. get k db.campaigns) same ∙ h.exists);
      over = cc;
    }

get-rows_after :
    (i j : ℕ) (o : Option Campaign) (rows : List Campaign)
    → ((c : Campaign) → o ≡ some c → c.id ≡ j)
    → (i == j) ≡ false
    → get i (rows_after j o rows) ≡ get i rows
get-rows_after i j none rows key other = get-remove_ne i j rows (ground arith)
get-rows_after i j (some c) rows key other = get-put_ne i c rows (ground (arith, key c refl))

Moved-IsCancelled :
    (i account_id j : ℕ) (op : Operation) (db db' : Database)
    → Moved db account_id j op db'
    → IsCancelled i db
    → IsCancelled i db'
Moved-IsCancelled i account_id j op db db' moved h = elim (Bool-cases (i == j)) [
  | inl same ↦
      let e : i ≡ j = eq_of_== i j same in
      let one : h.row ≡ moved.before =
        ground (arith, h.exists, moved.exists, ap (λ k. get k db.campaigns) e) in
      let was : moved.before.status ≡ cancelled =
        ap (λ (c : Campaign). c.status) (sym one) ∙ h.over in
      after-IsCancelled i moved.after db db' (λ c there. moved.same_id c there ∙ sym e)
        (moved.stored ∙ ap (λ k. rows_after k moved.after db.campaigns) (sym e))
        (Move-cancelled moved.move was) h
  | inr other ↦ record {
    row = h.row;
    exists =
        ap (get i) moved.stored
        ∙ get-rows_after i j moved.after db.campaigns moved.same_id other
        ∙ h.exists;
    over = h.over;
  }
]

serve_one-IsCancelled :
    (i : ℕ) (r : Request) (db : Database) → IsCancelled i db → IsCancelled i (serve_one r db)
unfolding serve_one settled
serve_one-IsCancelled i r db h =
    elim (Result-cases (perform r.now r.account_id r.campaign_id r.membership r.operation db)) [
      | inl (d, e) ↦ rw e (
          Moved-IsCancelled i r.account_id r.campaign_id r.operation db d
            (perform-Moved r.now r.account_id r.campaign_id r.membership r.operation db d e) h)
      | inr (x, e) ↦ rw e h
    ]

-- A cancelled campaign stays cancelled, whichever of the eight requests follow, retries and deletions
-- included, for it or for other campaigns.
pub serve-IsCancelled :
    (i : ℕ) (rs : List Request) (db : Database) → IsCancelled i db → IsCancelled i (serve rs db)
unfolding serve
serve-IsCancelled i [] db h = h
serve-IsCancelled i (r ∷ rs) db h =
    serve-IsCancelled i rs (serve_one r db) (serve_one-IsCancelled i r db h)
