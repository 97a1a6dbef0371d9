-- ===== src/Campaigns/Lifecycle/Guards.antt =====
-- When a campaign may start, be archived and be deleted (backend/app/services/campaigns.py,
-- enforce_campaign_tier_limit of backend/app/services/whatsapp_window.py).
use watesly.Base.{
  ℕ, ◌+◌, ◌≤◌, ◌<◌, true, false, ◌≡◌, ◌↔◌, Option, none, some, get, put, remove, delete_where, ok,
  Result-cases, inl, inr, arith, ltb, ◌==◌, is_some, length, length-append,
}
use watesly.Models.{
  Database, Membership, Campaign, scheduled, WhatsAppAccount, is_red, campaign_row,
  whatsapp_account_row,
}
use watesly.Campaigns.Lookup.{get_campaign, recipient_count}
use watesly.Campaigns.Lifecycle.{
  can_start, unsent_count, tier_checks, enforce_campaign_tier_limit, locked_campaign, member_check,
  prepare_campaign_start, archive_campaign, archive_now, sent_count, follow_up_count, is_draft,
  delete_draft_campaign,
}
use watesly.Outbox.{add_outbox_event}

-- The WhatsApp account of the campaign has a limit that is not zero.
abbrev pub HasLimit : Database → Campaign → WhatsAppAccount → ℕ → Type 0
HasLimit db c wa limit =
    (get c.whatsapp_account_id db.whatsapp_accounts ≡ some wa)
    × (wa.messaging_limit ≡ some limit)
    × (0 < limit)

-- The tier check passes only if the quality is not red and the unsent recipients are within the
-- limit.
pub enforce_campaign_tier_limit-ok :
    (db : Database) (c : Campaign) (wa : WhatsAppAccount) (limit : ℕ)
    → enforce_campaign_tier_limit db c ≡ ok tt
    → HasLimit db c wa limit
    → (is_red wa.quality_rating ≡ false) × (unsent_count db c.id ≤ limit)
unfolding enforce_campaign_tier_limit tier_checks
enforce_campaign_tier_limit-ok db c wa limit h has = ground (arith, has.0, has.1)

-- What holds when `prepare_campaign_start` has returned.
pub record Started (token account_id i : ℕ) (m : Option Membership) (db : Database) (c' : Campaign)
    (db' : Database) : Type 0 where
  pub before : Campaign
  pub exists : get_campaign db account_id i none ≡ ok before
  pub allowed : member_check db account_id i m ≡ ok tt
  pub startable : can_start before.status ≡ true
  pub approved : before.requires_approval ≡ true → is_some before.approved_at ≡ true
  pub within : recipient_count db before.id ≤ before.max_recipients
  pub tier : enforce_campaign_tier_limit db before ≡ ok tt
  pub after : c' ≡ record before {
    status = scheduled;
    execution_token = some token;
    active_task_id = none;
    paused_at = none;
    cancelled_reason = none;
  }
  pub stored : db' ≡ record db { campaigns = put c' db.campaigns }

prepare-Started :
    (token account_id i : ℕ) (m : Option Membership) (db : Database) (c' : Campaign)
    (db' : Database)
    → prepare_campaign_start token account_id i m db ≡ ok (c', db')
    → Started token account_id i m db c' db'
unfolding prepare_campaign_start locked_campaign
prepare-Started token account_id i m db c' db' h =
    elim (Result-cases (get_campaign db account_id i none)) [
      | inl (c, e) ↦ record {
        before = c;
        exists = e;
        allowed = ground (arith, e);
        startable = ground (arith, e);
        approved = ground (arith, e);
        within = ground (arith, e);
        tier = ground (arith, e);
        after = ground (arith, e);
        stored = ground (arith, e);
      }
      | inr (x, e) ↦ absurd (ground (arith, e))
    ]

-- A campaign starts exactly if the member may use it, its state allows it, it is approved where
-- that is required, its recipients are within its own limit and the tier check passes. Then it is
-- scheduled under the fresh token, and nothing else in the database changes.
pub prepare_campaign_start_iff :
    (token account_id i : ℕ) (m : Option Membership) (db : Database) (c' : Campaign)
    (db' : Database)
    → (prepare_campaign_start token account_id i m db ≡ ok (c', db'))
      ↔ Started token account_id i m db c' db'
unfolding prepare_campaign_start locked_campaign
prepare_campaign_start_iff token account_id i m db c' db' = (
  prepare-Started token account_id i m db c' db',
  λ s.
      let within : ltb s.before.max_recipients (recipient_count db s.before.id) ≡ false =
        ground (arith, s.within) in
      ground
        (arith, s.exists, s.allowed, s.startable, s.approved, within, s.tier, s.after, s.stored),
)

-- Archiving an archived campaign again returns it and changes nothing: no second outbox event is
-- written.
pub archive_campaign_again :
    (now later event_id other account_id i : ℕ) (m : Option Membership) (db db' : Database)
    (c' : Campaign)
    → archive_campaign now event_id account_id i m db ≡ ok (c', db')
    → get_campaign db' account_id i m ≡ ok c'
    → archive_campaign later other account_id i m db' ≡ ok (c', db')
unfolding archive_campaign archive_now add_outbox_event
archive_campaign_again now later event_id other account_id i m db db' c' h k =
    elim (Result-cases (get_campaign db account_id i m)) [
      | inl (c, e) ↦ ground (arith, e, k)
      | inr (x, e) ↦ absurd (ground (arith, e))
    ]

-- What a deletion that returns has done.
pub record Deleted (account_id i : ℕ) (m : Option Membership) (db db' : Database) : Type 0 where
  pub before : Campaign
  pub exists : get_campaign db account_id i m ≡ ok before
  pub draft : is_draft before.status ≡ true
  pub unsent : sent_count db before.id ≡ 0
  pub childless : follow_up_count db before.id ≡ 0
  pub campaigns : db'.campaigns ≡ remove before.id db.campaigns
  pub recipients : db'.recipients ≡ delete_where (λ r. r.campaign_id == before.id) db.recipients
  pub announced : length db'.outbox ≡ length db.outbox + 1

-- A deletion that returns was of a draft with no recipient that was sent to and no follow-up; it
-- removes the campaign and its recipients, and writes one outbox event.
pub delete_draft_campaign-Deleted :
    (now event_id account_id i : ℕ) (m : Option Membership) (db db' : Database)
    → delete_draft_campaign now event_id account_id i m db ≡ ok (tt, db')
    → Deleted account_id i m db db'
unfolding delete_draft_campaign add_outbox_event
delete_draft_campaign-Deleted now event_id account_id i m db db' h =
    elim (Result-cases (get_campaign db account_id i m)) [
      | inl (c, e) ↦ record {
        before = c;
        exists = e;
        draft = ground (arith, e);
        unsent = ground (arith, e);
        childless = ground (arith, e);
        campaigns = ground (arith, e);
        recipients = ground (arith, e);
        announced = grind (arith, e, length-append);
      }
      | inr (x, e) ↦ absurd (ground (arith, e))
    ]
