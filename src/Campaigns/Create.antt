-- ===== src/Campaigns/Create.antt =====
-- Building a campaign from a request (create_campaign of backend/app/services/campaigns.py, with
-- the eligibility of contacts in backend/app/services/contact_reachability.py). The schema's bounds
-- on the request are in backend/app/schemas/campaign.py.
pub mod Audience
mod Tests
use watesly.Base.{
  ℕ, String, Bool, true, false, not, ◌&&◌, ◌||◌, Option, none, some, List, [], ◌∷◌, ◌++◌, map,
  select, any, all, contains, is_empty, length, get, min, max, Error, invalid_whatsapp_account,
  organization_mismatch, invalid_template, template_account_mismatch, template_not_approved,
  duplicate_recipient, invalid_recipient, recipient_channel_mismatch, all_recipients_opted_out,
  all_recipients_unreachable, all_recipients_previously_sent, Result, ok, err, Action, query,
  modify, raise_if, ◌>>=◌, ◌>>◌, ensure, bind, found, ltb, ◌==◌, if◌then◌else◌, is_some, satisfies,
  pure, PythonText,
}
use watesly.Models.{
  Database, Membership, Campaign, draft, CampaignRecipient, RecipientStatus, Contact,
  ReachabilityStatus, WhatsAppAccount, WhatsAppTemplate, Message, is_approved, is_outbound, Value,
  ident, contact_row, campaign_row, template_row, whatsapp_account_row,
}
use watesly.Access.{
  same_set, ensure_membership_organization_access, ensure_whatsapp_account_access, column_in,
}
use watesly.Reachability.{is_contact_campaign_eligible, filter_never_sent_contact_ids}
use watesly.Outbox.{add_outbox_event}

pub record CampaignRecipientInput : Type 0 where
  pub contact_id : ℕ
  pub template_parameters : String

pub record CampaignCreateRequest : Type 0 where
  pub organization_id : ℕ
  pub whatsapp_account_id : ℕ
  pub template_id : ℕ
  pub name : String
  pub scheduled_at : Option ℕ
  pub recipients : List CampaignRecipientInput
  pub include_opt_out_option : Bool
  pub exclude_marketing_opt_out : Bool
  pub exclude_unreachable : Bool
  pub exclude_risky : Bool
  pub only_never_sent : Bool

-- `len(set(ids)) == len(ids)`
abbrev pub distinct : List ℕ → Bool
distinct [] = true
distinct (i ∷ is) = not (contains i is) && distinct is

-- The WhatsApp account of the request: checked for the member, or only for the account.
pub resolve_account :
    Database → ℕ → Option Membership → CampaignCreateRequest → Result WhatsAppAccount
resolve_account db account_id none payload =
    found (get payload.whatsapp_account_id db.whatsapp_accounts) invalid_whatsapp_account
      λ wa. ensure (wa.account_id == account_id) invalid_whatsapp_account (ok wa)
resolve_account db account_id (some m) payload =
    bind (ensure_membership_organization_access db account_id m payload.organization_id)
      λ _. ensure_whatsapp_account_access db account_id m payload.whatsapp_account_id

-- The checks of the template, which come with that of the organization.
check_template : Database → ℕ → CampaignCreateRequest → WhatsAppAccount → Result WhatsAppTemplate
check_template db account_id payload wa =
    ensure (wa.organization_id == payload.organization_id) organization_mismatch (
      found (get payload.template_id db.templates) invalid_template λ template.
        ensure (template.account_id == account_id) invalid_template (
          ensure (template.whatsapp_account_id == wa.id) template_account_mismatch
            (ensure (is_approved template.status) template_not_approved (ok template))))

-- The query for the contacts of the request.
pub contact_rows : Database → ℕ → CampaignCreateRequest → List ℕ → List Contact
contact_rows db account_id payload contact_ids =
    select
      (λ c.
        c.account_id == account_id
        && c.organization_id == payload.organization_id
        && not (is_some c.deleted_at)
        && contains c.id contact_ids)
      db.contacts

-- `[item for item in recipients if test(contact_by_id[item.contact_id])]`
abbrev pub keep_contacts :
    (Contact → Bool) → List Contact → List CampaignRecipientInput → List CampaignRecipientInput
keep_contacts test rows = select (λ item. satisfies test (get item.contact_id rows))

-- A list that must not be empty.
abbrev pub nonempty : Error → List CampaignRecipientInput → Result (List CampaignRecipientInput)
nonempty e [] = err e
nonempty e (x ∷ xs) = ok (x ∷ xs)

-- A filter that a flag of the request switches on, with the error for an empty outcome.
abbrev pub keep_if :
    Bool
    → Error
    → (CampaignRecipientInput → Bool)
    → List CampaignRecipientInput
    → Result (List CampaignRecipientInput)
keep_if flag e test items = if flag then nonempty e (select test items) else ok items

module _ (py : PythonText) where
  -- `is_contact_campaign_eligible` is called with its default `require_marketing_opt_in=True`.
  eligible_item : CampaignCreateRequest → List Contact → CampaignRecipientInput → Bool
  eligible_item payload rows item =
      satisfies
        (λ c.
          is_contact_campaign_eligible py c payload.exclude_unreachable payload.exclude_risky true)
        (get item.contact_id rows)

  -- From the contacts of the request to the recipients of the campaign.
  pub narrow :
      Database
      → ℕ
      → CampaignCreateRequest
      → WhatsAppAccount
      → List Contact
      → Result (List CampaignRecipientInput)
  narrow db account_id payload wa rows =
      bind
        (nonempty recipient_channel_mismatch
          (keep_contacts (λ c. c.channel_id == wa.channel_id) rows payload.recipients))
        λ on_channel.
          bind
            (keep_if payload.exclude_marketing_opt_out all_recipients_opted_out
              (λ item. satisfies (λ c. c.marketing_opt_in) (get item.contact_id rows)) on_channel)
            λ opted.
              bind (nonempty all_recipients_unreachable (select (eligible_item payload rows) opted))
                λ eligible.
                  keep_if payload.only_never_sent all_recipients_previously_sent
                    (λ item. contains item.contact_id (
                      filter_never_sent_contact_ids db account_id
                        (map (λ r. r.contact_id) eligible)))
                    eligible

  -- All checks of `create_campaign`: the recipients of the campaign, or the first error.
  pub select_recipients :
      Database
      → ℕ
      → Option Membership
      → CampaignCreateRequest
      → Result (List CampaignRecipientInput)
  select_recipients db account_id membership payload =
      bind (resolve_account db account_id membership payload) λ wa.
        bind (check_template db account_id payload wa) λ _.
          let contact_ids = map (λ r. r.contact_id) payload.recipients in
          let rows = contact_rows db account_id payload contact_ids in
          ensure (distinct contact_ids) duplicate_recipient (
            ensure (same_set (map (λ c. c.id) rows) contact_ids) invalid_recipient
              (narrow db account_id payload wa rows))

-- The new row of the campaign.
new_campaign : ℕ → ℕ → ℕ → ℕ → CampaignCreateRequest → ℕ → Campaign
new_campaign now campaign_id account_id user_id payload n = record {
  id = campaign_id;
  account_id = account_id;
  organization_id = payload.organization_id;
  whatsapp_account_id = payload.whatsapp_account_id;
  template_id = payload.template_id;
  created_by_user_id = user_id;
  name = payload.name;
  status = draft;
  created_at = now;
  scheduled_at = payload.scheduled_at;
  started_at = none;
  completed_at = none;
  approved_by_user_id = none;
  approved_at = none;
  paused_at = none;
  cancelled_reason = none;
  max_recipients = min (max n 1) 10000;
  requires_approval = true;
  execution_token = none;
  active_task_id = none;
  last_heartbeat_at = none;
  parent_campaign_id = none;
  include_opt_out_option = payload.include_opt_out_option;
  archived_at = none;
}

-- The row of a recipient; `fresh` gives the new id.
new_recipient : (ℕ → ℕ) → ℕ → CampaignRecipientInput → CampaignRecipient
new_recipient fresh campaign_id item = record {
  id = fresh item.contact_id;
  campaign_id = campaign_id;
  contact_id = item.contact_id;
  status = RecipientStatus.pending;
  template_parameters = some item.template_parameters;
  external_message_id = none;
  error_message = none;
  delivery_key = none;
  sending_started_at = none;
  last_attempt_at = none;
}

-- The ids that the database gives to the new rows.
pub record FreshIds : Type 0 where
  pub campaign : ℕ
  pub event : ℕ
  pub recipient : ℕ → ℕ

store_campaign :
    ℕ → FreshIds → ℕ → Campaign → List CampaignRecipientInput → Action Database Campaign
store_campaign now fresh account_id campaign items = do
  modify (λ db. record db {
    campaigns = db.campaigns ++ campaign ∷ [];
    recipients = db.recipients ++ map (new_recipient fresh.recipient campaign.id) items;
  })
  add_outbox_event now fresh.event account_id "campaign.created" "campaign" campaign.id
      (("campaign_id", ident campaign.id) ∷ [])
  pure campaign

pub create_campaign :
    PythonText
    → ℕ
    → FreshIds
    → ℕ
    → ℕ
    → Option Membership
    → CampaignCreateRequest
    → Action Database Campaign
create_campaign py now fresh account_id user_id membership payload = do
  items ← query (λ db. select_recipients py db account_id membership payload)
  store_campaign now fresh account_id
      (new_campaign now fresh.campaign account_id user_id payload (length items)) items
