-- ===== src/Campaigns/Create/Audience.antt =====
-- Whom a new campaign is addressed to (create_campaign of backend/app/services/campaigns.py).
use watesly.Base.{
  ℕ, true, false, ◌≡◌, Option, none, List, ◌++◌, map, All, is_empty, length, get, satisfies, ◌==◌,
  PythonText, min, some, String,
}
use watesly.Models.{
  Database, Campaign, CampaignRecipient, RecipientStatus, Contact, WhatsAppAccount, contact_row,
  WhatsAppTemplate, is_approved, whatsapp_account_row, template_row,
}
use watesly.Reachability.{is_contact_campaign_eligible}
use watesly.Campaigns.Create.{
  CampaignRecipientInput, CampaignCreateRequest, distinct, contact_rows, nonempty,
}

-- The contact of the item is one of the rows, on the channel of the WhatsApp account, and passes
-- the eligibility test, opt-in included.
abbrev pub Accepted :
    PythonText
    → CampaignCreateRequest
    → WhatsAppAccount
    → List Contact
    → CampaignRecipientInput
    → Type 0
Accepted py payload wa rows item =
    (satisfies (λ c. c.channel_id == wa.channel_id) (get item.contact_id rows) ≡ true)
    × (satisfies
          (λ c.
            is_contact_campaign_eligible py c payload.exclude_unreachable payload.exclude_risky
              true)
          (get item.contact_id rows)
        ≡ true)

-- Every recipient of a new campaign.
abbrev pub IsNew : Campaign → CampaignRecipient → Type 0
IsNew c r =
    (r.campaign_id ≡ c.id) × (r.status ≡ RecipientStatus.pending) × (r.external_message_id ≡ none)

-- The contact of a recipient and the parameters for its message.
abbrev pub row_content : CampaignRecipient → ℕ × Option String
row_content r = (r.contact_id, r.template_parameters)

abbrev pub item_content : CampaignRecipientInput → ℕ × Option String
item_content item = (item.contact_id, some item.template_parameters)

-- The WhatsApp account that the request names, of the account and the branch of the request, with
-- the approved template that the request names.
pub record IsChannel (db : Database) (account_id : ℕ) (payload : CampaignCreateRequest)
    (wa : WhatsAppAccount) : Type 0 where
  pub template : WhatsAppTemplate
  pub named : get payload.whatsapp_account_id db.whatsapp_accounts ≡ some wa
  pub owned : wa.account_id ≡ account_id
  pub in_branch : wa.organization_id ≡ payload.organization_id
  pub with_template : get payload.template_id db.templates ≡ some template
  pub of_account : template.whatsapp_account_id ≡ wa.id
  pub approved : is_approved template.status ≡ true

-- What a call of `create_campaign` that returns has done.
pub record Created (py : PythonText) (db : Database) (account_id : ℕ)
    (payload : CampaignCreateRequest) (c : Campaign) (db' : Database) : Type 0 where
  pub wa : WhatsAppAccount
  pub channel : IsChannel db account_id payload wa
  pub items : List CampaignRecipientInput
  pub recipients : List CampaignRecipient
  pub accepted :
      All
        (Accepted py payload wa
          (contact_rows db account_id payload (map (λ r. r.contact_id) payload.recipients)))
        items
  pub nonempty : is_empty items ≡ false
  pub requested : distinct (map (λ r. r.contact_id) payload.recipients) ≡ true
  pub each_item : map row_content recipients ≡ map item_content items
  pub stored : db'.recipients ≡ db.recipients ++ recipients
  pub new : All (IsNew c) recipients
  pub limit : c.max_recipients ≡ min (length items) 10000
  pub addressed :
      (c.account_id ≡ account_id)
      × (c.organization_id ≡ payload.organization_id)
      × (c.whatsapp_account_id ≡ payload.whatsapp_account_id)
      × (c.template_id ≡ payload.template_id)
  pub unapproved : (c.approved_at ≡ none) × (c.requires_approval ≡ true)

module _ (py : PythonText) (db : Database) (account_id : ℕ) (payload : CampaignCreateRequest) where
  Chosen : WhatsAppAccount → List CampaignRecipientInput → Type 0
  Chosen wa items =
      IsChannel db account_id payload wa
      × All
          (Accepted py payload wa
            (contact_rows db account_id payload (map (λ r. r.contact_id) payload.recipients)))
          items
      × (is_empty items ≡ false)
      × (distinct (map (λ r. r.contact_id) payload.recipients) ≡ true)
