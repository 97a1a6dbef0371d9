-- ===== src/Access.antt =====
-- What one member of an account may reach: its branches (organizations), channels, campaigns,
-- templates and catalog rows (backend/app/services/membership_access.py and
-- membership_channels.py). A check that raises is a `Result`; a SQL filter is a predicate on rows,
-- and a list of filters is their conjunction.
pub mod Checks
pub mod Lists
pub mod Replace
mod Tests
use watesly.Base.{
  ℕ, String, Bool, true, false, not, ◌&&◌, ◌||◌, Option, none, some, List, [], ◌∷◌, ◌++◌, map,
  select, delete_where, all, contains, is_empty, get, Error, access_forbidden,
  organization_suspended, conversation_forbidden, invalid_whatsapp_account, campaign_not_found,
  invalid_channel, Result, ok, err, ensure, bind, found, ◌==◌, if◌then◌else◌, is_some,
}
use watesly.Models.{
  Database, Membership, MembershipRole, Organization, Channel, WhatsAppAccount, WhatsAppTemplate,
  Campaign, MembershipChannelAccess, is_owner_or_admin, is_active_organization, organization_row,
  whatsapp_account_row,
}

unfoldable pub list_membership_organization_ids : Database → ℕ → List ℕ
list_membership_organization_ids db membership_id =
    map (λ x. x.organization_id)
      (select (λ x. x.membership_id == membership_id) db.organization_memberships)

pub list_membership_channel_ids : Database → ℕ → List ℕ
list_membership_channel_ids db membership_id =
    map (λ x. x.channel_id) (select (λ x. x.membership_id == membership_id) db.channel_access)

-- `None` stands for every organization of the account.
pub resolve_accessible_organization_ids : Database → Membership → Option (List ℕ)
resolve_accessible_organization_ids db m =
    if is_owner_or_admin m.role then none else some (list_membership_organization_ids db m.id)

-- The last query of `get_accessible_channel_ids`.
organization_channel_ids : Database → ℕ → List ℕ → List ℕ
organization_channel_ids db account_id organization_ids =
    map (λ c. c.id)
      (select
        (λ c.
          c.account_id == account_id
          && contains c.organization_id organization_ids
          && not (is_some c.deleted_at))
        db.channels)

-- The ids of a membership's own channels, or else those of its organizations.
explicit_or_organization : Database → ℕ → List ℕ → List ℕ → List ℕ
explicit_or_organization db account_id [] [] = []
explicit_or_organization db account_id [] (o ∷ os) = organization_channel_ids db account_id (o ∷ os)
explicit_or_organization db account_id (c ∷ cs) os = c ∷ cs

pub get_accessible_channel_ids : Database → ℕ → ℕ → MembershipRole → List ℕ → Option (List ℕ)
get_accessible_channel_ids db account_id membership_id role organization_ids =
    if is_owner_or_admin role
    then none
    else some (
        explicit_or_organization db account_id (list_membership_channel_ids db membership_id)
          organization_ids)

pub resolve_accessible_channel_ids : Database → ℕ → Membership → Option (List ℕ)
resolve_accessible_channel_ids db account_id m =
    get_accessible_channel_ids db account_id m.id m.role (list_membership_organization_ids db m.id)

-- `accessible is None or x in accessible`
abbrev pub allows : Option (List ℕ) → ℕ → Bool
allows none i = true
allows (some ids) i = contains i ids

pub ensure_membership_channel_access : Database → ℕ → Membership → ℕ → Result (Unit {0})
ensure_membership_channel_access db account_id m channel_id =
    ensure (allows (resolve_accessible_channel_ids db account_id m) channel_id)
      conversation_forbidden (ok tt)

pub filter_organizations_for_membership :
    Database → Membership → List Organization → List Organization
filter_organizations_for_membership db m =
    select (λ o. allows (resolve_accessible_organization_ids db m) o.id)

pub filter_channels_for_membership : Database → ℕ → Membership → List Channel → List Channel
filter_channels_for_membership db account_id m =
    select (λ c. allows (resolve_accessible_channel_ids db account_id m) c.id)

pub has_explicit_channel_restrictions : Database → ℕ → Bool
has_explicit_channel_restrictions db membership_id =
    not (is_empty (list_membership_channel_ids db membership_id))

-- The WHERE clause of `resolve_active_organization_ids`. An empty list of accessible ids gives no
-- row, as the early return does.
active_in_account : ℕ → Option (List ℕ) → Organization → Bool
active_in_account account_id accessible o =
    o.account_id == account_id && is_active_organization o.status && allows accessible o.id

pub resolve_active_organization_ids : Database → ℕ → Membership → List ℕ
resolve_active_organization_ids db account_id m =
    map (λ o. o.id)
      (select (active_in_account account_id (resolve_accessible_organization_ids db m))
        db.organizations)

pub ensure_membership_organization_access : Database → ℕ → Membership → ℕ → Result (Unit {0})
ensure_membership_organization_access db account_id m organization_id =
    ensure (allows (resolve_accessible_organization_ids db m) organization_id) access_forbidden (
      found (get organization_id db.organizations) access_forbidden λ o.
        ensure (o.account_id == account_id) access_forbidden
          (ensure (is_active_organization o.status) organization_suspended (ok tt)))

pub ensure_whatsapp_account_access : Database → ℕ → Membership → ℕ → Result WhatsAppAccount
ensure_whatsapp_account_access db account_id m whatsapp_account_id =
    found (get whatsapp_account_id db.whatsapp_accounts) invalid_whatsapp_account λ wa.
      ensure (wa.account_id == account_id) invalid_whatsapp_account (
        bind (ensure_membership_organization_access db account_id m wa.organization_id)
          λ _. bind (ensure_membership_channel_access db account_id m wa.channel_id) λ _. ok wa)

pub ensure_campaign_access : Database → ℕ → Membership → Campaign → Result (Unit {0})
ensure_campaign_access db account_id m campaign =
    bind (ensure_membership_organization_access db account_id m campaign.organization_id) λ _.
      found (get campaign.whatsapp_account_id db.whatsapp_accounts) campaign_not_found λ wa.
        ensure (wa.account_id == account_id) campaign_not_found
          (ensure_membership_channel_access db account_id m wa.channel_id)

pub ensure_template_access : Database → ℕ → Membership → WhatsAppTemplate → Result (Unit {0})
ensure_template_access db account_id m template =
    bind (ensure_membership_organization_access db account_id m template.organization_id) λ _.
      bind (ensure_whatsapp_account_access db account_id m template.whatsapp_account_id) λ _. ok tt

-- A row that passes every clause.
abbrev pub passes : {A : Type 0} → List (A → Bool) → A → Bool
passes [] a = true
passes (p ∷ ps) a = p a && passes ps a

-- `column.is_(None)` on a column that is never null.
abbrev never : {A : Type 0} → A → Bool
never a = false

-- `whatsapp_account_id IN (SELECT id … WHERE account_id = … AND channel_id IN …)`
on_channels : Database → ℕ → List ℕ → ℕ → Bool
on_channels db account_id channel_ids whatsapp_account_id = contains whatsapp_account_id (
    map (λ wa. wa.id)
      (select (λ wa. wa.account_id == account_id && contains wa.channel_id channel_ids)
        db.whatsapp_accounts))

-- The filters of a list whose rows have an organization and a WhatsApp account.
scope_filters :
    {A : Type 0} → Database → ℕ → (A → ℕ) → (A → ℕ) → List ℕ → Option (List ℕ) → List (A → Bool)
scope_filters db account_id org wa [] channel_ids = never ∷ []
scope_filters db account_id org wa (o ∷ os) none = (λ a. contains (org a) (o ∷ os)) ∷ []
scope_filters db account_id org wa (o ∷ os) (some []) = never ∷ []
scope_filters db account_id org wa (o ∷ os) (some (c ∷ cs)) =
    (λ a. contains (org a) (o ∷ os)) ∷ (λ a. on_channels db account_id (c ∷ cs) (wa a)) ∷ []

pub campaign_list_filters : Database → ℕ → Membership → List (Campaign → Bool)
campaign_list_filters db account_id m =
    scope_filters db account_id (λ c. c.organization_id) (λ c. c.whatsapp_account_id)
      (resolve_active_organization_ids db account_id m)
      (resolve_accessible_channel_ids db account_id m)

pub template_list_filters : Database → ℕ → Membership → List (WhatsAppTemplate → Bool)
template_list_filters db account_id m =
    scope_filters db account_id (λ t. t.organization_id) (λ t. t.whatsapp_account_id)
      (resolve_active_organization_ids db account_id m)
      (resolve_accessible_channel_ids db account_id m)

-- A nullable column is in a list of ids.
abbrev pub column_in : Option ℕ → List ℕ → Bool
column_in none ids = false
column_in (some i) ids = contains i ids

pub organization_scope_clauses :
    {A : Type 0} → Database → ℕ → Membership → (A → Option ℕ) → List (A → Bool)
organization_scope_clauses db account_id m organization_column =
    elim (resolve_active_organization_ids db account_id m) [
      | [] ↦ (λ a. not (is_some (organization_column a))) ∷ []
      | o ∷ os ↦ (λ a. column_in (organization_column a) (o ∷ os)) ∷ []
    ]

-- The clause on the channel for a role other than owner and admin.
channel_clause : {A : Type 0} → (A → Option ℕ) → Option (List ℕ) → A → Bool
channel_clause channel_column none a = not (is_some (channel_column a))
channel_clause channel_column (some []) a = not (is_some (channel_column a))
channel_clause channel_column (some (c ∷ cs)) a = column_in (channel_column a) (c ∷ cs)

pub catalog_scope_clauses :
    {A : Type 0} → Database → ℕ → Membership → (A → Option ℕ) → (A → Option ℕ) → List (A → Bool)
catalog_scope_clauses db account_id m channel_column organization_column =
    let clauses = organization_scope_clauses db account_id m organization_column in
    if is_owner_or_admin m.role
    then clauses
    else clauses
      ++ channel_clause channel_column (resolve_accessible_channel_ids db account_id m) ∷ []

-- `set(xs) == set(ys)`
abbrev pub same_set : List ℕ → List ℕ → Bool
same_set xs ys = all (λ x. contains x ys) xs && all (λ y. contains y xs) ys

-- The requested channels of the account that exist and belong to one of the organizations.
valid_channel_ids : Database → ℕ → List ℕ → List ℕ → List ℕ
valid_channel_ids db account_id organization_ids channel_ids =
    map (λ c. c.id)
      (select (λ c. contains c.organization_id organization_ids)
        (select
          (λ c.
            c.account_id == account_id && contains c.id channel_ids && not (is_some c.deleted_at))
          db.channels))

pub validate_channel_ids : Database → ℕ → List ℕ → List ℕ → Result (List ℕ)
validate_channel_ids db account_id organization_ids [] = ok []
validate_channel_ids db account_id organization_ids (c ∷ cs) =
    let valid = valid_channel_ids db account_id organization_ids (c ∷ cs) in
    ensure (same_set valid (c ∷ cs)) invalid_channel (ok valid)

unfoldable pub replace_membership_channel_access : ℕ → List ℕ → Database → Database
replace_membership_channel_access membership_id channel_ids db = record db {
  channel_access =
      delete_where (λ x. x.membership_id == membership_id) db.channel_access
      ++ map (λ i. record { membership_id = membership_id; channel_id = i }) channel_ids;
}
