-- ===== src/Models/Tenancy.antt =====
-- Members, branches and channels: models/membership.py, organization.py, channel.py,
-- organization_membership.py, membership_channel_access.py, whatsapp_account.py and
-- whatsapp_template.py.
use watesly.Base.{ℕ, String, Bool, Option, List}
use watesly.Models.Billing.{DateTime, BillingCycle}

pub data MembershipRole : Type 0 where
  owner admin branch_admin manager agent viewer : MembershipRole

pub data MembershipStatus : Type 0 where
  active suspended : MembershipStatus

pub record Membership : Type 0 where
  pub id : ℕ
  pub account_id : ℕ
  pub user_id : ℕ
  pub role : MembershipRole
  pub status : MembershipStatus
  pub custom_permissions : Option (List String)
  pub created_at : ℕ

pub data OrganizationStatus : Type 0 where
  active suspended : OrganizationStatus

pub record Organization : Type 0 where
  pub id : ℕ
  pub account_id : ℕ
  pub status : OrganizationStatus
  pub max_users : ℕ

pub record OrganizationMembership : Type 0 where
  pub organization_id : ℕ
  pub membership_id : ℕ

pub record MembershipChannelAccess : Type 0 where
  pub membership_id : ℕ
  pub channel_id : ℕ

-- A price is the number of its thousandths (`Numeric(12, 3)`).
pub record Channel : Type 0 where
  pub id : ℕ
  pub account_id : ℕ
  pub organization_id : ℕ
  pub deleted_at : Option ℕ
  pub over_mac_price_per_100 : Option ℕ
  pub billing_starts_at : Option DateTime
  pub billing_ends_at : Option DateTime
  pub billing_cycle : BillingCycle
  pub included_mac : Option ℕ

pub data QualityRating : Type 0 where
  green yellow red other : QualityRating

pub record WhatsAppAccount : Type 0 where
  pub id : ℕ
  pub account_id : ℕ
  pub organization_id : ℕ
  pub channel_id : ℕ
  pub quality_rating : Option QualityRating
  pub messaging_limit : Option ℕ
  pub display_phone_number : List ℕ

pub data TemplateStatus : Type 0 where
  draft pending approved rejected paused disabled : TemplateStatus

pub record WhatsAppTemplate : Type 0 where
  pub id : ℕ
  pub account_id : ℕ
  pub organization_id : ℕ
  pub whatsapp_account_id : ℕ
  pub status : TemplateStatus

-- `organization.status == OrganizationStatus.ACTIVE`
abbrev pub is_active_organization : OrganizationStatus → Bool
is_active_organization OrganizationStatus.active = Bool.true
is_active_organization OrganizationStatus.suspended = Bool.false

abbrev pub is_active_membership : MembershipStatus → Bool
is_active_membership MembershipStatus.active = Bool.true
is_active_membership MembershipStatus.suspended = Bool.false

-- `role in (MembershipRole.OWNER, MembershipRole.ADMIN)`
abbrev pub is_owner_or_admin : MembershipRole → Bool
is_owner_or_admin owner = Bool.true
is_owner_or_admin admin = Bool.true
is_owner_or_admin _ = Bool.false

abbrev pub is_approved : TemplateStatus → Bool
is_approved TemplateStatus.approved = Bool.true
is_approved _ = Bool.false

abbrev pub is_red : Option QualityRating → Bool
is_red (Option.some QualityRating.red) = Bool.true
is_red _ = Bool.false
