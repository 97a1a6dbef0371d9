-- ===== src/Access/Checks.antt =====
-- The checks against a description that names no intermediate list
-- (backend/app/services/membership_access.py).
use watesly.Base.{
  ℕ, Bool, true, false, not, ◌&&◌, ◌||◌, ◌≡◌, refl, sym, ap, ◌∙◌, fun_ext, ◌↔◌, Option, none, some,
  List, [], ◌∷◌, map, select, any, contains, is_empty, get, conversation_forbidden, ok, err, arith,
  ◌==◌, if◌then◌else◌, is_some, contains-map-select, is_empty-map-select, Bool-cases, inl, inr,
}
use watesly.Models.{
  Database, Membership, Organization, Channel, MembershipChannelAccess, WhatsAppAccount,
  is_owner_or_admin, is_active_organization, organization_row, whatsapp_account_row,
}
use watesly.Access.{
  list_membership_organization_ids, list_membership_channel_ids,
  resolve_accessible_organization_ids, organization_channel_ids, explicit_or_organization,
  get_accessible_channel_ids, resolve_accessible_channel_ids, allows,
  ensure_membership_channel_access, ensure_membership_organization_access,
  ensure_whatsapp_account_access,
}

-- The member is linked to the organization.
abbrev pub is_linked : Database → Membership → ℕ → Bool
is_linked db m organization_id =
    any (λ x. x.membership_id == m.id && organization_id == x.organization_id)
      db.organization_memberships

-- Owners and admins reach every organization, the others those that they are linked to.
abbrev pub reaches_organization : Database → Membership → ℕ → Bool
reaches_organization db m organization_id =
    is_owner_or_admin m.role || is_linked db m organization_id

-- The member has channels of its own.
abbrev pub is_restricted : Database → Membership → Bool
is_restricted db m = any (λ x. x.membership_id == m.id) db.channel_access

-- Owners and admins reach every channel; a member with channels of its own reaches those; the
-- others reach the channels of the account that are not deleted and belong to a linked
-- organization.
abbrev pub reaches_channel : Database → ℕ → Membership → ℕ → Bool
reaches_channel db account_id m channel_id =
    is_owner_or_admin m.role
    || (if is_restricted db m
        then any (λ x. x.membership_id == m.id && channel_id == x.channel_id) db.channel_access
        else any
            (λ c.
              (c.account_id == account_id
                && is_linked db m c.organization_id
                && not (is_some c.deleted_at))
              && channel_id == c.id)
            db.channels)

pub allows-organization :
    (db : Database) (m : Membership) (i : ℕ)
    → allows (resolve_accessible_organization_ids db m) i ≡ reaches_organization db m i
unfolding resolve_accessible_organization_ids list_membership_organization_ids
allows-organization db m i = elim (Bool-cases (is_owner_or_admin m.role)) [
  | inl all ↦ rw all
  | inr linked ↦ rw linked (contains-map-select i _ _ db.organization_memberships)
]

linked-contains :
    (db : Database) (m : Membership) (i : ℕ)
    → contains i (list_membership_organization_ids db m.id) ≡ is_linked db m i
unfolding list_membership_organization_ids
linked-contains db m i = contains-map-select i _ _ db.organization_memberships

no_organization_no_channel :
    (account_id i : ℕ) (cs : List Channel)
    → contains i (
        map
          (λ c. c.id)
          (select
            (λ c.
              c.account_id == account_id
              && contains c.organization_id []
              && not (is_some c.deleted_at))
            cs))
      ≡ false
no_organization_no_channel account_id i [] = refl
no_organization_no_channel account_id i (c ∷ cs) =
    ground (arith, no_organization_no_channel account_id i cs)

explicit_or_organization-contains :
    (db : Database) (account_id i : ℕ) (own orgs : List ℕ)
    → contains i (explicit_or_organization db account_id own orgs) ≡ (
        if is_empty own
        then contains i (organization_channel_ids db account_id orgs)
        else contains i own)
unfolding explicit_or_organization organization_channel_ids
explicit_or_organization-contains db account_id i [] [] =
    sym (no_organization_no_channel account_id i db.channels)
explicit_or_organization-contains db account_id i [] (o ∷ os) = refl
explicit_or_organization-contains db account_id i (c ∷ cs) orgs = refl

organization_channel_ids-contains :
    (db : Database) (account_id i : ℕ) (m : Membership)
    → contains i (organization_channel_ids db account_id (list_membership_organization_ids db m.id))
      ≡ any
          (λ c.
            (c.account_id == account_id
              && is_linked db m c.organization_id
              && not (is_some c.deleted_at))
            && i == c.id)
          db.channels
unfolding organization_channel_ids
organization_channel_ids-contains db account_id i m =
    contains-map-select i _ _ db.channels
    ∙ ap
        (λ (l : ℕ → Bool).
          any
            (λ c.
              (c.account_id == account_id && l c.organization_id && not (is_some c.deleted_at))
              && i == c.id)
            db.channels)
        (fun_ext (linked-contains db m))

pub allows-channel :
    (db : Database) (account_id : ℕ) (m : Membership) (i : ℕ)
    → allows (resolve_accessible_channel_ids db account_id m) i ≡ reaches_channel db account_id m i
unfolding resolve_accessible_channel_ids get_accessible_channel_ids list_membership_channel_ids
allows-channel db account_id m i = elim (Bool-cases (is_owner_or_admin m.role)) [
  | inl all ↦ rw all
  | inr member ↦ rw member (
      explicit_or_organization-contains db account_id i _ _
      ∙ rw
          (is_empty-map-select (λ (x : MembershipChannelAccess). x.channel_id)
            (λ x. x.membership_id == m.id) db.channel_access)
          (rw (organization_channel_ids-contains db account_id i m) (
            rw
              (contains-map-select i (λ (x : MembershipChannelAccess). x.channel_id)
                (λ x. x.membership_id == m.id) db.channel_access)
              (elim (Bool-cases (is_restricted db m)) [ inl own ↦ rw own | inr free ↦ rw free ]))))
]

-- The channel check passes exactly for the channels that the member reaches.
pub ensure_membership_channel_access_lem :
    (db : Database) (account_id : ℕ) (m : Membership) (channel_id : ℕ)
    → ensure_membership_channel_access db account_id m channel_id
      ≡ (if reaches_channel db account_id m channel_id then ok tt else err conversation_forbidden)
unfolding ensure_membership_channel_access
ensure_membership_channel_access_lem db account_id m channel_id =
    rw (allows-channel db account_id m channel_id)

-- The member reaches the organization, which is an active one of the account.
pub record MayUseOrganization (db : Database) (account_id : ℕ) (m : Membership) (i : ℕ)
    : Type 0 where
  pub row : Organization
  pub exists : get i db.organizations ≡ some row
  pub in_account : row.account_id ≡ account_id
  pub active : is_active_organization row.status ≡ true
  pub reached : reaches_organization db m i ≡ true

ensure_organization_row :
    (db : Database) (account_id : ℕ) (m : Membership) (i : ℕ) (o : Option Organization)
    → get i db.organizations ≡ o
    → ensure_membership_organization_access db account_id m i ≡ ok tt
    → MayUseOrganization db account_id m i
unfolding ensure_membership_organization_access
ensure_organization_row db account_id m i none e h = absurd (ground arith)
ensure_organization_row db account_id m i (some row) e h =
    let inside : row.account_id ≡ account_id = ground arith in
    record {
      row = row;
      exists = e;
      in_account = inside;
      active = ground arith;
      reached = ground (arith, allows-organization db m i);
    }

-- The organization check passes exactly for the organizations that the member may use.
pub ensure_membership_organization_access_iff :
    (db : Database) (account_id : ℕ) (m : Membership) (i : ℕ)
    → (ensure_membership_organization_access db account_id m i ≡ ok tt)
      ↔ MayUseOrganization db account_id m i
unfolding ensure_membership_organization_access
ensure_membership_organization_access_iff db account_id m i = (
  ensure_organization_row db account_id m i _ refl,
  λ may. rw (allows-organization db m i, may.reached, may.exists) (ground arith),
)

-- A WhatsApp account of the account, on a reached channel of a usable organization.
pub record MayUseWhatsAppAccount (db : Database) (account_id : ℕ) (m : Membership) (i : ℕ)
    (wa : WhatsAppAccount) : Type 0 where
  pub exists : get i db.whatsapp_accounts ≡ some wa
  pub in_account : wa.account_id ≡ account_id
  pub organization : MayUseOrganization db account_id m wa.organization_id
  pub channel : reaches_channel db account_id m wa.channel_id ≡ true

ensure_whatsapp_row :
    (db : Database) (account_id : ℕ) (m : Membership) (i : ℕ) (wa : WhatsAppAccount)
    (o : Option WhatsAppAccount)
    → get i db.whatsapp_accounts ≡ o
    → ensure_whatsapp_account_access db account_id m i ≡ ok wa
    → MayUseWhatsAppAccount db account_id m i wa
unfolding ensure_whatsapp_account_access
ensure_whatsapp_row db account_id m i wa none e h = absurd (ground arith)
ensure_whatsapp_row db account_id m i wa (some row) e h =
    let same : row ≡ wa = ground arith in
    let usable : ensure_membership_organization_access db account_id m wa.organization_id ≡ ok tt =
      ground arith in
    record {
      exists = e ∙ ap some same;
      in_account = ground arith;
      organization =
          (ensure_membership_organization_access_iff db account_id m wa.organization_id).0 usable;
      channel = ground (arith, ensure_membership_channel_access_lem db account_id m wa.channel_id);
    }

-- The check of a WhatsApp account returns a row exactly if the member may use it; so no row of
-- another account, of a suspended or unreachable organization, or on an unreachable channel is
-- ever returned.
pub ensure_whatsapp_account_access_iff :
    (db : Database) (account_id : ℕ) (m : Membership) (i : ℕ) (wa : WhatsAppAccount)
    → (ensure_whatsapp_account_access db account_id m i ≡ ok wa)
      ↔ MayUseWhatsAppAccount db account_id m i wa
unfolding ensure_whatsapp_account_access
ensure_whatsapp_account_access_iff db account_id m i wa = (
  ensure_whatsapp_row db account_id m i wa _ refl,
  λ may. ground (
    arith,
    may.exists,
    may.in_account,
    may.channel,
    (ensure_membership_organization_access_iff db account_id m wa.organization_id).1
        may.organization,
    ensure_membership_channel_access_lem db account_id m wa.channel_id,
  ),
)
