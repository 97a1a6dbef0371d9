-- ===== src/Employees/Invite.antt =====
-- Taking in members: `create_invitation` and `create_employee` of services/team.py.
pub mod Created
pub mod Pending
use watesly.Base.{
  ℕ, String, Bool, true, false, not, ◌&&◌, ◌||◌, ◌+◌, ◌*◌, Option, none, some, List, [], ◌∷◌, ◌++◌,
  map, select, any, contains, delete_where, update_where, count_where, get, put, first, is_empty,
  no_active_subscription, user_limit_reached, org_user_limit_reached, invalid_organization,
  already_member, email_already_registered, invalid_invitation, out_of_scope, Result, ok, err,
  ensure, bind, found, ◌==◌, leb, ltb, is_some, if◌then◌else◌, same_text,
}
use watesly.Models.{
  Database, MembershipRole, MembershipStatus, Membership, membership_row, Organization,
  organization_row, OrganizationMembership, is_active_membership, User, UserStatus, user_row,
  Invitation, InvitationStatus, invitation_row, InvitationOrganization, InvitationChannelAccess,
  Staff, DateTime, Plan, Subscription,
}
use watesly.Permissions.{validate_custom_permissions_for_role}
use watesly.Access.{
  list_membership_organization_ids, validate_channel_ids, replace_membership_channel_access,
}
use watesly.Billing.{get_active_subscription}
use watesly.Employees.{
  is_branch_scoped, is_subset_of, assert_actor_can_manage_target, validate_branch_scoped_assignment,
  assignable_permissions_for_actor,
}
use watesly.Employees.Update.{validate_organization_ids, apply_membership_channel_access}
use watesly.Employees.Capacity.{Office, validate_new_member_capacity}

pub record InviteEmployeeRequest : Type 0 where
  pub email : String
  pub role : MembershipRole
  pub organization_ids : List ℕ
  pub channel_ids : List ℕ

abbrev pub is_pending : InvitationStatus → Bool
is_pending InvitationStatus.pending = true
is_pending _ = false

-- The pending invitations of the address end, as expired or as revoked.
unfoldable pub retire_invitations : ℕ → ℕ → String → List Invitation → List Invitation
retire_invitations now account_id email =
    update_where (λ i. i.account_id == account_id && same_text i.email email && is_pending i.status)
      (λ i. record i {
        status =
            if leb i.expires_at now then InvitationStatus.expired else InvitationStatus.revoked;
      })

unfoldable pub invitation_branches : ℕ → List ℕ → List InvitationOrganization
invitation_branches invitation_id =
    map (λ i. record { invitation_id = invitation_id; organization_id = i })

-- `_replace_invitation_channel_access`
pub replace_invitation_channels :
    ℕ → List ℕ → List InvitationChannelAccess → List InvitationChannelAccess
replace_invitation_channels invitation_id channel_ids rows =
    delete_where (λ x. x.invitation_id == invitation_id) rows
    ++ map (λ i. record { invitation_id = invitation_id; channel_id = i }) channel_ids

abbrev pub microseconds_per_hour : ℕ
microseconds_per_hour = 3600000000

unfoldable pub new_invitation : Office → ℕ → ℕ → ℕ → InviteEmployeeRequest → Invitation
new_invitation office account_id invited_by_user_id new_id payload = record {
  id = new_id;
  account_id = account_id;
  email = payload.email;
  role = payload.role;
  invited_by_user_id = invited_by_user_id;
  expires_at = office.now + office.invitation_token_expire_hours * microseconds_per_hour;
  status = InvitationStatus.pending;
  accepted_at = none;
}

unfoldable pub invitation_channels_for : Database → ℕ → List ℕ → List ℕ → Result (Option (List ℕ))
invitation_channels_for db account_id valid_ids [] = ok none
invitation_channels_for db account_id valid_ids (c ∷ cs) =
    bind (validate_channel_ids db account_id valid_ids (c ∷ cs)) λ ids. ok (some ids)

abbrev pub with_channels :
    ℕ → Option (List ℕ) → List InvitationChannelAccess → List InvitationChannelAccess
with_channels invitation_id none rows = rows
with_channels invitation_id (some ids) rows = replace_invitation_channels invitation_id ids rows

unfoldable pub create_invitation :
    Office → ℕ → ℕ → ℕ → Membership → InviteEmployeeRequest → Staff → Result (Invitation × Staff)
create_invitation office account_id invited_by_user_id new_id actor payload s =
    let actor_org_ids : List ℕ = list_membership_organization_ids s.db actor.id in
    let invitation : Invitation =
      new_invitation office account_id invited_by_user_id new_id payload in
    bind
      (assert_actor_can_manage_target actor.role actor_org_ids payload.role payload.organization_ids
        none)
      λ _. bind (validate_branch_scoped_assignment payload.role payload.organization_ids) λ _.
        ensure
          (not (
            is_branch_scoped actor.role
            && not (is_subset_of payload.organization_ids actor_org_ids)))
          out_of_scope
          (bind
            (validate_new_member_capacity office s account_id payload.email
              payload.organization_ids)
            λ _.
              bind (validate_organization_ids s.db account_id payload.organization_ids) λ valid_ids.
                bind (invitation_channels_for s.db account_id valid_ids payload.channel_ids)
                  λ channel_ids. ok (
                    invitation,
                    record s {
                      invitations =
                          retire_invitations office.now account_id payload.email s.invitations
                          ++ (invitation ∷ []);
                      invitation_organizations =
                          s.invitation_organizations ++ invitation_branches invitation.id valid_ids;
                      invitation_channels =
                          with_channels invitation.id channel_ids s.invitation_channels;
                    },
                  ))

pub record CreateEmployeeRequest : Type 0 where
  pub email : String
  pub full_name : String
  pub password : String
  pub role : MembershipRole
  pub organization_ids : List ℕ
  pub channel_ids : List ℕ
  pub preferred_language : String
  pub permissions : Option (List String)

-- The identifiers of the new rows, which the database draws.
pub record NewIds : Type 0 where
  pub user_id : ℕ
  pub membership_id : ℕ

unfoldable pub new_user : Office → ℕ → String → String → String → String → User
new_user office id email full_name password language = record {
  id = id;
  email = email;
  full_name = full_name;
  password_hash = office.hash_password password;
  preferred_language = language;
  failed_login_attempts = 0;
  locked_until = none;
  password_changed_at = none;
  status = UserStatus.active;
}

unfoldable pub new_membership :
    Office → ℕ → ℕ → ℕ → MembershipRole → Option (List String) → Membership
new_membership office id account_id user_id role permissions = record {
  id = id;
  account_id = account_id;
  user_id = user_id;
  role = role;
  status = MembershipStatus.active;
  custom_permissions = permissions;
  created_at = office.now;
}

-- The tables with a new member in its branches.
unfoldable pub add_member : Membership → List ℕ → Database → Database
add_member m organization_ids db = record db {
  memberships = db.memberships ++ (m ∷ []);
  organization_memberships =
      db.organization_memberships
      ++ map (λ i. record { organization_id = i; membership_id = m.id }) organization_ids;
}

unfoldable pub initial_permissions :
    Membership → CreateEmployeeRequest → Result (Option (List String))
initial_permissions actor payload = elim payload.permissions [
  | none ↦ ok none
  | some [] ↦ ok none
  | some (p ∷ ps) ↦
      bind
        (validate_custom_permissions_for_role payload.role (p ∷ ps)
          (assignable_permissions_for_actor actor.role))
        λ values. ok (some values)
]

unfoldable pub create_employee :
    Office → ℕ → NewIds → Membership → CreateEmployeeRequest → Staff → Result (Membership × Staff)
create_employee office account_id ids actor payload s =
    bind
      (assert_actor_can_manage_target actor.role (list_membership_organization_ids s.db actor.id)
        payload.role payload.organization_ids none)
      λ _. bind (validate_branch_scoped_assignment payload.role payload.organization_ids) λ _.
        bind
          (validate_new_member_capacity office s account_id payload.email payload.organization_ids)
          λ _.
            bind (validate_organization_ids s.db account_id payload.organization_ids) λ valid_ids.
              ensure (not (any (λ u. same_text u.email payload.email) s.users))
                email_already_registered
                (bind (initial_permissions actor payload) λ permissions.
                  let m : Membership =
                    new_membership office ids.membership_id account_id ids.user_id payload.role
                      permissions in
                  bind
                    (apply_membership_channel_access account_id m.id valid_ids
                      (some payload.channel_ids) (add_member m valid_ids s.db))
                    λ db'. ok (
                      m,
                      record s {
                        db = db';
                        users =
                            s.users
                            ++ (new_user office ids.user_id payload.email
                                  (office.strip payload.full_name) payload.password
                                  payload.preferred_language
                                ∷ []);
                      },
                    ))
