-- ===== src/Employees/Accept.antt =====
-- Accepting an invitation: `accept_invitation` of services/team.py.
pub mod Once
use watesly.Base.{
  ℕ, String, Bool, true, false, not, ◌&&◌, ◌||◌, ◌+◌, ◌*◌, Option, none, some, List, [], ◌∷◌, ◌++◌,
  map, select, any, contains, delete_where, update_where, count_where, get, put, first, is_empty,
  no_active_subscription, user_limit_reached, org_user_limit_reached, invalid_organization,
  already_member, email_already_registered, invalid_invitation, out_of_scope, Result, ok, err,
  ensure, bind, found, ◌==◌, leb, ltb, is_some, if◌then◌else◌, same_text,
}
use watesly.Models.{
  Database, MembershipRole, MembershipStatus, Membership, membership_row, Organization,
  organization_row, OrganizationMembership, is_active_membership, User, UserStatus, user_row,
  Invitation, InvitationStatus, invitation_row, InvitationOrganization, InvitationChannelAccess,
  Staff, DateTime, Plan, Subscription,
}
use watesly.Permissions.{validate_custom_permissions_for_role}
use watesly.Access.{
  list_membership_organization_ids, validate_channel_ids, replace_membership_channel_access,
}
use watesly.Billing.{get_active_subscription}
use watesly.Employees.{
  is_branch_scoped, is_subset_of, assert_actor_can_manage_target, validate_branch_scoped_assignment,
  assignable_permissions_for_actor,
}
use watesly.Employees.Update.{validate_organization_ids, apply_membership_channel_access}
use watesly.Employees.Capacity.{Office, validate_new_member_capacity}
use watesly.Employees.Invite.{is_pending, NewIds, new_user, new_membership, add_member}

pub record AcceptInvitationRequest : Type 0 where
  pub token : String
  pub full_name : String
  pub password : String
  pub preferred_language : String

abbrev pub is_open_invitation : ℕ → Invitation → Bool
is_open_invitation now i = is_pending i.status && ltb now i.expires_at

unfoldable pub find_email : String → List User → Option User
find_email email users = first (select (λ u. same_text u.email email) users)

-- The user of the address: as it becomes, or a new one. The name is stripped for a known user only.
unfoldable pub accepting_user :
    Office → NewIds → AcceptInvitationRequest → String → Option User → User
accepting_user office ids payload email none =
    new_user office ids.user_id email payload.full_name payload.password payload.preferred_language
accepting_user office ids payload email (some user) = record user {
  full_name = office.strip payload.full_name;
  password_hash = office.hash_password payload.password;
  preferred_language = payload.preferred_language;
  status = UserStatus.active;
}

abbrev pub save_user : User → Option User → List User → List User
save_user u none users = users ++ (u ∷ [])
save_user u (some old) users = put u users

abbrev pub belongs : ℕ → Option User → List Membership → Bool
belongs account_id none members = false
belongs account_id (some u) members =
    any (λ m. m.account_id == account_id && m.user_id == u.id) members

unfoldable pub branches_of_invitation : ℕ → List InvitationOrganization → List ℕ
branches_of_invitation i rows =
    map (λ x. x.organization_id) (select (λ x. x.invitation_id == i) rows)

unfoldable pub channels_of_invitation : ℕ → List InvitationChannelAccess → List ℕ
channels_of_invitation i rows = map (λ x. x.channel_id) (select (λ x. x.invitation_id == i) rows)

abbrev pub give_channels : ℕ → List ℕ → Database → Database
give_channels membership_id [] db = db
give_channels membership_id (c ∷ cs) db =
    replace_membership_channel_access membership_id (c ∷ cs) db

abbrev pub accepted_at_time : ℕ → Invitation → Invitation
accepted_at_time now i = record i { status = InvitationStatus.accepted; accepted_at = some now }

-- The tables after an invitation was accepted.
unfoldable pub enter :
    Office → NewIds → AcceptInvitationRequest → Invitation → Staff → Membership × Staff
enter office ids payload invitation s =
    let known : Option User = find_email invitation.email s.users in
    let user : User = accepting_user office ids payload invitation.email known in
    let m : Membership =
      new_membership office ids.membership_id invitation.account_id user.id invitation.role none in
    let branches : List ℕ = branches_of_invitation invitation.id s.invitation_organizations in
    (
      m,
      record s {
        db =
            give_channels m.id (channels_of_invitation invitation.id s.invitation_channels)
              (add_member m branches s.db);
        users = save_user user known s.users;
        invitations = put (accepted_at_time office.now invitation) s.invitations;
      },
    )

unfoldable pub accept_invitation :
    Office → NewIds → AcceptInvitationRequest → Staff → Result (Membership × Staff)
accept_invitation office ids payload s =
    bind (office.decode_invitation_token payload.token) λ invitation_id.
      found (get invitation_id s.invitations) invalid_invitation λ invitation.
        ensure (is_open_invitation office.now invitation) invalid_invitation (
          ensure
            (not (
              belongs invitation.account_id (find_email invitation.email s.users) s.db.memberships))
            already_member
            (bind
              (validate_new_member_capacity office s invitation.account_id invitation.email
                (branches_of_invitation invitation.id s.invitation_organizations))
              λ _. ok (enter office ids payload invitation s)))
