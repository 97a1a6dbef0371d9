-- ===== src/Employees/Tests.antt =====
-- Team administration on concrete inputs.
use watesly.Permissions.{role_rank}
use watesly.Base.{
  suc, ◌≤◌, ◌≡◌, ◌⊎◌, refl, true, none, some, [], ◌∷◌, get, bind, ok, err, invalid_invitation,
  arith,
}
use watesly.Models.{
  Database, admin, agent, owner, viewer, Membership, MembershipStatus, membership_row, UserStatus,
  Staff, Invitation, InvitationStatus, DateTime, monthly, Plan, Subscription,
}
use watesly.Fixtures.{sample, the_owner, the_manager, the_agent}
use watesly.Access.{replace_membership_channel_access, list_membership_organization_ids}
use watesly.Billing.{earlier, get_active_subscription}
use watesly.Employees.{
  validate_branch_scoped_assignment, assert_actor_can_manage_target, is_subset_of, is_listed,
}
use watesly.Employees.Rules.{MayManage, is_listed-manageable}
use watesly.Employees.Update.{
  apply_membership_channel_access, replace_organizations, updated_permissions, update_channels,
  validate_organization_ids, update_organizations, apply_update, update_guards,
  EmployeeUpdateRequest, update_employee, owner_count,
}
use watesly.Employees.Update.Scope.{
  InScope, update_employee-InScope, update_employee-others, update_employee-keeps_managers,
}
use watesly.Employees.Update.Owners.{update_employee-keeps_owner}
use watesly.Employees.Capacity.{
  is_member, check_organization_limits, validate_new_member_capacity, Office, count_members,
}
use watesly.Employees.Invite.{
  add_member, new_user, new_membership, initial_permissions, CreateEmployeeRequest,
  InviteEmployeeRequest, NewIds, create_employee,
}
use watesly.Employees.Invite.Created.{create_employee-capacity, create_employee-InScope}
use watesly.Employees.Accept.{
  accepting_user, channels_of_invitation, enter, branches_of_invitation, find_email,
  AcceptInvitationRequest, accept_invitation,
}
use watesly.Employees.Accept.Once.{accept_invitation-once}

abbrev suspend : EmployeeUpdateRequest
suspend = record {
  role = none;
  status = some MembershipStatus.suspended;
  organization_ids = none;
  channel_ids = none;
  permissions = none;
}

abbrev the_admin : Membership
the_admin = record the_owner { id = 34; user_id = 44; role = admin }

abbrev suspended_agent : Database
suspended_agent = record sample {
  memberships =
      the_owner ∷ the_manager ∷ record the_agent { status = MembershipStatus.suspended } ∷ [];
}

-- A manager that becomes an agent moves itself to a branch that it did not manage.
self_move :
    (bind
      (update_employee 1 32 the_manager
        (record suspend { role = some agent; status = none; organization_ids = some (7 ∷ []) })
        sample)
      λ db. ok (list_membership_organization_ids db 32))
    ≡ ok (7 ∷ [])
unfolding update_employee update_guards assert_actor_can_manage_target role_rank
    list_membership_organization_ids apply_update update_organizations validate_organization_ids
    update_channels updated_permissions validate_branch_scoped_assignment replace_organizations
self_move = refl

abbrev two_managers : Database
two_managers = record sample { memberships = the_owner ∷ the_admin ∷ [] }

-- An admin suspends the one owner, and makes itself an owner.
last_owner_suspended :
    (bind
      (update_employee 1 31 the_admin suspend two_managers)
      λ db. ok (owner_count 1 db.memberships))
    ≡ ok 0
unfolding update_employee update_guards assert_actor_can_manage_target apply_update
    update_organizations update_channels updated_permissions validate_branch_scoped_assignment
    owner_count
last_owner_suspended = refl

self_promoted :
    (bind
      (update_employee 1 34 the_admin
        (record suspend { role = some owner; status = none })
        two_managers)
      λ db. ok (owner_count 1 db.memberships))
    ≡ ok 2
unfolding update_employee update_guards assert_actor_can_manage_target apply_update
    update_organizations update_channels updated_permissions validate_branch_scoped_assignment
    owner_count
self_promoted = refl

is_listed-manageable_example : is_listed sample the_manager the_agent ≡ true
unfolding assert_actor_can_manage_target role_rank list_membership_organization_ids
is_listed-manageable_example = is_listed-manageable sample the_manager the_agent none refl refl

update_employee-InScope_example : InScope 33 the_manager sample suspended_agent
unfolding update_employee update_guards assert_actor_can_manage_target role_rank
    list_membership_organization_ids apply_update update_organizations update_channels
    updated_permissions validate_branch_scoped_assignment
update_employee-InScope_example =
    update_employee-InScope 1 33 the_manager suspend sample suspended_agent refl refl
      (λ e. ground (arith, e))

update_employee-others_example :
    (get 32 suspended_agent.memberships ≡ get 32 sample.memberships)
    × (list_membership_organization_ids suspended_agent 32
        ≡ list_membership_organization_ids sample 32)
unfolding update_employee update_guards assert_actor_can_manage_target role_rank
    list_membership_organization_ids apply_update update_organizations update_channels
    updated_permissions validate_branch_scoped_assignment
update_employee-others_example =
    update_employee-others 1 33 the_manager suspend sample suspended_agent refl 32
      (λ e. ground (arith, e))

update_employee-keeps_managers_example : get 31 suspended_agent.memberships ≡ some the_owner
unfolding update_employee update_guards assert_actor_can_manage_target role_rank
    list_membership_organization_ids apply_update update_organizations update_channels
    updated_permissions validate_branch_scoped_assignment
update_employee-keeps_managers_example =
    update_employee-keeps_managers 1 33 the_manager suspend sample suspended_agent refl refl
      the_owner refl refl

abbrev demotion : EmployeeUpdateRequest
demotion = record suspend { role = some viewer; status = none }

abbrev demoted_agent : Database
demoted_agent = record sample {
  memberships = the_owner ∷ the_manager ∷ record the_agent { role = viewer } ∷ [];
}

update_employee-keeps_owner_example : 1 ≤ owner_count 1 demoted_agent.memberships
unfolding update_employee update_guards assert_actor_can_manage_target apply_update
    update_organizations update_channels updated_permissions validate_branch_scoped_assignment
    role_rank owner_count
update_employee-keeps_owner_example =
    update_employee-keeps_owner 1 33 the_owner demotion sample demoted_agent refl refl (omega arith)

abbrev new_year : DateTime
new_year = record { year = 2025; month = 1; day = 1; time = 0 }

abbrev small_plan : Plan
small_plan = record {
  id = 61;
  max_users = 4;
  included_mac = 1000;
  over_mac_price_per_100 = 12000;
  overage_enabled = true;
}

abbrev office : Office
office = record {
  subscriptions =
      record {
        id = 62;
        account_id = 1;
        plan_id = 61;
        billing_cycle = monthly;
        starts_at = new_year;
        ends_at = record new_year { year = 2026 };
        included_mac_override = none;
        over_mac_price_per_100_override = none;
      }
      ∷ [];
  plans = small_plan ∷ [];
  today = record new_year { month = 5 };
  now = 500;
  invitation_token_expire_hours = 72;
  hash_password = λ p. p;
  strip = λ t. t;
  decode_invitation_token = λ t. ok 71;
}

abbrev staff : Staff
staff = record {
  db = sample;
  users = [];
  invitations = [];
  invitation_organizations = [];
  invitation_channels = [];
  sessions = [];
}

abbrev newcomer : CreateEmployeeRequest
newcomer = record {
  email = "a@b.kw";
  full_name = "Ana";
  password = "secret";
  role = agent;
  organization_ids = 2 ∷ [];
  channel_ids = [];
  preferred_language = "ar";
  permissions = none;
}

abbrev ids : NewIds
ids = record { user_id = 46; membership_id = 36 }

abbrev made : Membership × Staff
made = (
  record the_agent { id = 36; user_id = 46; created_at = 500 },
  record staff {
    db = record sample {
      memberships =
          the_owner
          ∷ the_manager
          ∷ the_agent
          ∷ record the_agent { id = 36; user_id = 46; created_at = 500 }
          ∷ [];
      organization_memberships =
          record { organization_id = 2; membership_id = 32 }
          ∷ record { organization_id = 2; membership_id = 33 }
          ∷ record { organization_id = 2; membership_id = 36 }
          ∷ [];
    };
    users =
        record {
          id = 46;
          email = "a@b.kw";
          full_name = "Ana";
          password_hash = "secret";
          preferred_language = "ar";
          failed_login_attempts = 0;
          locked_until = none;
          password_changed_at = none;
          status = UserStatus.active;
        }
        ∷ [];
  },
)

abbrev subscribed : Subscription
subscribed = record {
  id = 62;
  account_id = 1;
  plan_id = 61;
  billing_cycle = monthly;
  starts_at = new_year;
  ends_at = record new_year { year = 2026 };
  included_mac_override = none;
  over_mac_price_per_100_override = none;
}

create_employee-capacity_example :
    (count_members 1 made.1.db.memberships ≡ suc (count_members 1 sample.memberships))
    × ((x : Subscription × Plan) × (get_active_subscription office.subscriptions office.plans
            office.today 1
          ≡ some x)
        × ((x.1.max_users ≡ 0) ⊎ (count_members 1 made.1.db.memberships ≤ x.1.max_users)))
unfolding create_employee assert_actor_can_manage_target role_rank list_membership_organization_ids
    validate_branch_scoped_assignment validate_new_member_capacity get_active_subscription earlier
    count_members check_organization_limits is_member validate_organization_ids initial_permissions
    apply_membership_channel_access new_membership replace_membership_channel_access new_user
    add_member
create_employee-capacity_example =
    create_employee-capacity office 1 ids the_manager newcomer staff made refl

create_employee-InScope_example :
    MayManage the_manager.role (list_membership_organization_ids sample 32) agent (2 ∷ []) agent
    × (is_subset_of
          (list_membership_organization_ids made.1.db 36)
          (list_membership_organization_ids sample 32)
        ≡ true)
unfolding create_employee assert_actor_can_manage_target role_rank list_membership_organization_ids
    validate_branch_scoped_assignment validate_new_member_capacity get_active_subscription earlier
    count_members check_organization_limits is_member validate_organization_ids initial_permissions
    apply_membership_channel_access new_membership replace_membership_channel_access new_user
    add_member
create_employee-InScope_example =
    create_employee-InScope office 1 ids the_manager newcomer staff made refl refl refl

abbrev invite : InviteEmployeeRequest
invite = record { email = "a@b.kw"; role = agent; organization_ids = 2 ∷ []; channel_ids = [] }

abbrev invitation : Invitation
invitation = record {
  id = 71;
  account_id = 1;
  email = "a@b.kw";
  role = agent;
  invited_by_user_id = 42;
  expires_at = 259200000500;
  status = InvitationStatus.pending;
  accepted_at = none;
}

abbrev invited : Staff
invited = record staff {
  invitations = invitation ∷ [];
  invitation_organizations = record { invitation_id = 71; organization_id = 2 } ∷ [];
}

abbrev acceptance : AcceptInvitationRequest
acceptance = record {
  token = "t";
  full_name = "Ana";
  password = "secret";
  preferred_language = "ar";
}

abbrev entered : Membership × Staff
entered = (
  made.0,
  record made.1 {
    invitations =
        record invitation { status = InvitationStatus.accepted; accepted_at = some 500 } ∷ [];
    invitation_organizations = record { invitation_id = 71; organization_id = 2 } ∷ [];
  },
)

accept_invitation-once_example :
    accept_invitation office (record { user_id = 47; membership_id = 37 }) acceptance entered.1
    ≡ err invalid_invitation
unfolding accept_invitation find_email validate_new_member_capacity get_active_subscription earlier
    count_members check_organization_limits branches_of_invitation is_member enter new_membership
    channels_of_invitation accepting_user new_user add_member
accept_invitation-once_example =
    accept_invitation-once office office ids (record { user_id = 47; membership_id = 37 })
      acceptance acceptance invited 71 entered refl refl refl
