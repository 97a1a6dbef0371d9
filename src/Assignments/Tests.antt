-- ===== src/Assignments/Tests.antt =====
-- Runs of the automatic assignment.
use watesly.Employees.{validate_branch_scoped_assignment, assert_actor_can_manage_target}
use watesly.Base.{ℕ, List, ◌≡◌, bind, ok, refl, true, none, some, [], ◌∷◌}
use watesly.Models.{
  Database, Conversation, open_status, Team, AssignmentRule, round_robin, least_open,
}
use watesly.Fixtures.{sample, the_agent, the_owner, the_manager}
use watesly.Access.{list_membership_organization_ids}
use watesly.Employees.Update.{
  replace_organizations, updated_permissions, update_channels, validate_organization_ids,
  update_organizations, apply_update, update_guards, update_employee,
}
use watesly.Assignments.Rotation.{assign_all, assign_all-rotates}
use watesly.Assignments.Teams.{
  replace_members, validate_memberships, validate_memberships_in_organization, team_member_ids,
  update_team_members,
}
use watesly.Assignments.Teams.Members.{HasMembers, update_team_members-HasMembers}
use watesly.Assignments.{
  open_count, less_busy, least_busy, assign, choose, assign_chosen, in_team, team_memberships,
  rule_before, applies, assign_by, auto_assign_conversation, find_rule, members_of,
}
use watesly.Assignments.Choice.{Assigned, auto_assign-Assigned}

abbrev chat : Conversation
chat = record {
  id = 71;
  account_id = 1;
  organization_id = 2;
  channel_id = 6;
  contact_id = 11;
  assigned_membership_id = none;
  status = open_status;
  last_message_at = none;
  deleted_at = none;
}

abbrev fewest : AssignmentRule
fewest = record {
  id = 81;
  account_id = 1;
  organization_id = 2;
  channel_id = some 6;
  team_id = 91;
  name = "north";
  strategy = least_open;
  priority = 1;
  is_active = true;
  created_at = 100;
  last_assigned_membership_id = none;
}

-- The manager has an open conversation already, and the agent has none.
abbrev desk : Database
desk = record sample {
  conversations = record chat { id = 72; assigned_membership_id = some 32 } ∷ chat ∷ [];
  rules = record fewest { id = 82; priority = 5; strategy = round_robin } ∷ fewest ∷ [];
  team_members =
      record { team_id = 91; membership_id = 32 }
      ∷ record { team_id = 91; membership_id = 33 }
      ∷ [];
}

abbrev assigned_desk : Database
assigned_desk = record desk {
  conversations =
      record chat { id = 72; assigned_membership_id = some 32 }
      ∷ record chat { assigned_membership_id = some 33 }
      ∷ [];
}

auto_assign-Assigned_example : Assigned chat desk the_agent assigned_desk
unfolding auto_assign_conversation assign_by find_rule applies rule_before members_of
    team_memberships in_team assign_chosen choose assign least_busy less_busy open_count
auto_assign-Assigned_example = auto_assign-Assigned chat desk the_agent assigned_desk refl

-- The manager had the last turn of the team.
abbrev by_turns : AssignmentRule
by_turns = record fewest { strategy = round_robin; last_assigned_membership_id = some 32 }

abbrev turn_desk : Database
turn_desk = record desk { rules = by_turns ∷ [] }

abbrev second_chat : Conversation
second_chat = record chat { id = 73 }

assign_all-rotates_example :
    (assign_all (chat ∷ second_chat ∷ []) turn_desk).0 ≡ some the_agent ∷ some the_manager ∷ []
unfolding find_rule applies rule_before team_memberships in_team
assign_all-rotates_example =
    assign_all-rotates (chat ∷ second_chat ∷ []) turn_desk by_turns the_manager [] (the_agent ∷ [])
      refl (refl, (refl, tt)) refl (refl, (refl, tt)) refl refl

abbrev support : Team
support = record {
  id = 91;
  account_id = 1;
  organization_id = 2;
  name = "support";
  description = none;
}

abbrev staffed : Database
staffed = record sample { teams = support ∷ [] }

abbrev joined : Database
joined = record staffed { team_members = record { team_id = 91; membership_id = 33 } ∷ [] }

update_team_members-HasMembers_example :
    HasMembers 1 91 (33 ∷ []) staffed ((support, 33 ∷ []), joined)
unfolding update_team_members validate_memberships_in_organization validate_memberships
    replace_members
update_team_members-HasMembers_example =
    update_team_members-HasMembers 1 91 (33 ∷ []) staffed ((support, 33 ∷ []), joined) refl

-- The agent, moved to another branch, stays in the team of the branch that it has left.
moved_member_stays :
    (bind {B = List ℕ × List ℕ}
      (update_employee 1 33 the_owner
        (record {
          role = none;
          status = none;
          organization_ids = some (7 ∷ []);
          channel_ids = none;
          permissions = none;
        })
        joined)
      λ db. ok (list_membership_organization_ids db 33, team_member_ids db 91))
    ≡ ok (7 ∷ [], 33 ∷ [])
unfolding update_employee update_guards assert_actor_can_manage_target apply_update
    update_organizations validate_organization_ids update_channels updated_permissions
    validate_branch_scoped_assignment list_membership_organization_ids team_member_ids
    replace_organizations
moved_member_stays = refl
