-- ===== src/Assignments/Teams.antt =====
-- Creating, changing and deleting teams and rules (backend/app/services/assignments.py). Deleting a
-- team deletes its members and rules, by the foreign keys of the database. `str.strip` is given.
pub mod Members
use watesly.Base.{
  ℕ, String, Bool, true, false, not, ◌&&◌, ◌||◌, Option, none, some, List, [], ◌∷◌, ◌++◌, map,
  select, contains, order_by, delete_where, get, put, remove, is_empty, Error, invalid_membership,
  member_out_of_branch, invalid_organization, team_not_found, invalid_team, rule_not_found, Result,
  ok, err, ensure, bind, found, ltb, leb, ◌==◌, if◌then◌else◌, or_else,
}
use watesly.Models.{
  Database, Membership, is_active_membership, Organization, organization_row, Team, team_row,
  TeamMember, AssignmentRule, AssignmentStrategy, rule_row,
}
use watesly.Access.{same_set}

abbrev pub is_active_member : ℕ → List ℕ → Membership → Bool
is_active_member account_id ids m =
    m.account_id == account_id && is_active_membership m.status && contains m.id ids

unfoldable pub validate_memberships : Database → ℕ → List ℕ → Result (List ℕ)
validate_memberships db account_id [] = ok []
validate_memberships db account_id (i ∷ ids) =
    let valid = map (λ m. m.id) (select (is_active_member account_id (i ∷ ids)) db.memberships) in
    ensure (same_set valid (i ∷ ids)) invalid_membership (ok valid)

abbrev pub in_branch : Database → ℕ → List ℕ → List ℕ
in_branch db organization_id ids =
    map (λ x. x.membership_id)
      (select (λ x. contains x.membership_id ids && x.organization_id == organization_id)
        db.organization_memberships)

unfoldable pub validate_memberships_in_organization : Database → ℕ → ℕ → List ℕ → Result (List ℕ)
validate_memberships_in_organization db account_id organization_id membership_ids =
    bind (validate_memberships db account_id membership_ids) λ valid.
      if is_empty valid
      then ok valid
      else ensure (same_set (in_branch db organization_id valid) valid) member_out_of_branch
          (ok valid)

abbrev pub member_rows : ℕ → List ℕ → List TeamMember
member_rows team_id = map (λ i. record { team_id = team_id; membership_id = i })

pub record TeamCreateRequest : Type 0 where
  pub organization_id : ℕ
  pub name : String
  pub description : Option String
  pub membership_ids : List ℕ

unfoldable pub create_team : ℕ → ℕ → TeamCreateRequest → Database → Result (Team × Database)
create_team new_id account_id payload db =
    found (get payload.organization_id db.organizations) invalid_organization λ organization.
      ensure (organization.account_id == account_id) invalid_organization (
        bind
          (validate_memberships_in_organization db account_id payload.organization_id
            payload.membership_ids)
          λ valid.
            let team : Team = record {
              id = new_id;
              account_id = account_id;
              organization_id = payload.organization_id;
              name = payload.name;
              description = payload.description;
            } in
            ok (
              team,
              record db {
                teams = db.teams ++ (team ∷ []);
                team_members = db.team_members ++ member_rows team.id valid;
              },
            ))

unfoldable pub team_member_ids : Database → ℕ → List ℕ
team_member_ids db team_id =
    map (λ x. x.membership_id) (select (λ x. x.team_id == team_id) db.team_members)

pub list_teams : (String → String → Bool) → ℕ → Database → List (Team × List ℕ)
list_teams before account_id db =
    map (λ t. (t, team_member_ids db t.id))
      (order_by (λ a b. before a.name b.name) (select (λ t. t.account_id == account_id) db.teams))

unfoldable pub replace_members : ℕ → List ℕ → Database → Database
replace_members team_id ids db = record db {
  team_members =
      delete_where (λ x. x.team_id == team_id) db.team_members ++ member_rows team_id ids;
}

-- The team found under the id, if it is the account's.
abbrev pub own_team : {A : Type 0} → ℕ → ℕ → Database → (Team → Result A) → Result A
own_team account_id team_id db k =
    found (get team_id db.teams) team_not_found
      λ team. ensure (team.account_id == account_id) team_not_found (k team)

unfoldable pub update_team_members : ℕ → ℕ → List ℕ → Database → Result ((Team × List ℕ) × Database)
update_team_members account_id team_id membership_ids db = own_team account_id team_id db λ team.
    bind (validate_memberships_in_organization db account_id team.organization_id membership_ids)
      λ valid. ok ((team, valid), replace_members team.id valid db)

pub record TeamUpdateRequest : Type 0 where
  pub name : Option String
  pub description : Option String
  pub membership_ids : Option (List ℕ)

abbrev pub renamed : (String → String) → TeamUpdateRequest → Team → Team
renamed strip payload team = record team {
  name = or_else (elim payload.name [ none ↦ none | some n ↦ some (strip n) ]) team.name;
  description = elim payload.description [ none ↦ team.description | some d ↦ some d ];
}

abbrev pub put_team : Team → Database → Database
put_team team db = record db { teams = put team db.teams }

unfoldable pub changed_members :
    ℕ → Team → Option (List ℕ) → Database → Result ((Team × List ℕ) × Database)
changed_members account_id team none db = ok ((team, team_member_ids db team.id), db)
changed_members account_id team (some ids) db =
    bind (validate_memberships_in_organization db account_id team.organization_id ids)
      λ valid. ok ((team, valid), replace_members team.id valid db)

unfoldable pub update_team :
    (String → String) → ℕ → ℕ → TeamUpdateRequest → Database → Result ((Team × List ℕ) × Database)
update_team strip account_id team_id payload db = own_team account_id team_id db λ team.
    changed_members account_id (renamed strip payload team) payload.membership_ids
      (put_team (renamed strip payload team) db)

pub delete_team : ℕ → ℕ → Database → Result Database
delete_team account_id team_id db = own_team account_id team_id db λ team. ok (record db {
  teams = remove team.id db.teams;
  team_members = delete_where (λ x. x.team_id == team.id) db.team_members;
  rules = delete_where (λ r. r.team_id == team.id) db.rules;
})

pub record AssignmentRuleCreateRequest : Type 0 where
  pub organization_id : ℕ
  pub channel_id : Option ℕ
  pub team_id : ℕ
  pub name : String
  pub strategy : AssignmentStrategy
  pub priority : ℕ
  pub is_active : Bool

unfoldable pub create_assignment_rule :
    ℕ → ℕ → ℕ → AssignmentRuleCreateRequest → Database → Result (AssignmentRule × Database)
create_assignment_rule new_id now account_id payload db =
    found (get payload.team_id db.teams) invalid_team λ team.
      ensure (team.account_id == account_id && team.organization_id == payload.organization_id)
        invalid_team
        (let rule : AssignmentRule = record {
          id = new_id;
          account_id = account_id;
          organization_id = payload.organization_id;
          channel_id = payload.channel_id;
          team_id = payload.team_id;
          name = payload.name;
          strategy = payload.strategy;
          priority = payload.priority;
          is_active = payload.is_active;
          created_at = now;
          last_assigned_membership_id = none;
        } in
          ok (rule, record db { rules = db.rules ++ (rule ∷ []) }))

pub list_assignment_rules : ℕ → Database → List AssignmentRule
list_assignment_rules account_id db =
    order_by
      (λ a b.
        ltb a.priority b.priority || (a.priority == b.priority && leb a.created_at b.created_at))
      (select (λ r. r.account_id == account_id) db.rules)

-- The fields that the request sets; a channel may be set to none.
pub record AssignmentRuleUpdateRequest : Type 0 where
  pub name : Option String
  pub strategy : Option AssignmentStrategy
  pub priority : Option ℕ
  pub is_active : Option Bool
  pub channel_id : Option (Option ℕ)

abbrev own_rule : {A : Type 0} → ℕ → ℕ → Database → (AssignmentRule → Result A) → Result A
own_rule account_id rule_id db k =
    found (get rule_id db.rules) rule_not_found
      λ rule. ensure (rule.account_id == account_id) rule_not_found (k rule)

pub update_assignment_rule :
    ℕ → ℕ → AssignmentRuleUpdateRequest → Database → Result (AssignmentRule × Database)
update_assignment_rule account_id rule_id payload db = own_rule account_id rule_id db λ rule.
    let changed : AssignmentRule = record rule {
      name = or_else payload.name rule.name;
      strategy = or_else payload.strategy rule.strategy;
      priority = or_else payload.priority rule.priority;
      is_active = or_else payload.is_active rule.is_active;
      channel_id = or_else payload.channel_id rule.channel_id;
    } in
    ok (changed, record db { rules = put changed db.rules })

pub delete_assignment_rule : ℕ → ℕ → Database → Result Database
delete_assignment_rule account_id rule_id db =
    own_rule account_id rule_id db λ rule. ok (record db { rules = remove rule.id db.rules })
