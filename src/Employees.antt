-- ===== src/Employees.antt =====
-- Team administration (backend/app/services/team.py): whom a member may manage, and with which
-- roles and permissions. A set of identifiers is a list, compared by its members.
pub mod Rules
pub mod Update
pub mod Capacity
pub mod Invite
pub mod Accept
mod Tests
use watesly.Base.{
  ℕ, Bool, true, false, not, ◌&&◌, ◌||◌, Option, none, some, List, [], ◌∷◌, all, contains, order_by,
  is_empty, map, select, Error, forbidden, out_of_scope, organization_required,
  invalid_organization, invalid_permission, Result, ok, err, ensure, bind, ltb, leb, ◌==◌,
  if◌then◌else◌, is_some, or_else,
}
use watesly.Models.{
  Database, MembershipRole, owner, admin, branch_admin, manager, Membership, is_owner_or_admin,
  User, Staff,
}
use watesly.Permissions.{PermissionSet, role_permissions, role_rank}
use watesly.Access.{list_membership_organization_ids}

-- `BRANCH_SCOPED_ROLES`
abbrev pub is_branch_scoped : MembershipRole → Bool
is_branch_scoped manager = true
is_branch_scoped branch_admin = true
is_branch_scoped _ = false

abbrev pub is_branch_admin : MembershipRole → Bool
is_branch_admin branch_admin = true
is_branch_admin _ = false

abbrev pub is_manager : MembershipRole → Bool
is_manager manager = true
is_manager _ = false

-- `xs.issubset(ys)`
abbrev pub is_subset_of : List ℕ → List ℕ → Bool
is_subset_of xs ys = all (λ x. contains x ys) xs

-- `None`, which allows every permission, for the roles that manage the account.
unfoldable pub assignable_permissions_for_actor : MembershipRole → Option PermissionSet
assignable_permissions_for_actor owner = none
assignable_permissions_for_actor admin = none
assignable_permissions_for_actor branch_admin = some (role_permissions branch_admin)
assignable_permissions_for_actor manager = some (role_permissions manager)
assignable_permissions_for_actor _ = some (λ p. false)

-- `role in _protected_roles_for_actor(actor_role)`
abbrev pub protected_roles_for_actor : MembershipRole → MembershipRole → Bool
protected_roles_for_actor actor_role role =
    is_owner_or_admin role
    || (is_manager actor_role && is_branch_admin role)
    || (is_branch_admin actor_role && is_branch_admin role)

abbrev pub max_assignable_role : MembershipRole → MembershipRole
max_assignable_role owner = admin
max_assignable_role admin = admin
max_assignable_role _ = manager

unfoldable pub assert_actor_can_manage_target :
    MembershipRole → List ℕ → MembershipRole → List ℕ → Option MembershipRole → Result (Unit {0})
assert_actor_can_manage_target actor_role actor_org_ids target_role target_org_ids new_role =
    let effective_role : MembershipRole = or_else new_role target_role in
    if is_owner_or_admin actor_role
    then ok tt
    else ensure (is_branch_scoped actor_role) forbidden (
        ensure
          (not (
            protected_roles_for_actor actor_role target_role
            || protected_roles_for_actor actor_role effective_role))
          forbidden
          (ensure (leb (role_rank effective_role) (role_rank (max_assignable_role actor_role)))
            forbidden
            (ensure (not (is_empty target_org_ids) && is_subset_of target_org_ids actor_org_ids)
              out_of_scope (ok tt))))

unfoldable pub validate_branch_scoped_assignment : MembershipRole → List ℕ → Result (Unit {0})
validate_branch_scoped_assignment role organization_ids =
    ensure (not (is_branch_scoped role && is_empty organization_ids)) organization_required (ok tt)

-- `set(xs) & set(ys)`, as a test
pub overlaps : List ℕ → List ℕ → Bool
overlaps [] ys = false
overlaps (x ∷ xs) ys = contains x ys || overlaps xs ys

pub find_user : ℕ → List User → Option User
find_user i [] = none
find_user i (u ∷ us) = if u.id == i then some u else find_user i us

-- What a branch-scoped actor leaves out of the list.
unfoldable pub is_listed : Database → Membership → Membership → Bool
is_listed db actor m =
    let actor_org_ids = list_membership_organization_ids db actor.id in
    not (is_owner_or_admin m.role)
    && not (is_manager actor.role && is_branch_admin m.role)
    && not (is_branch_admin actor.role && is_branch_admin m.role && not (m.id == actor.id))
    && overlaps (list_membership_organization_ids db m.id) actor_org_ids

abbrev pub shown : Database → Option Membership → Membership → Bool
shown db none m = true
shown db (some actor) m = not (is_branch_scoped actor.role) || is_listed db actor m

-- The rows of the join, those that the actor is shown.
pub listed_rows : Staff → Option Membership → List Membership → List (Membership × (User × List ℕ))
listed_rows s actor [] = []
listed_rows s actor (m ∷ ms) =
    let rest = listed_rows s actor ms in
    elim (find_user m.user_id s.users) [
      | none ↦ rest
      | some u ↦
          if shown s.db actor m
          then (m, (u, list_membership_organization_ids s.db m.id)) ∷ rest
          else rest
    ]

unfoldable pub list_employees : Staff → ℕ → Option Membership → List (Membership × (User × List ℕ))
list_employees s account_id actor = listed_rows s actor (
    order_by (λ a b. ltb a.created_at b.created_at)
      (select (λ m. m.account_id == account_id) s.db.memberships))
