-- ===== src/Employees/Rules.antt =====
-- Whom a member may manage, and whom it is shown (backend/app/services/team.py).
use watesly.Base.{
  ℕ, ◌≤◌, ◌≡◌, refl, true, false, Option, List, [], ◌∷◌, is_empty, ok, arith, or_else,
}
use watesly.Models.{
  Database, MembershipRole, owner, admin, branch_admin, manager, agent, viewer, Membership,
  is_owner_or_admin,
}
use watesly.Permissions.{role_rank}
use watesly.Access.{list_membership_organization_ids}
use watesly.Employees.{
  is_branch_scoped, is_subset_of, protected_roles_for_actor, max_assignable_role,
  assert_actor_can_manage_target, overlaps, is_listed,
}

-- What an actor that does not manage the account has shown when the check lets it pass.
pub record MayManage (actor : MembershipRole) (actor_orgs : List ℕ) (target : MembershipRole)
    (target_orgs : List ℕ) (effective : MembershipRole) : Type 0 where
  pub scoped : is_branch_scoped actor ≡ true
  pub target_unprotected : protected_roles_for_actor actor target ≡ false
  pub role_unprotected : protected_roles_for_actor actor effective ≡ false
  pub rank : role_rank effective ≤ role_rank manager
  pub some_branch : is_empty target_orgs ≡ false
  pub inside : is_subset_of target_orgs actor_orgs ≡ true

max_rank :
    (actor : MembershipRole) → is_branch_scoped actor ≡ true → max_assignable_role actor ≡ manager
max_rank owner h = cc
max_rank admin h = cc
max_rank branch_admin h = refl
max_rank manager h = refl
max_rank agent h = cc
max_rank viewer h = cc

pub assert_actor_can_manage_target-MayManage :
    (actor : MembershipRole) (actor_orgs : List ℕ) (target : MembershipRole) (target_orgs : List ℕ)
    (new_role : Option MembershipRole)
    → is_owner_or_admin actor ≡ false
    → assert_actor_can_manage_target actor actor_orgs target target_orgs new_role ≡ ok tt
    → MayManage actor actor_orgs target target_orgs (or_else new_role target)
unfolding assert_actor_can_manage_target
assert_actor_can_manage_target-MayManage actor actor_orgs target target_orgs new_role plain h =
    record {
      scoped = ground (arith, plain, h);
      target_unprotected = ground (arith, plain, h);
      role_unprotected = ground (arith, plain, h);
      rank = ground (arith, plain, h, max_rank actor);
      some_branch = ground (arith, plain, h);
      inside = ground (arith, plain, h);
    }

overlaps_of_subset :
    (xs ys : List ℕ) → is_empty xs ≡ false → is_subset_of xs ys ≡ true → overlaps xs ys ≡ true
unfolding overlaps
overlaps_of_subset [] ys h k = cc
overlaps_of_subset (x ∷ xs) ys h k = ground (arith, k)

-- A branch-scoped actor is shown everyone that it may manage, whatever role it means to give.
pub is_listed-manageable :
    (db : Database) (actor m : Membership) (new_role : Option MembershipRole)
    → is_owner_or_admin actor.role ≡ false
    → assert_actor_can_manage_target actor.role
        (list_membership_organization_ids db actor.id)
        m.role
        (list_membership_organization_ids db m.id)
        new_role
      ≡ ok tt
    → is_listed db actor m ≡ true
unfolding is_listed
is_listed-manageable db actor m new_role plain h =
    let may =
      assert_actor_can_manage_target-MayManage actor.role
        (list_membership_organization_ids db actor.id) m.role
        (list_membership_organization_ids db m.id) new_role plain h in
    ground (
      arith,
      may.target_unprotected,
      overlaps_of_subset (list_membership_organization_ids db m.id)
          (list_membership_organization_ids db actor.id) may.some_branch may.inside,
    )
