-- ===== src/Employees/Update.antt =====
-- Changing a member: `update_employee` and `set_employee_password` of services/team.py. The state is
-- the tables; a call that raises leaves them, since nothing is committed.
pub mod Branches
pub mod Applied
pub mod Scope
pub mod Owners
use watesly.Base.{
  ℕ, String, Bool, true, false, not, ◌&&◌, Option, none, some, List, [], ◌∷◌, ◌++◌, map, select,
  contains, delete_where, update_where, count_where, get, put, employee_not_found,
  cannot_suspend_self, last_owner, out_of_scope, invalid_organization, forbidden, Result, ok, err,
  ensure, bind, found, ◌==◌, leb, is_some, if◌then◌else◌, or_else,
}
use watesly.Models.{
  Database, MembershipRole, owner, MembershipStatus, Membership, membership_row, User, user_row,
  Staff, is_active_membership,
}
use watesly.Permissions.{role_rank, validate_custom_permissions_for_role}
use watesly.Access.{
  list_membership_organization_ids, validate_channel_ids, replace_membership_channel_access,
  same_set,
}
use watesly.Employees.{
  is_branch_scoped, is_subset_of, assert_actor_can_manage_target, validate_branch_scoped_assignment,
  assignable_permissions_for_actor,
}

pub record EmployeeUpdateRequest : Type 0 where
  pub role : Option MembershipRole
  pub status : Option MembershipStatus
  pub organization_ids : Option (List ℕ)
  pub channel_ids : Option (List ℕ)
  pub permissions : Option (List String)

abbrev pub is_owner : MembershipRole → Bool
is_owner owner = true
is_owner _ = false

-- `payload.role not in (None, OWNER)`
abbrev pub leaves_owner : Option MembershipRole → Bool
leaves_owner none = false
leaves_owner (some r) = not (is_owner r)

abbrev pub is_suspension : Option MembershipStatus → Bool
is_suspension none = false
is_suspension (some s) = not (is_active_membership s)

unfoldable pub owner_count : ℕ → List Membership → ℕ
owner_count account_id =
    count_where
      (λ m. m.account_id == account_id && is_owner m.role && is_active_membership m.status)

-- `_validate_organization_ids`, and the same query of `update_employee`.
unfoldable pub validate_organization_ids : Database → ℕ → List ℕ → Result (List ℕ)
validate_organization_ids db account_id organization_ids =
    let valid_ids =
      map (λ o. o.id)
        (select (λ o. o.account_id == account_id && contains o.id organization_ids)
          db.organizations) in
    ensure (same_set valid_ids organization_ids) invalid_organization (ok valid_ids)

unfoldable pub replace_organizations : ℕ → List ℕ → Database → Database
replace_organizations membership_id organization_ids db = record db {
  organization_memberships =
      delete_where (λ x. x.membership_id == membership_id) db.organization_memberships
      ++ map (λ i. record { organization_id = i; membership_id = membership_id }) organization_ids;
}

-- `_apply_membership_channel_access`
unfoldable pub apply_membership_channel_access :
    ℕ → ℕ → List ℕ → Option (List ℕ) → Database → Result Database
apply_membership_channel_access account_id membership_id organization_ids none db = ok db
apply_membership_channel_access account_id membership_id organization_ids (some []) db =
    ok (replace_membership_channel_access membership_id [] db)
apply_membership_channel_access account_id membership_id organization_ids (some (c ∷ cs)) db =
    bind (validate_channel_ids db account_id organization_ids (c ∷ cs))
      λ valid. ok (replace_membership_channel_access membership_id valid db)

-- The branches that the payload asks for, if it does: the tables and the branches afterwards.
unfoldable pub update_organizations :
    ℕ → MembershipRole → List ℕ → ℕ → Option (List ℕ) → Database → Result (List ℕ × Database)
update_organizations account_id actor_role actor_org_ids membership_id none db =
    ok (list_membership_organization_ids db membership_id, db)
update_organizations account_id actor_role actor_org_ids membership_id (some ids) db =
    ensure (not (is_branch_scoped actor_role && not (is_subset_of ids actor_org_ids))) out_of_scope
      (bind (validate_organization_ids db account_id ids)
        λ valid_ids. ok (valid_ids, replace_organizations membership_id valid_ids db))

unfoldable pub update_channels :
    ℕ → MembershipRole → List ℕ → ℕ → List ℕ → Option (List ℕ) → Database → Result Database
update_channels account_id actor_role actor_org_ids membership_id target_org_ids none db = ok db
update_channels account_id actor_role actor_org_ids membership_id target_org_ids (some ids) db =
    ensure (not (is_branch_scoped actor_role && not (is_subset_of target_org_ids actor_org_ids)))
      out_of_scope
      (apply_membership_channel_access account_id membership_id target_org_ids (some ids) db)

abbrev pub same_rank : MembershipRole → MembershipRole → Bool
same_rank a b = role_rank a == role_rank b

-- A changed role takes the custom permissions away.
abbrev pub kept_permissions :
    Option MembershipRole → MembershipRole → Option (List String) → Option (List String)
kept_permissions none previous custom = custom
kept_permissions (some r) previous custom = if same_rank r previous then custom else none

unfoldable pub updated_permissions :
    MembershipRole → EmployeeUpdateRequest → Membership → Result (Option (List String))
updated_permissions actor_role payload target = elim payload.permissions [
  | none ↦ ok (kept_permissions payload.role target.role target.custom_permissions)
  | some [] ↦ ok none
  | some (p ∷ ps) ↦
      bind
        (validate_custom_permissions_for_role (or_else payload.role target.role) (p ∷ ps)
          (assignable_permissions_for_actor actor_role))
        λ values. ok (some values)
]

-- The checks before the first change.
unfoldable pub update_guards :
    Database → ℕ → Membership → EmployeeUpdateRequest → Membership → Result (Unit {0})
update_guards db account_id actor payload target =
    bind
      (assert_actor_can_manage_target actor.role (list_membership_organization_ids db actor.id)
        target.role (list_membership_organization_ids db target.id) payload.role)
      λ _.
        ensure (not (target.id == actor.id && is_suspension payload.status)) cannot_suspend_self (
          ensure
            (not (
              is_owner target.role
              && leaves_owner payload.role
              && leb (owner_count account_id db.memberships) 1))
            last_owner (ok tt))

-- The session has one object for a row: once an actor's own role is changed, the checks that follow
-- read the new role.
abbrev pub acting_role : Membership → EmployeeUpdateRequest → Membership → MembershipRole
acting_role actor payload target =
    if target.id == actor.id then or_else payload.role target.role else actor.role

-- What follows the checks, on the row of the member.
unfoldable pub apply_update :
    ℕ → Membership → EmployeeUpdateRequest → Membership → Database → Result Database
apply_update account_id actor payload target db =
    let actor_org_ids : List ℕ = list_membership_organization_ids db actor.id in
    let actor_role : MembershipRole = acting_role actor payload target in
    bind
      (update_organizations account_id actor_role actor_org_ids target.id payload.organization_ids
        db)
      λ changed.
        bind
          (update_channels account_id actor_role actor_org_ids target.id changed.0
            payload.channel_ids changed.1)
          λ db'. bind (updated_permissions actor_role payload target) λ permissions.
            bind (validate_branch_scoped_assignment (or_else payload.role target.role) changed.0)
              λ _. ok (record db' {
                memberships =
                    put
                      (record target {
                        role = or_else payload.role target.role;
                        status = or_else payload.status target.status;
                        custom_permissions = permissions;
                      })
                      db'.memberships;
              })

unfoldable pub update_employee :
    ℕ → ℕ → Membership → EmployeeUpdateRequest → Database → Result Database
update_employee account_id membership_id actor payload db =
    found (get membership_id db.memberships) employee_not_found λ target.
      ensure (target.account_id == account_id) employee_not_found (
        bind (update_guards db account_id actor payload target)
          λ _. apply_update account_id actor payload target db)

-- `revoke_all_user_sessions`
pub revoke_all_user_sessions : ℕ → ℕ → Staff → Staff
revoke_all_user_sessions now user_id s = record s {
  sessions =
      update_where (λ x. x.user_id == user_id && not (is_some x.revoked_at))
        (λ x. record x { revoked_at = some now }) s.sessions;
}

-- The password's hash, by `hash_password`, is given.
unfoldable pub set_employee_password :
    ℕ → ℕ → ℕ → Membership → String → Staff → Result (User × Staff)
set_employee_password now account_id membership_id actor password_hash s =
    found (get membership_id s.db.memberships) employee_not_found λ target.
      ensure (target.account_id == account_id) employee_not_found (
        bind
          (assert_actor_can_manage_target actor.role
            (list_membership_organization_ids s.db actor.id) target.role
            (list_membership_organization_ids s.db target.id) none)
          λ _. ensure (not (is_owner target.role && not (is_owner actor.role))) forbidden (
            found (get target.user_id s.users) employee_not_found λ user.
              let changed : User = record user {
                password_hash = password_hash;
                password_changed_at = some now;
                failed_login_attempts = 0;
                locked_until = none;
              } in
              ok (
                changed,
                revoke_all_user_sessions now user.id (record s { users = put changed s.users }),
              )))
