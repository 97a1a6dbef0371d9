-- ===== src/Permissions.antt =====
-- Roles, permissions and the permissions of one member (backend/app/core/permissions.py).
-- A frozenset of permissions is its membership test. `Permission(value)` is `parse_permission`.
mod Names
pub mod Laws
pub mod Roundtrip
mod Tests
pub use Names.*
use text.Mathlib.Text.{◌==◌ as str_eq}
use watesly.Base.{
  ℕ, String, Bool, true, false, ◌&&◌, ◌||◌, Option, none, some, List, [], ◌∷◌, map, select, all,
  is_empty, Error, invalid_permission, permission_exceeds_role, permission_not_assignable, Result,
  ok, err, bind, if◌then◌else◌,
}
use watesly.Models.{MembershipRole, owner, admin, branch_admin, manager, agent, viewer, Membership}

abbrev pub PermissionSet : Type 0
PermissionSet = Permission → Bool

-- `_BRANCH_OPS`
branch_ops : PermissionSet
branch_ops conversations_view = true
branch_ops conversations_assign = true
branch_ops messages_send = true
branch_ops contacts_view = true
branch_ops contacts_edit = true
branch_ops channels_view = true
branch_ops templates_view = true
branch_ops templates_manage = true
branch_ops campaigns_view = true
branch_ops campaigns_create = true
branch_ops campaigns_approve = true
branch_ops automations_view = true
branch_ops automations_edit = true
branch_ops automations_publish = true
branch_ops users_view = true
branch_ops users_manage = true
branch_ops organizations_view = true
branch_ops reports_view = true
branch_ops reports_export = true
branch_ops files_upload = true
branch_ops files_view = true
branch_ops trust_view = true
branch_ops _ = false

-- The set that `ROLE_PERMISSIONS` adds to `_BRANCH_OPS` for a branch admin.
branch_admin_extra : PermissionSet
branch_admin_extra channels_manage = true
branch_admin_extra organizations_manage = true
branch_admin_extra trust_manage = true
branch_admin_extra _ = false

agent_permissions : PermissionSet
agent_permissions conversations_view = true
agent_permissions messages_send = true
agent_permissions contacts_view = true
agent_permissions contacts_edit = true
agent_permissions channels_view = true
agent_permissions templates_view = true
agent_permissions campaigns_view = true
agent_permissions automations_view = true
agent_permissions files_upload = true
agent_permissions files_view = true
agent_permissions _ = false

viewer_permissions : PermissionSet
viewer_permissions conversations_view = true
viewer_permissions contacts_view = true
viewer_permissions channels_view = true
viewer_permissions templates_view = true
viewer_permissions campaigns_view = true
viewer_permissions automations_view = true
viewer_permissions organizations_view = true
viewer_permissions reports_view = true
viewer_permissions files_view = true
viewer_permissions trust_view = true
viewer_permissions _ = false

-- `ROLE_PERMISSIONS`; every role has an entry, so the default of `.get` is never taken.
pub role_permissions : MembershipRole → PermissionSet
unfolding branch_ops branch_admin_extra agent_permissions viewer_permissions
role_permissions owner p = true
role_permissions admin p = true
role_permissions branch_admin p = branch_ops p || branch_admin_extra p
role_permissions manager p = branch_ops p
role_permissions agent p = agent_permissions p
role_permissions viewer p = viewer_permissions p

-- `ROLE_RANK`
unfoldable pub role_rank : MembershipRole → ℕ
role_rank viewer = 1
role_rank agent = 2
role_rank manager = 3
role_rank branch_admin = 4
role_rank admin = 5
role_rank owner = 6

pub role_has_permission : MembershipRole → Permission → Bool
unfolding role_permissions
role_has_permission role p = role_permissions role p

-- The members of `values`, as a set.
abbrev pub set_of : List Permission → PermissionSet
set_of [] p = false
set_of (q ∷ qs) p = eq_permission p q || set_of qs p

-- `Permission(value)` on each value, in order; the first unknown one raises.
pub parse_permission_values : List String → Result (List Permission)
parse_permission_values [] = ok []
parse_permission_values (value ∷ values) = elim (parse_permission value) [
  | none ↦ err invalid_permission
  | some p ↦ bind (parse_permission_values values) (λ ps. ok (p ∷ ps))
]

-- `get_effective_permissions`; a missing and an empty list of custom permissions are the same.
effective_from : MembershipRole → Option (List String) → Result PermissionSet
effective_from role none = ok (role_permissions role)
effective_from role (some []) = ok (role_permissions role)
effective_from role (some (v ∷ vs)) =
    bind (parse_permission_values (v ∷ vs)) (λ ps. ok (λ p. set_of ps p && role_permissions role p))

pub get_effective_permissions : Membership → Result PermissionSet
get_effective_permissions m = effective_from m.role m.custom_permissions

pub membership_has_permission : Membership → Permission → Result Bool
membership_has_permission m p = bind (get_effective_permissions m) (λ s. ok (s p))

-- `sorted(item.value for item in …)`: the values of a set, in the order of the values.
pub sorted_values : PermissionSet → List String
sorted_values s = map permission_value (select s sorted_permissions)

-- `parsed.issubset(allowed)`
abbrev pub is_subset : List Permission → PermissionSet → Bool
is_subset ps allowed = all allowed ps

check_assignable : List Permission → Option PermissionSet → Result (List String)
check_assignable parsed none = ok (sorted_values (set_of parsed))
check_assignable parsed (some assignable) =
    if is_subset parsed assignable
    then ok (sorted_values (set_of parsed))
    else err permission_not_assignable

pub validate_custom_permissions_for_role :
    MembershipRole → List String → Option PermissionSet → Result (List String)
validate_custom_permissions_for_role role permissions assignable =
    bind (parse_permission_values permissions) λ parsed.
      if is_subset parsed (role_permissions role)
      then check_assignable parsed assignable
      else err permission_exceeds_role

pub permissions_for_response : Membership → Result (List String)
permissions_for_response m = bind (get_effective_permissions m) (λ s. ok (sorted_values s))
