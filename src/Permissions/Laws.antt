-- ===== src/Permissions/Laws.antt =====
-- Who may do what: the permissions of a member never exceed those of the role, and the roles from
-- manager upward are ordered by rank (backend/app/core/permissions.py).
use watesly.Base.{String, true, ◌≡◌, ◌≤◌, Option, none, some, List, [], ◌∷◌, ok, arith}
use watesly.Models.{MembershipRole, Membership}
use watesly.Permissions.{
  PermissionSet, role_permissions, role_rank, role_has_permission, effective_from,
  get_effective_permissions,
}
use watesly.Permissions.Names.{Permission}

effective_from-subset :
    (role : MembershipRole) (custom : Option (List String)) (s : PermissionSet) (p : Permission)
    → effective_from role custom ≡ ok s
    → s p ≡ true
    → role_permissions role p ≡ true
unfolding effective_from
effective_from-subset role none s p h k = ground arith
effective_from-subset role (some []) s p h k = ground arith
effective_from-subset role (some (v ∷ vs)) s p h k = ground arith

-- Whatever custom permissions a member's row holds, an effective permission is one of the role's.
pub get_effective_permissions-subset :
    (m : Membership) (s : PermissionSet) (p : Permission)
    → get_effective_permissions m ≡ ok s
    → s p ≡ true
    → role_has_permission m.role p ≡ true
unfolding get_effective_permissions role_has_permission
get_effective_permissions-subset m s p h k =
    effective_from-subset m.role m.custom_permissions s p h k

-- From manager upward a role with a higher rank has every permission of one with a lower rank.
pub role_permissions_mono :
    (a b : MembershipRole) (p : Permission)
    → 3 ≤ role_rank b
    → role_rank a ≤ role_rank b
    → role_has_permission a p ≡ true
    → role_has_permission b p ≡ true
unfolding role_has_permission role_rank
role_permissions_mono a b p h k l = ground arith
