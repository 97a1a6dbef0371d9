-- ===== src/Permissions/Tests.antt =====
-- Runs of the permission rules.
use watesly.Base.{true, any, ◌≡◌, refl, none, some, [], ◌∷◌, ok}
use watesly.Models.{agent}
use watesly.Fixtures.{the_agent}
use watesly.Permissions.{
  sorted_values, check_assignable, role_permissions, role_has_permission, get_effective_permissions,
  effective_from, permissions_for_response, parse_permission_values,
  validate_custom_permissions_for_role,
}
use watesly.Permissions.Names.{eq_permission, parse_permission, Permission, conversations_view}
use watesly.Permissions.Laws.{get_effective_permissions-subset}
use watesly.Permissions.Roundtrip.{names, validate-response}

get_effective_permissions-subset_example : role_has_permission agent conversations_view ≡ true
unfolding get_effective_permissions effective_from role_permissions
get_effective_permissions-subset_example =
    get_effective_permissions-subset the_agent (role_permissions agent) conversations_view refl refl

validate-response_example :
    (permissions_for_response
        (record the_agent { custom_permissions = some ("conversations.view" ∷ []) })
      ≡ ok ("conversations.view" ∷ []))
    × ((p : Permission)
        → any (names p) ("conversations.view" ∷ []) ≡ any (names p) ("conversations.view" ∷ []))
unfolding validate_custom_permissions_for_role parse_permission_values role_permissions
    parse_permission check_assignable sorted_values eq_permission
validate-response_example =
    validate-response the_agent "conversations.view" [] none ("conversations.view" ∷ []) refl
