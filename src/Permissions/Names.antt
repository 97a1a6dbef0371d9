-- ===== src/Permissions/Names.antt =====
-- `class Permission(StrEnum)`: the permissions, their values, and `Permission(value)`.
use text.Mathlib.Text.{◌==◌ as str_eq}
use watesly.Base.{String, Bool, Option, none, some, List, [], ◌∷◌, if◌then◌else◌}

pub data Permission : Type 0 where
  conversations_view conversations_assign messages_send contacts_view : Permission
  contacts_edit channels_view channels_manage templates_view : Permission
  templates_manage campaigns_view campaigns_create campaigns_approve : Permission
  automations_view automations_edit automations_publish users_view : Permission
  users_manage organizations_view organizations_manage billing_view : Permission
  billing_manage reports_view reports_export files_upload : Permission
  files_view trust_view trust_manage operations_view : Permission
  operations_manage : Permission

pub Permission-discrete : Discrete Permission
Permission-discrete = hlevel

-- Every member of the enumeration, in its order.
abbrev pub all_permissions : List Permission
all_permissions =
    conversations_view ∷ conversations_assign ∷ messages_send ∷ contacts_view ∷ contacts_edit
    ∷ channels_view ∷ channels_manage ∷ templates_view ∷ templates_manage ∷ campaigns_view
    ∷ campaigns_create ∷ campaigns_approve ∷ automations_view ∷ automations_edit
    ∷ automations_publish ∷ users_view ∷ users_manage ∷ organizations_view ∷ organizations_manage
    ∷ billing_view ∷ billing_manage ∷ reports_view ∷ reports_export ∷ files_upload ∷ files_view
    ∷ trust_view ∷ trust_manage ∷ operations_view ∷ operations_manage ∷ []

-- The same, in the order of the values.
abbrev pub sorted_permissions : List Permission
sorted_permissions =
    automations_edit ∷ automations_publish ∷ automations_view ∷ billing_manage ∷ billing_view
    ∷ campaigns_approve ∷ campaigns_create ∷ campaigns_view ∷ channels_manage ∷ channels_view
    ∷ contacts_edit ∷ contacts_view ∷ conversations_assign ∷ conversations_view ∷ files_upload
    ∷ files_view ∷ messages_send ∷ operations_manage ∷ operations_view ∷ organizations_manage
    ∷ organizations_view ∷ reports_export ∷ reports_view ∷ templates_manage ∷ templates_view
    ∷ trust_manage ∷ trust_view ∷ users_manage ∷ users_view ∷ []

unfoldable pub permission_value : Permission → String
permission_value conversations_view = "conversations.view"
permission_value conversations_assign = "conversations.assign"
permission_value messages_send = "messages.send"
permission_value contacts_view = "contacts.view"
permission_value contacts_edit = "contacts.edit"
permission_value channels_view = "channels.view"
permission_value channels_manage = "channels.manage"
permission_value templates_view = "templates.view"
permission_value templates_manage = "templates.manage"
permission_value campaigns_view = "campaigns.view"
permission_value campaigns_create = "campaigns.create"
permission_value campaigns_approve = "campaigns.approve"
permission_value automations_view = "automations.view"
permission_value automations_edit = "automations.edit"
permission_value automations_publish = "automations.publish"
permission_value users_view = "users.view"
permission_value users_manage = "users.manage"
permission_value organizations_view = "organizations.view"
permission_value organizations_manage = "organizations.manage"
permission_value billing_view = "billing.view"
permission_value billing_manage = "billing.manage"
permission_value reports_view = "reports.view"
permission_value reports_export = "reports.export"
permission_value files_upload = "files.upload"
permission_value files_view = "files.view"
permission_value trust_view = "trust.view"
permission_value trust_manage = "trust.manage"
permission_value operations_view = "operations.view"
permission_value operations_manage = "operations.manage"

find_value : String → List Permission → Option Permission
unfolding permission_value
find_value v [] = none
find_value v (p ∷ ps) = if str_eq (permission_value p) v then some p else find_value v ps

-- `Permission(value)`; `none` is the `ValueError` for a value that no member has.
unfoldable pub parse_permission : String → Option Permission
unfolding find_value
parse_permission v = find_value v all_permissions

-- Equality of permissions; their values are distinct.
unfoldable pub eq_permission : Permission → Permission → Bool
unfolding permission_value
eq_permission p q = str_eq (permission_value p) (permission_value q)
