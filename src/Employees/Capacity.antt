-- ===== src/Employees/Capacity.antt =====
-- Whether an account has room for a member: `_validate_new_member_capacity` of services/team.py, the
-- limits of plan_limits.py and the count of organizations.py. What the services take from
-- app/core/security.py and the clock is given: the hash of a password, the content of a token,
-- `str.strip`, and the time, once as a number of microseconds and once as a date.
use watesly.Base.{
  ℕ, String, Bool, false, not, ◌&&◌, List, [], ◌∷◌, any, count_where, get, no_active_subscription,
  user_limit_reached, org_user_limit_reached, invalid_organization, already_member, Result, ok,
  ensure, bind, found, ◌==◌, leb, if◌then◌else◌, same_text,
}
use watesly.Models.{
  Database, Membership, membership_row, organization_row, OrganizationMembership,
  is_active_membership, User, user_row, invitation_row, Staff, DateTime, Plan, Subscription,
}
use watesly.Billing.{get_active_subscription}

pub record Office : Type 0 where
  pub subscriptions : List Subscription
  pub plans : List Plan
  pub today : DateTime
  pub now : ℕ
  pub invitation_token_expire_hours : ℕ
  pub hash_password : String → String
  pub strip : String → String
  pub decode_invitation_token : String → Result ℕ

abbrev pub is_unlimited : ℕ → Bool
is_unlimited limit = limit == 0

abbrev pub limit_reached : ℕ → ℕ → Bool
limit_reached current_count max_limit =
    if is_unlimited max_limit then false else leb max_limit current_count

unfoldable pub count_members : ℕ → List Membership → ℕ
count_members account_id =
    count_where (λ m. m.account_id == account_id && is_active_membership m.status)

-- The rows of the join with an active membership.
abbrev pub is_active_in : ℕ → List Membership → OrganizationMembership → Bool
is_active_in organization_id members x =
    x.organization_id == organization_id
    && any (λ m. m.id == x.membership_id && is_active_membership m.status) members

unfoldable pub count_organization_members : Database → ℕ → ℕ
count_organization_members db organization_id =
    count_where (is_active_in organization_id db.memberships) db.organization_memberships

unfoldable pub check_organization_limits : Database → ℕ → List ℕ → Result (Unit {0})
check_organization_limits db account_id [] = ok tt
check_organization_limits db account_id (i ∷ ids) =
    found (get i db.organizations) invalid_organization λ organization.
      ensure (organization.account_id == account_id) invalid_organization (
        ensure (not (limit_reached (count_organization_members db i) organization.max_users))
          org_user_limit_reached (check_organization_limits db account_id ids))

abbrev pub has_email : String → ℕ → User → Bool
has_email email i u = u.id == i && same_text u.email email

-- A member of the account whose user has the address.
unfoldable pub is_member : Staff → ℕ → String → Bool
is_member s account_id email =
    any (λ m. m.account_id == account_id && any (has_email email m.user_id) s.users)
      s.db.memberships

unfoldable pub validate_new_member_capacity :
    Office → Staff → ℕ → String → List ℕ → Result (Unit {0})
validate_new_member_capacity office s account_id email organization_ids =
    found (get_active_subscription office.subscriptions office.plans office.today account_id)
      no_active_subscription
      λ active.
        ensure (not (limit_reached (count_members account_id s.db.memberships) active.1.max_users))
          user_limit_reached
          (bind (check_organization_limits s.db account_id organization_ids)
            λ _. ensure (not (is_member s account_id email)) already_member (ok tt))
