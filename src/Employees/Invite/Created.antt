-- ===== src/Employees/Invite/Created.antt =====
-- What a member is that `create_employee` has made (services/team.py).
use watesly.Base.{
  ℕ, String, suc, ◌≤◌, ◌<◌, ◌≡◌, ◌⊎◌, refl, ap, ◌∙◌, inl, inr, true, false, not, ◌&&◌, Option, none,
  some, List, [], ◌∷◌, ◌++◌, map, select, contains, count_where, count_where-append, ok, Returns,
  ok-Returns, ensure-Returns, bind-Returns, found-Returns, arith, ◌==◌, all_trans, values_of-append,
}
use watesly.Models.{
  Database, Membership, OrganizationMembership, User, is_owner_or_admin, is_active_membership,
  Staff, Plan, Subscription,
}
use watesly.Access.{list_membership_organization_ids, replace_membership_channel_access}
use watesly.Billing.{get_active_subscription}
use watesly.Employees.{is_subset_of, assert_actor_can_manage_target}
use watesly.Employees.Rules.{MayManage, assert_actor_can_manage_target-MayManage}
use watesly.Employees.Update.{validate_organization_ids, apply_membership_channel_access}
use watesly.Employees.Update.Branches.{validate_organization_ids-subset}
use watesly.Employees.Capacity.{
  Office, limit_reached, count_members, is_member, validate_new_member_capacity,
}
use watesly.Employees.Invite.{
  CreateEmployeeRequest, NewIds, new_membership, add_member, create_employee,
}

-- There is room: the account has an active subscription whose plan is not exhausted, and nobody of
-- the address is a member.
pub record HasRoom (office : Office) (s : Staff) (account_id : ℕ) (email : String) : Type 0 where
  pub subscription : Subscription
  pub plan : Plan
  pub active :
      get_active_subscription office.subscriptions office.plans office.today account_id
      ≡ some (subscription, plan)
  pub room : (plan.max_users ≡ 0) ⊎ (count_members account_id s.db.memberships < plan.max_users)
  pub stranger : is_member s account_id email ≡ false

room_left :
    (count limit : ℕ) → not (limit_reached count limit) ≡ true → (limit ≡ 0) ⊎ (count < limit)
room_left count limit h = ground (arith, h)

module _ (office : Office) (s : Staff) (account_id : ℕ) (email : String) where
  has_room :
      (active : Subscription × Plan)
      → get_active_subscription office.subscriptions office.plans office.today account_id
        ≡ some active
      → not (limit_reached (count_members account_id s.db.memberships) active.1.max_users) ≡ true
      → not (is_member s account_id email) ≡ true
      → HasRoom office s account_id email
  has_room active found room stranger = record {
    subscription = active.0;
    plan = active.1;
    active = found;
    room = room_left _ _ room;
    stranger = ground (arith, stranger);
  }

  room-Returns :
      (active : Subscription × Plan)
      → get_active_subscription office.subscriptions office.plans office.today account_id
        ≡ some active
      → not (limit_reached (count_members account_id s.db.memberships) active.1.max_users) ≡ true
      → not (is_member s account_id email) ≡ true
      → Returns (λ (u : Unit {0}). HasRoom office s account_id email) (ok tt)
  room-Returns active found room stranger = ok-Returns _ _ (has_room active found room stranger)

  pub validate_new_member_capacity-HasRoom :
      (organization_ids : List ℕ)
      → Returns
          (λ (u : Unit {0}). HasRoom office s account_id email)
          (validate_new_member_capacity office s account_id email organization_ids)
  unfolding validate_new_member_capacity
  validate_new_member_capacity-HasRoom organization_ids =
      search (found-Returns, ensure-Returns, bind-Returns, room-Returns) depth 12

branches-append :
    (m : Membership) (ids : List ℕ) (rows : List OrganizationMembership)
    → map
        (λ x. x.organization_id)
        (select
          (λ x. x.membership_id == m.id)
          (rows ++ map (λ i. record { organization_id = i; membership_id = m.id }) ids))
      ≡ map (λ x. x.organization_id) (select (λ x. x.membership_id == m.id) rows) ++ ids
branches-append m ids rows =
    values_of-append (λ x. x.membership_id) (λ x. x.organization_id)
      (λ a i. record { organization_id = i; membership_id = a }) (λ _ _. refl) (λ _ _. refl) m.id
      ids rows

-- The tables with a new member, whatever channels it got.
pub record IsAdded (m : Membership) (ids : List ℕ) (db db' : Database) : Type 0 where
  pub members : db'.memberships ≡ db.memberships ++ (m ∷ [])
  pub branches :
      list_membership_organization_ids db' m.id ≡ list_membership_organization_ids db m.id ++ ids

pub add_member-IsAdded :
    (m : Membership) (ids : List ℕ) (db : Database) → IsAdded m ids db (add_member m ids db)
unfolding add_member list_membership_organization_ids
add_member-IsAdded m ids db = record {
  members = refl;
  branches = branches-append m ids db.organization_memberships;
}

pub channels-IsAdded :
    (m : Membership) (ids channels : List ℕ) (db : Database)
    → IsAdded m ids db (replace_membership_channel_access m.id channels (add_member m ids db))
unfolding add_member list_membership_organization_ids replace_membership_channel_access
channels-IsAdded m ids channels db = record {
  members = refl;
  branches = branches-append m ids db.organization_memberships;
}

apply-IsAdded :
    (account_id : ℕ) (m : Membership) (ids : List ℕ) (requested : List ℕ) (db : Database)
    → Returns
        (IsAdded m ids db)
        (apply_membership_channel_access account_id m.id ids (some requested) (add_member m ids db))
unfolding apply_membership_channel_access
apply-IsAdded account_id m ids [] db = ok-Returns _ _ (channels-IsAdded m ids [] db)
apply-IsAdded account_id m ids (c ∷ cs) db = search (bind-Returns, ok-Returns, channels-IsAdded)

-- A member that was made: with room for it, in some of the branches asked for.
pub record IsMade (office : Office) (account_id : ℕ) (actor : Membership)
    (payload : CreateEmployeeRequest) (s : Staff) (out : Membership × Staff) : Type 0 where
  pub allowed :
      assert_actor_can_manage_target actor.role
        (list_membership_organization_ids s.db actor.id)
        payload.role
        payload.organization_ids
        none
      ≡ ok tt
  pub room : HasRoom office s account_id payload.email
  pub same_account : out.0.account_id ≡ account_id
  pub active : is_active_membership out.0.status ≡ true
  pub role_given : out.0.role ≡ payload.role
  pub branches : List ℕ
  pub requested : is_subset_of branches payload.organization_ids ≡ true
  pub added : IsAdded out.0 branches s.db out.1.db

module _ (office : Office) (account_id : ℕ) (ids : NewIds) (actor : Membership)
    (payload : CreateEmployeeRequest) (s : Staff) where
  made :
      (u v : Unit {0}) (valid : List ℕ) (permissions : Option (List String)) (db' : Database)
      (users : List User)
      → assert_actor_can_manage_target actor.role
          (list_membership_organization_ids s.db actor.id)
          payload.role
          payload.organization_ids
          none
        ≡ ok u
      → validate_new_member_capacity office s account_id payload.email payload.organization_ids
        ≡ ok v
      → validate_organization_ids s.db account_id payload.organization_ids ≡ ok valid
      → apply_membership_channel_access account_id ids.membership_id valid
          (some payload.channel_ids)
          (add_member
            (new_membership office ids.membership_id account_id ids.user_id payload.role
              permissions)
            valid
            s.db)
        ≡ ok db'
      → IsMade office account_id actor payload s (
        new_membership office ids.membership_id account_id ids.user_id payload.role permissions,
        record s { db = db'; users = users },
      )
  unfolding new_membership
  made u v valid permissions db' users allowed capacity checked channels = record {
    allowed = allowed;
    room =
        (validate_new_member_capacity-HasRoom office s account_id payload.email
            payload.organization_ids).returned
          v capacity;
    same_account = refl;
    active = refl;
    role_given = refl;
    branches = valid;
    requested =
        validate_organization_ids-subset s.db account_id payload.organization_ids valid checked;
    added =
        (apply-IsAdded account_id
            (new_membership office ids.membership_id account_id ids.user_id payload.role
              permissions)
            valid payload.channel_ids s.db).returned
          db' channels;
  }

  pub create_employee-IsMade :
      Returns
        (IsMade office account_id actor payload s)
        (create_employee office account_id ids actor payload s)
  unfolding create_employee new_membership
  create_employee-IsMade = search (bind-Returns, ensure-Returns, ok-Returns, made) depth 20

module _ (office : Office) (account_id : ℕ) (ids : NewIds) (actor : Membership)
    (payload : CreateEmployeeRequest) (s : Staff) (out : Membership × Staff)
    (h : create_employee office account_id ids actor payload s ≡ ok out) where
  abbrev k : IsMade office account_id actor payload s out
  k = (create_employee-IsMade office account_id ids actor payload s).returned out h

  one_more :
      count_members account_id out.1.db.memberships
      ≡ suc (count_members account_id s.db.memberships)
  unfolding count_members
  one_more =
      ap (count_where (λ m. m.account_id == account_id && is_active_membership m.status))
        k.added.members
      ∙ count_where-append _ s.db.memberships (out.0 ∷ [])
      ∙ ground (arith, k.same_account, k.active)

  -- When an employee is created, the account has one active member more, and not more than its plan
  -- allows, where 0 allows any number; the plan is that of its active subscription.
  pub create_employee-capacity :
      (count_members account_id out.1.db.memberships
        ≡ suc (count_members account_id s.db.memberships))
      × ((x : Subscription × Plan) × (get_active_subscription office.subscriptions office.plans
              office.today account_id
            ≡ some x)
          × ((x.1.max_users ≡ 0) ⊎ (count_members account_id out.1.db.memberships ≤ x.1.max_users)))
  create_employee-capacity = (
    one_more,
    (
      (k.room.subscription, k.room.plan),
      k.room.active,
      (elim (k.room.room) [
        | inl unlimited ↦ inl unlimited
        | inr below ↦ inr (omega (arith, below, one_more))
      ]),
    ),
  )

  -- An actor that is neither owner nor admin creates members only with roles that it may manage, of
  -- the rank of a manager at most; and a new member without rows in the table of branches is in
  -- branches of the actor only.
  pub create_employee-InScope :
      is_owner_or_admin actor.role ≡ false
      → list_membership_organization_ids s.db out.0.id ≡ []
      → MayManage actor.role
          (list_membership_organization_ids s.db actor.id)
          out.0.role
          payload.organization_ids
          out.0.role
        × (is_subset_of
              (list_membership_organization_ids out.1.db out.0.id)
              (list_membership_organization_ids s.db actor.id)
            ≡ true)
  create_employee-InScope plain fresh =
      let may =
        assert_actor_can_manage_target-MayManage actor.role
          (list_membership_organization_ids s.db actor.id) payload.role payload.organization_ids
          none plain k.allowed in
      (
        rw (k.role_given) may,
        rw (k.added.branches, fresh)
            (all_trans (λ x. contains x (list_membership_organization_ids s.db actor.id))
              payload.organization_ids k.branches k.requested may.inside),
      )
