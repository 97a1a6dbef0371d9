-- ===== src/Employees/Update/Scope.antt =====
-- What changing a member can change, and for whom (services/team.py, `update_employee`).
use watesly.Base.{
  ℕ, ◌≡◌, ◌≢◌, sym, ap, ◌∙◌, subst, inl, inr, true, false, some, get, get-put_self, get-put_ne,
  key-get, ok, arith, ◌==◌, or_else, Bool-cases, eq_of_==,
}
use watesly.Models.{Database, Membership, membership_row, is_owner_or_admin}
use watesly.Access.{list_membership_organization_ids}
use watesly.Employees.{is_subset_of, assert_actor_can_manage_target}
use watesly.Employees.Rules.{MayManage, assert_actor_can_manage_target-MayManage}
use watesly.Employees.Update.{EmployeeUpdateRequest, update_guards, acting_role, update_employee}
use watesly.Employees.Update.Applied.{Updated, update_employee-Updated}

some_injective : {A : Type 0} (a b : A) → some a ≡ some b → a ≡ b
some_injective a b h = cc

guards-managed :
    (account_id : ℕ) (actor : Membership) (payload : EmployeeUpdateRequest) (target : Membership)
    (db : Database)
    → update_guards db account_id actor payload target ≡ ok tt
    → assert_actor_can_manage_target actor.role
        (list_membership_organization_ids db actor.id)
        target.role
        (list_membership_organization_ids db target.id)
        payload.role
      ≡ ok tt
unfolding update_guards
guards-managed account_id actor payload target db h = ground (arith, h)

other_acting_role :
    (actor : Membership) (payload : EmployeeUpdateRequest) (target : Membership)
    → target.id ≢ actor.id
    → acting_role actor payload target ≡ actor.role
other_acting_role actor payload target ne = ground (arith, ne)

-- A member before and after a change, with what the actor has shown.
pub record InScope (membership_id : ℕ) (actor : Membership) (db db' : Database) : Type 0 where
  pub before : Membership
  pub after : Membership
  pub had : get membership_id db.memberships ≡ some before
  pub has : get membership_id db'.memberships ≡ some after
  pub managed :
      MayManage actor.role
        (list_membership_organization_ids db actor.id)
        before.role
        (list_membership_organization_ids db membership_id)
        after.role
  pub still_inside :
      is_subset_of
        (list_membership_organization_ids db' membership_id)
        (list_membership_organization_ids db actor.id)
      ≡ true

module _ (account_id membership_id : ℕ) (actor : Membership) (payload : EmployeeUpdateRequest)
    (db db' : Database)
    (h : update_employee account_id membership_id actor payload db ≡ ok db') where
  abbrev u : Updated account_id membership_id actor payload db db'
  u = (update_employee-Updated account_id membership_id actor payload db).returned db' h

  target_id : u.target.id ≡ membership_id
  target_id = key-get membership_id u.target db.memberships u.exists

  row_id : u.done.row.id ≡ membership_id
  row_id = u.done.same_id ∙ target_id

  -- A change concerns the one member only: every other row of a member stays as it is, and every
  -- other member stays in its branches.
  pub update_employee-others :
      (b : ℕ)
      → b ≢ membership_id
      → (get b db'.memberships ≡ get b db.memberships)
        × (list_membership_organization_ids db' b ≡ list_membership_organization_ids db b)
  update_employee-others b ne = (
    ap (get b) u.done.members ∙ get-put_ne b u.done.row db.memberships (λ e. ne (e ∙ row_id)),
    u.done.others b (λ e. ne (sym e ∙ target_id)),
  )

  new_row : get membership_id db'.memberships ≡ some u.done.row
  new_row =
      subst (λ i. get i db'.memberships ≡ some u.done.row) row_id
        (ap (get u.done.row.id) u.done.members
          ∙ get-put_self u.done.row u.target db.memberships
              (subst (λ i. get i db.memberships ≡ some u.target) (sym row_id) u.exists))

  may :
      is_owner_or_admin actor.role ≡ false
      → MayManage actor.role
          (list_membership_organization_ids db actor.id)
          u.target.role
          (list_membership_organization_ids db membership_id)
          (or_else payload.role u.target.role)
  may plain =
      subst
        (λ i.
          MayManage actor.role (list_membership_organization_ids db actor.id) u.target.role
            (list_membership_organization_ids db i) (or_else payload.role u.target.role))
        target_id
        (assert_actor_can_manage_target-MayManage actor.role
          (list_membership_organization_ids db actor.id) u.target.role
          (list_membership_organization_ids db u.target.id) payload.role plain
          (guards-managed account_id actor payload u.target db u.allowed))

  inside_after :
      is_owner_or_admin actor.role ≡ false
      → membership_id ≢ actor.id
      → is_subset_of
          (list_membership_organization_ids db' membership_id)
          (list_membership_organization_ids db actor.id)
        ≡ true
  inside_after plain ne =
      let role : acting_role actor payload u.target ≡ actor.role =
        other_acting_role actor payload u.target (λ e. ne (sym target_id ∙ e)) in
      let m = may plain in
      ap (λ l. is_subset_of l (list_membership_organization_ids db actor.id))
        (ap (list_membership_organization_ids db') (sym target_id) ∙ u.done.own)
      ∙ u.done.inside (rw role (m.scoped)) (rw target_id (m.inside))

  -- When an actor that is neither owner nor admin changes another member, the actor has a
  -- branch-scoped role; the member had a role that the actor may manage and gets one that it may
  -- give, of the rank of a manager at most; and the member was in branches of the actor only, and is
  -- so afterwards.
  pub update_employee-InScope :
      is_owner_or_admin actor.role ≡ false
      → membership_id ≢ actor.id
      → InScope membership_id actor db db'
  update_employee-InScope plain ne =
      let m = may plain in
      record {
        before = u.target;
        after = u.done.row;
        had = u.exists;
        has = new_row;
        managed =
            subst
              (λ r.
                MayManage actor.role (list_membership_organization_ids db actor.id) u.target.role
                  (list_membership_organization_ids db membership_id) r)
              (sym u.done.role_set) m;
        still_inside = inside_after plain ne;
      }

  -- An actor that is neither owner nor admin changes no owner and no admin: their rows stay as they
  -- are.
  pub update_employee-keeps_managers :
      is_owner_or_admin actor.role ≡ false
      → (m : Membership) → get m.id db.memberships ≡ some m
      → is_owner_or_admin m.role ≡ true
      → get m.id db'.memberships ≡ some m
  update_employee-keeps_managers plain m there manager = elim (Bool-cases (m.id == membership_id)) [
    | inl same ↦
        let e : u.target ≡ m = some_injective u.target m (
          sym u.exists
          ∙ ap (λ i. get i db.memberships) (sym (eq_of_== m.id membership_id same))
          ∙ there) in
        absurd (
          ground (
            arith,
            (may plain).target_unprotected,
            ap (λ (x : Membership). is_owner_or_admin x.role) e,
            manager,
          ))
    | inr other ↦ (update_employee-others m.id (λ e. ground (arith, e, other))).0 ∙ there
  ]
