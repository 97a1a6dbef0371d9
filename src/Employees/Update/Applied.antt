-- ===== src/Employees/Update/Applied.antt =====
-- The tables after `update_employee` of services/team.py has changed a member.
use watesly.Base.{
  ℕ, String, ◌≡◌, ◌≢◌, refl, ◌∙◌, true, Option, some, List, get, put, ok, Returns, ok-Returns,
  ensure-Returns, bind-Returns, found-Returns, ◌==◌, or_else, eq_of_==,
}
use watesly.Models.{Database, MembershipRole, Membership, membership_row}
use watesly.Access.{list_membership_organization_ids}
use watesly.Employees.{is_branch_scoped, is_subset_of}
use watesly.Employees.Update.{
  EmployeeUpdateRequest, update_organizations, update_channels, update_guards, acting_role,
  apply_update, update_employee,
}
use watesly.Employees.Update.Branches.{
  update_organizations-Moved, update_organizations-inside, SameBranches,
  update_channels-SameBranches,
}

-- The tables after the row of one member was changed.
pub record Applied (actor : Membership) (payload : EmployeeUpdateRequest) (target : Membership)
    (db db' : Database) : Type 0 where
  pub row : Membership
  pub branches : List ℕ
  pub same_id : row.id ≡ target.id
  pub same_account : row.account_id ≡ target.account_id
  pub role_set : row.role ≡ or_else payload.role target.role
  pub status_set : row.status ≡ or_else payload.status target.status
  pub members : db'.memberships ≡ put row db.memberships
  pub own : list_membership_organization_ids db' target.id ≡ branches
  pub others :
      (b : ℕ)
      → target.id ≢ b
      → list_membership_organization_ids db' b ≡ list_membership_organization_ids db b
  pub inside :
      is_branch_scoped (acting_role actor payload target) ≡ true
      → is_subset_of
          (list_membership_organization_ids db target.id)
          (list_membership_organization_ids db actor.id)
        ≡ true
      → is_subset_of branches (list_membership_organization_ids db actor.id) ≡ true

same_list :
    (a : ℕ) (db db' : Database)
    → SameBranches db db'
    → list_membership_organization_ids db' a ≡ list_membership_organization_ids db a
unfolding list_membership_organization_ids
same_list a db db' same = rw (same.same_branches) refl

module _ (account_id : ℕ) (actor : Membership) (payload : EmployeeUpdateRequest)
    (target : Membership) (db : Database) where
  abbrev orgs : List ℕ
  orgs = list_membership_organization_ids db actor.id

  abbrev role_now : MembershipRole
  role_now = acting_role actor payload target

  applied :
      (changed : List ℕ × Database) (db' : Database) (permissions : Option (List String))
      → update_organizations account_id role_now orgs target.id payload.organization_ids db
        ≡ ok changed
      → update_channels account_id role_now orgs target.id changed.0 payload.channel_ids changed.1
        ≡ ok db'
      → Applied actor payload target db (record db' {
        memberships =
            put
              (record target {
                role = or_else payload.role target.role;
                status = or_else payload.status target.status;
                custom_permissions = permissions;
              })
              db'.memberships;
      })
  unfolding list_membership_organization_ids
  applied changed db' permissions moved channels =
      let m =
        (update_organizations-Moved account_id role_now orgs target.id payload.organization_ids
            db).returned
          changed moved in
      let same =
        (update_channels-SameBranches account_id role_now orgs target.id changed.0
            payload.channel_ids changed.1).returned
          db' channels in
      record {
        row = record target {
          role = or_else payload.role target.role;
          status = or_else payload.status target.status;
          custom_permissions = permissions;
        };
        branches = changed.0;
        same_id = refl;
        same_account = refl;
        role_set = refl;
        status_set = refl;
        members = rw (same.same_members, m.same_members) refl;
        own = same_list target.id changed.1 db' same ∙ m.own;
        others = λ b h. same_list b changed.1 db' same ∙ m.others b h;
        inside = λ scoped before.
            (update_organizations-inside account_id role_now orgs target.id payload.organization_ids
                db scoped before).returned
              changed moved;
      }

  pub apply_update-Applied :
      Returns (Applied actor payload target db) (apply_update account_id actor payload target db)
  unfolding apply_update
  apply_update-Applied = search (bind-Returns, ok-Returns, applied) depth 12

-- What has been checked and done when a change returns.
pub record Updated (account_id membership_id : ℕ) (actor : Membership)
    (payload : EmployeeUpdateRequest) (db db' : Database) : Type 0 where
  pub target : Membership
  pub exists : get membership_id db.memberships ≡ some target
  pub in_account : target.account_id ≡ account_id
  pub allowed : update_guards db account_id actor payload target ≡ ok tt
  pub done : Applied actor payload target db db'

module _ (account_id membership_id : ℕ) (actor : Membership) (payload : EmployeeUpdateRequest)
    (db : Database) where
  updated :
      (target : Membership)
      → get membership_id db.memberships ≡ some target
      → (target.account_id == account_id) ≡ true
      → (u : Unit {0}) → update_guards db account_id actor payload target ≡ ok u
      → (db' : Database) → Applied actor payload target db db'
      → Updated account_id membership_id actor payload db db'
  updated target exists here u allowed db' done = record {
    target = target;
    exists = exists;
    in_account = eq_of_== target.account_id account_id here;
    allowed = allowed;
    done = done;
  }

  apply_update-Returns :
      (target : Membership)
      → get membership_id db.memberships ≡ some target
      → (target.account_id == account_id) ≡ true
      → (u : Unit {0}) → update_guards db account_id actor payload target ≡ ok u
      → Returns
          (Updated account_id membership_id actor payload db)
          (apply_update account_id actor payload target db)
  apply_update-Returns target exists here u allowed = record {
    returned = λ db' h.
        updated target exists here u allowed db'
          ((apply_update-Applied account_id actor payload target db).returned db' h);
  }

  pub update_employee-Updated :
      Returns
        (Updated account_id membership_id actor payload db)
        (update_employee account_id membership_id actor payload db)
  unfolding update_employee
  update_employee-Updated =
      search (found-Returns, ensure-Returns, bind-Returns, apply_update-Returns) depth 12
