-- ===== src/Employees/Update/Branches.antt =====
-- What `update_employee` does to the branches and channels of members (services/team.py).
use watesly.Base.{
  ℕ, ◌≡◌, ◌≢◌, refl, true, not, ◌&&◌, Option, none, some, List, [], ◌∷◌, contains, ok, Returns,
  ok-Returns, ensure-Returns, bind-Returns, arith, all_trans, values_of-replaced, values_of-other,
}
use watesly.Models.{Database, MembershipRole, OrganizationMembership}
use watesly.Access.{list_membership_organization_ids, replace_membership_channel_access}
use watesly.Employees.{is_branch_scoped, is_subset_of}
use watesly.Employees.Update.{
  validate_organization_ids, replace_organizations, update_organizations, update_channels,
  apply_membership_channel_access,
}

abbrev branch_row : ℕ → ℕ → OrganizationMembership
branch_row membership_id i = record { organization_id = i; membership_id = membership_id }

-- The tables after one member's branches became `ids`.
pub record Moved (a : ℕ) (ids : List ℕ) (db db' : Database) : Type 0 where
  pub same_members : db'.memberships ≡ db.memberships
  pub own : list_membership_organization_ids db' a ≡ ids
  pub others :
      (b : ℕ)
      → a ≢ b
      → list_membership_organization_ids db' b ≡ list_membership_organization_ids db b

pub replace_organizations-Moved :
    (a : ℕ) (ids : List ℕ) (db : Database) → Moved a ids db (replace_organizations a ids db)
unfolding replace_organizations list_membership_organization_ids
replace_organizations-Moved a ids db = record {
  same_members = refl;
  own =
      values_of-replaced (λ x. x.membership_id) (λ x. x.organization_id) branch_row (λ _ _. refl)
        (λ _ _. refl) a ids db.organization_memberships;
  others = λ b h.
      values_of-other (λ x. x.membership_id) (λ x. x.organization_id) branch_row (λ _ _. refl)
        (λ _ _. refl) a b ids db.organization_memberships h;
}

pub unmoved : (a : ℕ) (db : Database) → Moved a (list_membership_organization_ids db a) db db
unmoved a db = record { same_members = refl; own = refl; others = λ b h. refl }

pub validate_organization_ids-subset :
    (db : Database) (account_id : ℕ) (ids valid : List ℕ)
    → validate_organization_ids db account_id ids ≡ ok valid
    → is_subset_of valid ids ≡ true
unfolding validate_organization_ids
validate_organization_ids-subset db account_id ids valid h = ground (arith, h)

checked_inside :
    (db : Database) (account_id : ℕ) (ids valid actor_orgs : List ℕ) (role : MembershipRole)
    → is_branch_scoped role ≡ true
    → not (is_branch_scoped role && not (is_subset_of ids actor_orgs)) ≡ true
    → validate_organization_ids db account_id ids ≡ ok valid
    → is_subset_of valid actor_orgs ≡ true
checked_inside db account_id ids valid actor_orgs role scoped scope h =
    all_trans (λ x. contains x actor_orgs) ids valid
      (validate_organization_ids-subset db account_id ids valid h) (ground (arith, scoped, scope))

module _ (account_id : ℕ) (actor_role : MembershipRole) (actor_orgs : List ℕ) (a : ℕ) where
  pub update_organizations-Moved :
      (requested : Option (List ℕ)) (db : Database)
      → Returns
          (λ (out : List ℕ × Database). Moved a out.0 db out.1)
          (update_organizations account_id actor_role actor_orgs a requested db)
  unfolding update_organizations
  update_organizations-Moved none db = ok-Returns _ _ (unmoved a db)
  update_organizations-Moved (some ids) db =
      search (ensure-Returns, bind-Returns, ok-Returns, replace_organizations-Moved)

  -- A branch-scoped role leaves the member inside its own branches.
  pub update_organizations-inside :
      (requested : Option (List ℕ)) (db : Database)
      → is_branch_scoped actor_role ≡ true
      → is_subset_of (list_membership_organization_ids db a) actor_orgs ≡ true
      → Returns
          (λ (out : List ℕ × Database). is_subset_of out.0 actor_orgs ≡ true)
          (update_organizations account_id actor_role actor_orgs a requested db)
  unfolding update_organizations
  update_organizations-inside none db scoped before = ok-Returns _ _ before
  update_organizations-inside (some ids) db scoped before =
      search (ensure-Returns, bind-Returns, ok-Returns, checked_inside)

-- Neither members nor branches change.
pub record SameBranches (db db' : Database) : Type 0 where
  pub same_members : db'.memberships ≡ db.memberships
  pub same_branches : db'.organization_memberships ≡ db.organization_memberships

replaced_channels :
    (a : ℕ) (ids : List ℕ) (db : Database)
    → SameBranches db (replace_membership_channel_access a ids db)
unfolding replace_membership_channel_access
replaced_channels a ids db = record { same_members = refl; same_branches = refl }

module _ (account_id : ℕ) (actor_role : MembershipRole) (actor_orgs : List ℕ) (a : ℕ) where
  pub update_channels-SameBranches :
      (orgs : List ℕ) (requested : Option (List ℕ)) (db : Database)
      → Returns
          (SameBranches db)
          (update_channels account_id actor_role actor_orgs a orgs requested db)
  unfolding update_channels apply_membership_channel_access
  update_channels-SameBranches orgs none db =
      ok-Returns _ _ (record { same_members = refl; same_branches = refl })
  update_channels-SameBranches orgs (some []) db =
      search (ensure-Returns, ok-Returns, replaced_channels)
  update_channels-SameBranches orgs (some (c ∷ cs)) db =
      search (ensure-Returns, bind-Returns, ok-Returns, replaced_channels)
