-- ===== src/Assignments/Teams/Members.antt =====
-- The members of a team after its creation or change (services/assignments.py).
use watesly.Base.{
  ℕ, ◌≡◌, ◌≢◌, refl, sym, ap, ◌∙◌, inl, inr, Bool, true, false, ◌&&◌, some, List, [], ◌∷◌, map,
  select, key-get, eq_of_==, values_of-replaced, values_of-other, any, all_at, contains,
  contains-map-select, get, is_empty, ok, Returns, ok-Returns, if-Returns, ensure-Returns,
  bind-Returns, found-Returns, arith, ◌==◌, Bool-cases,
}
use watesly.Models.{
  Database, Membership, is_active_membership, Team, team_row, TeamMember, OrganizationMembership,
}
use watesly.Access.{same_set}
use watesly.Assignments.Teams.{
  is_active_member, validate_memberships, in_branch, validate_memberships_in_organization,
  team_member_ids, replace_members, update_team_members,
}

-- An active member of the account with a row in the branch.
pub record IsStaff (db : Database) (account_id organization_id i : ℕ) : Type 0 where
  pub active :
      any
        (λ m. m.account_id == account_id && is_active_membership m.status && i == m.id)
        db.memberships
      ≡ true
  pub in_branch :
      any
        (λ x. x.organization_id == organization_id && i == x.membership_id)
        db.organization_memberships
      ≡ true

same_set-contains : (xs ys : List ℕ) (i : ℕ) → same_set xs ys ≡ true → contains i xs ≡ contains i ys
same_set-contains xs ys i h = elim (Bool-cases (contains i xs)) [
  | inl here ↦ here ∙ sym (all_at (λ x. contains x ys) i xs (ground (arith, h)) here)
  | inr gone ↦ elim (Bool-cases (contains i ys)) [
    | inl there ↦
        absurd (ground (arith, gone, all_at (λ y. contains y xs) i ys (ground (arith, h)) there))
    | inr both ↦ gone ∙ sym both
  ]
]

empty_contains : (i : ℕ) (xs : List ℕ) → is_empty xs ≡ true → contains i xs ≡ false
empty_contains i [] h = refl
empty_contains i (x ∷ xs) h = cc

any_imp :
    {A : Type 0} (p q : A → Bool) (imp : (x : A) → p x ≡ true → q x ≡ true) (xs : List A)
    → any p xs ≡ true
    → any q xs ≡ true
any_imp p q imp [] h = cc
any_imp p q imp (x ∷ xs) h = ground (arith, h, imp x, any_imp p q imp xs)

module _ (db : Database) (account_id organization_id : ℕ) where
  active_of :
      (ids : List ℕ) (i : ℕ)
      → contains i (map (λ m. m.id) (select (is_active_member account_id ids) db.memberships))
        ≡ true
      → any
          (λ m. m.account_id == account_id && is_active_membership m.status && i == m.id)
          db.memberships
        ≡ true
  active_of ids i h =
      any_imp (λ m. is_active_member account_id ids m && i == m.id) _ (λ m k. ground (arith, k))
        db.memberships
        (sym (
            contains-map-select i (λ (m : Membership). m.id) (is_active_member account_id ids)
              db.memberships)
          ∙ h)

  branch_of :
      (ids : List ℕ) (i : ℕ)
      → contains i (in_branch db organization_id ids) ≡ true
      → any
          (λ x. x.organization_id == organization_id && i == x.membership_id)
          db.organization_memberships
        ≡ true
  branch_of ids i h =
      any_imp
        (λ x.
          (contains x.membership_id ids && x.organization_id == organization_id)
          && i == x.membership_id)
        _ (λ x k. ground (arith, k)) db.organization_memberships
        (sym (
            contains-map-select i (λ (x : OrganizationMembership). x.membership_id) _
              db.organization_memberships)
          ∙ h)

  -- What the two checks establish of the members that are asked for.
  pub record AreStaff (requested valid : List ℕ) : Type 0 where
    pub same : (i : ℕ) → contains i valid ≡ contains i requested
    pub staff : (i : ℕ) → contains i requested ≡ true → IsStaff db account_id organization_id i

  active_checked :
      (requested : List ℕ)
      → Returns
          (λ (valid : List ℕ).
            (i : ℕ)
            → (contains i valid ≡ contains i requested)
              × (contains i requested ≡ true
                  → any
                      (λ m.
                        m.account_id == account_id && is_active_membership m.status && i == m.id)
                      db.memberships
                    ≡ true))
          (validate_memberships db account_id requested)
  unfolding validate_memberships
  active_checked [] = ok-Returns _ _ (λ i. (refl, λ h. absurd cc))
  active_checked (r ∷ requested) =
      let valid : List ℕ =
        map (λ m. m.id) (select (is_active_member account_id (r ∷ requested)) db.memberships) in
      ensure-Returns _ (same_set valid (r ∷ requested)) _ _ (λ same. ok-Returns _ _ (λ i. (
        same_set-contains valid (r ∷ requested) i same,
        (λ h. active_of (r ∷ requested) i (same_set-contains valid (r ∷ requested) i same ∙ h)),
      )))

  pub validate_memberships_in_organization-AreStaff :
      (requested : List ℕ)
      → Returns
          (AreStaff requested)
          (validate_memberships_in_organization db account_id organization_id requested)
  unfolding validate_memberships_in_organization
  validate_memberships_in_organization-AreStaff requested =
      bind-Returns _ (validate_memberships db account_id requested) _ (λ valid checked.
        let c = (active_checked requested).returned valid checked in
        if-Returns _ (is_empty valid) _ _
          (λ empty. ok-Returns _ _ (record {
            same = λ i. (c i).0;
            staff = λ i h. absurd (ground (arith, empty_contains i valid empty, (c i).0, h));
          }))
          (λ some.
            ensure-Returns _ (same_set (in_branch db organization_id valid) valid) _ _ (λ same.
              ok-Returns _ _ (record {
                same = λ i. (c i).0;
                staff = λ i h. record {
                  active = (c i).1 h;
                  in_branch = branch_of valid i (same_set-contains _ valid i same ∙ (c i).0 ∙ h);
                };
              }))))

abbrev member_row : ℕ → ℕ → TeamMember
member_row team_id i = record { team_id = team_id; membership_id = i }

replace_members-own :
    (t : ℕ) (ids : List ℕ) (db : Database) → team_member_ids (replace_members t ids db) t ≡ ids
unfolding replace_members team_member_ids
replace_members-own t ids db =
    values_of-replaced (λ x. x.team_id) (λ x. x.membership_id) member_row (λ _ _. refl)
      (λ _ _. refl) t ids db.team_members

replace_members-other :
    (t u : ℕ) (ids : List ℕ) (db : Database)
    → t ≢ u
    → team_member_ids (replace_members t ids db) u ≡ team_member_ids db u
unfolding replace_members team_member_ids
replace_members-other t u ids db h =
    values_of-other (λ x. x.team_id) (λ x. x.membership_id) member_row (λ _ _. refl) (λ _ _. refl) t
      u ids db.team_members h

-- A team whose members were set to those asked for.
pub record HasMembers (account_id team_id : ℕ) (requested : List ℕ) (db : Database)
    (out : (Team × List ℕ) × Database) : Type 0 where
  pub exists : get team_id db.teams ≡ some out.0.0
  pub same_account : out.0.0.account_id ≡ account_id
  pub exactly : (i : ℕ) → contains i (team_member_ids out.1 team_id) ≡ contains i requested
  pub staff :
      (i : ℕ) → contains i requested ≡ true → IsStaff db account_id out.0.0.organization_id i
  pub others : (u : ℕ) → team_id ≢ u → team_member_ids out.1 u ≡ team_member_ids db u

module _ (account_id team_id : ℕ) (requested : List ℕ) (db : Database) where
  members_set :
      (team : Team)
      → get team_id db.teams ≡ some team
      → (team.account_id == account_id) ≡ true
      → (valid : List ℕ)
      → validate_memberships_in_organization db account_id team.organization_id requested ≡ ok valid
      → HasMembers account_id team_id requested db ((team, valid), replace_members team.id valid db)
  members_set team exists here valid checked =
      let id : team.id ≡ team_id = key-get team_id team db.teams exists in
      let c =
        (validate_memberships_in_organization-AreStaff db account_id team.organization_id
            requested).returned
          valid checked in
      record {
        exists = exists;
        same_account = eq_of_== team.account_id account_id here;
        exactly = λ i. rw id (ap (contains i) (replace_members-own team_id valid db) ∙ c.same i);
        staff = c.staff;
        others = λ u ne. rw id (replace_members-other team_id u valid db ne);
      }

  members-Returns :
      Returns
        (HasMembers account_id team_id requested db)
        (update_team_members account_id team_id requested db)
  unfolding update_team_members
  members-Returns =
      search (found-Returns, ensure-Returns, bind-Returns, ok-Returns, members_set) depth 12

  -- When the members of a team are changed, the team is one of the account, it has exactly the
  -- members that were asked for, each of them an active member of the account in the team's branch,
  -- and the other teams keep theirs.
  pub update_team_members-HasMembers :
      (out : (Team × List ℕ) × Database)
      → update_team_members account_id team_id requested db ≡ ok out
      → HasMembers account_id team_id requested db out
  update_team_members-HasMembers out h = members-Returns.returned out h
