-- ===== src/Employees/Update/Owners.antt =====
-- The owners of an account under `update_employee` (services/team.py).
use watesly.Base.{
  ℕ, ◌+◌, ◌≤◌, ◌≡◌, refl, sym, ◌∙◌, subst, inl, inr, Bool, true, false, ◌&&◌, Option, none, some,
  List, [], ◌∷◌, get, put, key-get, count_where, ok, arith, ◌==◌, or_else, if◌then◌else◌,
  Bool-cases, Row,
}
use watesly.Models.{
  Database, MembershipRole, MembershipStatus, Membership, membership_row, is_active_membership,
}
use watesly.Employees.Update.{
  EmployeeUpdateRequest, is_owner, leaves_owner, is_suspension, owner_count, update_guards,
  update_employee,
}
use watesly.Employees.Update.Applied.{Updated, update_employee-Updated}

-- Replacing a row counts the new row in place of the old one.
count_where-put :
    {A : Type 0} ⦃r : Row A⦄ (p : A → Bool) (a old : A) (xs : List A)
    → get (r.key a) xs ≡ some old
    → count_where p (put a xs) + (if p old then 1 else 0)
      ≡ count_where p xs + (if p a then 1 else 0)
count_where-put p a old [] h = cc
count_where-put ⦃r⦄ p a old (x ∷ xs) h = elim (Bool-cases (r.key x == r.key a)) [
  | inl here ↦ ground (arith, h, here)
  | inr there ↦ ground (arith, there, count_where-put p a old xs (ground (arith, h, there)))
]

owner_role-kept :
    (r : Option MembershipRole) (t : MembershipRole)
    → leaves_owner r ≡ false
    → is_owner t ≡ true
    → is_owner (or_else r t) ≡ true
owner_role-kept none t h k = k
owner_role-kept (some r) t h k = ground (arith, h)

active_status-kept :
    (r : Option MembershipStatus) (t : MembershipStatus)
    → is_suspension r ≡ false
    → is_active_membership t ≡ true
    → is_active_membership (or_else r t) ≡ true
active_status-kept none t h k = k
active_status-kept (some r) t h k = ground (arith, h)

guards-owner :
    (account_id : ℕ) (actor : Membership) (payload : EmployeeUpdateRequest) (target : Membership)
    (db : Database)
    → update_guards db account_id actor payload target ≡ ok tt
    → is_owner target.role ≡ true
    → leaves_owner payload.role ≡ true
    → 2 ≤ owner_count account_id db.memberships
unfolding update_guards
guards-owner account_id actor payload target db h owns leaves = ground (arith, h, owns, leaves)

-- One row is replaced: if it was counted and is not, there was another.
one_left :
    (after before : ℕ) (t n : Bool)
    → after + (if t then 1 else 0) ≡ before + (if n then 1 else 0)
    → 1 ≤ before
    → (t ≡ true → n ≡ false → 2 ≤ before)
    → 1 ≤ after
one_left after before true true e some_owner two = omega (arith, e, some_owner)
one_left after before true false e some_owner two = omega (arith, e, two refl refl)
one_left after before false true e some_owner two = omega (arith, e, some_owner)
one_left after before false false e some_owner two = omega (arith, e, some_owner)

abbrev counts_as_owner : ℕ → Membership → Bool
counts_as_owner account_id m =
    m.account_id == account_id && is_owner m.role && is_active_membership m.status

module _ (account_id membership_id : ℕ) (actor : Membership) (payload : EmployeeUpdateRequest)
    (db db' : Database)
    (h : update_employee account_id membership_id actor payload db ≡ ok db') where
  abbrev u : Updated account_id membership_id actor payload db db'
  u = (update_employee-Updated account_id membership_id actor payload db).returned db' h

  owners_after :
      owner_count account_id db'.memberships
        + (if counts_as_owner account_id u.target then 1 else 0)
      ≡ owner_count account_id db.memberships
        + (if counts_as_owner account_id u.done.row then 1 else 0)
  unfolding owner_count
  owners_after = rw (u.done.members) (
      count_where-put (counts_as_owner account_id) u.done.row u.target db.memberships (
        subst (λ i. get i db.memberships ≡ some u.target)
          (sym (u.done.same_id ∙ key-get membership_id u.target db.memberships u.exists)) u.exists))

  row_counts :
      is_suspension payload.status ≡ false
      → counts_as_owner account_id u.target ≡ true
      → leaves_owner payload.role ≡ false
      → counts_as_owner account_id u.done.row ≡ true
  row_counts kept owned stays =
      rw (u.done.same_account, u.done.role_set, u.done.status_set)
        (ground (
          arith,
          owned,
          stays,
          owner_role-kept payload.role u.target.role,
          active_status-kept payload.status u.target.status kept,
        ))

  two_owners :
      is_suspension payload.status ≡ false
      → counts_as_owner account_id u.target ≡ true
      → counts_as_owner account_id u.done.row ≡ false
      → 2 ≤ owner_count account_id db.memberships
  two_owners kept owned lost = elim (Bool-cases (leaves_owner payload.role)) [
    | inl leaves ↦
        guards-owner account_id actor payload u.target db u.allowed (ground (arith, owned)) leaves
    | inr stays ↦ absurd (ground (arith, lost, row_counts kept owned stays))
  ]

  -- An account with an active owner keeps one, if the request suspends nobody.
  pub update_employee-keeps_owner :
      is_suspension payload.status ≡ false
      → 1 ≤ owner_count account_id db.memberships
      → 1 ≤ owner_count account_id db'.memberships
  update_employee-keeps_owner kept some_owner =
      one_left _ _ (counts_as_owner account_id u.target) (counts_as_owner account_id u.done.row)
        owners_after some_owner (λ owned lost. two_owners kept owned lost)
