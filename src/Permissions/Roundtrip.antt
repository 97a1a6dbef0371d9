-- ===== src/Permissions/Roundtrip.antt =====
-- Validating and storing custom permissions, and reading them back
-- (backend/app/core/permissions.py).
use text.Mathlib.TextEquality.{eq_iff}
use watesly.Base.{
  ◌≢◌, String, fun_ext, true, ◌&&◌, ◌≡◌, refl, sym, ap, ◌∙◌, Bool, false, ◌||◌, any, Option-cases,
  Result-cases, inl, inr, Option, none, some, List, [], ◌∷◌, map, select, permission_exceeds_role,
  Result, ok, err, bind, arith, Bool-cases, if◌then◌else◌,
}
use watesly.Models.{MembershipRole, Membership}
use watesly.Permissions.{
  PermissionSet, role_permissions, set_of, parse_permission_values, effective_from,
  get_effective_permissions, sorted_values, is_subset, check_assignable,
  validate_custom_permissions_for_role, permissions_for_response,
}
use watesly.Permissions.Names.{
  Permission, conversations_view, sorted_permissions, permission_value, parse_permission,
  eq_permission,
}

-- The value of a permission parses back to it.
pub parse-permission_value : (p : Permission) → parse_permission (permission_value p) ≡ some p
unfolding parse_permission permission_value
parse-permission_value conversations_view = refl
parse-permission_value _ = refl

-- Equal values belong to equal permissions.
pub eq_permission→eq : (p q : Permission) → eq_permission p q ≡ true → p ≡ q
unfolding eq_permission
eq_permission→eq p q h =
    let same : permission_value p ≡ permission_value q = (eq_iff _ _).0 h in
    cc (same, parse-permission_value p, parse-permission_value q)

pub eq_permission_refl : (p : Permission) → eq_permission p p ≡ true
unfolding eq_permission
eq_permission_refl p = (eq_iff _ _).1 refl

set_of-select :
    (s : PermissionSet) (l : List Permission) (p : Permission)
    → set_of (select s l) p ≡ (set_of l p && s p)
set_of-select s [] p = refl
set_of-select s (q ∷ l) p = elim (Bool-cases (eq_permission p q)) [
  | inl same ↦
      let e : p ≡ q = eq_permission→eq p q same in ground (arith, set_of-select s l p, ap s e)
  | inr differ ↦ ground (arith, set_of-select s l p)
]

set_of-sorted : (p : Permission) → set_of sorted_permissions p ≡ true
unfolding eq_permission permission_value
set_of-sorted conversations_view = refl
set_of-sorted _ = refl

set_of-select_sorted :
    (s : PermissionSet) (p : Permission) → set_of (select s sorted_permissions) p ≡ s p
set_of-select_sorted s p = rw (set_of-select s sorted_permissions p, set_of-sorted p)

parse-cons :
    (v : String) (vs : List String) (p : Permission) (ps : List Permission)
    → parse_permission v ≡ some p
    → parse_permission_values vs ≡ ok ps
    → parse_permission_values (v ∷ vs) ≡ ok (p ∷ ps)
unfolding parse_permission_values
parse-cons v vs p ps h k = ground arith

parse-values : (ps : List Permission) → parse_permission_values (map permission_value ps) ≡ ok ps
unfolding parse_permission_values
parse-values [] = refl
parse-values (p ∷ ps) = parse-cons _ _ p ps (parse-permission_value p) (parse-values ps)

-- Reading back the stored values of a set gives the set.
pub parse-sorted_values :
    (s : PermissionSet)
    → parse_permission_values (sorted_values s) ≡ ok (select s sorted_permissions)
unfolding sorted_values
parse-sorted_values s = parse-values (select s sorted_permissions)

is_subset_at :
    (ps : List Permission) (allowed : PermissionSet) (p : Permission)
    → is_subset ps allowed ≡ true
    → set_of ps p ≡ true
    → allowed p ≡ true
is_subset_at [] allowed p h k = cc
is_subset_at (q ∷ ps) allowed p h k = elim (Bool-cases (eq_permission p q)) [
  | inl same ↦ let e : p ≡ q = eq_permission→eq p q same in ground (arith, ap allowed e)
  | inr differ ↦ ground (arith, is_subset_at ps allowed p)
]

-- What `validate_custom_permissions_for_role` has established when it returns.
pub record Validated (role : MembershipRole) (values : List String)
    (assignable : Option PermissionSet) (out : List String) : Type 0 where
  pub parsed : List Permission
  pub parses : parse_permission_values values ≡ ok parsed
  pub in_role : is_subset parsed (role_permissions role) ≡ true
  pub in_assignable :
      (allowed : PermissionSet) → assignable ≡ some allowed → is_subset parsed allowed ≡ true
  pub sorted : out ≡ sorted_values (set_of parsed)

check_assignable-Validated :
    (role : MembershipRole) (values : List String) (assignable : Option PermissionSet)
    (out : List String) (parsed : List Permission)
    → parse_permission_values values ≡ ok parsed
    → is_subset parsed (role_permissions role) ≡ true
    → check_assignable parsed assignable ≡ ok out
    → Validated role values assignable out
unfolding check_assignable
check_assignable-Validated role values none out parsed h k e = record {
  parsed = parsed;
  parses = h;
  in_role = k;
  in_assignable = λ allowed q. cc;
  sorted = ground arith;
}
check_assignable-Validated role values (some s) out parsed h k e = record {
  parsed = parsed;
  parses = h;
  in_role = k;
  in_assignable = λ allowed q. ground arith;
  sorted = ground arith;
}

validate-bind :
    (role : MembershipRole) (values : List String) (assignable : Option PermissionSet)
    (out : List String) (r : Result (List Permission))
    → parse_permission_values values ≡ r
    → bind r (λ parsed.
      if is_subset parsed (role_permissions role)
      then check_assignable parsed assignable
      else err permission_exceeds_role)
      ≡ ok out
    → Validated role values assignable out
validate-bind role values assignable out (err e) h k = cc
validate-bind role values assignable out (ok parsed) h k =
    elim (Bool-cases (is_subset parsed (role_permissions role))) [
      | inl inside ↦
          check_assignable-Validated role values assignable out parsed h inside (rw inside at k)
      | inr outside ↦ absurd (ground arith)
    ]

pub validate-Validated :
    (role : MembershipRole) (values : List String) (assignable : Option PermissionSet)
    (out : List String)
    → validate_custom_permissions_for_role role values assignable ≡ ok out
    → Validated role values assignable out
unfolding validate_custom_permissions_for_role
validate-Validated role values assignable out h = validate-bind role values assignable out _ refl h

module _ (parsed : List Permission) (role : MembershipRole)
    (inside : is_subset parsed (role_permissions role) ≡ true) where
  -- Intersecting the parsed set with the role's set changes nothing.
  stored_effective :
      (p : Permission)
      → (set_of (select (set_of parsed) sorted_permissions) p && role_permissions role p)
        ≡ set_of parsed p
  stored_effective p = elim (Bool-cases (set_of parsed p)) [
    | inl in_set ↦
        rw (set_of-select_sorted (set_of parsed) p, in_set)
          (is_subset_at parsed (role_permissions role) p inside in_set)
    | inr out_set ↦ rw (set_of-select_sorted (set_of parsed) p, out_set)
  ]

select_nonempty :
    (q : Permission) (ps : List Permission) → select (set_of (q ∷ ps)) sorted_permissions ≢ []
select_nonempty q ps h =
    let here : set_of (q ∷ ps) q ≡ true = ground (arith, eq_permission_refl q) in
    let kept : set_of (select (set_of (q ∷ ps)) sorted_permissions) q ≡ true =
      set_of-select_sorted (set_of (q ∷ ps)) q ∙ here in
    cc (ap (λ l. set_of l q) h, kept)

parse_cons_nonempty : (v : String) (vs : List String) → parse_permission_values (v ∷ vs) ≢ ok []
unfolding parse_permission_values
parse_cons_nonempty v vs h = ground arith

effective-parsed :
    (role : MembershipRole) (values : List String) (ps : List Permission)
    → values ≢ []
    → parse_permission_values values ≡ ok ps
    → effective_from role (some values) ≡ ok (λ p. set_of ps p && role_permissions role p)
unfolding effective_from
effective-parsed role [] ps h k = absurd (h refl)
effective-parsed role (v ∷ vs) ps h k = rw k

map-eq-nil : (ps : List Permission) → map permission_value ps ≡ [] → ps ≡ []
map-eq-nil [] h = refl
map-eq-nil (p ∷ ps) h = cc

sorted_nonempty : (parsed : List Permission) → parsed ≢ [] → sorted_values (set_of parsed) ≢ []
unfolding sorted_values
sorted_nonempty [] ne h = ne refl
sorted_nonempty (q ∷ ps) ne h = select_nonempty q ps (map-eq-nil _ h)

-- The value names the permission.
abbrev pub is_it : Permission → Option Permission → Bool
is_it p none = false
is_it p (some q) = eq_permission p q

abbrev pub names : Permission → String → Bool
names p v = is_it p (parse_permission v)

-- Parsing loses no value and adds none.
any-names :
    (p : Permission) (vs : List String) (ps : List Permission)
    → parse_permission_values vs ≡ ok ps
    → any (names p) vs ≡ set_of ps p
unfolding parse_permission_values
any-names p [] ps h = let e : [] ≡ ps = ground arith in ap (λ l. set_of l p) e
any-names p (v ∷ vs) ps h = elim (Option-cases (parse_permission v)) [
  | inl unknown ↦ absurd (ground (arith, unknown))
  | inr (q, e) ↦ elim (Result-cases (parse_permission_values vs)) [
    | inl (qs, k) ↦
        let same : q ∷ qs ≡ ps = ground (arith, e, k) in
        ap (λ o. is_it p o || any (names p) vs) e
        ∙ ap (λ b. eq_permission p q || b) (any-names p vs qs k)
        ∙ ap (λ l. set_of l p) same
    | inr (x, k) ↦ absurd (ground (arith, e, k))
  ]
]

-- A member whose non-empty list of custom permissions was validated and stored is answered exactly
-- the stored list, and the stored list names exactly the permissions that the requested one named:
-- nothing requested is lost, by storing it or to the role, and nothing is added.
pub validate-response :
    (m : Membership) (v : String) (vs : List String) (assignable : Option PermissionSet)
    (out : List String)
    → validate_custom_permissions_for_role m.role (v ∷ vs) assignable ≡ ok out
    → (permissions_for_response (record m { custom_permissions = some out }) ≡ ok out)
      × ((p : Permission) → any (names p) out ≡ any (names p) (v ∷ vs))
unfolding permissions_for_response get_effective_permissions
validate-response m v vs assignable out h =
    let d = validate-Validated m.role (v ∷ vs) assignable out h in
    let ps : List Permission = d.parsed in
    let ne : ps ≢ [] = λ e. parse_cons_nonempty v vs (d.parses ∙ ap ok e) in
    (
      rw d.sorted (
          rw
            (effective-parsed m.role (sorted_values (set_of ps)) _ (sorted_nonempty ps ne)
              (parse-sorted_values (set_of ps)))
            (ap (λ s. ok (sorted_values s)) (fun_ext (stored_effective ps m.role d.in_role)))),
      λ p.
          ap (any (names p)) d.sorted
          ∙ any-names p (sorted_values (set_of ps)) _ (parse-sorted_values (set_of ps))
          ∙ set_of-select_sorted (set_of ps) p
          ∙ sym (any-names p (v ∷ vs) ps d.parses),
    )
