-- ===== src/Access/Replace.antt =====
-- Assigning channels to a member (backend/app/services/membership_channels.py).
use watesly.Base.{
  ℕ, Bool, true, false, not, ◌&&◌, ◌≡◌, refl, sym, ap, ◌∙◌, ◌≢◌, List, [], ◌∷◌, ◌++◌, map,
  delete_where, any, all, contains, ok, arith, ◌==◌, is_some, ==_refl, contains-map-select, all_at,
  values_of-other, select-select,
}
use watesly.Models.{Database, Membership, Channel, MembershipChannelAccess, is_owner_or_admin}
use watesly.Access.{
  list_membership_channel_ids, valid_channel_ids, validate_channel_ids,
  replace_membership_channel_access,
}
use watesly.Access.Checks.{reaches_channel}

abbrev links : ℕ → List ℕ → List MembershipChannelAccess
links membership_id = map (λ i. record { membership_id = membership_id; channel_id = i })

abbrev own_channel : ℕ → ℕ → MembershipChannelAccess → Bool
own_channel membership_id i x = x.membership_id == membership_id && i == x.channel_id

-- The rows of one member in the table after its channels were replaced.
any-replaced :
    (membership_id i : ℕ) (ids : List ℕ) (rows : List MembershipChannelAccess)
    → any
        (own_channel membership_id i)
        (delete_where (λ x. x.membership_id == membership_id) rows ++ links membership_id ids)
      ≡ contains i ids
any-replaced membership_id i [] [] = refl
any-replaced membership_id i (j ∷ ids) [] = ground (arith, any-replaced membership_id i ids [])
any-replaced membership_id i ids (x ∷ rows) = ground (arith, any-replaced membership_id i ids rows)

restricted-replaced :
    (membership_id j : ℕ) (ids : List ℕ) (rows : List MembershipChannelAccess)
    → any
        (λ x. x.membership_id == membership_id)
        (delete_where (λ x. x.membership_id == membership_id) rows ++ links membership_id (j ∷ ids))
      ≡ true
restricted-replaced membership_id j ids [] = ground (arith, ==_refl membership_id)
restricted-replaced membership_id j ids (x ∷ rows) =
    ground (arith, restricted-replaced membership_id j ids rows)

-- After its channels were replaced by a non-empty set, a member that is neither owner nor admin
-- reaches exactly the channels of the set, whatever its organizations are.
pub replace-reaches_channel :
    (db : Database) (account_id : ℕ) (m : Membership) (j : ℕ) (ids : List ℕ) (i : ℕ)
    → is_owner_or_admin m.role ≡ false
    → reaches_channel (replace_membership_channel_access m.id (j ∷ ids) db) account_id m i
      ≡ contains i (j ∷ ids)
unfolding replace_membership_channel_access
replace-reaches_channel db account_id m j ids i h =
    rw (h, restricted-replaced m.id j ids db.channel_access)
      (any-replaced m.id i (j ∷ ids) db.channel_access)

-- When the channels of one member are replaced, another member keeps its channels.
pub replace-list_other :
    (db : Database) (a b : ℕ) (ids : List ℕ)
    → a ≢ b
    → list_membership_channel_ids (replace_membership_channel_access a ids db) b
      ≡ list_membership_channel_ids db b
unfolding replace_membership_channel_access list_membership_channel_ids
replace-list_other db a b ids h =
    values_of-other (λ x. x.membership_id) (λ x. x.channel_id)
      (λ a i. record { membership_id = a; channel_id = i }) (λ _ _. refl) (λ _ _. refl) a b ids
      db.channel_access h

weaken :
    (account_id i : ℕ) (orgs ids : List ℕ) (cs : List Channel)
    → any
        (λ c.
          (contains c.organization_id orgs
            && (c.account_id == account_id && contains c.id ids && not (is_some c.deleted_at)))
          && i == c.id)
        cs
      ≡ true
    → any
        (λ c.
          (contains c.organization_id orgs
            && c.account_id == account_id
            && not (is_some c.deleted_at))
          && i == c.id)
        cs
      ≡ true
weaken account_id i orgs ids [] h = cc
weaken account_id i orgs ids (c ∷ cs) h = ground (arith, weaken account_id i orgs ids cs)

valid_channel_ids-contains :
    (db : Database) (account_id i : ℕ) (orgs ids : List ℕ)
    → contains i (valid_channel_ids db account_id orgs ids) ≡ true
    → any
        (λ c.
          (contains c.organization_id orgs
            && c.account_id == account_id
            && not (is_some c.deleted_at))
          && i == c.id)
        db.channels
      ≡ true
unfolding valid_channel_ids
valid_channel_ids-contains db account_id i orgs ids h = weaken account_id i orgs ids db.channels (
    sym (contains-map-select i (λ (c : Channel). c.id) _ db.channels)
    ∙ ap (λ l. contains i (map (λ (c : Channel). c.id) l)) (sym (select-select _ _ db.channels))
    ∙ h)

-- When the requested channels are accepted, each of them is a channel of the account that is not
-- deleted and belongs to one of the organizations.
pub validate_channel_ids-valid :
    (db : Database) (account_id : ℕ) (orgs ids valid : List ℕ) (i : ℕ)
    → validate_channel_ids db account_id orgs ids ≡ ok valid
    → contains i ids ≡ true
    → any
        (λ c.
          (contains c.organization_id orgs
            && c.account_id == account_id
            && not (is_some c.deleted_at))
          && i == c.id)
        db.channels
      ≡ true
unfolding validate_channel_ids
validate_channel_ids-valid db account_id orgs [] valid i h k = cc
validate_channel_ids-valid db account_id orgs (j ∷ ids) valid i h k =
    let found = valid_channel_ids db account_id orgs (j ∷ ids) in
    let covered : all (λ y. contains y found) (j ∷ ids) ≡ true = ground arith in
    valid_channel_ids-contains db account_id i orgs (j ∷ ids)
      (all_at (λ y. contains y found) i (j ∷ ids) covered k)
