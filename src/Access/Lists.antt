-- ===== src/Access/Lists.antt =====
-- The filters of the lists agree with the checks of the single rows
-- (backend/app/services/membership_access.py).
use watesly.Base.{
  ℕ, Bool, true, ◌&&◌, ◌≡◌, refl, ap, ◌∙◌, fun_ext, ◌↔◌, Option, none, some, List, [], ◌∷◌,
  contains, get, satisfies, HasUniqueKeys, any-key, key-get, ok, arith, ◌==◌, contains-map-select,
  Option-cases, inl, inr,
}
use watesly.Models.{
  Database, Membership, Organization, WhatsAppAccount, Campaign, WhatsAppTemplate,
  is_active_organization, organization_row, whatsapp_account_row,
}
use watesly.Access.{
  active_in_account, resolve_active_organization_ids, resolve_accessible_channel_ids, allows,
  ensure_campaign_access, ensure_membership_organization_access, passes, on_channels, scope_filters,
  campaign_list_filters, template_list_filters, ensure_template_access,
  ensure_whatsapp_account_access,
}
use watesly.Access.Checks.{
  reaches_organization, reaches_channel, allows-organization, allows-channel, MayUseOrganization,
  ensure_membership_organization_access_iff, ensure_membership_channel_access_lem,
}

-- The organization found under the id is an active one of the account that the member reaches.
abbrev pub usable_organization : Database → ℕ → Membership → ℕ → Bool
usable_organization db account_id m i =
    satisfies
      (λ (o : Organization).
        o.account_id == account_id
        && is_active_organization o.status
        && reaches_organization db m o.id)
      (get i db.organizations)

resolve_active-contains :
    (db : Database) (account_id : ℕ) (m : Membership) (i : ℕ)
    → HasUniqueKeys db.organizations
    → contains i (resolve_active_organization_ids db account_id m)
      ≡ usable_organization db account_id m i
unfolding resolve_active_organization_ids active_in_account
resolve_active-contains db account_id m i unique =
    contains-map-select i _ _ db.organizations
    ∙ any-key _ i db.organizations unique
    ∙ ap
        (λ (f : ℕ → Bool).
          satisfies
            (λ (o : Organization).
              o.account_id == account_id && is_active_organization o.status && f o.id)
            (get i db.organizations))
        (fun_ext (allows-organization db m))

on_channels-satisfies :
    (db : Database) (account_id : ℕ) (ids : List ℕ) (i : ℕ)
    → HasUniqueKeys db.whatsapp_accounts
    → on_channels db account_id ids i
      ≡ satisfies
          (λ (wa : WhatsAppAccount). wa.account_id == account_id && contains wa.channel_id ids)
          (get i db.whatsapp_accounts)
unfolding on_channels
on_channels-satisfies db account_id ids i unique =
    contains-map-select i _ _ db.whatsapp_accounts ∙ any-key _ i db.whatsapp_accounts unique

-- The filters, for a row whose WhatsApp account is `wa`.
scope_filters-passes :
    {A : Type 0} (db : Database) (account_id : ℕ) (org wa_id : A → ℕ) (orgs : List ℕ)
    (channels : Option (List ℕ)) (a : A) (wa : WhatsAppAccount)
    → HasUniqueKeys db.whatsapp_accounts
    → get (wa_id a) db.whatsapp_accounts ≡ some wa
    → wa.account_id ≡ account_id
    → passes (scope_filters db account_id org wa_id orgs channels) a
      ≡ (contains (org a) orgs && allows channels wa.channel_id)
unfolding scope_filters
scope_filters-passes db account_id org wa_id [] channels a wa unique e own = refl
scope_filters-passes db account_id org wa_id (o ∷ os) none a wa unique e own = refl
scope_filters-passes db account_id org wa_id (o ∷ os) (some []) a wa unique e own = ground arith
scope_filters-passes db account_id org wa_id (o ∷ os) (some (c ∷ cs)) a wa unique e own =
    ground (arith, on_channels-satisfies db account_id (c ∷ cs) (wa_id a) unique)

usable_organization-found :
    (db : Database) (account_id : ℕ) (m : Membership) (i : ℕ)
    → usable_organization db account_id m i ≡ true
    → MayUseOrganization db account_id m i
usable_organization-found db account_id m i h = elim (Option-cases (get i db.organizations)) [
  | inl missing ↦ absurd (ground (arith, missing))
  | inr (o, e) ↦
      let key : o.id ≡ i = key-get i o db.organizations e in
      record {
        row = o;
        exists = e;
        in_account = ground (arith, e);
        active = ground (arith, e);
        reached = ground (arith, e, ap (reaches_organization db m) key);
      }
]

found-usable_organization :
    (db : Database) (account_id : ℕ) (m : Membership) (i : ℕ)
    → MayUseOrganization db account_id m i
    → usable_organization db account_id m i ≡ true
found-usable_organization db account_id m i may =
    let key : may.row.id ≡ i = key-get i may.row db.organizations may.exists in
    ground (
      arith,
      may.exists,
      may.in_account,
      may.active,
      may.reached,
      ap (reaches_organization db m) key,
    )

-- What both the list and the single check require of a campaign on the WhatsApp account `wa`.
abbrev Reachable : Database → ℕ → Membership → ℕ → WhatsAppAccount → Type 0
Reachable db account_id m organization_id wa =
    MayUseOrganization db account_id m organization_id
    × (reaches_channel db account_id m wa.channel_id ≡ true)

module _ (db : Database) (account_id : ℕ) (m : Membership) (wa : WhatsAppAccount)
    (unique_organizations : HasUniqueKeys db.organizations)
    (unique_accounts : HasUniqueKeys db.whatsapp_accounts) (own : wa.account_id ≡ account_id) where
  filters-Reachable :
      {A : Type 0} (org wa_id : A → ℕ) (a : A)
      → get (wa_id a) db.whatsapp_accounts ≡ some wa
      → (passes
            (scope_filters db account_id org wa_id
              (resolve_active_organization_ids db account_id m)
              (resolve_accessible_channel_ids db account_id m))
            a
          ≡ true)
        ↔ Reachable db account_id m (org a) wa
  filters-Reachable org wa_id a e =
      let split =
        scope_filters-passes db account_id org wa_id
          (resolve_active_organization_ids db account_id m)
          (resolve_accessible_channel_ids db account_id m) a wa unique_accounts e own in
      let orgs = resolve_active-contains db account_id m (org a) unique_organizations in
      let chans = allows-channel db account_id m wa.channel_id in
      (
        λ h. (
          usable_organization-found db account_id m (org a) (ground (arith, split, orgs, chans, h)),
          ground (arith, split, orgs, chans, h),
        ),
        λ r.
            ground (
              arith,
              split,
              orgs,
              chans,
              found-usable_organization db account_id m (org a) r.0,
              r.1,
            ),
      )

  ensure-Reachable :
      (c : Campaign)
      → get c.whatsapp_account_id db.whatsapp_accounts ≡ some wa
      → (ensure_campaign_access db account_id m c ≡ ok tt)
        ↔ Reachable db account_id m c.organization_id wa
  unfolding ensure_campaign_access
  ensure-Reachable c e =
      let orgs = ensure_membership_organization_access_iff db account_id m c.organization_id in
      let chans = ensure_membership_channel_access_lem db account_id m wa.channel_id in
      (
        λ h. (orgs.0 (ground (arith, e, chans, h, own)), ground (arith, e, chans, h, own)),
        λ r. ground (arith, e, chans, orgs.1 r.0, r.1, own),
      )

  -- With unique keys of the organizations and WhatsApp accounts, a campaign whose WhatsApp account
  -- belongs to the account is in a member's list exactly if opening it is allowed to the member.
  pub campaign_list_filters-ensure :
      (c : Campaign)
      → get c.whatsapp_account_id db.whatsapp_accounts ≡ some wa
      → (passes (campaign_list_filters db account_id m) c ≡ true)
        ↔ (ensure_campaign_access db account_id m c ≡ ok tt)
  unfolding campaign_list_filters
  campaign_list_filters-ensure c e =
      let listed =
        filters-Reachable (λ (c : Campaign). c.organization_id) (λ c. c.whatsapp_account_id) c e in
      let opened = ensure-Reachable c e in (λ h. opened.1 (listed.0 h), λ h. listed.1 (opened.0 h))

  ensure_template-Reachable :
      (t : WhatsAppTemplate)
      → get t.whatsapp_account_id db.whatsapp_accounts ≡ some wa
      → wa.organization_id ≡ t.organization_id
      → (ensure_template_access db account_id m t ≡ ok tt)
        ↔ Reachable db account_id m t.organization_id wa
  unfolding ensure_template_access ensure_whatsapp_account_access
  ensure_template-Reachable t e same =
      let orgs = ensure_membership_organization_access_iff db account_id m t.organization_id in
      let chans = ensure_membership_channel_access_lem db account_id m wa.channel_id in
      (
        λ h. (
          orgs.0 (ground (arith, e, chans, h, own, same)),
          ground (arith, e, chans, h, own, same),
        ),
        λ r. ground (
          arith,
          e,
          chans,
          orgs.1 r.0,
          r.1,
          own,
          ap (ensure_membership_organization_access db account_id m) same,
        ),
      )

  -- With unique keys of the organizations and WhatsApp accounts, a template whose WhatsApp account
  -- belongs to the account and to the template's organization is in a member's list exactly if
  -- opening it is allowed to the member.
  pub template_list_filters-ensure :
      (t : WhatsAppTemplate)
      → get t.whatsapp_account_id db.whatsapp_accounts ≡ some wa
      → wa.organization_id ≡ t.organization_id
      → (passes (template_list_filters db account_id m) t ≡ true)
        ↔ (ensure_template_access db account_id m t ≡ ok tt)
  unfolding template_list_filters
  template_list_filters-ensure t e same =
      let listed =
        filters-Reachable (λ (t : WhatsAppTemplate). t.organization_id) (λ t. t.whatsapp_account_id)
          t e in
      let opened = ensure_template-Reachable t e same in
      (λ h. opened.1 (listed.0 h), λ h. listed.1 (opened.0 h))
