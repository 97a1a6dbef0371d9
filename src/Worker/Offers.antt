-- ===== src/Worker/Offers.antt =====
-- What the query of a batch offers to the task (backend/app/workers/campaign_tasks.py).
use watesly.Base.{
  ℕ, zero, suc, ◌≡◌, refl, sym, subst, any, map, select, satisfies, ==_refl, All, All-select_of_All,
  Bool, true, not, ◌&&◌, Option, none, some, List, [], ◌∷◌, take, get, ◌==◌, is_some, arith,
  if_both, key-get,
}
use watesly.Models.{Database, CampaignRecipient, Contact, contact_row}
use watesly.Worker.{Environment}
use watesly.Worker.Loop.{is_waiting, join_row, with_contacts, next_batch}

abbrev pub has_offer : ℕ → ℕ → ℕ → CampaignRecipient → Bool
has_offer campaign_id recipient_id contact_id r =
    (r.campaign_id == campaign_id && is_waiting r.status)
    && (r.id == recipient_id && r.contact_id == contact_id)

-- In the database, the recipient is a waiting one of the campaign, for this contact, which is there
-- and not deleted.
abbrev pub IsWaitingRow : ℕ → Database → ℕ → ℕ → Type 0
IsWaitingRow campaign_id db recipient_id contact_id =
    (any (has_offer campaign_id recipient_id contact_id) db.recipients ≡ true)
    × (satisfies (λ c. not (is_some c.deleted_at)) (get contact_id db.contacts) ≡ true)

-- The session's object for a row is one with the keys of the row.
abbrev pub HoldsKeys : Environment → Type 0
HoldsKeys env =
    (n : ℕ) (row : CampaignRecipient × Contact)
    → ((env.held n row).0.id ≡ row.0.id) × ((env.held n row).1.id ≡ row.1.id)

offered_under :
    (campaign_id : ℕ) (x : CampaignRecipient) (xs rs : List CampaignRecipient)
    → All (λ r. any (has_offer campaign_id r.id r.contact_id) xs ≡ true) rs
    → All (λ r. any (has_offer campaign_id r.id r.contact_id) (x ∷ xs) ≡ true) rs
offered_under campaign_id x xs [] h = tt
offered_under campaign_id x xs (r ∷ rs) h =
    (ground (arith, h.0), offered_under campaign_id x xs rs h.1)

select-IsOffered :
    (campaign_id : ℕ) (xs : List CampaignRecipient)
    → All
        (λ r. any (has_offer campaign_id r.id r.contact_id) xs ≡ true)
        (select (λ r. r.campaign_id == campaign_id && is_waiting r.status) xs)
select-IsOffered campaign_id [] = tt
select-IsOffered campaign_id (x ∷ xs) =
    let rest = offered_under campaign_id x xs _ (select-IsOffered campaign_id xs) in
    if_both (All (λ r. any (has_offer campaign_id r.id r.contact_id) (x ∷ xs) ≡ true))
      (x.campaign_id == campaign_id && is_waiting x.status) _ _
      (λ kept. (ground (arith, kept, ==_refl x.id, ==_refl x.contact_id), rest)) (λ _. rest)

module _ (env : Environment) (campaign_id : ℕ) (db : Database) where
  abbrev pub IsRow : CampaignRecipient → Contact → Type 0
  IsRow r contact = IsWaitingRow campaign_id db r.id contact.id

  abbrev pub Rows : List (CampaignRecipient × Contact) → Type 0
  Rows = All (λ row. IsRow row.0 row.1)

  -- The recipient of a row that was selected is offered by the table.
  IsOffered : CampaignRecipient → Type 0
  IsOffered r = any (has_offer campaign_id r.id r.contact_id) db.recipients ≡ true

  join_row-waiting :
      (r : CampaignRecipient) (contact : Option Contact) (rows : List (CampaignRecipient × Contact))
      → get r.contact_id db.contacts ≡ contact
      → IsOffered r
      → Rows rows
      → Rows (join_row r contact rows)
  unfolding join_row IsOffered
  join_row-waiting r none rows e h w = w
  join_row-waiting r (some contact) rows e h w =
      let own : contact.id ≡ r.contact_id = key-get r.contact_id contact db.contacts e in
      if_both Rows (is_some contact.deleted_at) _ _ (λ _. w)
        λ there. (
          subst (λ i. IsWaitingRow campaign_id db r.id i) (sym own)
              (h, rw e (ground (arith, there))),
          w,
        )

  with_contacts-waiting :
      (rs : List CampaignRecipient) → All IsOffered rs → Rows (with_contacts db rs)
  unfolding with_contacts
  with_contacts-waiting [] h = tt
  with_contacts-waiting (r ∷ rs) h =
      join_row-waiting r _ (with_contacts db rs) refl h.0 (with_contacts-waiting rs h.1)

  take-waiting :
      (n : ℕ) (rows : List (CampaignRecipient × Contact)) → Rows rows → Rows (take n rows)
  take-waiting zero rows h = tt
  take-waiting (suc n) [] h = tt
  take-waiting (suc n) (row ∷ rows) h = (h.0, take-waiting n rows h.1)

  pub next_batch-waiting : (k n : ℕ) → Rows (next_batch env k db campaign_id n)
  unfolding next_batch IsOffered
  next_batch-waiting k n = take-waiting n _ (
      All-select_of_All _ (λ row. not (env.locked k row)) _
        (with_contacts-waiting _ (select-IsOffered campaign_id db.recipients)))

  pub objects-waiting :
      (keys : HoldsKeys env) (k : ℕ) (rows : List (CampaignRecipient × Contact))
      → Rows rows
      → Rows (map (env.held k) rows)
  objects-waiting keys k [] h = tt
  objects-waiting keys k (row ∷ rows) h =
      let (a, b) = keys k row in
      (
        subst (λ j. IsWaitingRow campaign_id db j (env.held k row).1.id) (sym a)
            (subst (λ j. IsWaitingRow campaign_id db row.0.id j) (sym b) h.0),
        objects-waiting keys k rows h.1,
      )
