-- ===== src/Campaigns/Recovery/Stuck.antt =====
-- Which campaigns count as stuck, and what their restart does
-- (backend/app/services/campaign_recovery.py).
use watesly.Base.{
  ℕ, zero, suc, ◌≤◌, ◌≡◌, refl, ap, ◌∙◌, Bool, false, not, Option, List, [], ◌∷◌, ◌++◌, map, select,
  take, length, length-take-le, contains, order_by, insert_ordered, get, get-put_ne, arith, leb,
  or_else,
}
use watesly.Models.{Database, Campaign, campaign_row}
use watesly.Campaigns.Recovery.{
  is_stale_running, is_stale_scheduled, older_than, running_rows, scheduled_rows, stuck_campaigns,
  restarted, restart_all, recover_stuck_campaigns,
}

-- The campaign with another time to start at.
abbrev pub reschedule : (ℕ → Option ℕ) → Campaign → Campaign
reschedule at_ c = record c { scheduled_at = at_ c.id }

module _ {A : Type 0} (f : A → A) where
  select-map :
      (p : A → Bool) (xs : List A)
      → ((x : A) → p (f x) ≡ p x)
      → select p (map f xs) ≡ map f (select p xs)
  select-map p [] same = refl
  select-map p (x ∷ xs) same = ground (arith, same x, select-map p xs same)

  take-map : (n : ℕ) (xs : List A) → take n (map f xs) ≡ map f (take n xs)
  take-map zero xs = refl
  take-map (suc n) [] = refl
  take-map (suc n) (x ∷ xs) = ap (λ ys. f x ∷ ys) (take-map n xs)

  append-map : (xs ys : List A) → map f xs ++ map f ys ≡ map f (xs ++ ys)
  append-map [] ys = refl
  append-map (x ∷ xs) ys = ap (λ zs. f x ∷ zs) (append-map xs ys)

  insert_ordered-map :
      (before : A → A → Bool) (a : A) (xs : List A)
      → ((x y : A) → before (f x) (f y) ≡ before x y)
      → insert_ordered before (f a) (map f xs) ≡ map f (insert_ordered before a xs)
  insert_ordered-map before a [] same = refl
  insert_ordered-map before a (x ∷ xs) same =
      ground (arith, same a x, insert_ordered-map before a xs same)

  order_by-map :
      (before : A → A → Bool) (xs : List A)
      → ((x y : A) → before (f x) (f y) ≡ before x y)
      → order_by before (map f xs) ≡ map f (order_by before xs)
  order_by-map before [] same = refl
  order_by-map before (x ∷ xs) same =
      ap (insert_ordered before (f x)) (order_by-map before xs same)
      ∙ insert_ordered-map before x (order_by before xs) same

ids-map :
    (at_ : ℕ → Option ℕ) (cs : List Campaign)
    → map (λ c. c.id) (map (reschedule at_) cs) ≡ map (λ c. c.id) cs
ids-map at_ [] = refl
ids-map at_ (c ∷ cs) = ap (λ ys. c.id ∷ ys) (ids-map at_ cs)

running_rows-reschedule :
    (at_ : ℕ → Option ℕ) (now limit : ℕ) (cs : List Campaign)
    → running_rows now limit (map (reschedule at_) cs)
      ≡ map (reschedule at_) (running_rows now limit cs)
unfolding running_rows is_stale_running older_than
running_rows-reschedule at_ now limit cs =
    let f = reschedule at_ in
    rw
      (
        select-map f (is_stale_running now) cs (λ _. refl),
        order_by-map f (λ a b. leb (or_else a.last_heartbeat_at 0) (or_else b.last_heartbeat_at 0))
            (select (is_stale_running now) cs) (λ _ _. refl),
      )
      (take-map f limit _)

scheduled_rows-reschedule :
    (at_ : ℕ → Option ℕ) (now limit : ℕ) (cs : List Campaign)
    → scheduled_rows now limit (map (reschedule at_) cs)
      ≡ map (reschedule at_) (scheduled_rows now limit cs)
unfolding scheduled_rows is_stale_scheduled older_than
scheduled_rows-reschedule at_ now limit cs =
    let f = reschedule at_ in
    rw
      (
        select-map f (is_stale_scheduled now) cs (λ _. refl),
        order_by-map f (λ a b. leb a.created_at b.created_at) (select (is_stale_scheduled now) cs)
            (λ _ _. refl),
      )
      (take-map f limit _)

-- The time that a campaign is scheduled for has no part in the choice: whatever times the
-- campaigns are given, the same ones are restarted, those for a later time too.
pub stuck_campaigns-reschedule :
    (at_ : ℕ → Option ℕ) (now limit : ℕ) (cs : List Campaign)
    → stuck_campaigns now limit (map (reschedule at_) cs)
      ≡ map (reschedule at_) (stuck_campaigns now limit cs)
unfolding stuck_campaigns
stuck_campaigns-reschedule at_ now limit cs =
    let f = reschedule at_ in
    let running = running_rows now limit cs in
    let fresh = λ (c : Campaign). not (contains c.id (map (λ r. r.id) running)) in
    rw
      (
        running_rows-reschedule at_ now limit cs,
        scheduled_rows-reschedule at_ now limit cs,
        ids-map at_ running,
        select-map f fresh (scheduled_rows now limit cs) (λ _. refl),
        append-map f running (select fresh (scheduled_rows now limit cs)),
      )
      (take-map f limit _)

module _ (now : ℕ) (token task_id : ℕ → ℕ) where
  restart_all-count :
      (cs : List Campaign) (db : Database) → (restart_all now token task_id cs db).0 ≡ length cs
  unfolding restart_all
  restart_all-count [] db = refl
  restart_all-count (c ∷ cs) db = ap suc (restart_all-count cs _)

  restart_all-other :
      (i : ℕ) (cs : List Campaign) (db : Database)
      → contains i (map (λ c. c.id) cs) ≡ false
      → get i (restart_all now token task_id cs db).1.campaigns ≡ get i db.campaigns
  unfolding restart_all restarted
  restart_all-other i [] db h = refl
  restart_all-other i (c ∷ cs) db h =
      restart_all-other i cs _ (ground (arith, h))
      ∙ get-put_ne i (restarted now (token c.id) (task_id c.id) c) db.campaigns
          (λ e. ground (arith, h, e))

-- At most `limit` campaigns are restarted, the number that is reported, and a campaign that is not
-- among the stuck ones keeps its row.
pub recover_stuck_campaigns-bounded :
    (now limit i : ℕ) (token task_id : ℕ → ℕ) (db : Database)
    → contains i (map (λ c. c.id) (stuck_campaigns now limit db.campaigns)) ≡ false
    → ((recover_stuck_campaigns now token task_id limit db).0 ≤ limit)
      × ((recover_stuck_campaigns now token task_id limit db).0
          ≡ length (stuck_campaigns now limit db.campaigns))
      × (get i (recover_stuck_campaigns now token task_id limit db).1.campaigns
          ≡ get i db.campaigns)
unfolding recover_stuck_campaigns stuck_campaigns
recover_stuck_campaigns-bounded now limit i token task_id db h =
    let counted = restart_all-count now token task_id (stuck_campaigns now limit db.campaigns) db in
    (
      rw counted (length-take-le limit _),
      counted,
      restart_all-other now token task_id i (stuck_campaigns now limit db.campaigns) db h,
    )
