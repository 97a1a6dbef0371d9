-- ===== src/Assignments/Team.antt =====
-- The members of a team and their open conversations (backend/app/services/assignments.py).
use watesly.Base.{
  ℕ, ◌≤◌, ◌≡◌, refl, true, false, Option, none, some, List, [], ◌∷◌, any, All, All-select, arith,
  ltb, ◌==◌, if_both, or_else,
}
use watesly.Models.{
  Database, Conversation, Membership, AssignmentRule, AssignmentStrategy, round_robin, least_open,
}
use watesly.Assignments.{
  in_team, team_memberships, open_count, less_busy, least_busy, head_or, after_member, next_in_turn,
  choose,
}
use watesly.Assignments.Rules.{All-order_by}

module _ (db : Database) (c : Conversation) where
  abbrev pub InTeam : ℕ → Membership → Type 0
  InTeam team_id m = in_team db team_id m ≡ true

  abbrev pub LeastBusy : Membership → List Membership → Type 0
  LeastBusy m = All (λ x. open_count db c m ≤ open_count db c x)

  pub team_memberships-InTeam : (team_id : ℕ) → All (InTeam team_id) (team_memberships db team_id)
  unfolding team_memberships
  team_memberships-InTeam team_id =
      All-order_by _ (InTeam team_id) _ (All-select (in_team db team_id) db.memberships)

  pub least_busy-InTeam :
      (team_id : ℕ) (m : Membership) (ms : List Membership)
      → InTeam team_id m
      → All (InTeam team_id) ms
      → InTeam team_id (least_busy db c m ms)
  unfolding least_busy
  least_busy-InTeam team_id m [] h all = h
  least_busy-InTeam team_id m (x ∷ xs) h all =
      if_both (λ k. InTeam team_id (least_busy db c k xs)) (less_busy db c x m) x m
        (λ _. least_busy-InTeam team_id x xs all.0 all.1)
        (λ _. least_busy-InTeam team_id m xs h all.1)

  head_or-InTeam :
      (team_id : ℕ) (m : Membership) (ms : List Membership)
      → InTeam team_id m
      → All (InTeam team_id) ms
      → InTeam team_id (head_or m ms)
  unfolding head_or
  head_or-InTeam team_id m [] h all = h
  head_or-InTeam team_id m (x ∷ xs) h all = all.0

  after_member-InTeam :
      (team_id last : ℕ) (m : Membership) (ms : List Membership)
      → InTeam team_id m
      → All (InTeam team_id) ms
      → InTeam team_id (or_else (after_member last m ms) m)
  unfolding after_member
  after_member-InTeam team_id last m [] h all = h
  after_member-InTeam team_id last m (x ∷ xs) h all =
      if_both (λ o. InTeam team_id (or_else o m)) (x.id == last) _ _
        (λ _. head_or-InTeam team_id m xs h all.1)
        (λ _. after_member-InTeam team_id last m xs h all.1)

  pub next_in_turn-InTeam :
      (team_id : ℕ) (last : Option ℕ) (m : Membership) (ms : List Membership)
      → InTeam team_id m
      → All (InTeam team_id) ms
      → InTeam team_id (next_in_turn last m ms)
  unfolding next_in_turn
  next_in_turn-InTeam team_id none m ms h all = h
  next_in_turn-InTeam team_id (some last) m ms h all =
      after_member-InTeam team_id last m (m ∷ ms) h (h, all)

  choose-InTeam :
      (strategy : AssignmentStrategy) (rule : AssignmentRule) (m : Membership)
      (ms : List Membership)
      → InTeam rule.team_id m
      → All (InTeam rule.team_id) ms
      → InTeam rule.team_id (choose strategy rule c m ms db).0
  unfolding choose
  choose-InTeam least_open rule m ms h all = least_busy-InTeam rule.team_id m ms h all
  choose-InTeam round_robin rule m ms h all =
      next_in_turn-InTeam rule.team_id rule.last_assigned_membership_id m ms h all

  least_busy-le :
      (m : Membership) (ms : List Membership) (n : ℕ)
      → open_count db c m ≤ n
      → open_count db c (least_busy db c m ms) ≤ n
  unfolding least_busy less_busy
  least_busy-le m [] n h = h
  least_busy-le m (x ∷ xs) n h =
      if_both (λ k. open_count db c (least_busy db c k xs) ≤ n) (less_busy db c x m) x m
        (λ smaller. least_busy-le x xs n (ground (arith, smaller, h))) (λ _. least_busy-le m xs n h)

  pub least_busy-LeastBusy :
      (m : Membership) (ms : List Membership) → LeastBusy (least_busy db c m ms) (m ∷ ms)
  unfolding least_busy less_busy
  least_busy-LeastBusy m [] = (omega arith, tt)
  least_busy-LeastBusy m (x ∷ xs) =
      if_both (λ k. LeastBusy (least_busy db c k xs) (m ∷ x ∷ xs)) (less_busy db c x m) x m
        (λ smaller. (
          least_busy-le x xs (open_count db c m) (ground (arith, smaller)),
          least_busy-LeastBusy x xs,
        ))
        (λ larger.
          let (own, others) = least_busy-LeastBusy m xs in
          (own, (least_busy-le m xs (open_count db c x) (ground (arith, larger)), others)))

pub none_less_busy :
    (db : Database) (c : Conversation) (m : Membership) (ms : List Membership)
    → LeastBusy db c m ms
    → any (λ x. ltb (open_count db c x) (open_count db c m)) ms ≡ false
none_less_busy db c m [] h = refl
none_less_busy db c m (x ∷ xs) h = ground (arith, h.0, none_less_busy db c m xs h.1)
