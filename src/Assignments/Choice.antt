-- ===== src/Assignments/Choice.antt =====
-- Who gets a conversation (backend/app/services/assignments.py).
use watesly.Base.{
  ◌≡◌, refl, sym, ap, ◌∙◌, ◌↔◌, subst, Bool, true, false, not, ◌&&◌, Option, none, some, List, [],
  ◌∷◌, select, any, All, any-order_by, any-select, update_where, arith, ltb, leb, ◌==◌,
}
use watesly.Models.{
  Database, Conversation, Membership, AssignmentRule, AssignmentStrategy, round_robin, least_open,
}
use watesly.Assignments.{
  applies, rule_before, find_rule, in_team, team_memberships, open_count, least_busy, next_in_turn,
  choose, assign, assign_chosen, remember, assign_by, members_of, auto_assign_conversation,
}
use watesly.Assignments.Rules.{found-applies, found-first}
use watesly.Assignments.Team.{
  InTeam, team_memberships-InTeam, least_busy-InTeam, next_in_turn-InTeam, least_busy-LeastBusy,
  none_less_busy,
}

-- What an assignment has done.
pub record Assigned (c : Conversation) (db : Database) (m : Membership) (db' : Database)
    : Type 0 where
  pub rule : AssignmentRule
  pub applicable : applies c rule ≡ true
  pub foremost : any (λ r. applies c r && not (rule_before rule r)) db.rules ≡ false
  pub member : in_team db rule.team_id m ≡ true
  pub least :
      rule.strategy ≡ least_open
      → any
          (λ x. in_team db rule.team_id x && ltb (open_count db c x) (open_count db c m))
          db.memberships
        ≡ false
  pub conversations :
      db'.conversations
      ≡ update_where
          (λ k. k.id == c.id)
          (λ k. record k { assigned_membership_id = some m.id })
          db.conversations

module _ (c : Conversation) (db : Database) (m : Membership) (db' : Database)
    (rule : AssignmentRule) (found : find_rule db c ≡ some rule) where
  least-of :
      (x : Membership) (xs : List Membership)
      → team_memberships db rule.team_id ≡ x ∷ xs
      → any
          (λ y.
            in_team db rule.team_id y
            && ltb (open_count db c y) (open_count db c (least_busy db c x xs)))
          db.memberships
        ≡ false
  unfolding team_memberships
  least-of x xs e =
      let busier : Membership → Bool =
        λ y. ltb (open_count db c y) (open_count db c (least_busy db c x xs)) in
      sym (any-select busier (in_team db rule.team_id) db.memberships)
      ∙ sym (
          any-order_by (λ a b. leb a.created_at b.created_at) busier
            (select (in_team db rule.team_id) db.memberships))
      ∙ ap (any busier) e
      ∙ none_less_busy db c (least_busy db c x xs) (x ∷ xs) (least_busy-LeastBusy db c x xs)

  chosen :
      (s : AssignmentStrategy) (x : Membership) (xs : List Membership)
      → rule.strategy ≡ s
      → team_memberships db rule.team_id ≡ x ∷ xs
      → assign_chosen c (choose s rule c x xs db) ≡ (some m, db')
      → Assigned c db m db'
  unfolding choose assign remember assign_chosen
  chosen least_open x xs strategy e h =
      let same : least_busy db c x xs ≡ m = ground arith in
      let team =
        subst (All (InTeam db c rule.team_id)) e (team_memberships-InTeam db c rule.team_id) in
      record {
        rule = rule;
        applicable = found-applies db c rule found;
        foremost = found-first db c rule found;
        member = rw⁻¹ same (least_busy-InTeam db c rule.team_id x xs team.0 team.1);
        least = λ _. rw⁻¹ same (least-of x xs e);
        conversations = ground arith;
      }
  chosen round_robin x xs strategy e h =
      let selected = next_in_turn rule.last_assigned_membership_id x xs in
      let same : selected ≡ m = ground arith in
      let team =
        subst (All (InTeam db c rule.team_id)) e (team_memberships-InTeam db c rule.team_id) in
      record {
        rule = rule;
        applicable = found-applies db c rule found;
        foremost = found-first db c rule found;
        member = rw⁻¹ same (next_in_turn-InTeam db c rule.team_id _ x xs team.0 team.1);
        least = λ least. absurd (ground (arith, strategy, least));
        conversations = ground arith;
      }

  by_members :
      (ms : List Membership)
      → team_memberships db rule.team_id ≡ ms
      → assign_by (some rule) ms c db ≡ (some m, db')
      → Assigned c db m db'
  unfolding assign_by
  by_members [] e h = absurd (ground arith)
  by_members (x ∷ xs) e h = chosen rule.strategy x xs refl e h

by_rule :
    (c : Conversation) (db : Database) (m : Membership) (db' : Database) (o : Option AssignmentRule)
    → find_rule db c ≡ o
    → assign_by o (members_of db o) c db ≡ (some m, db')
    → Assigned c db m db'
unfolding assign_by members_of
by_rule c db m db' none e h = absurd (ground arith)
by_rule c db m db' (some rule) e h = by_members c db m db' rule e _ refl h

-- An assignment that chooses a member uses an active rule for the conversation's branch and channel
-- that no other such rule precedes by priority and age. The member is active and in the rule's
-- team, and under the strategy of fewest open conversations no member of the team has fewer. The
-- member is written to the conversation, and to no other.
pub auto_assign-Assigned :
    (c : Conversation) (db : Database) (m : Membership) (db' : Database)
    → auto_assign_conversation c db ≡ (some m, db')
    → Assigned c db m db'
unfolding auto_assign_conversation
auto_assign-Assigned c db m db' h = by_rule c db m db' (find_rule db c) refl h

nobody :
    (c : Conversation) (db : Database) (o : Option AssignmentRule) (ms : List Membership)
    → members_of db o ≡ ms
    → (assign_by o ms c db ≡ (none, db)) ↔ (ms ≡ [])
unfolding assign_by assign_chosen members_of
nobody c db none ms e = (λ _. sym e, λ _. refl)
nobody c db (some rule) [] e = (λ _. refl, λ _. refl)
nobody c db (some rule) (x ∷ xs) e = (λ h. absurd (ground arith), λ h. absurd (ground arith))

-- Nobody is chosen and nothing changes exactly if no active rule is for the conversation's branch
-- and channel, or the team of the rule that is used has no active member.
pub auto_assign_nobody :
    (c : Conversation) (db : Database)
    → (auto_assign_conversation c db ≡ (none, db)) ↔ (members_of db (find_rule db c) ≡ [])
unfolding auto_assign_conversation
auto_assign_nobody c db = nobody c db (find_rule db c) (members_of db (find_rule db c)) refl
