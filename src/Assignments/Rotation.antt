-- ===== src/Assignments/Rotation.antt =====
-- Conversations that come in one after the other and are assigned by a rule with the strategy
-- `round_robin` (auto_assign_conversation of backend/app/services/assignments.py).
use watesly.Base.{
  ℕ, ◌≡◌, refl, ap, ◌∙◌, Option, some, List, [], ◌∷◌, ◌++◌, All, select, first, map, HasUniqueKeys,
  length, order_by, update_where-map, select-map_same, order_by-map, first-map, arith, ◌==◌,
  ==_refl, if◌then◌else◌, true,
}
use watesly.Models.{
  Database, Conversation, Membership, membership_row, AssignmentRule, AssignmentStrategy,
  round_robin,
}
use watesly.Assignments.{
  applies, rule_before, find_rule, in_team, team_memberships, next_in_turn, assign, remember,
  choose, assign_chosen, assign_by, members_of, auto_assign_conversation,
}
use watesly.Assignments.Turns.{turns, turns-rotate}

-- The conversations in the order in which they come, each assigned in the database that the
-- assignments before it have left.
pub assign_all : List Conversation → Database → List (Option Membership) × Database
assign_all [] db = ([], db)
assign_all (c ∷ cs) db =
    let (m, next) = auto_assign_conversation c db in
    let (ms, last) = assign_all cs next in (m ∷ ms, last)

-- The rule once a member had its turn.
abbrev remembered : Membership → AssignmentRule → AssignmentRule
remembered m rule = record rule { last_assigned_membership_id = some m.id }

abbrev after_turn : AssignmentRule → Conversation → Membership → Database → Database
after_turn rule c m db = assign c m (remember rule m db)

module _ (rule : AssignmentRule) (m : Membership) where
  abbrev change : AssignmentRule → AssignmentRule
  change r = if r.id == rule.id then remembered m r else r

  change-applies : (c : Conversation) (r : AssignmentRule) → applies c (change r) ≡ applies c r
  unfolding applies
  change-applies c r = ground arith

  change-rule_before : (a b : AssignmentRule) → rule_before (change a) (change b) ≡ rule_before a b
  unfolding rule_before
  change-rule_before a b = ground arith

  -- The same rule is found for the next conversation, and it remembers the member.
  find_rule-after_turn :
      (db : Database) (c d : Conversation)
      → find_rule db d ≡ some rule
      → find_rule (after_turn rule c m db) d ≡ some (remembered m rule)
  unfolding find_rule assign remember
  find_rule-after_turn db c d found =
      ap (λ rs. first (order_by rule_before (select (applies d) rs)))
        (update_where-map (λ r. r.id == rule.id) (remembered m) db.rules)
      ∙ ap (λ rs. first (order_by rule_before rs))
          (select-map_same change (applies d) (change-applies d) db.rules)
      ∙ ap first (order_by-map rule_before change change-rule_before (select (applies d) db.rules))
      ∙ first-map change _ rule found
      ∙ ap some (changed (==_refl rule.id))
    where
      changed : (rule.id == rule.id) ≡ true → change rule ≡ remembered m rule
      changed here = rw here refl

  team_memberships-after_turn :
      (db : Database) (c : Conversation) (team_id : ℕ)
      → team_memberships (after_turn rule c m db) team_id ≡ team_memberships db team_id
  unfolding team_memberships in_team assign remember
  team_memberships-after_turn db c team_id = refl

  next_found :
      (db : Database) (c : Conversation) (cs : List Conversation)
      → All (λ d. find_rule db d ≡ some rule) cs
      → All (λ d. find_rule (after_turn rule c m db) d ≡ some (remembered m rule)) cs
  next_found db c [] h = tt
  next_found db c (d ∷ ds) h = (find_rule-after_turn db c d h.0, next_found db c ds h.1)

by_turn :
    (s : AssignmentStrategy) (rule : AssignmentRule) (c : Conversation) (db : Database)
    (start : Membership) (rest : List Membership)
    → s ≡ round_robin
    → choose s rule c start rest db ≡ (
        let m = next_in_turn rule.last_assigned_membership_id start rest in (m, remember rule m db))
unfolding choose
by_turn s rule c db start rest e = rw e refl

one_turn :
    (rule : AssignmentRule) (c : Conversation) (db : Database) (start : Membership)
    (rest : List Membership)
    → find_rule db c ≡ some rule
    → rule.strategy ≡ round_robin
    → team_memberships db rule.team_id ≡ start ∷ rest
    → auto_assign_conversation c db ≡ (
        let m = next_in_turn rule.last_assigned_membership_id start rest in
        (some m, after_turn rule c m db))
unfolding auto_assign_conversation assign_by members_of assign_chosen
one_turn rule c db start rest found strategy team =
    ap (λ o. assign_by o (members_of db o) c db) found
    ∙ ap (λ ms. assign_by (some rule) ms c db) team
    ∙ ap (assign_chosen c) (by_turn rule.strategy rule c db start rest strategy)

assign_all-turns :
    (start : Membership) (rest : List Membership) (cs : List Conversation) (db : Database)
    (rule : AssignmentRule)
    → All (λ c. find_rule db c ≡ some rule) cs
    → rule.strategy ≡ round_robin
    → team_memberships db rule.team_id ≡ start ∷ rest
    → (assign_all cs db).0
      ≡ map some (turns (length cs) rule.last_assigned_membership_id start rest)
unfolding assign_all
assign_all-turns start rest [] db rule found strategy team = refl
assign_all-turns start rest (c ∷ cs) db rule found strategy team =
    let m = next_in_turn rule.last_assigned_membership_id start rest in
    ap (λ (o : Option Membership × Database). o.0 ∷ (assign_all cs o.1).0)
      (one_turn rule c db start rest found.0 strategy team)
    ∙ ap (λ l. some m ∷ l)
        (assign_all-turns start rest cs (after_turn rule c m db) (remembered m rule)
          (next_found rule m db c cs found.1) strategy
          (team_memberships-after_turn rule m db c rule.team_id ∙ team))

rotation :
    (members : List Membership) (cs : List Conversation) (db : Database) (rule : AssignmentRule)
    (m : Membership) (pre post : List Membership)
    → team_memberships db rule.team_id ≡ members
    → members ≡ pre ++ (m ∷ post)
    → HasUniqueKeys members
    → length cs ≡ length members
    → All (λ c. find_rule db c ≡ some rule) cs
    → rule.strategy ≡ round_robin
    → rule.last_assigned_membership_id ≡ some m.id
    → (assign_all cs db).0 ≡ map some (post ++ (pre ++ (m ∷ [])))
rotation [] cs db rule m [] post team e unique as_many found strategy last =
    absurd (ground (arith, e))
rotation [] cs db rule m (x ∷ pre) post team e unique as_many found strategy last =
    absurd (ground (arith, e))
rotation (start ∷ rest) cs db rule m pre post team e unique as_many found strategy last =
    assign_all-turns start rest cs db rule found strategy team
    ∙ ap (map some) (
        ap (λ n. turns n rule.last_assigned_membership_id start rest) as_many
        ∙ ap (λ o. turns (length (start ∷ rest)) o start rest) last
        ∙ turns-rotate start rest unique m pre post e)

-- Taking turns is fair: when conversations come in one after the other, as many as the team has
-- active members, and the same round robin rule is the one found for each of them, then after a turn
-- of one member they are given first to those behind it in the team, in their order, then to those
-- before it, then to it, so that each member gets one. The turn that each assignment stored in the
-- rule is the one that the next assignment goes on from. No two members have one id.
pub assign_all-rotates :
    (cs : List Conversation) (db : Database) (rule : AssignmentRule) (m : Membership)
    (pre post : List Membership)
    → team_memberships db rule.team_id ≡ pre ++ (m ∷ post)
    → HasUniqueKeys (pre ++ (m ∷ post))
    → length cs ≡ length (pre ++ (m ∷ post))
    → All (λ c. find_rule db c ≡ some rule) cs
    → rule.strategy ≡ round_robin
    → rule.last_assigned_membership_id ≡ some m.id
    → (assign_all cs db).0 ≡ map some (post ++ (pre ++ (m ∷ [])))
assign_all-rotates cs db rule m pre post team unique as_many found strategy last =
    rotation (pre ++ (m ∷ post)) cs db rule m pre post team refl unique as_many found strategy last
