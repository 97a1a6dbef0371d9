-- ===== src/Assignments.antt =====
-- Automatic assignment of a conversation to a member (auto_assign_conversation of
-- backend/app/services/assignments.py). A team has no two rows for one member, so the join with
-- its members is a test on the memberships. The caller commits.
mod Rules
mod Team
pub mod Choice
pub mod Kept
pub mod Turns
pub mod Rotation
pub mod Teams
mod Tests
use watesly.Base.{
  ℕ, Bool, true, false, not, ◌&&◌, ◌||◌, Option, none, some, List, [], ◌∷◌, select, any, first,
  order_by, count_where, update_where, ltb, leb, ◌==◌, if◌then◌else◌, is_some, is_value, or_else,
}
use watesly.Models.{
  Database, Conversation, is_live, Membership, is_active_membership, AssignmentRule,
  AssignmentStrategy, round_robin, least_open,
}

-- `channel_id IS NULL OR channel_id = …`
abbrev pub covers : Option ℕ → ℕ → Bool
covers none channel_id = true
covers (some i) channel_id = i == channel_id

pub applies : Conversation → AssignmentRule → Bool
applies conversation r =
    r.account_id == conversation.account_id
    && r.organization_id == conversation.organization_id
    && r.is_active
    && covers r.channel_id conversation.channel_id

-- `ORDER BY priority, created_at`
pub rule_before : AssignmentRule → AssignmentRule → Bool
rule_before a b =
    ltb a.priority b.priority || (a.priority == b.priority && leb a.created_at b.created_at)

pub find_rule : Database → Conversation → Option AssignmentRule
find_rule db conversation = first (order_by rule_before (select (applies conversation) db.rules))

-- An active membership with a row in the team.
pub in_team : Database → ℕ → Membership → Bool
in_team db team_id m =
    is_active_membership m.status
    && any (λ t. t.team_id == team_id && t.membership_id == m.id) db.team_members

pub team_memberships : Database → ℕ → List Membership
team_memberships db team_id =
    order_by (λ a b. leb a.created_at b.created_at) (select (in_team db team_id) db.memberships)

-- `open_count`
pub open_count : Database → Conversation → Membership → ℕ
open_count db conversation m =
    count_where
      (λ c.
        c.account_id == conversation.account_id
        && c.organization_id == conversation.organization_id
        && is_value c.assigned_membership_id m.id
        && is_live c.status)
      db.conversations

-- `(open_count, created_at)` of the first is smaller.
pub less_busy : Database → Conversation → Membership → Membership → Bool
less_busy db conversation a b =
    ltb (open_count db conversation a) (open_count db conversation b)
    || (open_count db conversation a == open_count db conversation b
        && ltb a.created_at b.created_at)

-- `min(counts, key=…)`, which returns the first of several smallest ones.
pub least_busy : Database → Conversation → Membership → List Membership → Membership
least_busy db conversation best [] = best
least_busy db conversation best (m ∷ ms) =
    least_busy db conversation (if less_busy db conversation m best then m else best) ms

pub head_or : Membership → List Membership → Membership
head_or m [] = m
head_or m (x ∷ xs) = x

-- `members[(index + 1) % len(members)]` for the member with the id, if there is one; `start` is the
-- first member of all.
pub after_member : ℕ → Membership → List Membership → Option Membership
after_member last start [] = none
after_member last start (m ∷ ms) =
    if m.id == last then some (head_or start ms) else after_member last start ms

pub next_in_turn : Option ℕ → Membership → List Membership → Membership
next_in_turn none start rest = start
next_in_turn (some last) start rest = or_else (after_member last start (start ∷ rest)) start

assign : Conversation → Membership → Database → Database
assign conversation m db = record db {
  conversations =
      update_where (λ c. c.id == conversation.id)
        (λ c. record c { assigned_membership_id = some m.id }) db.conversations;
}

remember : AssignmentRule → Membership → Database → Database
remember rule m db = record db {
  rules =
      update_where (λ r. r.id == rule.id)
        (λ r. record r { last_assigned_membership_id = some m.id }) db.rules;
}

-- The choice among the members of the rule's team.
pub choose :
    AssignmentStrategy
    → AssignmentRule
    → Conversation
    → Membership
    → List Membership
    → Database
    → Membership × Database
choose least_open rule conversation m ms db = (least_busy db conversation m ms, db)
choose round_robin rule conversation m ms db =
    let selected = next_in_turn rule.last_assigned_membership_id m ms in
    (selected, remember rule selected db)

-- The last lines: the conversation gets the chosen member.
assign_chosen : Conversation → Membership × Database → Option Membership × Database
assign_chosen conversation (selected, db) = (some selected, assign conversation selected db)

pub assign_by :
    Option AssignmentRule → List Membership → Conversation → Database → Option Membership × Database
assign_by none members conversation db = (none, db)
assign_by (some rule) [] conversation db = (none, db)
assign_by (some rule) (m ∷ ms) conversation db =
    assign_chosen conversation (choose rule.strategy rule conversation m ms db)

pub members_of : Database → Option AssignmentRule → List Membership
members_of db none = []
members_of db (some rule) = team_memberships db rule.team_id

unfoldable pub auto_assign_conversation : Conversation → Database → Option Membership × Database
auto_assign_conversation conversation db =
    let rule = find_rule db conversation in assign_by rule (members_of db rule) conversation db
