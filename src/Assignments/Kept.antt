-- ===== src/Assignments/Kept.antt =====
-- What the automatic assignment leaves as it is (backend/app/services/assignments.py).
use watesly.Base.{
  ℕ, ◌≡◌, ◌∙◌, refl, Bool, Option, none, some, List, [], ◌∷◌, count_where, count_where-update_where,
  ◌==◌,
}
use watesly.Models.{
  Database, Conversation, Membership, AssignmentRule, round_robin, least_open, AssignmentStrategy,
}
use watesly.Assignments.{
  choose, remember, assign, assign_chosen, assign_by, find_rule, auto_assign_conversation,
}

-- Messages and contacts stay; conversations change in no test that does not read the assignee.
pub record IsKept (db db' : Database) : Type 0 where
  pub same_messages : db'.messages ≡ db.messages
  pub same_contacts : db'.contacts ≡ db.contacts
  pub same_counts :
      (p : Conversation → Bool)
      → ((c : Conversation) (m : Option ℕ) → p (record c { assigned_membership_id = m }) ≡ p c)
      → count_where p db'.conversations ≡ count_where p db.conversations

kept : (db : Database) → IsKept db db
kept db = record { same_messages = refl; same_contacts = refl; same_counts = λ p h. refl }

assign-IsKept :
    (c : Conversation) (m : Membership) (db db' : Database)
    → IsKept db db'
    → IsKept db (assign c m db')
unfolding assign
assign-IsKept c m db db' k = record {
  same_messages = k.same_messages;
  same_contacts = k.same_contacts;
  same_counts = λ p h.
      count_where-update_where p (λ x. x.id == c.id)
        (λ x. record x { assigned_membership_id = some m.id }) (λ x. h x (some m.id))
        db'.conversations
      ∙ k.same_counts p h;
}

choose-IsKept :
    (s : AssignmentStrategy) (rule : AssignmentRule) (c : Conversation) (m : Membership)
    (ms : List Membership) (db : Database)
    → IsKept db (choose s rule c m ms db).1
unfolding choose remember
choose-IsKept least_open rule c m ms db = kept db
choose-IsKept round_robin rule c m ms db = record {
  same_messages = refl;
  same_contacts = refl;
  same_counts = λ p h. refl;
}

assign_by-IsKept :
    (o : Option AssignmentRule) (ms : List Membership) (c : Conversation) (db : Database)
    → IsKept db (assign_by o ms c db).1
unfolding assign_by assign_chosen
assign_by-IsKept none ms c db = kept db
assign_by-IsKept (some rule) [] c db = kept db
assign_by-IsKept (some rule) (m ∷ ms) c db =
    assign-IsKept c (choose rule.strategy rule c m ms db).0 db
      (choose rule.strategy rule c m ms db).1 (choose-IsKept rule.strategy rule c m ms db)

pub auto_assign_conversation-IsKept :
    (c : Conversation) (db : Database) → IsKept db (auto_assign_conversation c db).1
unfolding auto_assign_conversation
auto_assign_conversation-IsKept c db = assign_by-IsKept (find_rule db c) _ c db
