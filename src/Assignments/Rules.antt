-- ===== src/Assignments/Rules.antt =====
-- The order of the assignment rules (backend/app/services/assignments.py).
use watesly.Base.{
  ◌≡◌, refl, sym, ◌∙◌, subst, Bool, true, false, not, ◌&&◌, some, List, [], ◌∷◌, select, any, first,
  All, All-select, order_by, insert_ordered, any-order_by, any-select, arith, if_both,
}
use watesly.Models.{Database, Conversation, AssignmentRule}
use watesly.Assignments.{applies, rule_before, find_rule}

module _ {A : Type 0} (before : A → A → Bool) where
  All-insert_ordered {κ} :
      (P : A → Type κ) (a : A) (xs : List A) → P a → All P xs → All P (insert_ordered before a xs)
  All-insert_ordered P a [] h all = (h, tt)
  All-insert_ordered P a (x ∷ xs) h all =
      if_both (All P) (before a x) (a ∷ x ∷ xs) (x ∷ insert_ordered before a xs) (λ _. (h, all))
        (λ _. (all.0, All-insert_ordered P a xs h all.1))

  pub All-order_by {κ} : (P : A → Type κ) (xs : List A) → All P xs → All P (order_by before xs)
  All-order_by P [] all = tt
  All-order_by P (x ∷ xs) all =
      All-insert_ordered P x (order_by before xs) all.0 (All-order_by P xs all.1)

first-All {κ} :
    {A : Type 0} (P : A → Type κ) (xs : List A) (a : A) → first xs ≡ some a → All P xs → P a
first-All P [] a h all = cc
first-All P (x ∷ xs) a h all = subst P (ground arith) all.0

rule_before_trans :
    (a b d : AssignmentRule)
    → rule_before a b ≡ true
    → rule_before b d ≡ true
    → rule_before a d ≡ true
unfolding rule_before
rule_before_trans a b d h k = ground arith

rule_before_total : (a b : AssignmentRule) → rule_before a b ≡ false → rule_before b a ≡ true
unfolding rule_before
rule_before_total a b h = ground arith

-- Every rule of the list comes behind `a`.
abbrev pub IsFirst : AssignmentRule → List AssignmentRule → Type 0
IsFirst a = All (λ b. rule_before a b ≡ true)

-- The head of a list comes before its tail.
abbrev IsHeaded : List AssignmentRule → Type 0
IsHeaded [] = Unit
IsHeaded (x ∷ xs) = IsFirst x xs

IsFirst-trans :
    (a b : AssignmentRule) (xs : List AssignmentRule)
    → rule_before a b ≡ true
    → IsFirst b xs
    → IsFirst a xs
IsFirst-trans a b [] h all = tt
IsFirst-trans a b (x ∷ xs) h all = (rule_before_trans a b x h all.0, IsFirst-trans a b xs h all.1)

IsHeaded-insert :
    (a : AssignmentRule) (xs : List AssignmentRule)
    → IsHeaded xs
    → IsHeaded (insert_ordered rule_before a xs)
IsHeaded-insert a [] h = tt
IsHeaded-insert a (x ∷ xs) h =
    if_both IsHeaded (rule_before a x) (a ∷ x ∷ xs) (x ∷ insert_ordered rule_before a xs)
      (λ ahead. (ahead, IsFirst-trans a x xs ahead h))
      (λ behind.
        All-insert_ordered rule_before (λ b. rule_before x b ≡ true) a xs
          (rule_before_total a x behind) h)

IsHeaded-order_by : (xs : List AssignmentRule) → IsHeaded (order_by rule_before xs)
IsHeaded-order_by [] = tt
IsHeaded-order_by (x ∷ xs) = IsHeaded-insert x (order_by rule_before xs) (IsHeaded-order_by xs)

-- No rule that applies stands before the one that is found.
pub found-applies :
    (db : Database) (c : Conversation) (rule : AssignmentRule)
    → find_rule db c ≡ some rule
    → applies c rule ≡ true
unfolding find_rule
found-applies db c rule h =
    first-All (λ r. applies c r ≡ true) (order_by rule_before (select (applies c) db.rules)) rule h
      (All-order_by rule_before (λ r. applies c r ≡ true) (select (applies c) db.rules)
        (All-select (applies c) db.rules))

none_before :
    (rule : AssignmentRule) (xs : List AssignmentRule)
    → IsFirst rule xs
    → any (λ r. not (rule_before rule r)) xs ≡ false
none_before rule [] h = refl
none_before rule (x ∷ xs) h = ground (arith, h.0, none_before rule xs h.1)

rule_before_refl : (r : AssignmentRule) → rule_before r r ≡ true
unfolding rule_before
rule_before_refl r = ground arith

headed_first :
    (rule : AssignmentRule) (xs : List AssignmentRule)
    → first xs ≡ some rule
    → IsHeaded xs
    → any (λ r. not (rule_before rule r)) xs ≡ false
headed_first rule [] h headed = cc
headed_first rule (x ∷ xs) h headed =
    let same : x ≡ rule = ground arith in
    subst (λ k. any (λ r. not (rule_before k r)) (x ∷ xs) ≡ false) same
      (ground (arith, rule_before_refl x, none_before x xs headed))

pub found-first :
    (db : Database) (c : Conversation) (rule : AssignmentRule)
    → find_rule db c ≡ some rule
    → any (λ r. applies c r && not (rule_before rule r)) db.rules ≡ false
unfolding find_rule
found-first db c rule h =
    sym (any-select (λ r. not (rule_before rule r)) (applies c) db.rules)
    ∙ sym (any-order_by rule_before (λ r. not (rule_before rule r)) (select (applies c) db.rules))
    ∙ headed_first rule (order_by rule_before (select (applies c) db.rules)) h
        (IsHeaded-order_by (select (applies c) db.rules))
