-- ===== src/Assignments/Turns.antt =====
-- Taking turns: the order in which the strategy `round_robin` serves the members of a team
-- (auto_assign_conversation of backend/app/services/assignments.py).
use watesly.Base.{
  ℕ, zero, suc, ◌+◌, ◌≡◌, refl, sym, ap, ◌∙◌, subst, true, false, Option, none, some, List, [], ◌∷◌,
  ◌++◌, get, HasUniqueKeys, length, length-append, arith, ◌==◌, ==_refl, eq_of_==, is_some, or_else,
  Bool-cases, inl, inr,
}
use watesly.Models.{Membership, membership_row}
use watesly.Assignments.{head_or, after_member, next_in_turn}

-- Whom a number of turns go to, if each is remembered for the next.
abbrev pub turns : ℕ → Option ℕ → Membership → List Membership → List Membership
turns zero last start rest = []
turns (suc n) last start rest =
    next_in_turn last start rest ∷ turns n (some (next_in_turn last start rest).id) start rest

append_assoc : {A : Type 0} (xs ys zs : List A) → (xs ++ ys) ++ zs ≡ xs ++ (ys ++ zs)
append_assoc [] ys zs = refl
append_assoc (x ∷ xs) ys zs = ap (λ l. x ∷ l) (append_assoc xs ys zs)

append_nil : {A : Type 0} (xs : List A) → xs ++ [] ≡ xs
append_nil [] = refl
append_nil (x ∷ xs) = ap (λ l. x ∷ l) (append_nil xs)

zero_add : (k : ℕ) → 0 + k ≡ k
zero_add k = omega arith

suc_add : (n k : ℕ) → suc n + k ≡ suc (n + k)
suc_add n k = omega arith

head_eq : {A : Type 0} (x y : A) (xs ys : List A) → x ∷ xs ≡ y ∷ ys → x ≡ y
head_eq x y xs ys h = cc

tail_eq : {A : Type 0} (x y : A) (xs ys : List A) → x ∷ xs ≡ y ∷ ys → xs ≡ ys
tail_eq x y xs ys h = cc

length_snoc : {A : Type 0} (x : A) (xs : List A) → suc (length xs) ≡ length (xs ++ (x ∷ [])) + 0
length_snoc x xs = omega (arith, length-append xs (x ∷ []))

length_around :
    {A : Type 0} (x : A) (xs ys : List A) → length (xs ++ (x ∷ ys)) ≡ length ys + suc (length xs)
length_around x xs ys = omega (arith, length-append xs (x ∷ ys))

-- The last of a list that begins with `m`.
abbrev final : Membership → List Membership → Membership
final m [] = m
final m (x ∷ xs) = final x xs

final_split :
    (m : Membership) (xs : List Membership)
    → (init : List Membership) × (m ∷ xs ≡ init ++ (final m xs ∷ []))
final_split m [] = ([], refl)
final_split m (x ∷ xs) = let (init, e) = final_split x xs in (m ∷ init, ap (λ l. m ∷ l) e)

get_there :
    (m : Membership) (pre post : List Membership) → is_some (get m.id (pre ++ (m ∷ post))) ≡ true
get_there m [] post = ground (arith, ==_refl m.id)
get_there m (x ∷ pre) post = ground (arith, get_there m pre post)

not_before :
    (x m : Membership) (pre post : List Membership)
    → get x.id (pre ++ (m ∷ post)) ≡ none
    → (x.id == m.id) ≡ false
not_before x m pre post h = elim (Bool-cases (x.id == m.id)) [
  | inr differ ↦ differ
  | inl same ↦
      let e : is_some (get x.id (pre ++ (m ∷ post))) ≡ true =
        ap (λ i. is_some (get i (pre ++ (m ∷ post)))) (eq_of_== x.id m.id same)
        ∙ get_there m pre post in
      absurd (ground (arith, e, ap (λ (o : Option Membership). is_some o) h))
]

module _ (start : Membership) (rest : List Membership) where
  after_member_found :
      (m : Membership) (pre post : List Membership)
      → HasUniqueKeys (pre ++ (m ∷ post))
      → after_member m.id start (pre ++ (m ∷ post)) ≡ some (head_or start post)
  unfolding after_member
  after_member_found m [] post u = ground (arith, ==_refl m.id)
  after_member_found m (x ∷ pre) post u =
      ground (arith, not_before x m pre post u.0, after_member_found m pre post u.1)

  module _ (unique : HasUniqueKeys (start ∷ rest)) where
    next_after :
        (m : Membership) (pre post : List Membership)
        → start ∷ rest ≡ pre ++ (m ∷ post)
        → next_in_turn (some m.id) start rest ≡ head_or start post
    unfolding next_in_turn
    next_after m pre post e =
        ap (λ o. or_else o start)
          (ap (after_member m.id start) e
            ∙ after_member_found m pre post (subst HasUniqueKeys e unique))

    -- The members that follow one are served in their order, before what comes next.
    run :
        (m : Membership) (pre mid post : List Membership) (k : ℕ)
        → start ∷ rest ≡ pre ++ (m ∷ (mid ++ post))
        → turns (length mid + k) (some m.id) start rest
          ≡ mid ++ turns k (some (final m mid).id) start rest
    unfolding head_or
    run m pre [] post k e = ap (λ n. turns n (some m.id) start rest) (zero_add k)
    run m pre (x ∷ mid) post k e =
        let next : next_in_turn (some m.id) start rest ≡ x =
          next_after m pre (x ∷ (mid ++ post)) e in
        ap (λ n. turns n (some m.id) start rest) (suc_add (length mid) k)
        ∙ rw next (
            ap (λ l. x ∷ l)
              (run x (pre ++ (m ∷ [])) mid post k
                (e ∙ sym (append_assoc pre (m ∷ []) (x ∷ (mid ++ post))))))

    -- After the last member comes the first.
    wrap :
        (z : Membership) (pre : List Membership) (k : ℕ)
        → start ∷ rest ≡ pre ++ (z ∷ [])
        → turns (suc k) (some z.id) start rest ≡ start ∷ turns k (some start.id) start rest
    unfolding head_or
    wrap z pre k e = rw (next_after z pre [] e) refl

    from_start :
        (m : Membership) (pre post : List Membership)
        → start ∷ rest ≡ pre ++ (m ∷ post)
        → start ∷ turns (length pre) (some start.id) start rest ≡ pre ++ (m ∷ [])
    from_start m [] post e = ap (λ x. x ∷ []) (head_eq start m rest post e)
    from_start m (s ∷ pre) post e =
        let tail : rest ≡ pre ++ (m ∷ post) = tail_eq start s rest _ e in
        rw⁻¹ (head_eq start s rest _ e) (
          ap (λ l. start ∷ l)
            (ap (λ n. turns n (some start.id) start rest) (length_snoc m pre)
              ∙ run start [] (pre ++ (m ∷ [])) post 0
                  (ap (λ l. start ∷ l) (tail ∙ sym (append_assoc pre (m ∷ []) post)))
              ∙ append_nil (pre ++ (m ∷ []))))

    -- As many turns as there are members, after a turn of one of them, serve first those behind it in
    -- the team, then those before it, then itself.
    pub turns-rotate :
        (m : Membership) (pre post : List Membership)
        → start ∷ rest ≡ pre ++ (m ∷ post)
        → turns (length (start ∷ rest)) (some m.id) start rest ≡ post ++ (pre ++ (m ∷ []))
    turns-rotate m pre post e =
        let (init, last) = final_split m post in
        ap (λ n. turns n (some m.id) start rest) (ap length e ∙ length_around m pre post)
        ∙ run m pre post [] (suc (length pre))
            (e ∙ ap (λ l. pre ++ (m ∷ l)) (sym (append_nil post)))
        ∙ ap (λ l. post ++ l)
            (wrap (final m post) (pre ++ init) (length pre)
                (e ∙ ap (λ l. pre ++ l) last ∙ sym (append_assoc pre init (final m post ∷ [])))
              ∙ from_start m pre post e)
