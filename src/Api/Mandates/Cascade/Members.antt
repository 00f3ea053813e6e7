-- ===== src/Api/Mandates/Cascade/Members.antt =====
-- apps/api/routes/mandates.py: which identifiers the lists of `_cascade_mandate_status` hold.
use mandate_razorpay_control.Prelude.{
  ℕ, ◌≡◌, ◌⊎◌, sym, ap, subst, ◌∙◌, inl, inr, true, false, some, List, [], ◌∷◌, ◌++◌, find,
  find-cons_cases, arith, ==-eq, ◌==◌, Bool-cases,
}
use mandate_razorpay_control.Core.Models.{Mandate, mandate_key}
use mandate_razorpay_control.Api.Mandates.{is_visited, is_child_of, children}
use mandate_razorpay_control.Api.Mandates.Cascade.{unvisited}

pub child_parent : (i : ℕ) (m : Mandate) → m.parent_mandate_id ≡ some i → is_child_of i m ≡ true
child_parent i m h = ground (arith, h)

pub IsChild-visited :
    (i c : ℕ) (m : Mandate) (ms : List Mandate)
    → find c ms ≡ some m
    → m.parent_mandate_id ≡ some i
    → is_visited c (children i ms) ≡ true
unfolding find
IsChild-visited i c m [] e h = cc
IsChild-visited i c m (x ∷ ms) e h = elim (find-cons_cases c x m ms e) [
  | inl (same, is_head) ↦
      let parent : is_child_of i x ≡ true =
        child_parent i x (ap (λ y. y.parent_mandate_id) (sym is_head) ∙ h) in
      rw parent (ground (arith, same))
  | inr (differs, later) ↦ ground (arith, IsChild-visited i c m ms later h)
]

pub member_append_left :
    (c : ℕ) (xs ys : List ℕ) → is_visited c xs ≡ true → is_visited c (xs ++ ys) ≡ true
member_append_left c [] ys h = cc
member_append_left c (x ∷ xs) ys h = ground (arith, member_append_left c xs ys)

pub member_append_right :
    (c : ℕ) (xs ys : List ℕ) → is_visited c ys ≡ true → is_visited c (xs ++ ys) ≡ true
member_append_right c [] ys h = h
member_append_right c (x ∷ xs) ys h = ground (arith, member_append_right c xs ys h)

pub append_member :
    (c : ℕ) (xs ys : List ℕ)
    → is_visited c (xs ++ ys) ≡ true
    → (is_visited c xs ≡ true) ⊎ (is_visited c ys ≡ true)
append_member c [] ys h = inr h
append_member c (x ∷ xs) ys h = ground (arith, append_member c xs ys)

pub member_unvisited :
    (c : ℕ) (visited xs : List ℕ)
    → is_visited c xs ≡ true
    → is_visited c visited ≡ false
    → is_visited c (unvisited visited xs) ≡ true
member_unvisited c visited [] h k = cc
member_unvisited c visited (x ∷ xs) h k = elim (Bool-cases (x == c)) [
  | inl same ↦
      let eq : x ≡ c = omega (arith, ==-eq x c same) in
      let fresh : is_visited x visited ≡ false =
        subst (λ j. is_visited j visited ≡ false) (sym eq) k in
      ground (arith, fresh, same)
  | inr other ↦ ground (arith, other, member_unvisited c visited xs (rw other at h) k)
]

pub unvisited_member :
    (c : ℕ) (visited xs : List ℕ)
    → is_visited c (unvisited visited xs) ≡ true
    → is_visited c xs ≡ true
unvisited_member c visited [] h = cc
unvisited_member c visited (x ∷ xs) h = ground (arith, unvisited_member c visited xs)

pub head_visited : (i c : ℕ) (xs : List ℕ) → i ≡ c → is_visited c (i ∷ xs) ≡ true
head_visited i c xs e = ground arith

pub tail_visited : (c i : ℕ) (xs : List ℕ) → is_visited c xs ≡ true → is_visited c (i ∷ xs) ≡ true
tail_visited c i xs h = ground arith

pub cons_visited :
    (c i : ℕ) (xs : List ℕ) → is_visited c (i ∷ xs) ≡ true → (i ≡ c) ⊎ (is_visited c xs ≡ true)
cons_visited c i xs h = ground arith
