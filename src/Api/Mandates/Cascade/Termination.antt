-- ===== src/Api/Mandates/Cascade/Termination.antt =====
-- apps/api/routes/mandates.py: the loop of `_cascade_mandate_status` ends.
use mandate_razorpay_control.Prelude.{
  ℕ, zero, suc, ◌+◌, ◌≡◌, ◌≤◌, refl, sym, subst, ◌∙◌, inl, inr, Bool, true, false, not, none, some,
  List, [], ◌∷◌, ◌++◌, map, filter, length, length-append, length-filter-le, All, All-append, find,
  sum_of, UniqueKeys, filter-found, arith, ==-eq, ◌==◌, if◌then◌else◌, Bool-cases,
}
use mandate_razorpay_control.Core.Enums.{MandateStatus}
use mandate_razorpay_control.Core.Models.{Mandate, SuspensionReason, mandate_key}
use mandate_razorpay_control.Core.Database.{Db}
use mandate_razorpay_control.Api.Mandates.{
  is_visited, is_child_of, children, cascade_row, cascade, cascade_mandate_status,
}
use mandate_razorpay_control.Api.Mandates.Cascade.{
  Distinct, IsChild, unvisited, visited-append, visited-filter, filter-Distinct, children-Distinct,
  children-cascade_found,
}

-- One for a row whose parent the loop has not come to.
abbrev open_row : List ℕ → Mandate → ℕ
open_row visited m = elim m.parent_mandate_id [
  | none ↦ 0
  | some p ↦ if is_visited p visited then 0 else 1
]

-- A visit closes as many rows as the mandate has children.
visit_closes :
    (i : ℕ) (visited : List ℕ) (ms : List Mandate)
    → is_visited i visited ≡ false
    → sum_of (open_row visited) ms ≡ sum_of (open_row (i ∷ visited)) ms + length (children i ms)
unfolding sum_of
visit_closes i visited [] h = refl
visit_closes i visited (m ∷ ms) h = ground (arith, visit_closes i visited ms h)

open_le_length : (ms : List Mandate) → sum_of (open_row []) ms ≤ length ms
unfolding sum_of
open_le_length [] = omega arith
open_le_length (m ∷ ms) = ground (arith, open_le_length ms)

-- The row's parent, if it has one, is visited.
abbrev IsLed : List Mandate → List ℕ → ℕ → Type 0
IsLed ms visited c = (p : ℕ) → IsChild ms p c → is_visited p visited ≡ true

abbrev tail : List ℕ → List ℕ
tail [] = []
tail (i ∷ queue) = queue

-- What holds of the queue at each turn. The root need not have a visited parent, only the others.
record Queue (ms : List Mandate) (visited queue : List ℕ) : Type 0 where
  distinct : Distinct queue
  fresh : All (λ c. is_visited c visited ≡ false) queue
  led : All (IsLed ms visited) (tail queue)

pub visited-All : (P : ℕ → Type 0) (c : ℕ) (xs : List ℕ) → All P xs → is_visited c xs ≡ true → P c
visited-All P c [] h e = cc
visited-All P c (x ∷ xs) h e = elim (Bool-cases (x == c)) [
  | inl same ↦ subst P (omega (arith, ==-eq x c same)) h.0
  | inr other ↦ visited-All P c xs h.1 (rw other at e)
]

append-Distinct :
    (xs ys : List ℕ)
    → Distinct xs
    → Distinct ys
    → All (λ c. is_visited c ys ≡ false) xs
    → Distinct (xs ++ ys)
append-Distinct [] ys dx dy h = dy
append-Distinct (x ∷ xs) ys dx dy h =
    (visited-append x xs ys dx.0 h.0, append-Distinct xs ys dx.1 dy h.1)

still_fresh :
    (i : ℕ) (visited queue : List ℕ)
    → is_visited i queue ≡ false
    → All (λ c. is_visited c visited ≡ false) queue
    → All (λ c. is_visited c (i ∷ visited) ≡ false) queue
still_fresh i visited [] h a = tt
still_fresh i visited (c ∷ queue) h a = ground (arith, still_fresh i visited queue)

unvisited-fresh :
    (visited xs : List ℕ) → All (λ c. is_visited c visited ≡ false) (unvisited visited xs)
unvisited-fresh visited [] = tt
unvisited-fresh visited (x ∷ xs) = ground (arith, unvisited-fresh visited xs)

All-imp : (P Q : ℕ → Type 0) (xs : List ℕ) → ((x : ℕ) → P x → Q x) → All P xs → All Q xs
All-imp P Q [] f h = tt
All-imp P Q (x ∷ xs) f h = (f x h.0, All-imp P Q xs f h.1)

All-filter : (P : ℕ → Type 0) (p : ℕ → Bool) (xs : List ℕ) → All P xs → All P (filter p xs)
All-filter P p [] h = tt
All-filter P p (x ∷ xs) h = elim (Bool-cases (p x)) [
  | inl passes ↦ rw passes (h.0, All-filter P p xs h.1)
  | inr fails ↦ rw fails (All-filter P p xs h.1)
]

All-tail : (P : ℕ → Type 0) (xs : List ℕ) → All P xs → All P (tail xs)
All-tail P [] h = tt
All-tail P (x ∷ xs) h = h.1

module _ (ms : List Mandate) (u : UniqueKeys ms) where
  pub children-IsChild : (i : ℕ) → All (IsChild ms i) (children i ms)
  children-IsChild i =
      named (filter (is_child_of i) ms) (filter-found (is_child_of i) ms ms u λ j x e. e)
    where
      child_parent : (m : Mandate) → is_child_of i m ≡ true → m.parent_mandate_id ≡ some i
      child_parent m h = ground arith

      named :
          (xs : List Mandate)
          → All (λ x. (find x.id ms ≡ some x) × (is_child_of i x ≡ true)) xs
          → All (IsChild ms i) (map (λ m. m.id) xs)
      named [] h = tt
      named (x ∷ xs) h = ((x, h.0.0, child_parent x h.0.1), named xs h.1)

  one_parent : (p q c : ℕ) → IsChild ms p c → IsChild ms q c → p ≡ q
  one_parent p q c (m, e, f) (m', e', f') = cc

  IsLed-by : (i : ℕ) (visited : List ℕ) (c : ℕ) → IsChild ms i c → IsLed ms (i ∷ visited) c
  IsLed-by i visited c h p h' = ground (arith, one_parent i p c h h')

  still-IsLed : (i : ℕ) (visited : List ℕ) (c : ℕ) → IsLed ms visited c → IsLed ms (i ∷ visited) c
  still-IsLed i visited c h p h' = ground (arith, h p h')

  -- No child of a mandate that is first visited now is in the queue already.
  not_queued :
      (i : ℕ) (visited : List ℕ) (c : ℕ)
      → is_visited i visited ≡ false
      → IsLed ms visited c
      → is_visited c (children i ms) ≡ false
  not_queued i visited c fresh h = elim (Bool-cases (is_visited c (children i ms))) [
    | inl there ↦
        let seen : is_visited i visited ≡ true =
          h i (visited-All (IsChild ms i) c (children i ms) (children-IsChild i) there) in
        cc
    | inr absent ↦ absent
  ]

  module _ (i : ℕ) (visited queue : List ℕ) (q : Queue ms visited (i ∷ queue)) where
    next : List ℕ
    next = queue ++ unvisited (i ∷ visited) (children i ms)

    All-IsLed : All (IsLed ms (i ∷ visited)) next
    unfolding next
    All-IsLed =
        All-append (IsLed ms (i ∷ visited)) queue _
          (All-imp _ _ queue (still-IsLed i visited) q.led)
          (All-filter _ _ (children i ms)
            (All-imp _ _ (children i ms) (IsLed-by i visited) (children-IsChild i)))

    next-Queue : Queue ms (i ∷ visited) next
    unfolding next
    next-Queue = record {
      distinct =
          append-Distinct queue _ q.distinct.1
            (filter-Distinct _ (children i ms) (children-Distinct i ms u))
            (All-imp _ _ queue
              (λ c h. visited-filter _ c (children i ms) (not_queued i visited c q.fresh.0 h))
              q.led);
      fresh =
          All-append _ queue _ (still_fresh i visited queue q.distinct.0 q.fresh.1)
            (unvisited-fresh (i ∷ visited) (children i ms));
      led = All-tail _ next All-IsLed;
    }

    next_smaller :
        length next + sum_of (open_row (i ∷ visited)) ms
        ≤ length queue + sum_of (open_row visited) ms
    unfolding next
    next_smaller = omega (
      arith,
      length-append queue (unvisited (i ∷ visited) (children i ms)),
      length-filter-le (λ c. not (is_visited c (i ∷ visited))) (children i ms),
      visit_closes i visited ms q.fresh.0,
    )

  module _ (t : MandateStatus) (r : SuspensionReason) where
    loop_ends :
        (fuel : ℕ) (visited queue : List ℕ) (db : Db)
        → ((k : ℕ) → children k db.mandates ≡ children k ms)
        → Queue ms visited queue
        → length queue + sum_of (open_row visited) ms ≤ fuel
        → (db' : Db) × (cascade fuel t r visited queue db ≡ some db')
    unfolding cascade next
    loop_ends fuel visited [] db same q h = (db, refl)
    loop_ends zero visited (i ∷ queue) db same q h = let bad : ⊥ = omega (arith, h) in elim bad [ ]
    loop_ends (suc fuel) visited (i ∷ queue) db same q h =
        let db1 = cascade_row t r i db in
        let still : children i db1.mandates ≡ children i ms =
          children-cascade_found t r i i (find i db.mandates) db ∙ same i in
        subst
          (λ cs.
            (db' : Db) × (cascade fuel t r (i ∷ visited) (queue ++ unvisited (i ∷ visited) cs) db1
              ≡ some db'))
          (sym still)
          (loop_ends fuel (i ∷ visited) (next i visited queue q) db1
            (λ k. children-cascade_found t r i k (find i db.mandates) db ∙ same k)
            (next-Queue i visited queue q) (omega (arith, h, next_smaller i visited queue q)))

-- The walk down from any mandate comes to its end, even where the parents of mandates run in a
-- circle: a turn more than there are mandates is enough, since an identifier enters the queue once.
pub cascade_mandate_status_ends :
    (root : ℕ) (target : MandateStatus) (reason : SuspensionReason) (db : Db)
    → UniqueKeys db.mandates
    → (db' : Db) × (cascade_mandate_status (suc (length db.mandates)) root target reason db
        ≡ some db')
unfolding cascade_mandate_status
cascade_mandate_status_ends root target reason db u =
    loop_ends db.mandates u target reason (suc (length db.mandates)) [] (root ∷ []) db (λ k. refl)
      (record { distinct = (refl, tt); fresh = (refl, tt); led = tt })
      (omega (arith, open_le_length db.mandates))
