-- ===== src/Ledger/Reservation.antt =====
-- packages/core/concurrency.py: a granted reservation, with the operation that takes it.
use mandate_razorpay_control.Prelude.{
  ℕ, ◌≡◌, ◌⊎◌, inl, inr, refl, subst, ◌∙◌, Bool, true, false, some, List, find, modify, arith,
  Option-cases, Bool-cases,
}
use mandate_razorpay_control.Prelude.Int.{ℤ, pos, ◌+ℤ◌, ◌≤ℤ◌, int_laws}
use mandate_razorpay_control.Core.Models.{Mandate, FinancialOperation, mandate_key, operation_key}
use mandate_razorpay_control.Core.Database.{Db, update_mandate}
use mandate_razorpay_control.Core.Concurrency.{has_budget, reserve, reserve_budget}
use mandate_razorpay_control.Ledger.{in_flight, IsConsistent}
use mandate_razorpay_control.Ledger.Moves.{move-IsConsistent}
use mandate_razorpay_control.Ledger.Settlement.{weight-in_flight, weight_landed}

-- How the row of an operation takes off.
pub record TakesOff (o o' : FinancialOperation) : Type 0 where
  pub same_key : o'.id ≡ o.id
  pub same_mandate : o'.mandate_id ≡ o.mandate_id
  pub same_amount : o'.amount ≡ o.amount
  pub flies : in_flight o'.status ≡ true

take : (r : ℤ) (a w w' : ℕ) → w ≡ 0 → w' ≡ a → r +ℤ pos a +ℤ pos w ≡ r +ℤ pos w'
take r a w w' e f = rw (e, f) (omega int_laws)

budget_regroup : (c r a l : ℤ) → c +ℤ r +ℤ a ≤ℤ l → c +ℤ (r +ℤ a) ≤ℤ l
budget_regroup c r a l h = omega int_laws

reserve_room :
    (m : Mandate) (amount : ℕ)
    → has_budget amount m ≡ true
    → m.current_aggregate_spend +ℤ (m.reserved_spend +ℤ pos amount) ≤ℤ pos m.aggregate_spend_limit
reserve_room m amount h =
    budget_regroup m.current_aggregate_spend m.reserved_spend (pos amount)
      (pos m.aggregate_spend_limit) (ground arith)

module _ {ms : List Mandate} {ops : List FinancialOperation} (v : IsConsistent ms ops) (i : ℕ)
    (o : FinancialOperation) (g : FinancialOperation → FinancialOperation) (j : ℕ)
    (m : Mandate) where
  pub reserve-IsConsistent :
      find i ops ≡ some o
      → in_flight o.status ≡ false
      → o.mandate_id ≡ j
      → find j ms ≡ some m
      → has_budget o.amount m ≡ true
      → ((x : FinancialOperation) → TakesOff x (g x))
      → IsConsistent (modify j (reserve o.amount) ms) (modify i g ops)
  reserve-IsConsistent found landed owner owned granted takes =
      subst (λ k. IsConsistent (modify k (reserve o.amount) ms) (modify i g ops)) owner
        (move-IsConsistent ms ops v i o g m (reserve o.amount) found (rw owner owned)
          (λ x. (takes x).same_key) (λ x. refl) (takes o).same_mandate
          (take _ o.amount _ _ (weight_landed o landed)
            (weight-in_flight (g o) (takes o).flies ∙ (takes o).same_amount))
          (reserve_room m o.amount granted))

-- Either a row had room and was updated, or nothing happened.
abbrev Reserved : Db → ℕ → ℕ → Db × Bool → Type 0
Reserved db i amount r =
    ((m : Mandate) × (find i db.mandates ≡ some m)
      × (has_budget amount m ≡ true)
      × (r ≡ (update_mandate i (reserve amount) db, true)))
    ⊎ (r ≡ (db, false))

pub reserve_budget_cases :
    (db : Db) (i amount : ℕ) → Reserved db i amount (reserve_budget db i amount)
unfolding reserve_budget
reserve_budget_cases db i amount = elim (Option-cases (find i db.mandates)) [
  | inl e ↦ inr (rw (e, reserve_budget))
  | inr (m, e) ↦ elim (Bool-cases (has_budget amount m)) [
    | inl room ↦ inl (m, e, room, rw (e, reserve_budget) (rw room))
    | inr full ↦ inr (rw (e, reserve_budget) (rw full))
  ]
]
