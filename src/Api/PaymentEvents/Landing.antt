-- ===== src/Api/PaymentEvents/Landing.antt =====
-- apps/api/routes/webhooks.py: an operation in flight lands by a captured or a failed payment.
use mandate_razorpay_control.Prelude.{
  ℕ, ◌≡◌, refl, sym, subst, inl, inr, Bool, true, false, not, Option, some, [], ◌∷◌, find, modify,
  find_key, arith, modify_missing, Option-cases,
}
use mandate_razorpay_control.Prelude.Int.{pos, leb_ℤ}
use mandate_razorpay_control.Core.Enums.{OperationStatus, same_status}
use mandate_razorpay_control.Core.StateMachine.{can_transition, status_in}
use mandate_razorpay_control.Core.Models.{
  Mandate, FinancialOperation, Transaction, mandate_key, operation_key,
}
use mandate_razorpay_control.Core.Database.{Db}
use mandate_razorpay_control.Ledger.{in_flight, IsConsistent, Consistent}
use mandate_razorpay_control.Ledger.Moves.{orphan-IsConsistent}
use mandate_razorpay_control.Ledger.Settlement.{
  Settles, Lands, settle-IsConsistent, reserved_covers,
}
use mandate_razorpay_control.Api.Operations.Safety.{
  release-Settles, commit-Settles, status-Lands, error-Lands,
}
use mandate_razorpay_control.Api.PaymentEvents.{
  spend_captured, release_failed, settle_captured, settle_failed,
}

-- What the state machine lets through to a success is in flight.
pub lets_through :
    (s : OperationStatus)
    → same_status s OperationStatus.succeeded ≡ false
    → can_transition s OperationStatus.succeeded ≡ true
    → in_flight s ≡ true
unfolding can_transition
lets_through s other h = ground arith

abbrev unlisted_status : OperationStatus → Bool
unlisted_status s = not (status_in s (OperationStatus.executing ∷ OperationStatus.reserved ∷ []))

pub listed : (s : OperationStatus) → in_flight s ≡ true → unlisted_status s ≡ false
listed s h = ground arith

pub unlisted : (s : OperationStatus) → in_flight s ≡ false → unlisted_status s ≡ true
unlisted s h = ground arith

spend_covered :
    (a : ℕ) (m : Mandate) → leb_ℤ (pos a) m.reserved_spend ≡ true → Settles a m (spend_captured a m)
spend_covered a m h = rw h (commit-Settles a m)

release_covered :
    (a : ℕ) (m : Mandate) → leb_ℤ (pos a) m.reserved_spend ≡ true → Settles a m (release_failed a m)
release_covered a m h = rw h (release-Settles a m)

spend_key : (a : ℕ) (m : Mandate) → (spend_captured a m).id ≡ m.id
spend_key a m = ground arith

release_key : (a : ℕ) (m : Mandate) → (release_failed a m).id ≡ m.id
release_key a m = ground arith

module _ (db : Db) (v : Consistent db) where
  -- An operation in flight lands, with its mandate's row where there is one.
  landing :
      (i : ℕ) (op : FinancialOperation) (f : FinancialOperation → FinancialOperation)
      (k : Mandate → Mandate)
      → find i db.operations ≡ some op
      → in_flight op.status ≡ true
      → ((x : FinancialOperation) → Lands x (f x))
      → ((x : Mandate) → (k x).id ≡ x.id)
      → ((x : Mandate) → leb_ℤ (pos op.amount) x.reserved_spend ≡ true → Settles op.amount x (k x))
      → IsConsistent (modify op.mandate_id k db.mandates) (modify i f db.operations)
  landing i op f k found flies lands key settles =
      elim (Option-cases (find op.mandate_id db.mandates)) [
        | inl missing ↦ rw (modify_missing op.mandate_id k db.mandates missing) (
            orphan-IsConsistent db.mandates db.operations v i op f found (λ x. (lands x).same_key)
              (lands op).same_mandate missing)
        | inr (m, owned) ↦
            settle-IsConsistent v i op f op.mandate_id m k found flies refl owned lands key
              (settles m (reserved_covers v i op m found flies owned))
      ]

  pub settle_captured-Consistent :
      (op : FinancialOperation) (tx : Transaction) (p : Option ℕ)
      → find op.id db.operations ≡ some op
      → in_flight op.status ≡ true
      → Consistent (settle_captured op tx p db)
  unfolding settle_captured
  settle_captured-Consistent op tx p found flies =
      landing op.id op _ _ found flies (λ x. status-Lands OperationStatus.succeeded x refl)
        (spend_key op.amount) (spend_covered op.amount)

  pub settle_failed-Consistent :
      (op : FinancialOperation) (tx : Transaction)
      → find op.id db.operations ≡ some op
      → in_flight op.status ≡ true
      → Consistent (settle_failed op tx db)
  unfolding settle_failed
  settle_failed-Consistent op tx found flies =
      landing op.id op _ _ found flies (λ x. error-Lands OperationStatus.failed _ x refl)
        (release_key op.amount) (release_covered op.amount)

  -- A row that is found by its key, under its own key.
  pub at_own_key :
      (i : ℕ) (op : FinancialOperation)
      → find i db.operations ≡ some op
      → find op.id db.operations ≡ some op
  at_own_key i op e =
      subst (λ j. find j db.operations ≡ some op) (sym (find_key i op db.operations e)) e
