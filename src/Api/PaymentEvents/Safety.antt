-- ===== src/Api/PaymentEvents/Safety.antt =====
-- apps/api/routes/webhooks.py: the transitions of events keep the ledger consistent.
use mandate_razorpay_control.Prelude.{
  ℕ, ◌≡◌, refl, inl, inr, Bool, true, false, Option, none, some, find, modify_missing, Option-cases,
  Bool-cases,
}
use mandate_razorpay_control.Prelude.Int.{ℤ, pos, ◌+ℤ◌, ◌-ℤ◌, ◌≤ℤ◌, int_laws}
use mandate_razorpay_control.Core.Enums.{OperationStatus, same_status}
use mandate_razorpay_control.Core.StateMachine.{can_transition, validate_transition}
use mandate_razorpay_control.Core.Models.{
  Mandate, FinancialOperation, Transaction, EventType, mandate_key, operation_key,
}
use mandate_razorpay_control.Core.Database.{Db, ok, ◌>>◌, raise_unless_valid, scalar_one_or_none}
use mandate_razorpay_control.Core.Outcomes.{OnOk, bind-OnOk}
use mandate_razorpay_control.Ledger.{in_flight, Consistent}
use mandate_razorpay_control.Ledger.Moves.{update_mandate-IsConsistent}
use mandate_razorpay_control.Api.PaymentEvents.{
  EventPayload, restore, settle_captured, capture_operation, capture_transaction, capture_order,
  fail_operation, fail_transaction, fail_order, refund_operation, refund_transaction,
  refund_payment, handle_payment_captured_event, handle_payment_failed_event,
  handle_refund_processed_event, process_domain_webhook_event, by_order, by_payment,
}
use mandate_razorpay_control.Api.PaymentEvents.Landing.{
  lets_through, listed, unlisted, settle_captured-Consistent, settle_failed-Consistent, at_own_key,
}

module _ (db : Db) (v : Consistent db) where
  checked :
      (op : FinancialOperation) (c : Bool) (tx : Transaction) (p : Option ℕ)
      → can_transition op.status OperationStatus.succeeded ≡ c
      → find op.id db.operations ≡ some op
      → same_status op.status OperationStatus.succeeded ≡ false
      → OnOk Consistent (
          raise_unless_valid (validate_transition op.status OperationStatus.succeeded)
          >> ok (settle_captured op tx p db))
  unfolding validate_transition
  checked op true tx p e found other =
      rw (e, validate_transition)
        (settle_captured-Consistent db v op tx p found (lets_through op.status other e))
  checked op false tx p e found other = rw (e, validate_transition) tt

  capture_operation-Consistent :
      (tx : Transaction) (p : Option ℕ) (i : ℕ) (o : Option FinancialOperation)
      → find i db.operations ≡ o
      → OnOk Consistent (capture_operation tx p o db)
  unfolding capture_operation
  capture_operation-Consistent tx p i none e = v
  capture_operation-Consistent tx p i (some op) e =
      elim (Bool-cases (same_status op.status OperationStatus.succeeded)) [
        | inl done ↦ rw done v
        | inr other ↦ rw other (checked op _ tx p refl (at_own_key db v i op e) other)
      ]

  capture_transaction-Consistent :
      (p : Option ℕ) (tx : Option Transaction) → OnOk Consistent (capture_transaction p tx db)
  unfolding capture_transaction
  capture_transaction-Consistent p none = v
  capture_transaction-Consistent p (some tx) =
      capture_operation-Consistent tx p tx.operation_id _ refl

  capture_order-Consistent : (o p : Option ℕ) → OnOk Consistent (capture_order o p db)
  unfolding capture_order
  capture_order-Consistent none p = v
  capture_order-Consistent (some i) p =
      bind-OnOk Consistent (scalar_one_or_none (by_order i db.transactions)) _
        λ tx _. capture_transaction-Consistent p tx

  fail_operation-Consistent :
      (tx : Transaction) (i : ℕ) (o : Option FinancialOperation)
      → find i db.operations ≡ o
      → OnOk Consistent (fail_operation tx o db)
  unfolding fail_operation
  fail_operation-Consistent tx i none e = v
  fail_operation-Consistent tx i (some op) e = elim (Bool-cases (in_flight op.status)) [
    | inl flies ↦
        rw (listed op.status flies)
          (settle_failed-Consistent db v op tx (at_own_key db v i op e) flies)
    | inr landed ↦ rw (unlisted op.status landed) v
  ]

  fails_found : (tx : Option Transaction) → OnOk Consistent (fail_transaction tx db)
  unfolding fail_transaction
  fails_found none = v
  fails_found (some tx) = fail_operation-Consistent tx tx.operation_id _ refl

  fail_order-Consistent : (o : Option ℕ) → OnOk Consistent (fail_order o db)
  unfolding fail_order
  fail_order-Consistent none = v
  fail_order-Consistent (some i) =
      bind-OnOk Consistent (scalar_one_or_none (by_order i db.transactions)) _
        λ tx e. fails_found tx

  restored_room :
      (a : ℤ) (m : Mandate)
      → pos 0 ≤ℤ a
      → m.current_aggregate_spend +ℤ m.reserved_spend ≤ℤ pos m.aggregate_spend_limit
      → (m.current_aggregate_spend -ℤ a) +ℤ m.reserved_spend ≤ℤ pos m.aggregate_spend_limit
  restored_room a m h e = omega int_laws

  module _ (a : ℤ) (positive : pos 0 ≤ℤ a) where
    refund_operation-Consistent :
        (o : Option FinancialOperation) → OnOk Consistent (refund_operation a o db)
    unfolding refund_operation
    refund_operation-Consistent none = v
    refund_operation-Consistent (some op) = elim (Option-cases (find op.mandate_id db.mandates)) [
      | inl missing ↦ rw (modify_missing op.mandate_id (restore a) db.mandates missing) v
      | inr (m, owned) ↦
          update_mandate-IsConsistent db.mandates db.operations v op.mandate_id m (restore a) owned
            (λ x. refl) refl (restored_room a m positive (v.within op.mandate_id m owned))
    ]

    refund_transaction-Consistent :
        (t : Option Transaction) → OnOk Consistent (refund_transaction a t db)
    unfolding refund_transaction
    refund_transaction-Consistent none = v
    refund_transaction-Consistent (some t) = refund_operation-Consistent _

    refund_payment-Consistent : (o : Option ℕ) → OnOk Consistent (refund_payment o a db)
    unfolding refund_payment
    refund_payment-Consistent none = v
    refund_payment-Consistent (some i) =
        bind-OnOk Consistent (scalar_one_or_none (by_payment i db.transactions)) _
          λ t e. refund_transaction-Consistent t

  pub process-Consistent :
      (t : EventType) (p : EventPayload)
      → pos 0 ≤ℤ p.refund_amount
      → OnOk Consistent (process_domain_webhook_event t p db)
  unfolding process_domain_webhook_event handle_payment_captured_event handle_payment_failed_event
      handle_refund_processed_event
  process-Consistent EventType.order_paid p h = capture_order-Consistent _ _
  process-Consistent EventType.payment_captured p h = capture_order-Consistent _ _
  process-Consistent EventType.payment_failed p h = fail_order-Consistent _
  process-Consistent EventType.refund_processed p h = refund_payment-Consistent _ h _
  process-Consistent (EventType.other t) p h = v
