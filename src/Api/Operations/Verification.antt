-- ===== src/Api/Operations/Verification.antt =====
-- apps/api/routes/operations.py: `verify_payment` and the ledger.
use mandate_razorpay_control.Prelude.{
  ℕ, ◌≡◌, refl, true, Option, some, find, first_where, filter, find-first_where, ◌==◌,
}
use mandate_razorpay_control.Core.Enums.{OperationStatus}
use mandate_razorpay_control.Core.Models.{
  Mandate, FinancialOperation, Transaction, mandate_key, operation_key,
}
use mandate_razorpay_control.Core.Database.{Db, ok, scalar_one_or_none, with_status}
use mandate_razorpay_control.Core.Concurrency.{commit}
use mandate_razorpay_control.Ledger.{in_flight, Consistent}
use mandate_razorpay_control.Ledger.Settlement.{settle-IsConsistent}
use mandate_razorpay_control.Api.Gateway.{RazorpayClient}
use mandate_razorpay_control.Api.Operations.{PaymentVerifyRequest, record_payment, verify_payment}
use mandate_razorpay_control.Api.Operations.Safety.{commit-Settles, status-Lands}

module _ (g : RazorpayClient) (operation_id : ℕ) (payload : PaymentVerifyRequest) (db : Db)
    (op : FinancialOperation) (m : Mandate) (tx : Option Transaction) (v : Consistent db)
    (selected : first_where (λ o. o.operation_id == operation_id) db.operations ≡ some op)
    (owned : find op.mandate_id db.mandates ≡ some m)
    (genuine : g.verify_payment_signature payload.razorpay_order_id payload.razorpay_payment_id
        payload.razorpay_signature
      ≡ true)
    (single : scalar_one_or_none (filter (λ t. t.operation_id == op.id) db.transactions)
      ≡ ok tx) where
  verified :
      verify_payment g operation_id payload db
      ≡ ok (record_payment op tx payload.razorpay_payment_id db)
  unfolding verify_payment
  verified =
      rw (selected, verify_payment)
        (rw (genuine, verify_payment) (rw (single, verify_payment) refl))

  at_key : find op.id db.operations ≡ some op
  at_key = find-first_where _ op db.operations v.unique selected

  -- The payment of an operation in flight is verified: its amount is committed, and the ledger stays
  -- consistent.
  pub verify_payment-Consistent :
      in_flight op.status ≡ true
      → (db' : Db) × (verify_payment g operation_id payload db ≡ ok db') × Consistent db'
  unfolding record_payment
  verify_payment-Consistent flies = (
    record_payment op tx payload.razorpay_payment_id db,
    verified,
    settle-IsConsistent v op.id op (with_status OperationStatus.succeeded) op.mandate_id m
        (commit op.amount) at_key flies refl owned
        (λ x. status-Lands OperationStatus.succeeded x refl) (λ x. refl)
        (commit-Settles op.amount m),
  )
