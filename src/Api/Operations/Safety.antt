-- ===== src/Api/Operations/Safety.antt =====
-- apps/api/routes/operations.py: the handlers keep the ledger consistent.
use mandate_razorpay_control.Prelude.{
  ℕ, ◌≡◌, refl, inl, inr, true, false, Option, none, some, find, modify, arith, Option-cases,
}
use mandate_razorpay_control.Prelude.Int.{int_laws}
use mandate_razorpay_control.Core.Enums.{OperationStatus, OperationType}
use mandate_razorpay_control.Core.Models.{
  Mandate, FinancialOperation, Payload, Message, mandate_key, operation_key,
}
use mandate_razorpay_control.Core.Database.{Db, with_status, with_error}
use mandate_razorpay_control.Core.Concurrency.{release, commit}
use mandate_razorpay_control.Ledger.{in_flight, IsConsistent, Consistent}
use mandate_razorpay_control.Ledger.Moves.{relabel-IsConsistent}
use mandate_razorpay_control.Ledger.Settlement.{Settles, Lands, settle-IsConsistent}
use mandate_razorpay_control.Api.Gateway.{RazorpayClient}
use mandate_razorpay_control.Api.Dispatch.{
  Attempt, raised, returned, spend_refund, order_request, link_request, refund_request,
  dispatch_order, dispatch_payment_link, dispatch_refund_of, dispatch_refund, try_dispatch,
  abort_dispatch, execute_gateway_operation,
}

pub release-Settles : (amount : ℕ) (m : Mandate) → Settles amount m (release amount m)
release-Settles amount m = record {
  same_key = refl;
  same_limit = refl;
  given_back = refl;
  no_more = omega int_laws;
}

pub commit-Settles : (amount : ℕ) (m : Mandate) → Settles amount m (commit amount m)
commit-Settles amount m = record {
  same_key = refl;
  same_limit = refl;
  given_back = refl;
  no_more = omega int_laws;
}

refund-Settles : (amount : ℕ) (m : Mandate) → Settles amount m (spend_refund amount m)
refund-Settles amount m = record {
  same_key = refl;
  same_limit = refl;
  given_back = refl;
  no_more = omega int_laws;
}

pub error-Lands :
    (s : OperationStatus) (why : Message) (o : FinancialOperation)
    → in_flight s ≡ false
    → Lands o (with_error s why o)
error-Lands s why o h = record { same_key = refl; same_mandate = refl; landed = h }

pub status-Lands :
    (s : OperationStatus) (o : FinancialOperation) → in_flight s ≡ false → Lands o (with_status s o)
status-Lands s o h = record { same_key = refl; same_mandate = refl; landed = h }

-- The row that an operation in flight has in the tables, and its mandate's.
pub record Flies (db : Db) (op row : FinancialOperation) (m : Mandate) : Type 0 where
  pub found : find op.id db.operations ≡ some row
  pub flying : in_flight row.status ≡ true
  pub same_amount : row.amount ≡ op.amount
  pub same_mandate : row.mandate_id ≡ op.mandate_id
  pub owned : find op.mandate_id db.mandates ≡ some m

-- The attempt leaves the ledger consistent where it returns.
abbrev Keeps : Attempt → Type 0
Keeps (raised why) = Unit
Keeps (returned db) = Consistent db

module _ (g : RazorpayClient) (tx_id : ℕ) (op row : FinancialOperation) (m : Mandate) (db : Db)
    (v : Consistent db) (h : Flies db op row m) where
  executing-IsConsistent :
      IsConsistent db.mandates (modify op.id (with_status OperationStatus.executing) db.operations)
  executing-IsConsistent =
      relabel-IsConsistent db.mandates db.operations v op.id row _ h.found (λ x. refl) refl
        (ground (arith, h.flying))

  Lands-under :
      (f : FinancialOperation → FinancialOperation) (k : Mandate → Mandate)
      → ((x : FinancialOperation) → Lands x (f x))
      → ((x : Mandate) → Settles op.amount x (k x))
      → IsConsistent (modify op.mandate_id k db.mandates) (modify op.id f db.operations)
  Lands-under f k lands settles =
      settle-IsConsistent v op.id row f op.mandate_id m k h.found h.flying h.same_mandate h.owned
        lands (λ x. (settles x).same_key) (rw h.same_amount (settles m))

  dispatch_order-Keeps : Keeps (dispatch_order g tx_id op.mandate_id op db)
  unfolding dispatch_order
  dispatch_order-Keeps = elim (Option-cases (g.create_order (order_request op))) [
    | inl e ↦ rw (e, dispatch_order) tt
    | inr (order, e) ↦ rw (e, dispatch_order) executing-IsConsistent
  ]

  dispatch_payment_link-Keeps : Keeps (dispatch_payment_link g tx_id op.mandate_id op db)
  unfolding dispatch_payment_link
  dispatch_payment_link-Keeps = elim (Option-cases (g.create_payment_link (link_request op))) [
    | inl e ↦ rw (e, dispatch_payment_link) tt
    | inr (link, e) ↦ rw (e, dispatch_payment_link) executing-IsConsistent
  ]

  dispatch_refund-Keeps :
      (payment : Option ℕ) → Keeps (dispatch_refund g tx_id op.mandate_id op payment db)
  unfolding dispatch_refund dispatch_refund_of
  dispatch_refund-Keeps none = tt
  dispatch_refund-Keeps (some p) = elim (Option-cases (g.create_refund (refund_request p op))) [
    | inl e ↦ rw (e, dispatch_refund_of) tt
    | inr (refund, e) ↦
        rw (e, dispatch_refund_of)
          (Lands-under _ _ (λ x. status-Lands OperationStatus.succeeded x refl)
            (refund-Settles op.amount))
  ]

  try_dispatch-Keeps :
      (t : OperationType) (payload : Payload)
      → Keeps (try_dispatch g tx_id op.mandate_id op t payload db)
  unfolding try_dispatch
  try_dispatch-Keeps OperationType.create_order payload = dispatch_order-Keeps
  try_dispatch-Keeps OperationType.create_payment_link payload = dispatch_payment_link-Keeps
  try_dispatch-Keeps OperationType.create_refund payload = dispatch_refund-Keeps payload.payment_id
  try_dispatch-Keeps OperationType.capture_payment payload = v
  try_dispatch-Keeps OperationType.cancel_payment_link payload = v

  abort-Consistent : (why : Message) → Consistent (abort_dispatch g tx_id op.mandate_id op why db)
  unfolding abort_dispatch
  abort-Consistent why =
      Lands-under _ _ (λ x. error-Lands OperationStatus.failed why x refl)
        (release-Settles op.amount)

  after_attempt :
      (a : Attempt)
      → Keeps a
      → Consistent (elim a [
        | raised why ↦ abort_dispatch g tx_id op.mandate_id op why db
        | returned db' ↦ db'
      ])
  after_attempt (raised why) k = abort-Consistent why
  after_attempt (returned db') k = k

  -- The dispatch of a reserved operation keeps the ledger consistent, whatever the gateway does: it
  -- commits a refund, gives the budget back on an exception, and else leaves the amount reserved.
  pub execute-Consistent :
      (payload : Payload)
      → Consistent (execute_gateway_operation g tx_id op.mandate_id op payload db)
  unfolding execute_gateway_operation
  execute-Consistent payload = after_attempt _ (try_dispatch-Keeps op.operation_type payload)
