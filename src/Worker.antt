-- ===== src/Worker.antt =====
-- services/worker/main.py: the sweep over reservations that got stuck. The clock is an argument: its
-- reading at the start, and one per operation that the sweep looks at.
pub mod Outcomes
pub mod Sweep
pub mod Crashes
pub mod Recovery
pub mod Loop
pub mod Report
use mandate_razorpay_control.Prelude.{
  ℕ, ◌+◌, Bool, true, false, not, ◌&&◌, ◌||◌, Option, none, some, List, [], ◌∷◌, filter, find,
  modify, leb, ltb, ◌==◌, if◌then◌else◌,
}
use mandate_razorpay_control.Core.Enums.{OperationStatus, TransactionStatus, AuditAction}
use mandate_razorpay_control.Core.StateMachine.{status_in}
use mandate_razorpay_control.Core.Models.{
  Mandate, FinancialOperation, Transaction, Message, ResourceType, mandate_key, operation_key,
  transaction_key,
}
use mandate_razorpay_control.Core.Database.{
  Db, Result, ok, err, ◌>>=◌, scalar_one_or_none, update_mandate, set_operation, set_transaction,
  add_audit, audit, with_status, with_error,
}
use mandate_razorpay_control.Core.Concurrency.{release, commit}
use mandate_razorpay_control.Api.Gateway.{RazorpayClient, OrderStatus}

-- The lock of the sweep, and the heartbeat's counter.
pub record Worker : Type 0 where
  pub locked : Bool
  pub total_reconciled : ℕ

-- What selects a stuck operation.
abbrev pub is_stuck : ℕ → ℕ → FinancialOperation → Bool
is_stuck timeout now op =
    status_in op.status (OperationStatus.reserved ∷ OperationStatus.executing ∷ [])
    && leb (op.created_at + timeout) now

abbrev pub is_absent : Option ℕ → Bool
is_absent none = true
is_absent (some i) = false

-- No call of the gateway has left an identifier.
abbrev pub undispatched : Option Transaction → Bool
undispatched none = true
undispatched (some tx) =
    is_absent tx.gateway_order_id
    && is_absent tx.gateway_payment_id
    && is_absent tx.gateway_payment_link_id

-- The reservation is given back and the operation fails.
abbrev pub expire : Message → Mandate → FinancialOperation → Db → Db
expire why mandate op db =
    add_audit (audit AuditAction.budget_released ResourceType.mandate mandate.id (some op.amount)) (
      update_mandate mandate.id (release op.amount)
        (set_operation op.id (with_error OperationStatus.failed why) db))

abbrev pub captured_tx : Transaction → Transaction
captured_tx t = record t { status = TransactionStatus.captured }

-- The order was paid: the amount is committed.
abbrev pub settle_paid : Mandate → FinancialOperation → Transaction → Db → Db
settle_paid mandate op tx db =
    add_audit (audit AuditAction.budget_committed ResourceType.mandate mandate.id (some op.amount))
      (update_mandate mandate.id (commit op.amount) (
        set_transaction tx.id captured_tx
          (set_operation op.id (with_status OperationStatus.succeeded) db)))

-- What the gateway says of the order, with `none` for a call that raises.
abbrev pub order_status_of : RazorpayClient → ℕ → Option OrderStatus
order_status_of g order_id = elim (g.fetch_order order_id) [ none ↦ none | some o ↦ some o.status ]

-- An order unpaid for more than five minutes.
abbrev pub expire_old : ℕ → Mandate → FinancialOperation → Db → Db × ℕ
expire_old later mandate op db =
    if ltb (op.created_at + 300) later
    then (expire Message.order_unpaid mandate op db, 1)
    else (db, 0)

unfoldable pub settle_order :
    Option OrderStatus → ℕ → Mandate → FinancialOperation → Transaction → Db → Db × ℕ
settle_order none later mandate op tx db = (db, 0)
settle_order (some OrderStatus.paid) later mandate op tx db = (settle_paid mandate op tx db, 1)
settle_order (some OrderStatus.created) later mandate op tx db = expire_old later mandate op db
settle_order (some OrderStatus.attempted) later mandate op tx db = expire_old later mandate op db
settle_order (some (OrderStatus.other s)) later mandate op tx db = (db, 0)

-- `elif tx.gateway_order_id`
unfoldable pub settle_order_of :
    RazorpayClient → Option ℕ → ℕ → Mandate → FinancialOperation → Transaction → Db → Db × ℕ
settle_order_of g none later mandate op tx db = (db, 0)
settle_order_of g (some order_id) later mandate op tx db =
    settle_order (order_status_of g order_id) later mandate op tx db

unfoldable pub settle_dispatched :
    RazorpayClient → ℕ → Mandate → FinancialOperation → Option Transaction → Db → Db × ℕ
settle_dispatched g later mandate op none db = (db, 0)
settle_dispatched g later mandate op (some tx) db =
    settle_order_of g tx.gateway_order_id later mandate op tx db

-- One turn of the loop: the tables afterwards, and by how much `reconciled_count` went up.
unfoldable pub reconcile_of :
    RazorpayClient → ℕ → FinancialOperation → Option Mandate → Db → Result (Db × ℕ)
reconcile_of g later op none db = ok (db, 0)
reconcile_of g later op (some mandate) db = do
  tx ← scalar_one_or_none (filter (λ t. t.operation_id == op.id) db.transactions)
  ok (
      if undispatched tx
      then (expire Message.reservation_expired mandate op db, 1)
      else settle_dispatched g later mandate op tx db)

unfoldable pub sweep : RazorpayClient → (ℕ → ℕ) → List FinancialOperation → Db → Result (Db × ℕ)
sweep g later [] db = ok (db, 0)
sweep g later (op ∷ stuck_ops) db = do
  one ← reconcile_of g (later op.id) op (find op.mandate_id db.mandates) db
  rest ← sweep g later stuck_ops one.0
  ok (rest.0, one.1 + rest.1)

abbrev pub beat : Worker → ℕ → Worker
beat w reconciled_count = record w { total_reconciled = w.total_reconciled + reconciled_count }

-- The worker and the tables afterwards, and the count that is returned.
unfoldable pub reconcile_stuck_reservations :
    RazorpayClient → ℕ → ℕ → (ℕ → ℕ) → Worker → Db → Result (Worker × (Db × ℕ))
reconcile_stuck_reservations g timeout_seconds now later w db =
    if w.locked then ok (w, (db, 0)) else (do
      done ← sweep g later (filter (is_stuck timeout_seconds now) db.operations) db
      ok (beat w done.1, done))
