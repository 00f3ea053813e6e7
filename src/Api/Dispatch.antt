-- ===== src/Api/Dispatch.antt =====
-- apps/api/routes/operations.py: `_execute_gateway_operation`, the dispatch of a reserved operation to
-- the gateway.
use mandate_razorpay_control.Prelude.{ℕ, Option, none, some, if◌then◌else◌}
use mandate_razorpay_control.Prelude.Int.{pos, ◌+ℤ◌, ◌-ℤ◌}
use mandate_razorpay_control.Core.Enums.{
  OperationType, OperationStatus, TransactionStatus, AuditAction,
}
use mandate_razorpay_control.Core.Models.{
  Mandate, FinancialOperation, Payload, Message, ResourceType, mandate_key, operation_key,
}
use mandate_razorpay_control.Core.Database.{
  Db, update_mandate, set_operation, add_transaction, add_audit, audit, with_status, with_error,
}
use mandate_razorpay_control.Core.Concurrency.{release}
use mandate_razorpay_control.Api.Gateway.{
  RazorpayClient, RazorpayOrderRequest, RazorpayPaymentLinkRequest, RazorpayRefundRequest,
}

-- The `try` block of `_execute_gateway_operation`: it raises before it has written anything, or it
-- has written all it writes.
pub data Attempt : Type 0 where
  raised : Message → Attempt
  returned : Db → Attempt

-- The counters after a refund: as `commit`, and the version stays.
abbrev pub spend_refund : ℕ → Mandate → Mandate
spend_refund amount m = record m {
  reserved_spend = m.reserved_spend -ℤ pos amount;
  current_aggregate_spend = m.current_aggregate_spend +ℤ pos amount;
}

abbrev pub order_request : FinancialOperation → RazorpayOrderRequest
order_request op = record { amount = op.amount; currency = op.currency }

abbrev pub link_request : FinancialOperation → RazorpayPaymentLinkRequest
link_request op = record { amount = op.amount; currency = op.currency }

abbrev pub refund_request : ℕ → FinancialOperation → RazorpayRefundRequest
refund_request payment_id op = record { payment_id = payment_id; amount = op.amount }

module _ (g : RazorpayClient) (tx_id : ℕ) (mandate_id : ℕ) (op : FinancialOperation) where
  unfoldable pub dispatch_order : Db → Attempt
  dispatch_order db = elim (g.create_order (order_request op)) [
    | none ↦ raised Message.gateway_error
    | some order ↦ returned (
        set_operation op.id (with_status OperationStatus.executing) (
          add_transaction
            (record {
              id = tx_id;
              operation_id = op.id;
              gateway_order_id = some order.id;
              gateway_payment_id = none;
              gateway_refund_id = none;
              gateway_payment_link_id = none;
              amount = order.amount;
              currency = order.currency;
              status = TransactionStatus.created;
            })
            db))
  ]

  unfoldable pub dispatch_payment_link : Db → Attempt
  dispatch_payment_link db = elim (g.create_payment_link (link_request op)) [
    | none ↦ raised Message.gateway_error
    | some link ↦ returned (
        set_operation op.id (with_status OperationStatus.executing) (
          add_transaction
            (record {
              id = tx_id;
              operation_id = op.id;
              gateway_order_id = none;
              gateway_payment_id = none;
              gateway_refund_id = none;
              gateway_payment_link_id = some link.id;
              amount = link.amount;
              currency = link.currency;
              status = TransactionStatus.created;
            })
            db))
  ]

  unfoldable pub dispatch_refund_of : ℕ → Db → Attempt
  dispatch_refund_of payment_id db = elim (g.create_refund (refund_request payment_id op)) [
    | none ↦ raised Message.gateway_error
    | some refund ↦ returned (
        update_mandate mandate_id (spend_refund op.amount) (
          set_operation op.id (with_status OperationStatus.succeeded) (
            add_transaction
              (record {
                id = tx_id;
                operation_id = op.id;
                gateway_order_id = none;
                gateway_payment_id = some payment_id;
                gateway_refund_id = some refund.id;
                gateway_payment_link_id = none;
                amount = refund.amount;
                currency = refund.currency;
                status =
                    if refund.is_processed
                    then TransactionStatus.refunded
                    else TransactionStatus.created;
              })
              db)))
  ]

  unfoldable pub dispatch_refund : Option ℕ → Db → Attempt
  dispatch_refund none db = raised Message.refund_without_payment_id
  dispatch_refund (some payment_id) db = dispatch_refund_of payment_id db

  -- The branch for the operation's type; two types have none and are only committed.
  unfoldable pub try_dispatch : OperationType → Payload → Db → Attempt
  try_dispatch OperationType.create_order payload db = dispatch_order db
  try_dispatch OperationType.create_payment_link payload db = dispatch_payment_link db
  try_dispatch OperationType.create_refund payload db = dispatch_refund payload.payment_id db
  try_dispatch OperationType.capture_payment payload db = returned db
  try_dispatch OperationType.cancel_payment_link payload db = returned db

  -- The `except` block: the reservation is given back.
  unfoldable pub abort_dispatch : Message → Db → Db
  abort_dispatch why db =
      add_audit (audit AuditAction.budget_released ResourceType.mandate mandate_id (some op.amount))
        (set_operation op.id (with_error OperationStatus.failed why)
          (update_mandate mandate_id (release op.amount) db))

  unfoldable pub execute_gateway_operation : Payload → Db → Db
  execute_gateway_operation payload db = elim (try_dispatch op.operation_type payload db) [
    | raised why ↦ abort_dispatch why db
    | returned db' ↦ db'
  ]
