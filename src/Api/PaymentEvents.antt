-- ===== src/Api/PaymentEvents.antt =====
-- apps/api/routes/webhooks.py: what each kind of gateway event changes (`_handle_*_event` and
-- `_process_domain_webhook_event`).
pub mod Landing
pub mod Safety
pub mod Capture
use mandate_razorpay_control.Prelude.{
  ℕ, ◌+◌, Bool, true, false, not, ◌||◌, Option, none, some, List, [], ◌∷◌, find, modify, filter,
  leb, ◌==◌, if◌then◌else◌,
}
use mandate_razorpay_control.Prelude.Int.{ℤ, pos, ◌+ℤ◌, ◌-ℤ◌, leb_ℤ}
use mandate_razorpay_control.Core.Enums.{
  OperationStatus, TransactionStatus, AuditAction, same_status,
}
use mandate_razorpay_control.Core.StateMachine.{validate_transition, status_in}
use mandate_razorpay_control.Core.Models.{
  Mandate, FinancialOperation, Transaction, WebhookEvent, EventType, WebhookStatus, Message,
  ResourceType, mandate_key, operation_key, transaction_key, webhook_key,
}
use mandate_razorpay_control.Core.Database.{
  Db, Exception, Detail, Result, ok, err, ◌>>=◌, ◌>>◌, raise_if, raise_unless_valid, or_raise,
  scalar_one_or_none, add_audit, audit, with_status, with_error,
}
use mandate_razorpay_control.Core.Concurrency.{release, commit}

-- The members of the payload that are read.
pub record EventPayload : Type 0 where
  pub payment_order_id : Option ℕ
  pub payment_id : Option ℕ
  pub order_id : Option ℕ
  pub refund_payment_id : Option ℕ
  pub refund_amount : ℤ

-- `a or b`
abbrev pub or_else : Option ℕ → Option ℕ → Option ℕ
or_else none b = b
or_else (some a) b = some a

abbrev pub is_some : Option ℕ → ℕ → Bool
is_some none i = false
is_some (some j) i = j == i

-- The transactions with a gateway order, or a gateway payment.
abbrev pub by_order : ℕ → List Transaction → List Transaction
by_order order_id = filter (λ t. is_some t.gateway_order_id order_id)

abbrev pub by_payment : ℕ → List Transaction → List Transaction
by_payment payment_id = filter (λ t. is_some t.gateway_payment_id payment_id)

-- The counters of the mandate when a payment is captured.
abbrev pub spend_captured : ℕ → Mandate → Mandate
spend_captured amount m =
    if leb_ℤ (pos amount) m.reserved_spend then commit amount m else record m {
      current_aggregate_spend = m.current_aggregate_spend +ℤ pos amount;
      version = m.version + 1;
    }

abbrev pub release_failed : ℕ → Mandate → Mandate
release_failed amount m = if leb_ℤ (pos amount) m.reserved_spend then release amount m else m

abbrev pub restore : ℤ → Mandate → Mandate
restore amount m = record m {
  current_aggregate_spend = m.current_aggregate_spend -ℤ amount;
  version = m.version + 1;
}

abbrev captured_transaction : Option ℕ → Transaction → Transaction
captured_transaction none t = record t { status = TransactionStatus.captured }
captured_transaction (some p) t = record t {
  status = TransactionStatus.captured;
  gateway_payment_id = some p;
}

abbrev failed_transaction : Transaction → Transaction
failed_transaction t = record t { status = TransactionStatus.failed }

-- All that a captured payment writes.
unfoldable pub settle_captured : FinancialOperation → Transaction → Option ℕ → Db → Db
settle_captured op tx payment_id db =
    add_audit
      (audit AuditAction.budget_committed ResourceType.mandate op.mandate_id (some op.amount))
      (record db {
        operations = modify op.id (with_status OperationStatus.succeeded) db.operations;
        transactions = modify tx.id (captured_transaction payment_id) db.transactions;
        mandates = modify op.mandate_id (spend_captured op.amount) db.mandates;
      })

unfoldable pub capture_operation :
    Transaction → Option ℕ → Option FinancialOperation → Db → Result Db
capture_operation tx payment_id none db = ok db
capture_operation tx payment_id (some op) db =
    if same_status op.status OperationStatus.succeeded then ok db else (do
      raise_unless_valid (validate_transition op.status OperationStatus.succeeded)
      ok (settle_captured op tx payment_id db))

unfoldable pub capture_transaction : Option ℕ → Option Transaction → Db → Result Db
capture_transaction payment_id none db = ok db
capture_transaction payment_id (some tx) db =
    capture_operation tx payment_id (find tx.operation_id db.operations) db

unfoldable pub capture_order : Option ℕ → Option ℕ → Db → Result Db
capture_order none payment_id db = ok db
capture_order (some order_id) payment_id db = do
  tx ← scalar_one_or_none (by_order order_id db.transactions)
  capture_transaction payment_id tx db

unfoldable pub handle_payment_captured_event : EventPayload → Db → Result Db
handle_payment_captured_event p db =
    capture_order (or_else p.payment_order_id p.order_id) p.payment_id db

unfoldable pub settle_failed : FinancialOperation → Transaction → Db → Db
settle_failed op tx db =
    add_audit
      (audit AuditAction.budget_released ResourceType.mandate op.mandate_id (some op.amount))
      (record db {
        operations =
            modify op.id (with_error OperationStatus.failed Message.payment_failed) db.operations;
        transactions = modify tx.id failed_transaction db.transactions;
        mandates = modify op.mandate_id (release_failed op.amount) db.mandates;
      })

unfoldable pub fail_operation : Transaction → Option FinancialOperation → Db → Result Db
fail_operation tx none db = ok db
fail_operation tx (some op) db =
    if not (status_in op.status (OperationStatus.executing ∷ OperationStatus.reserved ∷ []))
    then ok db
    else ok (settle_failed op tx db)

unfoldable pub fail_transaction : Option Transaction → Db → Result Db
fail_transaction none db = ok db
fail_transaction (some tx) db = fail_operation tx (find tx.operation_id db.operations) db

unfoldable pub fail_order : Option ℕ → Db → Result Db
fail_order none db = ok db
fail_order (some order_id) db = do
  tx ← scalar_one_or_none (by_order order_id db.transactions)
  fail_transaction tx db

unfoldable pub handle_payment_failed_event : EventPayload → Db → Result Db
handle_payment_failed_event p db = fail_order p.payment_order_id db

unfoldable pub refund_operation : ℤ → Option FinancialOperation → Db → Result Db
refund_operation amount none db = ok db
refund_operation amount (some op) db =
    ok (record db { mandates = modify op.mandate_id (restore amount) db.mandates })

unfoldable pub refund_transaction : ℤ → Option Transaction → Db → Result Db
refund_transaction amount none db = ok db
refund_transaction amount (some tx) db =
    refund_operation amount (find tx.operation_id db.operations) db

unfoldable pub refund_payment : Option ℕ → ℤ → Db → Result Db
refund_payment none amount db = ok db
refund_payment (some payment_id) amount db = do
  tx ← scalar_one_or_none (by_payment payment_id db.transactions)
  refund_transaction amount tx db

unfoldable pub handle_refund_processed_event : EventPayload → Db → Result Db
handle_refund_processed_event p db = refund_payment p.refund_payment_id p.refund_amount db

unfoldable pub process_domain_webhook_event : EventType → EventPayload → Db → Result Db
process_domain_webhook_event EventType.order_paid p db = handle_payment_captured_event p db
process_domain_webhook_event EventType.payment_captured p db = handle_payment_captured_event p db
process_domain_webhook_event EventType.payment_failed p db = handle_payment_failed_event p db
process_domain_webhook_event EventType.refund_processed p db = handle_refund_processed_event p db
process_domain_webhook_event (EventType.other t) p db = ok db
