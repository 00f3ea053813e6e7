-- ===== src/Examples/LedgerTests.antt =====
-- Runs of the handlers of operations, of the webhook and of the worker on concrete tables.
use mandate_razorpay_control.Prelude.{
  ◌+◌, ◌≡◌, refl, modify, first_where, true, false, none, some, inl, inr, [], ◌∷◌, find, sum_of,
  arith, ◌==◌, Bool-cases, ℕ,
}
use mandate_razorpay_control.Prelude.Int.{pos}
use mandate_razorpay_control.Core.Enums.{OperationType, OperationStatus}
use mandate_razorpay_control.Core.Models.{
  EventType, WebhookStatus, Message, mandate_key, operation_key, transaction_key, webhook_key,
}
use mandate_razorpay_control.Core.StateMachine.{validate_transition, can_transition}
use mandate_razorpay_control.Core.Database.{Db, ok, err, with_error}
use mandate_razorpay_control.Core.Outcomes.{OnOk}
use mandate_razorpay_control.Ledger.{Consistent}
use mandate_razorpay_control.Api.Operations.{
  OperationCreate, Surroundings, request_financial_operation, human_approve_operation,
  verify_payment,
}
use mandate_razorpay_control.Api.Operations.Pipeline.{Kept, request-Keeps, human_approve-Keeps}
use mandate_razorpay_control.Api.Operations.Verification.{verify_payment-Consistent}
use mandate_razorpay_control.Api.Webhooks.{
  EventData, WebhookRequest, duplicate_ignored, handled, deliver, handle_razorpay_webhook,
}
use mandate_razorpay_control.Api.PaymentEvents.{
  process_domain_webhook_event, handle_payment_captured_event, capture_order, capture_transaction,
  capture_operation, settle_captured,
}
use mandate_razorpay_control.Api.Webhooks.Safety.{handle_razorpay_webhook-Consistent}
use mandate_razorpay_control.Api.Webhooks.Delivery.{redelivery-ignored}
use mandate_razorpay_control.Worker.{Worker, reconcile_stuck_reservations}
use mandate_razorpay_control.Worker.Sweep.{flying, reconcile_stuck_reservations-counts}
use mandate_razorpay_control.Worker.Recovery.{reconcile_stuck_reservations-recovers}
use mandate_razorpay_control.Worker.Crashes.{SingleTransactions}
use mandate_razorpay_control.Examples.{
  rupees, flying_order, flying_tx, grant, tables, tables-Consistent, gateway, within_rate,
}

abbrev purchase : OperationCreate
purchase = record {
  idempotency_key = 900;
  agent_id = 1;
  mandate_id = 10;
  operation_type = OperationType.create_order;
  amount = 300;
  currency = rupees;
  payload = record { payment_id = none };
}

abbrev here : Surroundings
here = record {
  row_id = 4;
  operation_id = 104;
  transaction_id = 8;
  now = 60;
  limit_res = within_rate;
  active_agent = ok none;
}

request-Keeps_example : OnOk Kept (request_financial_operation gateway here purchase tables)
unfolding find
request-Keeps_example = request-Keeps gateway here purchase tables tables-Consistent refl

human_approve-Keeps_example : OnOk Consistent (
    human_approve_operation gateway 8 103
      (record { approved_by_id = 3; approved = true; reason = none })
      tables)
human_approve-Keeps_example =
    human_approve-Keeps gateway 8 103
      (record { approved_by_id = 3; approved = true; reason = none }) tables tables-Consistent

abbrev order_paid : EventData
order_paid = record {
  event_id = some 5;
  event = EventType.order_paid;
  payload = record {
    payment_order_id = some 70;
    payment_id = some 90;
    order_id = none;
    refund_payment_id = none;
    refund_amount = pos 0;
  };
}

abbrev delivery_of : EventData → WebhookRequest
delivery_of d = record {
  has_secret = true;
  is_production = true;
  signature_matches = true;
  body = some d;
  fresh_id = 6;
}

no_refund : (d : EventData) → some order_paid ≡ some d → d.payload.refund_amount ≡ pos 0
no_refund d e = cc

handle_razorpay_webhook-Consistent_example :
    OnOk (λ x. Consistent x.0) (handle_razorpay_webhook (delivery_of order_paid) tables)
handle_razorpay_webhook-Consistent_example =
    handle_razorpay_webhook-Consistent (delivery_of order_paid) tables tables-Consistent
      (λ d e. rw (no_refund d e) (omega arith))

abbrev paid_tables : Db
paid_tables = elim (handle_razorpay_webhook (delivery_of order_paid) tables) [
  | ok x ↦ x.0
  | err e ↦ tables
]

abbrev captured : EventData
captured = record order_paid { event = EventType.payment_captured }

first_delivery :
    handle_razorpay_webhook (delivery_of order_paid) tables
    ≡ ok (paid_tables, handled WebhookStatus.processed)
unfolding handle_razorpay_webhook deliver process_domain_webhook_event handle_payment_captured_event
    capture_order capture_transaction capture_operation settle_captured validate_transition
    can_transition find modify
first_delivery = refl

redelivery-ignored_example :
    handle_razorpay_webhook (delivery_of captured) paid_tables ≡ ok (paid_tables, duplicate_ignored)
redelivery-ignored_example =
    redelivery-ignored 5 (delivery_of order_paid) (delivery_of captured) order_paid captured tables
      paid_tables refl refl refl refl refl first_delivery

verify_payment-Consistent_example :
    (db' : Db) × (verify_payment gateway 101
        (record { razorpay_order_id = 70; razorpay_payment_id = 90; razorpay_signature = 0 })
        tables
      ≡ ok db')
    × Consistent db'
unfolding find first_where
verify_payment-Consistent_example =
    verify_payment-Consistent gateway 101
      (record { razorpay_order_id = 70; razorpay_payment_id = 90; razorpay_signature = 0 }) tables
      flying_order grant (some flying_tx) tables-Consistent refl refl refl refl refl

reconcile_stuck_reservations-counts_example :
    OnOk
      (λ x.
        Consistent x.1.0
        × (sum_of flying x.1.0.operations + x.1.1 ≡ sum_of flying tables.operations))
      (reconcile_stuck_reservations gateway 120 500
        (λ i. 500)
        (record { locked = false; total_reconciled = 0 })
        tables)
reconcile_stuck_reservations-counts_example =
    reconcile_stuck_reservations-counts gateway 120 500 (λ i. 500)
      (record { locked = false; total_reconciled = 0 }) tables tables-Consistent

-- The tables after a crash: the transaction that was sent belongs to another operation.
abbrev crashed_tables : Db
crashed_tables = record tables { transactions = (record flying_tx { operation_id = 2 }) ∷ [] }

crashed-SingleTransactions : SingleTransactions crashed_tables
crashed-SingleTransactions i = elim (Bool-cases (2 == i)) [
  | inl own ↦ (some (record flying_tx { operation_id = 2 }), rw own refl)
  | inr other ↦ (none, rw other refl)
]

reconcile_stuck_reservations-recovers_example :
    (x : Worker × (Db × ℕ)) × (reconcile_stuck_reservations gateway 120 500
        (λ i. 500)
        (record { locked = false; total_reconciled = 0 })
        crashed_tables
      ≡ ok x)
    × (find 1 x.1.0.operations
        ≡ some (with_error OperationStatus.failed Message.reservation_expired flying_order))
unfolding find
reconcile_stuck_reservations-recovers_example =
    reconcile_stuck_reservations-recovers gateway 120 500 (λ i. 500)
      (record { locked = false; total_reconciled = 0 }) crashed_tables flying_order
      tables-Consistent crashed-SingleTransactions refl refl refl
      (record { mandate = (grant, refl); unsent_transaction = (none, refl, refl) })
