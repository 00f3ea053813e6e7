-- ===== src/Examples/EventTests.antt =====
-- Runs of the transitions of events, of failing deliveries and of the rate limiter.
use mandate_razorpay_control.Prelude.{
  ◌≡◌, ◌≤◌, refl, none, some, [], ◌∷◌, find, leb, arith, if◌then◌else◌,
}
use mandate_razorpay_control.Prelude.Int.{pos}
use mandate_razorpay_control.Core.Enums.{OperationStatus}
use mandate_razorpay_control.Core.StateMachine.{
  TransitionError, validate_transition, can_transition,
}
use mandate_razorpay_control.Core.Models.{
  WebhookEvent, WebhookStatus, EventType, operation_key, webhook_key,
}
use mandate_razorpay_control.Core.Database.{Db, Exception, ok, err}
use mandate_razorpay_control.Core.Outcomes.{OnOk}
use mandate_razorpay_control.Shared.RateLimiter.{drop_expired, check_local}
use mandate_razorpay_control.Shared.RateLimiter.Window.{
  Served, idle, call, admitted_in, admitted_in-le-limit,
}
use mandate_razorpay_control.Api.PaymentEvents.{
  EventPayload, process_domain_webhook_event, handle_payment_captured_event, capture_order,
  capture_transaction, capture_operation,
}
use mandate_razorpay_control.Api.PaymentEvents.Capture.{capture-once}
use mandate_razorpay_control.Api.Webhooks.{EventData, deliver}
use mandate_razorpay_control.Api.Webhooks.Retries.{Failing, none_yet, fails, Failing-dead_letter}
use mandate_razorpay_control.Examples.{order_of, tables}

abbrev paid : EventPayload
paid = record {
  payment_order_id = some 70;
  payment_id = some 90;
  order_id = none;
  refund_payment_id = none;
  refund_amount = pos 0;
}

-- The order alone, as `order.paid` may bring it.
abbrev order_only : EventPayload
order_only = record paid { payment_order_id = none; payment_id = none; order_id = some 70 }

capture-once_example :
    OnOk
      (λ db'. handle_payment_captured_event order_only db' ≡ ok db')
      (handle_payment_captured_event paid tables)
capture-once_example = capture-once paid order_only tables refl

-- The operation has failed, so a capture is no transition for it.
abbrev failed_tables : Db
failed_tables = record tables { operations = order_of 1 OperationStatus.failed 200 ∷ [] }

abbrev late_capture : EventData
late_capture = record { event_id = some 5; event = EventType.payment_captured; payload = paid }

abbrev refusal : Exception
refusal =
    Exception.invalid_transition
      (TransitionError.invalid_state_transition OperationStatus.failed OperationStatus.succeeded)

refused :
    process_domain_webhook_event late_capture.event late_capture.payload failed_tables ≡ err refusal
unfolding process_domain_webhook_event handle_payment_captured_event capture_order
    capture_transaction capture_operation validate_transition can_transition find
refused = refl

abbrev after_one : Db
after_one = (deliver 5 late_capture (find 5 failed_tables.webhook_events) failed_tables).0

failed_once : Failing 5 late_capture failed_tables 1 after_one
failed_once = fails 0 failed_tables refusal none_yet refused

Failing-dead_letter_example :
    (w : WebhookEvent) × (find 5 after_one.webhook_events ≡ some w)
    × (w.processing_attempts ≡ 1)
    × (w.status ≡ (if leb 3 1 then WebhookStatus.dead_letter else WebhookStatus.failed))
    × (after_one.mandates ≡ failed_tables.mandates)
    × (after_one.operations ≡ failed_tables.operations)
    × (after_one.transactions ≡ failed_tables.transactions)
unfolding find
Failing-dead_letter_example =
    Failing-dead_letter 5 late_capture failed_tables after_one 0 refl failed_once

-- Two calls, the second of which is one too many.
two_calls : Served 1 100 1 20 (10 ∷ []) (10 ∷ [])
unfolding check_local drop_expired
two_calls = call 10 20 1 (10 ∷ []) (10 ∷ []) (call 0 10 1 [] [] idle (omega arith)) (omega arith)

admitted_in-le-limit_example : admitted_in 0 100 (10 ∷ []) ≤ 1
admitted_in-le-limit_example = admitted_in-le-limit 1 100 1 20 (10 ∷ []) (10 ∷ []) two_calls 0
