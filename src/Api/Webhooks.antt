-- ===== src/Api/Webhooks.antt =====
-- apps/api/routes/webhooks.py: the ingestion of a gateway's webhook. The body is given as parsed;
-- the comparison of its signature (hmac) is an argument.
pub mod Safety
pub mod Delivery
pub mod Retries
use mandate_razorpay_control.Prelude.{
  ℕ, ◌+◌, Bool, true, false, not, ◌||◌, Option, none, some, List, [], ◌∷◌, find, modify, filter,
  leb, ◌==◌, if◌then◌else◌,
}
use mandate_razorpay_control.Prelude.Int.{ℤ, pos, ◌+ℤ◌, ◌-ℤ◌, leb_ℤ}
use mandate_razorpay_control.Core.Enums.{
  OperationStatus, TransactionStatus, AuditAction, same_status,
}
use mandate_razorpay_control.Core.StateMachine.{validate_transition, status_in}
use mandate_razorpay_control.Core.Models.{
  Mandate, FinancialOperation, Transaction, WebhookEvent, EventType, WebhookStatus, Message,
  ResourceType, mandate_key, operation_key, transaction_key, webhook_key,
}
use mandate_razorpay_control.Core.Database.{
  Db, Exception, Detail, Result, ok, err, ◌>>=◌, ◌>>◌, raise_if, raise_unless_valid, or_raise,
  scalar_one_or_none, add_audit, audit, with_status, with_error,
}
use mandate_razorpay_control.Api.PaymentEvents.{EventPayload, process_domain_webhook_event}
use mandate_razorpay_control.Core.Concurrency.{release, commit}

pub record EventData : Type 0 where
  pub event_id : Option ℕ
  pub event : EventType
  pub payload : EventPayload

-- `fresh_id` is drawn for an event that has none.
pub record WebhookRequest : Type 0 where
  pub has_secret : Bool
  pub is_production : Bool
  pub signature_matches : Bool
  pub body : Option EventData
  pub fresh_id : ℕ

pub data Reply : Type 0 where
  duplicate_ignored : Reply
  handled : WebhookStatus → Reply

abbrev new_event : ℕ → EventType → WebhookEvent
new_event event_id event = record {
  event_id = event_id;
  event_type = event;
  signature_verified = true;
  status = WebhookStatus.processing;
  processed = false;
  processing_attempts = 1;
  max_retries = 3;
}

abbrev retry_event : WebhookEvent → WebhookEvent
retry_event w = record w {
  status = WebhookStatus.processing;
  processing_attempts = w.processing_attempts + 1;
}

-- The record of the event, with this delivery counted.
abbrev pub delivery : ℕ → EventType → Option WebhookEvent → WebhookEvent
delivery event_id event none = new_event event_id event
delivery event_id event (some w) = retry_event w

-- The table with that record in it.
abbrev pub with_delivery :
    ℕ → WebhookEvent → Option WebhookEvent → List WebhookEvent → List WebhookEvent
with_delivery event_id w none events = w ∷ events
with_delivery event_id w (some old) events = modify event_id (λ x. w) events

abbrev pub is_processed : Option WebhookEvent → Bool
is_processed none = false
is_processed (some w) = elim w.status [ WebhookStatus.processed ↦ true | _ ↦ false ]

-- Where an event goes when its processing raises.
abbrev pub failure_status : WebhookEvent → WebhookStatus
failure_status w =
    if leb w.max_retries w.processing_attempts
    then WebhookStatus.dead_letter
    else WebhookStatus.failed

abbrev pub store_event : ℕ → WebhookEvent → Option WebhookEvent → Db → Db
store_event event_id w old db = record db {
  webhook_events = with_delivery event_id w old db.webhook_events;
}

-- The `try` around the processing, and its `except`. What raises has written nothing.
abbrev pub conclude : ℕ → WebhookEvent → Option WebhookEvent → Result Db → Db → Db × Reply
conclude event_id w old (ok done) db = (
  store_event event_id (record w { status = WebhookStatus.processed; processed = true }) old done,
  handled WebhookStatus.processed,
)
conclude event_id w old (err e) db = (
  store_event event_id (record w { status = failure_status w }) old db,
  handled (failure_status w),
)

unfoldable pub deliver : ℕ → EventData → Option WebhookEvent → Db → Db × Reply
deliver event_id data_ old db =
    let w = delivery event_id data_.event old in
    if is_processed old
    then (db, duplicate_ignored)
    else conclude event_id w old (process_domain_webhook_event data_.event data_.payload db) db

abbrev pub event_key : EventData → ℕ → ℕ
event_key d fresh_id = elim d.event_id [ none ↦ fresh_id | some i ↦ i ]

-- The refusals before the body is read.
abbrev pub check_signature : WebhookRequest → Result (Unit {0})
check_signature r =
    if r.has_secret
    then raise_if (not r.signature_matches) (Exception.bad_request Detail.invalid_signature)
    else raise_if r.is_production (Exception.server_error Detail.secret_missing)

unfoldable pub handle_razorpay_webhook : WebhookRequest → Db → Result (Db × Reply)
handle_razorpay_webhook r db = do
  check_signature r
  event ← or_raise r.body (Exception.bad_request Detail.malformed_json)
  let event_id = event_key event r.fresh_id
  ok (deliver event_id event (find event_id db.webhook_events) db)
