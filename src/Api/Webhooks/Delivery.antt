-- ===== src/Api/Webhooks/Delivery.antt =====
-- apps/api/routes/webhooks.py: what the record of an event makes of a repeated delivery.
use mandate_razorpay_control.Prelude.{
  ℕ, ◌≡◌, refl, ap, subst, sym, ◌∙◌, true, false, Option, none, some, List, [], ◌∷◌, find,
  find-modify_self, arith, inl, inr, ◌⊎◌, Bool-cases,
}
use mandate_razorpay_control.Prelude.Int.{ℤ}
use mandate_razorpay_control.Core.Enums.{OperationStatus, same_status}
use mandate_razorpay_control.Core.StateMachine.{status_in, validate_transition}
use mandate_razorpay_control.Core.Models.{
  FinancialOperation, Transaction, WebhookEvent, WebhookStatus, EventType, operation_key,
  webhook_key,
}
use mandate_razorpay_control.Core.Database.{
  Db, Exception, Result, ok, err, ◌>>◌, raise_unless_valid, scalar_one_or_none,
}
use mandate_razorpay_control.Core.Outcomes.{OnOk, bind-OnOk}
use mandate_razorpay_control.Api.Webhooks.{
  EventData, WebhookRequest, Reply, duplicate_ignored, handled, conclude, delivery, with_delivery,
  deliver, is_processed, store_event, failure_status, check_signature, handle_razorpay_webhook,
}
use mandate_razorpay_control.Api.PaymentEvents.{
  EventPayload, settle_captured, capture_operation, capture_transaction, capture_order,
  settle_failed, fail_operation, fail_transaction, fail_order, refund_operation, refund_transaction,
  refund_payment, handle_payment_captured_event, handle_payment_failed_event,
  handle_refund_processed_event, process_domain_webhook_event, by_order, by_payment,
}

-- No event's transition writes the table of events.
abbrev KeepsEvents : Db → Db → Type 0
KeepsEvents db db' = db'.webhook_events ≡ db.webhook_events

module _ (db : Db) where
  capture_order-KeepsEvents : (o p : Option ℕ) → OnOk (KeepsEvents db) (capture_order o p db)
  unfolding capture_order settle_captured capture_operation capture_transaction
  capture_order-KeepsEvents none p = refl
  capture_order-KeepsEvents (some i) p =
      bind-OnOk (KeepsEvents db) (scalar_one_or_none (by_order i db.transactions)) _
        λ tx e. keeps tx
    where
      checked :
          (op : FinancialOperation) (tx : Transaction)
          → OnOk (KeepsEvents db) (
              raise_unless_valid (validate_transition op.status OperationStatus.succeeded)
              >> ok (settle_captured op tx p db))
      checked op tx =
          bind-OnOk (KeepsEvents db)
            (raise_unless_valid (validate_transition op.status OperationStatus.succeeded)) _
            λ u e. refl

      on_operation :
          (tx : Transaction) (o : Option FinancialOperation)
          → OnOk (KeepsEvents db) (capture_operation tx p o db)
      on_operation tx none = refl
      on_operation tx (some op) =
          elim (Bool-cases (same_status op.status OperationStatus.succeeded)) [
            | inl done ↦ rw done refl
            | inr other ↦ rw other (checked op tx)
          ]

      keeps : (tx : Option Transaction) → OnOk (KeepsEvents db) (capture_transaction p tx db)
      keeps none = refl
      keeps (some tx) = on_operation tx (find tx.operation_id db.operations)

  fail_operation-KeepsEvents :
      (tx : Transaction) (o : Option FinancialOperation)
      → OnOk (KeepsEvents db) (fail_operation tx o db)
  unfolding fail_operation settle_failed
  fail_operation-KeepsEvents tx none = refl
  fail_operation-KeepsEvents tx (some op) =
      elim (Bool-cases
        (status_in op.status (OperationStatus.executing ∷ OperationStatus.reserved ∷ []))) [
          | inl flies ↦ rw flies refl
          | inr landed ↦ rw landed refl
        ]

  fail_order-KeepsEvents : (o : Option ℕ) → OnOk (KeepsEvents db) (fail_order o db)
  unfolding fail_order fail_transaction
  fail_order-KeepsEvents none = refl
  fail_order-KeepsEvents (some i) =
      bind-OnOk (KeepsEvents db) (scalar_one_or_none (by_order i db.transactions)) _
        λ tx e. keeps tx
    where
      keeps : (tx : Option Transaction) → OnOk (KeepsEvents db) (fail_transaction tx db)
      keeps none = refl
      keeps (some tx) = fail_operation-KeepsEvents tx (find tx.operation_id db.operations)

  refund_payment-KeepsEvents :
      (o : Option ℕ) (a : ℤ) → OnOk (KeepsEvents db) (refund_payment o a db)
  unfolding refund_payment refund_operation refund_transaction
  refund_payment-KeepsEvents none a = refl
  refund_payment-KeepsEvents (some i) a =
      bind-OnOk (KeepsEvents db) (scalar_one_or_none (by_payment i db.transactions)) _
        λ tx e. keeps tx
    where
      on_operation :
          (o : Option FinancialOperation) → OnOk (KeepsEvents db) (refund_operation a o db)
      on_operation none = refl
      on_operation (some op) = refl

      keeps : (tx : Option Transaction) → OnOk (KeepsEvents db) (refund_transaction a tx db)
      keeps none = refl
      keeps (some tx) = on_operation (find tx.operation_id db.operations)

  process-KeepsEvents :
      (t : EventType) (p : EventPayload)
      → OnOk (KeepsEvents db) (process_domain_webhook_event t p db)
  unfolding process_domain_webhook_event handle_payment_captured_event handle_payment_failed_event
      handle_refund_processed_event
  process-KeepsEvents EventType.order_paid p = capture_order-KeepsEvents _ _
  process-KeepsEvents EventType.payment_captured p = capture_order-KeepsEvents _ _
  process-KeepsEvents EventType.payment_failed p = fail_order-KeepsEvents _
  process-KeepsEvents EventType.refund_processed p = refund_payment-KeepsEvents _ _
  process-KeepsEvents (EventType.other t) p = refl

-- The record of the event that is stored is the one that the next delivery finds.
stored :
    (i : ℕ) (t : EventType) (w' : WebhookEvent) (old : Option WebhookEvent)
    (rows : List WebhookEvent)
    → find i rows ≡ old
    → w'.event_id ≡ (delivery i t old).event_id
    → find i (with_delivery i w' old rows) ≡ some w'
unfolding find
stored i t w' none rows e same = ground arith
stored i t w' (some old) rows e same = find-modify_self i (λ x. w') old rows same e

abbrev processed_record : WebhookEvent → WebhookEvent
processed_record w = record w { status = WebhookStatus.processed; processed = true }

-- No failure is recorded as processed.
failure_unprocessed :
    (w : WebhookEvent) → ¬ (handled (failure_status w) ≡ handled WebhookStatus.processed)
failure_unprocessed w e = ground arith

replied :
    (db db' : Db)
    → ¬ (◌≡◌ {A = Db × Reply} (db, duplicate_ignored) (db', handled WebhookStatus.processed))
replied db db' e = cc

module _ (i : ℕ) (d d' : EventData) (db : Db) where
  found_again :
      (w : WebhookEvent) (db' : Db)
      → find i db'.webhook_events ≡ some (processed_record w)
      → deliver i d' (find i db'.webhook_events) db' ≡ (db', duplicate_ignored)
  unfolding deliver
  found_again w db' e = rw (e, deliver) refl

  concluded :
      (old : Option WebhookEvent) (r : Result Db) (db' : Db)
      → find i db.webhook_events ≡ old
      → OnOk (KeepsEvents db) r
      → conclude i (delivery i d.event old) old r db ≡ (db', handled WebhookStatus.processed)
      → deliver i d' (find i db'.webhook_events) db' ≡ (db', duplicate_ignored)
  concluded old (ok done) db' e keeps given =
      subst (λ x. deliver i d' (find i x.webhook_events) x ≡ (x, duplicate_ignored))
        (ap (λ x. x.0) given)
        (found_again (delivery i d.event old)
          (store_event i (processed_record (delivery i d.event old)) old done)
          (stored i d.event _ old done.webhook_events (ap (find i) keeps ∙ e) refl))
  concluded old (err x) db' e keeps given =
      elim (failure_unprocessed (delivery i d.event old) (ap (λ y. y.1) given)) [ ]

  ignored :
      (old : Option WebhookEvent)
      → is_processed old ≡ true
      → deliver i d old db ≡ (db, duplicate_ignored)
  unfolding deliver
  ignored old done = rw (done, deliver) refl

  anew :
      (old : Option WebhookEvent)
      → is_processed old ≡ false
      → deliver i d old db
        ≡ conclude i
            (delivery i d.event old)
            old
            (process_domain_webhook_event d.event d.payload db)
            db
  unfolding deliver
  anew old fresh = rw (fresh, deliver) refl

  delivered :
      (old : Option WebhookEvent) (db' : Db)
      → find i db.webhook_events ≡ old
      → deliver i d old db ≡ (db', handled WebhookStatus.processed)
      → deliver i d' (find i db'.webhook_events) db' ≡ (db', duplicate_ignored)
  delivered old db' e given = elim (Bool-cases (is_processed old)) [
    | inl done ↦ elim (replied db db' (sym (ignored old done) ∙ given)) [ ]
    | inr fresh ↦
        concluded old _ db' e (process-KeepsEvents db d.event d.payload)
          (sym (anew old fresh) ∙ given)
  ]

passes : (c : Result (Unit {0})) → (c ≡ ok tt) ⊎ ((e : Exception) × (c ≡ err e))
passes (ok u) = inl refl
passes (err e) = inr (e, refl)

ok_inj : (x y : Db × Reply) → ok x ≡ ok y → x ≡ y
ok_inj x y e = cc

err_ok : (e : Exception) (x : Db × Reply) → ¬ (err e ≡ ok x)
err_ok e x h = cc

-- Behind the signature check and the parse.
module _ (i : ℕ) (r : WebhookRequest) (d : EventData) (db : Db) (given : r.body ≡ some d)
    (named : d.event_id ≡ some i) where
  admitted :
      check_signature r ≡ ok tt
      → handle_razorpay_webhook r db ≡ ok (deliver i d (find i db.webhook_events) db)
  unfolding handle_razorpay_webhook
  admitted signed =
      rw (signed, handle_razorpay_webhook)
        (rw (given, handle_razorpay_webhook) (rw (named, handle_razorpay_webhook) refl))

  turned_away : (e : Exception) → check_signature r ≡ err e → handle_razorpay_webhook r db ≡ err e
  unfolding handle_razorpay_webhook
  turned_away e refused = rw (refused, handle_razorpay_webhook) refl

  answered :
      (x : Db × Reply)
      → handle_razorpay_webhook r db ≡ ok x
      → deliver i d (find i db.webhook_events) db ≡ x
  answered x first = elim (passes (check_signature r)) [
    | inl signed ↦ ok_inj _ x (sym (admitted signed) ∙ first)
    | inr (e, refused) ↦ elim (err_ok e x (sym (turned_away e refused) ∙ first)) [ ]
  ]

-- Once a delivery of an event with an id has answered that it is processed, any later request that
-- passes the signature check and brings an event with that id, whatever else it holds, is answered
-- as a duplicate and changes nothing.
pub redelivery-ignored :
    (i : ℕ) (r r' : WebhookRequest) (d d' : EventData) (db db' : Db)
    → r.body ≡ some d
    → d.event_id ≡ some i
    → r'.body ≡ some d'
    → d'.event_id ≡ some i
    → check_signature r' ≡ ok tt
    → handle_razorpay_webhook r db ≡ ok (db', handled WebhookStatus.processed)
    → handle_razorpay_webhook r' db' ≡ ok (db', duplicate_ignored)
redelivery-ignored i r r' d d' db db' b k b' k' signed first =
    admitted i r' d' db' b' k' signed
    ∙ ap ok (
        delivered i d d' db _ db' refl
          (answered i r d db b k (db', handled WebhookStatus.processed) first))
