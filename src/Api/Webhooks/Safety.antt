-- ===== src/Api/Webhooks/Safety.antt =====
-- apps/api/routes/webhooks.py: webhooks keep the ledger consistent.
use mandate_razorpay_control.Prelude.{ℕ, ◌≡◌, inl, inr, Option, some, Bool-cases}
use mandate_razorpay_control.Prelude.Int.{pos, ◌≤ℤ◌}
use mandate_razorpay_control.Core.Models.{WebhookEvent, mandate_key, operation_key}
use mandate_razorpay_control.Core.Database.{Db, Result, ok, err}
use mandate_razorpay_control.Core.Outcomes.{OnOk, bind-OnOk, or_raise-OnOk}
use mandate_razorpay_control.Ledger.{Consistent}
use mandate_razorpay_control.Api.Webhooks.{
  EventData, WebhookRequest, conclude, delivery, deliver, is_processed, check_signature,
  handle_razorpay_webhook,
}
use mandate_razorpay_control.Api.PaymentEvents.Safety.{process-Consistent}

module _ (db : Db) (v : Consistent db) where
  conclude-Consistent :
      (i : ℕ) (w : WebhookEvent) (old : Option WebhookEvent) (r : Result Db)
      → OnOk Consistent r
      → Consistent (conclude i w old r db).0
  conclude-Consistent i w old (ok done) h = h
  conclude-Consistent i w old (err e) h = v

  deliver-Consistent :
      (i : ℕ) (d : EventData) (old : Option WebhookEvent)
      → pos 0 ≤ℤ d.payload.refund_amount
      → Consistent (deliver i d old db).0
  unfolding deliver
  deliver-Consistent i d old h = elim (Bool-cases (is_processed old)) [
    | inl done ↦ rw done v
    | inr fresh ↦ rw fresh (
        conclude-Consistent i (delivery i d.event old) old _
          (process-Consistent db v d.event d.payload h))
  ]

-- Whatever a webhook brings and however often, as long as no refund is negative: a delivery that
-- does not raise leaves every mandate's reserved spend equal to what the operations in flight hold
-- of it, and committed plus reserved within the limit.
pub handle_razorpay_webhook-Consistent :
    (r : WebhookRequest) (db : Db)
    → Consistent db
    → ((d : EventData) → r.body ≡ some d → pos 0 ≤ℤ d.payload.refund_amount)
    → OnOk (λ x. Consistent x.0) (handle_razorpay_webhook r db)
unfolding handle_razorpay_webhook
handle_razorpay_webhook-Consistent r db v h =
    bind-OnOk (λ x. Consistent x.0) (check_signature r) _
      λ u e.
        or_raise-OnOk (λ x. Consistent x.0) r.body _ _
          λ d given. deliver-Consistent db v _ d _ (h d given)
