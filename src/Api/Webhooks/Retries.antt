-- ===== src/Api/Webhooks/Retries.antt =====
-- apps/api/routes/webhooks.py: an event whose processing keeps raising.
use mandate_razorpay_control.Prelude.{
  ℕ, zero, suc, ◌≡◌, refl, sym, ap, subst, ◌∙◌, false, Option, none, some, find, find-modify_self,
  arith, leb, if◌then◌else◌,
}
use mandate_razorpay_control.Core.Models.{WebhookEvent, WebhookStatus, webhook_key}
use mandate_razorpay_control.Core.Database.{Db, Exception, err}
use mandate_razorpay_control.Api.PaymentEvents.{process_domain_webhook_event}
use mandate_razorpay_control.Api.Webhooks.{
  EventData, delivery, store_event, deliver, is_processed, failure_status,
}

-- A number of deliveries of one event, each of which raised: the tables before and after.
pub data Failing (i : ℕ) (d : EventData) (before : Db) : ℕ → Db → Type 0 where
  none_yet : Failing i d before 0 before
  fails :
      (n : ℕ) (db : Db) (e : Exception)
      → Failing i d before n db
      → process_domain_webhook_event d.event d.payload db ≡ err e
      → Failing i d before (suc n) (deliver i d (find i db.webhook_events) db).0

-- What an event that was delivered `n` times is recorded as.
abbrev status_after : ℕ → WebhookStatus
status_after n = if leb 3 n then WebhookStatus.dead_letter else WebhookStatus.failed

-- The record of an event that failed `n` times.
record Recorded (i : ℕ) (n : ℕ) (db : Db) : Type 0 where
  row : WebhookEvent
  found : find i db.webhook_events ≡ some row
  attempts : row.processing_attempts ≡ n
  retries : row.max_retries ≡ 3
  status : row.status ≡ status_after n

-- Before the first delivery there is no record.
abbrev Counted : ℕ → ℕ → Db → Type 0
Counted i zero db = find i db.webhook_events ≡ none
Counted i (suc n) db = Recorded i (suc n) db

status_unprocessed :
    (n : ℕ) (w : WebhookEvent) → w.status ≡ status_after n → is_processed (some w) ≡ false
status_unprocessed n w e = ground arith

module _ (i : ℕ) (d : EventData) (db : Db) (e : Exception)
    (raises : process_domain_webhook_event d.event d.payload db ≡ err e) where
  abbrev failed_record : Option WebhookEvent → WebhookEvent
  failed_record old = let w = delivery i d.event old in record w { status = failure_status w }

  failed_delivery :
      (old : Option WebhookEvent)
      → is_processed old ≡ false
      → (deliver i d old db).0 ≡ store_event i (failed_record old) old db
  unfolding deliver
  failed_delivery old fresh = rw (fresh, deliver) (rw raises refl)

  leaves :
      (old : Option WebhookEvent)
      → find i db.webhook_events ≡ old
      → is_processed old ≡ false
      → (deliver i d (find i db.webhook_events) db).0 ≡ store_event i (failed_record old) old db
  leaves old found fresh = ap (λ o. (deliver i d o db).0) found ∙ failed_delivery old fresh

  first_failure :
      find i db.webhook_events ≡ none → Recorded i 1 (deliver i d (find i db.webhook_events) db).0
  unfolding find
  first_failure missing = subst (Recorded i 1) (sym (leaves none missing refl)) (record {
    row = failed_record none;
    found = ground arith;
    attempts = refl;
    retries = refl;
    status = refl;
  })

  same_status_after :
      (n : ℕ) (r : Recorded i n db) → (failed_record (some r.row)).status ≡ status_after (suc n)
  same_status_after n r = ground (arith, r.attempts, r.retries)

  next_failure :
      (n : ℕ) → Recorded i n db → Recorded i (suc n) (deliver i d (find i db.webhook_events) db).0
  next_failure n r =
      subst (Recorded i (suc n))
        (sym (leaves (some r.row) r.found (status_unprocessed n r.row r.status)))
        (record {
          row = failed_record (some r.row);
          found =
              find-modify_self i (λ x. failed_record (some r.row)) r.row db.webhook_events refl
                r.found;
          attempts = omega (arith, r.attempts);
          retries = r.retries;
          status = same_status_after n r;
        })

counted :
    (i : ℕ) (d : EventData) (before db : Db) (n : ℕ)
    → find i before.webhook_events ≡ none
    → Failing i d before n db
    → Counted i n db
counted i d before _ _ new none_yet = new
counted i d before _ _ new (fails zero db e run raises) =
    first_failure i d db e raises (counted i d before db zero new run)
counted i d before _ _ new (fails (suc n) db e run raises) =
    next_failure i d db e raises (suc n) (counted i d before db (suc n) new run)

-- The tables of money are the same.
abbrev Untouched : Db → Db → Type 0
Untouched before db =
    (db.mandates ≡ before.mandates)
    × (db.operations ≡ before.operations)
    × (db.transactions ≡ before.transactions)

only_stores :
    (i : ℕ) (d : EventData) (db : Db) (e : Exception) (n : ℕ)
    → process_domain_webhook_event d.event d.payload db ≡ err e
    → Counted i n db
    → (w : WebhookEvent) × (old : Option WebhookEvent) × ((deliver i d
          (find i db.webhook_events)
          db).0
        ≡ store_event i w old db)
only_stores i d db e zero raises new = (_, none, leaves i d db e raises none new refl)
only_stores i d db e (suc n) raises r = (
  _,
  some r.row,
  leaves i d db e raises (some r.row) r.found (status_unprocessed (suc n) r.row r.status),
)

keeps-Untouched :
    (i : ℕ) (before db db' : Db) (w : WebhookEvent) (old : Option WebhookEvent)
    → db' ≡ store_event i w old db
    → Untouched before db
    → Untouched before db'
keeps-Untouched i before db db' w old e (m, o, t) =
    (ap (λ x. x.mandates) e ∙ m, ap (λ x. x.operations) e ∙ o, ap (λ x. x.transactions) e ∙ t)

untouched :
    (i : ℕ) (d : EventData) (before db : Db) (n : ℕ)
    → find i before.webhook_events ≡ none
    → Failing i d before n db
    → Untouched before db
untouched i d before _ _ new none_yet = (refl, refl, refl)
untouched i d before _ _ new (fails n db e run raises) =
    let (w, old, stored) = only_stores i d db e n raises (counted i d before db n new run) in
    keeps-Untouched i before db _ w old stored (untouched i d before db n new run)

-- Where each of n + 1 deliveries of an event that had no record raised, the record counts n + 1
-- attempts, it is a dead letter from the third on and failed before, and the mandates, operations
-- and transactions are as they were before the first.
pub Failing-dead_letter :
    (i : ℕ) (d : EventData) (before db : Db) (n : ℕ)
    → find i before.webhook_events ≡ none
    → Failing i d before (suc n) db
    → (w : WebhookEvent) × (find i db.webhook_events ≡ some w)
      × (w.processing_attempts ≡ suc n)
      × (w.status ≡ (if leb 3 (suc n) then WebhookStatus.dead_letter else WebhookStatus.failed))
      × (db.mandates ≡ before.mandates)
      × (db.operations ≡ before.operations)
      × (db.transactions ≡ before.transactions)
Failing-dead_letter i d before db n new run =
    let r : Recorded i (suc n) db = counted i d before db (suc n) new run in
    let (m, o, t) = untouched i d before db (suc n) new run in
    (r.row, r.found, r.attempts, r.status, m, o, t)
