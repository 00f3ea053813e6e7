-- ===== src/Worker/Recovery.antt =====
-- services/worker/main.py: what a sweep promises of a crash before any call of the gateway.
use mandate_razorpay_control.Prelude.{
  ℕ, ◌+◌, ◌≡◌, refl, subst, ◌∙◌, true, false, Bool, none, some, inl, inr, List, [], ◌∷◌, filter,
  All, find, UniqueKeys, filter-UniqueKeys, filter-found, find-cons_none, find-cons_cases, arith,
}
use mandate_razorpay_control.Core.Enums.{OperationStatus}
use mandate_razorpay_control.Core.Models.{
  FinancialOperation, Message, mandate_key, operation_key, transaction_key,
}
use mandate_razorpay_control.Core.Database.{Db, ok, with_error}
use mandate_razorpay_control.Core.Outcomes.{OnOk-answer, implied-OnOk}
use mandate_razorpay_control.Ledger.{Consistent}
use mandate_razorpay_control.Api.Gateway.{RazorpayClient}
use mandate_razorpay_control.Worker.{
  Worker, is_stuck, reconcile_of, sweep, beat, reconcile_stuck_reservations,
}
use mandate_razorpay_control.Worker.Outcomes.{reconcile_of-Outcome}
use mandate_razorpay_control.Worker.Sweep.{Waits, Turn, Turn-of, Waits-on, selected}
use mandate_razorpay_control.Worker.Crashes.{
  SingleTransactions, Stays, Crashed, expired_row, Outcome-Stays, Stays-Single, Stays-Crashed,
  reconcile_of-returns, reconcile_of-expires,
}

-- What a sweep over `ops` makes of the tables.
record Recovers (db : Db) (ops : List FinancialOperation) (db' : Db) : Type 0 where
  recovered :
      (j : ℕ) (op : FinancialOperation)
      → find j ops ≡ some op
      → Crashed db op
      → find j db'.operations ≡ some (expired_row op)
  elsewhere : (j : ℕ) → find j ops ≡ none → find j db'.operations ≡ find j db.operations

none_found : (j : ℕ) (op : FinancialOperation) → ¬ (find {A = FinancialOperation} j [] ≡ some op)
unfolding find
none_found j op e = cc

-- The first turn, and the rest of the sweep.
Recovers-cons :
    (g : RazorpayClient) (later : ℕ) (op : FinancialOperation) (ops : List FinancialOperation)
    (db db' : Db) (one : Db × ℕ)
    → find op.id db.operations ≡ some op
    → find op.id ops ≡ none
    → reconcile_of g later op (find op.mandate_id db.mandates) db ≡ ok one
    → Turn db one.1 op one.0.mandates one.0.operations
    → Stays db one.0
    → Recovers one.0 ops db'
    → Recovers db (op ∷ ops) db'
Recovers-cons g later op ops db db' one own fresh e t s r = record {
  recovered = λ j o found crashed. elim (find-cons_cases j op o ops found) [
    | inl here ↦
        let same : op.id ≡ j = here.0 in
        let crash : Crashed db op = subst (Crashed db) here.1 crashed in
        cc (
          same,
          here.1,
          r.elsewhere op.id fresh,
          reconcile_of-expires g later op db one crash own e,
        )
    | inr there ↦ r.recovered j o there.1 (Stays-Crashed db one.0 o s crashed)
  ];
  elsewhere = λ j missing.
      let (differs, rest) = find-cons_none j op ops missing in
      r.elsewhere j rest ∙ t.others j differs;
}

sweep-Recovers :
    (g : RazorpayClient) (later : ℕ → ℕ) (ops : List FinancialOperation) (db : Db)
    → Consistent db
    → SingleTransactions db
    → UniqueKeys ops
    → All (Waits db) ops
    → (x : Db × ℕ) × (sweep g later ops db ≡ ok x) × Recovers db ops x.0
unfolding sweep
sweep-Recovers g later [] db v single u w = (
  (db, 0),
  refl,
  record { recovered = λ j op found c. absurd (none_found j op found); elsewhere = λ j e. refl },
)
sweep-Recovers g later (op ∷ ops) db v single u w =
    let o = find op.mandate_id db.mandates in
    let (one, e) = reconcile_of-returns g (later op.id) op o db single in
    let t : Turn db one.1 op one.0.mandates one.0.operations =
      OnOk-answer (λ x. Turn db x.1 op x.0.mandates x.0.operations) one _
        (Turn-of db v op w.0 g (later op.id) o refl) e in
    let s : Stays db one.0 =
      OnOk-answer (λ x. Stays db x.0) one _
        (implied-OnOk (λ x. Stays db x.0) (Outcome-Stays db op o)
          (reconcile_of g (later op.id) op o db) (reconcile_of-Outcome db op g (later op.id) o))
        e in
    let (rest, e', r) =
      sweep-Recovers g later ops one.0 t.consistent (Stays-Single db one.0 s single) u.1
        (Waits-on db one.0 one.1 op ops t u.0 w.1) in
    (
      (rest.0, one.1 + rest.1),
      rw (e, e') refl,
      Recovers-cons g (later op.id) op ops db rest.0 one w.0.0 u.0 e t s r,
    )

find-filter :
    (p : FinancialOperation → Bool) (j : ℕ) (op : FinancialOperation)
    (ops : List FinancialOperation)
    → find j ops ≡ some op
    → p op ≡ true
    → find j (filter p ops) ≡ some op
unfolding find
find-filter p j op [] e h = cc
find-filter p j op (x ∷ ops) e h = ground (arith, find-filter p j op ops)

-- When no operation has two transactions, a sweep that is not kept out by the lock returns, and an
-- operation that it selects, whose mandate is there and for which nothing was sent to the gateway,
-- has then FAILED with its reservation expired, whatever the other operations came to.
pub reconcile_stuck_reservations-recovers :
    (g : RazorpayClient) (timeout_seconds now : ℕ) (later : ℕ → ℕ) (w : Worker) (db : Db)
    (op : FinancialOperation)
    → Consistent db
    → SingleTransactions db
    → w.locked ≡ false
    → find op.id db.operations ≡ some op
    → is_stuck timeout_seconds now op ≡ true
    → Crashed db op
    → (x : Worker × (Db × ℕ)) × (reconcile_stuck_reservations g timeout_seconds now later w db
        ≡ ok x)
      × (find op.id x.1.0.operations
          ≡ some (with_error OperationStatus.failed Message.reservation_expired op))
unfolding reconcile_stuck_reservations
reconcile_stuck_reservations-recovers g timeout_seconds now later w db op v single free own stuck
      crashed =
    let is_selected = is_stuck timeout_seconds now in
    let (done, e, r) =
      sweep-Recovers g later (filter is_selected db.operations) db v single
        (filter-UniqueKeys is_selected db.operations v.unique)
        (selected db timeout_seconds now _
          (filter-found is_selected db.operations db.operations v.unique λ i x found. found)) in
    (
      (beat w done.1, done),
      rw (free, e) refl,
      r.recovered op.id op (find-filter is_selected op.id op db.operations own stuck) crashed,
    )
