-- ===== src/Worker/Sweep.antt =====
-- services/worker/main.py: the sweep and the ledger.
use mandate_razorpay_control.Prelude.{
  ℕ, ◌+◌, ◌≡◌, ◌≢◌, refl, sym, subst, ◌∙◌, true, Option, none, some, List, [], ◌∷◌, filter, All,
  find, modify, sum_of, UniqueKeys, find_key, filter-UniqueKeys, filter-found, find-cons_none,
  find-modify_ne, sum_of-modify, arith, if◌then◌else◌,
}
use mandate_razorpay_control.Core.Enums.{OperationStatus}
use mandate_razorpay_control.Core.Models.{Mandate, FinancialOperation, mandate_key, operation_key}
use mandate_razorpay_control.Core.Database.{Db, ok, with_status, with_error}
use mandate_razorpay_control.Core.Concurrency.{release, commit}
use mandate_razorpay_control.Core.Outcomes.{OnOk, bind-OnOk, if-OnOk, implied-OnOk}
use mandate_razorpay_control.Ledger.{in_flight, IsConsistent, Consistent}
use mandate_razorpay_control.Ledger.Settlement.{Settles, Lands, settle-IsConsistent}
use mandate_razorpay_control.Api.Gateway.{RazorpayClient}
use mandate_razorpay_control.Api.Operations.Safety.{
  release-Settles, commit-Settles, error-Lands, status-Lands,
}
use mandate_razorpay_control.Worker.Outcomes.{Outcome, left, expired, paid, reconcile_of-Outcome}
use mandate_razorpay_control.Worker.{
  Worker, is_stuck, reconcile_of, sweep, beat, reconcile_stuck_reservations,
}

-- One for an operation in flight.
abbrev pub flying : FinancialOperation → ℕ
flying o = if in_flight o.status then 1 else 0

-- The operation is in flight, and its row is as it was selected.
abbrev pub Waits : Db → FinancialOperation → Type 0
Waits db o = (find o.id db.operations ≡ some o) × (in_flight o.status ≡ true)

-- How one turn changes the tables: `n` operations land, and the rows of other operations stay.
pub record Turn (db : Db) (n : ℕ) (op : FinancialOperation) (ms : List Mandate)
    (ops : List FinancialOperation) : Type 0 where
  pub consistent : IsConsistent ms ops
  pub counted : sum_of flying ops + n ≡ sum_of flying db.operations
  pub others : (j : ℕ) → op.id ≢ j → find j ops ≡ find j db.operations

module _ (db : Db) (v : Consistent db) (op : FinancialOperation) (w : Waits db op) where
  stays : Turn db 0 op db.mandates db.operations
  stays = record { consistent = v; counted = omega arith; others = λ j ne. refl }

  module _ (m : Mandate) (owned : find op.mandate_id db.mandates ≡ some m) where
    landed_count :
        (f : FinancialOperation → FinancialOperation)
        → Lands op (f op)
        → sum_of flying (modify op.id f db.operations) + 1 ≡ sum_of flying db.operations
    landed_count f l =
        ground (arith, sum_of-modify flying op.id f op db.operations w.0, w.1, l.landed)

    own_key : m.id ≡ op.mandate_id
    own_key = find_key op.mandate_id m db.mandates owned

    lands :
        (f : FinancialOperation → FinancialOperation) (k : Mandate → Mandate)
        → ((x : FinancialOperation) → Lands x (f x))
        → ((x : Mandate) → (k x).id ≡ x.id)
        → Settles op.amount m (k m)
        → Turn db 1 op (modify m.id k db.mandates) (modify op.id f db.operations)
    lands f k l key s = record {
      consistent =
          settle-IsConsistent v op.id op f m.id m k w.0 w.1 (sym own_key)
            (subst (λ i. find i db.mandates ≡ some m) (sym own_key) owned) l key s;
      counted = landed_count f (l op);
      others = λ j ne. find-modify_ne op.id j f db.operations (λ x. (l x).same_key) ne;
    }

  abbrev Turned : Option Mandate → Db × ℕ → Type 0
  Turned o x = find op.mandate_id db.mandates ≡ o → Turn db x.1 op x.0.mandates x.0.operations

  turns : (o : Option Mandate) (x : Db × ℕ) → Outcome db op o x → Turned o x
  turns o x (left _) owned = stays
  turns o x (expired m why) owned =
      lands m owned (with_error OperationStatus.failed why) (release op.amount)
        (λ y. error-Lands OperationStatus.failed why y refl) (λ y. refl)
        (release-Settles op.amount m)
  turns o x (paid m tx) owned =
      lands m owned (with_status OperationStatus.succeeded) (commit op.amount)
        (λ y. status-Lands OperationStatus.succeeded y refl) (λ y. refl)
        (commit-Settles op.amount m)

  pub Turn-of :
      (g : RazorpayClient) (later : ℕ) (o : Option Mandate)
      → find op.mandate_id db.mandates ≡ o
      → OnOk (λ x. Turn db x.1 op x.0.mandates x.0.operations) (reconcile_of g later op o db)
  Turn-of g later o owned =
      implied-OnOk _ (λ x done. turns o x done owned) (reconcile_of g later op o db)
        (reconcile_of-Outcome db op g later o)

-- The operations that are still to come are other rows.
pub Waits-on :
    (db db' : Db) (n : ℕ) (op : FinancialOperation) (ops : List FinancialOperation)
    → Turn db n op db'.mandates db'.operations
    → find op.id ops ≡ none
    → All (Waits db) ops
    → All (Waits db') ops
Waits-on db db' n op [] t fresh w = tt
Waits-on db db' n op (o ∷ ops) t fresh w =
    let (differs, rest) = find-cons_none op.id o ops fresh in
    (
      (t.others o.id (λ same. differs (sym same)) ∙ w.0.0, w.0.1),
      Waits-on db db' n op ops t rest w.1,
    )

abbrev Swept : Db → Db × ℕ → Type 0
Swept db x = Consistent x.0 × (sum_of flying x.0.operations + x.1 ≡ sum_of flying db.operations)

sweep-Swept :
    (g : RazorpayClient) (later : ℕ → ℕ) (ops : List FinancialOperation) (db : Db)
    → Consistent db
    → UniqueKeys ops
    → All (Waits db) ops
    → OnOk (Swept db) (sweep g later ops db)
unfolding sweep
sweep-Swept g later [] db v u w = (v, omega arith)
sweep-Swept g later (op ∷ ops) db v u w =
    bind-OnOk (Swept db) (reconcile_of g (later op.id) op (find op.mandate_id db.mandates) db) _
      λ one e.
        let t : Turn db one.1 op one.0.mandates one.0.operations =
          subst (OnOk (T op)) e (Turn-of db v op w.0 g (later op.id) _ refl) in
        bind-OnOk (Swept db) (sweep g later ops one.0) (λ rest. ok (rest.0, one.1 + rest.1))
          λ rest e'.
            let (c, n) = subst (OnOk (Swept one.0)) e' (
              sweep-Swept g later ops one.0 t.consistent u.1
                (Waits-on db one.0 one.1 op ops t u.0 w.1)) in
            (c, omega (arith, n, t.counted))
  where
    T : FinancialOperation → Db × ℕ → Type 0
    T op x = Turn db x.1 op x.0.mandates x.0.operations

stuck_flies :
    (timeout now : ℕ) (o : FinancialOperation)
    → is_stuck timeout now o ≡ true
    → in_flight o.status ≡ true
stuck_flies timeout now o h = ground arith

pub selected :
    (db : Db) (timeout now : ℕ) (ops : List FinancialOperation)
    → All (λ o. (find o.id db.operations ≡ some o) × (is_stuck timeout now o ≡ true)) ops
    → All (Waits db) ops
selected db timeout now [] h = tt
selected db timeout now (o ∷ ops) h =
    ((h.0.0, stuck_flies timeout now o h.0.1), selected db timeout now ops h.1)

-- A sweep that does not raise, whatever the gateway says of each order, leaves the ledger
-- consistent, and the count that it returns is by how much the operations in flight became fewer.
pub reconcile_stuck_reservations-counts :
    (g : RazorpayClient) (timeout_seconds now : ℕ) (later : ℕ → ℕ) (w : Worker) (db : Db)
    → Consistent db
    → OnOk
        (λ x.
          Consistent x.1.0 × (sum_of flying x.1.0.operations + x.1.1 ≡ sum_of flying db.operations))
        (reconcile_stuck_reservations g timeout_seconds now later w db)
unfolding reconcile_stuck_reservations
reconcile_stuck_reservations-counts g timeout_seconds now later w db v =
    let stuck = is_stuck timeout_seconds now in
    if-OnOk (λ x. Swept db x.1) w.locked _ _ (v, omega arith)
      (bind-OnOk (λ x. Swept db x.1) (sweep g later (filter stuck db.operations) db)
        (λ done. ok (beat w done.1, done))
        λ done e. subst (OnOk (Swept db)) e (
          sweep-Swept g later _ db v (filter-UniqueKeys stuck db.operations v.unique) (
            selected db timeout_seconds now _
              (filter-found stuck db.operations db.operations v.unique λ i x found. found))))
