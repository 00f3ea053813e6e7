-- ===== src/Api/PaymentEvents/Capture.antt =====
-- apps/api/routes/webhooks.py: a payment that several events report (`order.paid`,
-- `payment.captured`) is captured once.
use mandate_razorpay_control.Prelude.{
  ℕ, ◌≡◌, refl, sym, subst, ap, ◌∙◌, inl, inr, true, false, Option, none, some, List, [], ◌∷◌, find,
  modify, find_key, find-modify_self, arith, ◌==◌, if◌then◌else◌, Bool-cases,
}
use mandate_razorpay_control.Core.Enums.{OperationStatus, same_status}
use mandate_razorpay_control.Core.StateMachine.{validate_transition}
use mandate_razorpay_control.Core.Models.{
  FinancialOperation, Transaction, operation_key, transaction_key,
}
use mandate_razorpay_control.Core.Database.{
  Db, ok, raise_unless_valid, scalar_one_or_none, with_status,
}
use mandate_razorpay_control.Core.Outcomes.{OnOk, bind-OnOk}
use mandate_razorpay_control.Api.PaymentEvents.{
  EventPayload, or_else, is_some, by_order, captured_transaction, settle_captured,
  capture_operation, capture_transaction, capture_order, handle_payment_captured_event,
}

single :
    (xs : List Transaction) (tx : Transaction) → scalar_one_or_none xs ≡ ok (some tx) → xs ≡ tx ∷ []
single [] tx e = cc
single (x ∷ []) tx e = cc
single (x ∷ y ∷ xs) tx e = cc

same_order :
    (p : Option ℕ) (i : ℕ) (t : Transaction)
    → is_some (captured_transaction p t).gateway_order_id i ≡ is_some t.gateway_order_id i
same_order none i t = refl
same_order (some j) i t = refl

same_operation :
    (p : Option ℕ) (t : Transaction) → (captured_transaction p t).operation_id ≡ t.operation_id
same_operation none t = refl
same_operation (some j) t = refl

-- A capture keeps which transactions an order has.
no_order :
    (p : Option ℕ) (i k : ℕ) (rows : List Transaction)
    → by_order i rows ≡ []
    → by_order i (modify k (captured_transaction p) rows) ≡ []
unfolding modify
no_order p i k [] e = refl
no_order p i k (t ∷ rows) e = ground (arith, same_order p i t, no_order p i k rows)

hit :
    (i : ℕ) (t : Transaction) (rows : List Transaction)
    → is_some t.gateway_order_id i ≡ true
    → by_order i (t ∷ rows) ≡ t ∷ by_order i rows
hit i t rows e = rw (e, by_order) refl

miss :
    (i : ℕ) (t : Transaction) (rows : List Transaction)
    → is_some t.gateway_order_id i ≡ false
    → by_order i (t ∷ rows) ≡ by_order i rows
miss i t rows e = rw (e, by_order) refl

cons_inj : (t u : Transaction) (xs : List Transaction) → t ∷ xs ≡ u ∷ [] → (t ≡ u) × (xs ≡ [])
cons_inj t u xs e = (cc, cc)

abbrev One : ℕ → Transaction → List Transaction → Type 0
One i tx rows = (x : Transaction) × (by_order i rows ≡ x ∷ []) × (x.operation_id ≡ tx.operation_id)

module _ (p : Option ℕ) (i k : ℕ) (t : Transaction) (rows : List Transaction)
    (tx : Transaction) where
  abbrev f : Transaction → Transaction
  f = captured_transaction p

  One-hit :
      is_some t.gateway_order_id i ≡ true
      → by_order i (t ∷ rows) ≡ tx ∷ []
      → One i tx (if t.id == k then f t ∷ rows else t ∷ modify k f rows)
  One-hit test e =
      let (same, none_left) = cons_inj t tx (by_order i rows) (sym (hit i t rows test) ∙ e) in
      elim (Bool-cases (t.id == k)) [
        | inl here ↦ rw here (
          f t,
          hit i (f t) rows (same_order p i t ∙ test) ∙ ap (λ xs. f t ∷ xs) none_left,
          same_operation p t ∙ ap (λ u. u.operation_id) same,
        )
        | inr elsewhere ↦ rw elsewhere (
          t,
          hit i t (modify k f rows) test ∙ ap (λ xs. t ∷ xs) (no_order p i k rows none_left),
          ap (λ u. u.operation_id) same,
        )
      ]

  One-miss :
      is_some t.gateway_order_id i ≡ false
      → by_order i rows ≡ tx ∷ []
      → One i tx (modify k f rows)
      → One i tx (if t.id == k then f t ∷ rows else t ∷ modify k f rows)
  One-miss test e rest = elim (Bool-cases (t.id == k)) [
    | inl here ↦ rw here (tx, miss i (f t) rows (same_order p i t ∙ test) ∙ e, refl)
    | inr elsewhere ↦ rw elsewhere (rest.0, miss i t (modify k f rows) test ∙ rest.1, rest.2)
  ]

One-order :
    (p : Option ℕ) (i k : ℕ) (rows : List Transaction) (tx : Transaction)
    → by_order i rows ≡ tx ∷ []
    → One i tx (modify k (captured_transaction p) rows)
unfolding modify
One-order p i k [] tx e = cc
One-order p i k (t ∷ rows) tx e = elim (Bool-cases (is_some t.gateway_order_id i)) [
  | inl test ↦ One-hit p i k t rows tx test e
  | inr test ↦
      let later : by_order i rows ≡ tx ∷ [] = sym (miss i t rows test) ∙ e in
      One-miss p i k t rows tx test later (One-order p i k rows tx later)
]

-- A capture of the order has nothing left to do.
abbrev Stays : ℕ → Option ℕ → Db → Type 0
Stays i p db = capture_order (some i) p db ≡ ok db

module _ (i : ℕ) (db : Db) where
  Stays-without :
      (p : Option ℕ) → scalar_one_or_none (by_order i db.transactions) ≡ ok none → Stays i p db
  unfolding capture_order capture_transaction
  Stays-without p e = rw (e, capture_order) refl

  Stays-with :
      (p : Option ℕ) (tx : Transaction) (o : Option FinancialOperation)
      → scalar_one_or_none (by_order i db.transactions) ≡ ok (some tx)
      → find tx.operation_id db.operations ≡ o
      → capture_operation tx p o db ≡ ok db
      → Stays i p db
  unfolding capture_order capture_transaction
  Stays-with p tx o e f g = rw (e, capture_order) (rw (f, capture_transaction) g)

stays_done :
    (p : Option ℕ) (tx : Transaction) (op : FinancialOperation) (db : Db)
    → same_status op.status OperationStatus.succeeded ≡ true
    → capture_operation tx p (some op) db ≡ ok db
unfolding capture_operation
stays_done p tx op db e = rw e refl

module _ (i : ℕ) (p p' : Option ℕ) (db : Db) (tx : Transaction)
    (only : scalar_one_or_none (by_order i db.transactions) ≡ ok (some tx)) where
  settled :
      (op : FinancialOperation)
      → find tx.operation_id db.operations ≡ some op
      → Stays i p' (settle_captured op tx p db)
  unfolding settle_captured
  settled op found =
      let (x, one, same) = One-order p i tx.id db.transactions tx (single _ tx only) in
      let own : find op.id db.operations ≡ some op =
        subst (λ j. find j db.operations ≡ some op)
          (sym (find_key tx.operation_id op db.operations found)) found in
      let after : find x.operation_id
            (modify op.id (with_status OperationStatus.succeeded) db.operations)
          ≡ some (with_status OperationStatus.succeeded op) =
        subst
          (λ j.
            find j (modify op.id (with_status OperationStatus.succeeded) db.operations)
            ≡ some (with_status OperationStatus.succeeded op))
          (find_key tx.operation_id op db.operations found ∙ sym same)
          (find-modify_self op.id (with_status OperationStatus.succeeded) op db.operations refl
            own) in
      Stays-with i (settle_captured op tx p db) p' x _ (ap scalar_one_or_none one) after
        (stays_done p' x (with_status OperationStatus.succeeded op) _ refl)

  captured_operation :
      (o : Option FinancialOperation)
      → find tx.operation_id db.operations ≡ o
      → OnOk (Stays i p') (capture_operation tx p o db)
  unfolding capture_operation
  captured_operation none found = Stays-with i db p' tx none only found refl
  captured_operation (some op) found =
      elim (Bool-cases (same_status op.status OperationStatus.succeeded)) [
        | inl done ↦
            rw done (Stays-with i db p' tx (some op) only found (stays_done p' tx op db done))
        | inr other ↦ rw other (
            bind-OnOk (Stays i p')
              (raise_unless_valid (validate_transition op.status OperationStatus.succeeded))
              (λ u. ok (settle_captured op tx p db)) λ u e. settled op found)
      ]

module _ (i : ℕ) (p p' : Option ℕ) (db : Db) where
  captured_transactions :
      (tx : Option Transaction)
      → scalar_one_or_none (by_order i db.transactions) ≡ ok tx
      → OnOk (Stays i p') (capture_transaction p tx db)
  unfolding capture_transaction
  captured_transactions none e = Stays-without i db p' e
  captured_transactions (some tx) e =
      captured_operation i p p' db tx e (find tx.operation_id db.operations) refl

  captured_order : OnOk (Stays i p') (capture_order (some i) p db)
  unfolding capture_order
  captured_order =
      bind-OnOk (Stays i p') (scalar_one_or_none (by_order i db.transactions)) _
        λ tx e. captured_transactions tx e

-- A payment is captured once: where an event of an order was processed as a capture, the capture by
-- any later event of that order, be it `order.paid` after `payment.captured` or another delivery
-- under another event id, succeeds and changes nothing, so the amount is not spent twice.
pub capture-once :
    (first again : EventPayload) (db : Db)
    → or_else first.payment_order_id first.order_id ≡ or_else again.payment_order_id again.order_id
    → OnOk
        (λ db'. handle_payment_captured_event again db' ≡ ok db')
        (handle_payment_captured_event first db)
unfolding handle_payment_captured_event capture_order
capture-once first again db same =
    rw (← same) (twice (or_else first.payment_order_id first.order_id))
  where
    twice :
        (o : Option ℕ)
        → OnOk
            (λ db'. capture_order o again.payment_id db' ≡ ok db')
            (capture_order o first.payment_id db)
    twice none = refl
    twice (some i) = captured_order i first.payment_id again.payment_id db
