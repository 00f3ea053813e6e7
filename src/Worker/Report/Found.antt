-- ===== src/Worker/Report/Found.antt =====
-- services/worker/reconciliation.py: what is found for one transaction.
use mandate_razorpay_control.Prelude.{
  ℕ, ◌≡◌, ◌≢◌, refl, ◌↔◌, ◌⊎◌, inl, inr, true, not, ◌&&◌, Option, none, some, ◌++◌, ◌==◌,
  Bool-cases, arith,
}
use mandate_razorpay_control.Prelude.Members.{Member, Member-append}
use mandate_razorpay_control.Core.Enums.{OperationStatus, same_status}
use mandate_razorpay_control.Core.Models.{
  FinancialOperation, Transaction, Discrepancy, missed_webhook, amount_mismatch,
}
use mandate_razorpay_control.Api.Gateway.{RazorpayClient, RazorpayOrderResponse, OrderStatus}
use mandate_razorpay_control.Worker.Report.{
  ReconciliationResult, is_paid, missed_if, mismatch_if, with_order, with_order_id,
}

-- What a comparison of an operation with an order finds.
pub data Differs (order_id : ℕ) (order : RazorpayOrderResponse) (op : FinancialOperation)
    (d : Discrepancy) : Type 0 where
  missed :
      order.status ≡ OrderStatus.paid
      → op.status ≢ OperationStatus.succeeded
      → d ≡ missed_webhook op.operation_id order_id op.status op.amount
      → Differs order_id order op d
  mismatched :
      order.amount ≢ op.amount
      → d ≡ amount_mismatch op.operation_id order_id op.amount order.amount
      → Differs order_id order op d

is_missed_iff :
    (s : OrderStatus) (t : OperationStatus)
    → ((is_paid s && not (same_status t OperationStatus.succeeded)) ≡ true)
      ↔ ((s ≡ OrderStatus.paid) × (t ≢ OperationStatus.succeeded))
is_missed_iff s t = (λ h. (ground arith, λ e. ground arith), λ v. ground (arith, v.0, v.1))

differ_iff : (a b : ℕ) → (not (a == b) ≡ true) ↔ (a ≢ b)
differ_iff a b = (λ h. ground arith, λ h. ground arith)

module _ (order_id : ℕ) (order : RazorpayOrderResponse) (op : FinancialOperation)
    (d : Discrepancy) where
  missed_if_sound : Member d (missed_if order_id order op) → Differs order_id order op d
  missed_if_sound =
      elim (Bool-cases
        (is_paid order.status && not (same_status op.status OperationStatus.succeeded))) [
          | inl due ↦ rw due (λ h. elim h [
            | inl here ↦ let v = (is_missed_iff order.status op.status).0 due in missed v.0 v.1 here
            | inr later ↦ absurd later
          ])
          | inr fine ↦ rw fine (λ h. absurd h)
        ]

  mismatch_if_sound : Member d (mismatch_if order_id order op) → Differs order_id order op d
  mismatch_if_sound = elim (Bool-cases (not (order.amount == op.amount))) [
    | inl due ↦ rw due (λ h. elim h [
      | inl here ↦ mismatched ((differ_iff order.amount op.amount).0 due) here
      | inr later ↦ absurd later
    ])
    | inr fine ↦ rw fine (λ h. absurd h)
  ]

  Differs-complete :
      Differs order_id order op d
      → Member d (missed_if order_id order op) ⊎ Member d (mismatch_if order_id order op)
  Differs-complete (missed paid open_still same) =
      inl (rw ((is_missed_iff order.status op.status).1 (paid, open_still)) (inl same))
  Differs-complete (mismatched differ same) =
      inr (rw ((differ_iff order.amount op.amount).1 differ) (inl same))

-- What is found for one transaction and its operation.
pub data Found (g : RazorpayClient) (tx : Transaction) (op : FinancialOperation) (d : Discrepancy)
    : Type 0 where
  found :
      (order_id : ℕ) (order : RazorpayOrderResponse)
      → tx.gateway_order_id ≡ some order_id
      → g.fetch_order order_id ≡ some order
      → Differs order_id order op d
      → Found g tx op d

module _ (g : RazorpayClient) (tx : Transaction) (op : FinancialOperation) (d : Discrepancy)
    (r : ReconciliationResult) where
  with_order_sound :
      (i : ℕ) (o : Option RazorpayOrderResponse)
      → tx.gateway_order_id ≡ some i
      → g.fetch_order i ≡ o
      → Member d (with_order o i op r).discrepancies
      → Member d r.discrepancies ⊎ Found g tx op d
  with_order_sound i none named fetched h = inl h
  with_order_sound i (some order) named fetched h =
      elim ((Member-append d (r.discrepancies ++ missed_if i order op) (mismatch_if i order op)).0
        h) [
          | inl first ↦ elim ((Member-append d r.discrepancies (missed_if i order op)).0 first) [
            | inl old ↦ inl old
            | inr new ↦ inr (found i order named fetched (missed_if_sound i order op d new))
          ]
          | inr new ↦ inr (found i order named fetched (mismatch_if_sound i order op d new))
        ]

  pub order_id_sound :
      (o : Option ℕ)
      → tx.gateway_order_id ≡ o
      → Member d (with_order_id g o op r).discrepancies
      → Member d r.discrepancies ⊎ Found g tx op d
  order_id_sound none named h = inl h
  order_id_sound (some i) named h = with_order_sound i (g.fetch_order i) named refl h

  with_order_keeps :
      (i : ℕ) (o : Option RazorpayOrderResponse)
      → Member d r.discrepancies
      → Member d (with_order o i op r).discrepancies
  with_order_keeps i none h = h
  with_order_keeps i (some order) h =
      (Member-append d (r.discrepancies ++ missed_if i order op) (mismatch_if i order op)).1
        (inl ((Member-append d r.discrepancies (missed_if i order op)).1 (inl h)))

  pub order_id_keeps :
      (o : Option ℕ) → Member d r.discrepancies → Member d (with_order_id g o op r).discrepancies
  order_id_keeps none h = h
  order_id_keeps (some i) h = with_order_keeps i (g.fetch_order i) h

  pub with_order_finds :
      (i : ℕ) (order : RazorpayOrderResponse)
      → Differs i order op d
      → Member d (with_order (some order) i op r).discrepancies
  with_order_finds i order due = elim (Differs-complete i order op d due) [
    | inl new ↦
        (Member-append d (r.discrepancies ++ missed_if i order op) (mismatch_if i order op)).1
          (inl ((Member-append d r.discrepancies (missed_if i order op)).1 (inr new)))
    | inr new ↦
        (Member-append d (r.discrepancies ++ missed_if i order op) (mismatch_if i order op)).1
          (inr new)
  ]
