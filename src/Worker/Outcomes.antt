-- ===== src/Worker/Outcomes.antt =====
-- services/worker/main.py: what one turn of the sweep can come to.
use mandate_razorpay_control.Prelude.{
  ℕ, Option, none, some, inl, inr, filter, ltb, ◌==◌, ◌+◌, Bool-cases,
}
use mandate_razorpay_control.Core.Models.{Mandate, FinancialOperation, Transaction, Message}
use mandate_razorpay_control.Core.Database.{Db, scalar_one_or_none}
use mandate_razorpay_control.Core.Outcomes.{OnOk, bind-OnOk}
use mandate_razorpay_control.Api.Gateway.{RazorpayClient, OrderStatus}
use mandate_razorpay_control.Worker.{
  undispatched, expire, expire_old, settle_paid, order_status_of, settle_order, settle_order_of,
  settle_dispatched, reconcile_of,
}

-- The tables are left, the operation expires, or its order turns out to be paid.
pub data Outcome (db : Db) (op : FinancialOperation) : Option Mandate → Db × ℕ → Type 0 where
  left : (o : Option Mandate) → Outcome db op o (db, 0)
  expired : (m : Mandate) (why : Message) → Outcome db op (some m) (expire why m op db, 1)
  paid : (m : Mandate) (tx : Transaction) → Outcome db op (some m) (settle_paid m op tx db, 1)

module _ (db : Db) (op : FinancialOperation) where
  module _ (m : Mandate) (later : ℕ) where
    expire_old-Outcome : Outcome db op (some m) (expire_old later m op db)
    expire_old-Outcome = elim (Bool-cases (ltb (op.created_at + 300) later)) [
      | inl old ↦ rw old (expired m Message.order_unpaid)
      | inr young ↦ rw young (left (some m))
    ]

    settle_order-Outcome :
        (s : Option OrderStatus) (tx : Transaction)
        → Outcome db op (some m) (settle_order s later m op tx db)
    unfolding settle_order
    settle_order-Outcome none tx = left (some m)
    settle_order-Outcome (some OrderStatus.paid) tx = paid m tx
    settle_order-Outcome (some OrderStatus.created) tx = expire_old-Outcome
    settle_order-Outcome (some OrderStatus.attempted) tx = expire_old-Outcome
    settle_order-Outcome (some (OrderStatus.other s)) tx = left (some m)

    settle_order_of-Outcome :
        (g : RazorpayClient) (i : Option ℕ) (tx : Transaction)
        → Outcome db op (some m) (settle_order_of g i later m op tx db)
    unfolding settle_order_of
    settle_order_of-Outcome g none tx = left (some m)
    settle_order_of-Outcome g (some i) tx = settle_order-Outcome (order_status_of g i) tx

    settle_dispatched-Outcome :
        (g : RazorpayClient) (tx : Option Transaction)
        → Outcome db op (some m) (settle_dispatched g later m op tx db)
    unfolding settle_dispatched
    settle_dispatched-Outcome g none = left (some m)
    settle_dispatched-Outcome g (some tx) = settle_order_of-Outcome g tx.gateway_order_id tx

  pub reconcile_of-Outcome :
      (g : RazorpayClient) (later : ℕ) (o : Option Mandate)
      → OnOk (Outcome db op o) (reconcile_of g later op o db)
  unfolding reconcile_of
  reconcile_of-Outcome g later none = left none
  reconcile_of-Outcome g later (some m) =
      bind-OnOk (Outcome db op (some m))
        (scalar_one_or_none (filter (λ t. t.operation_id == op.id) db.transactions)) _
        λ tx e. elim (Bool-cases (undispatched tx)) [
          | inl fresh ↦ rw fresh (expired m Message.reservation_expired)
          | inr sent ↦ rw sent (settle_dispatched-Outcome m later g tx)
        ]
