-- ===== src/Ledger.antt =====
-- What the two counters of a mandate (packages/core/models.py) mean: the abstract ledger that the
-- handlers of operations, webhooks and the worker keep.
pub mod Moves
pub mod Settlement
pub mod Reservation
use mandate_razorpay_control.Prelude.{
  ℕ, ◌≡◌, Bool, true, false, some, List, find, sum_of, UniqueKeys, ◌==◌, if◌then◌else◌,
}
use mandate_razorpay_control.Prelude.Int.{pos, ◌+ℤ◌, ◌≤ℤ◌}
use mandate_razorpay_control.Core.Enums.{OperationStatus}
use mandate_razorpay_control.Core.Models.{Mandate, FinancialOperation, mandate_key, operation_key}
use mandate_razorpay_control.Core.Database.{Db}

-- The statuses under which an operation holds a part of its mandate's budget.
abbrev pub in_flight : OperationStatus → Bool
in_flight OperationStatus.reserved = true
in_flight OperationStatus.executing = true
in_flight _ = false

-- The amount that an operation holds.
abbrev pub weight : FinancialOperation → ℕ
weight o = if in_flight o.status then o.amount else 0

-- The amount that it holds of the mandate `k`.
unfoldable pub held : ℕ → FinancialOperation → ℕ
held k o = if o.mandate_id == k then weight o else 0

-- Every mandate's reserved spend is what the operations in flight hold of it, and with the
-- committed spend it keeps to the limit.
pub record IsConsistent (mandates : List Mandate) (operations : List FinancialOperation)
    : Type 0 where
  pub unique : UniqueKeys operations
  pub balanced :
      (k : ℕ) (m : Mandate)
      → find k mandates ≡ some m
      → m.reserved_spend ≡ pos (sum_of (held k) operations)
  pub within :
      (k : ℕ) (m : Mandate)
      → find k mandates ≡ some m
      → m.current_aggregate_spend +ℤ m.reserved_spend ≤ℤ pos m.aggregate_spend_limit

abbrev pub Consistent : Db → Type 0
Consistent db = IsConsistent db.mandates db.operations
