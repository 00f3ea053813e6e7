-- ===== src/Worker/Report.antt =====
-- services/worker/reconciliation.py: the comparison of the tables with the gateway, and its report.
pub mod Found
pub mod Exact
use mandate_razorpay_control.Prelude.{
  ℕ, suc, ◌+◌, ◌*◌, Bool, true, false, not, ◌&&◌, Option, none, some, List, [], ◌∷◌, ◌++◌, map,
  filter, length, leb, ◌==◌, if◌then◌else◌,
}
use mandate_razorpay_control.Core.Enums.{OperationStatus, same_status}
use mandate_razorpay_control.Core.Models.{
  FinancialOperation, Transaction, Discrepancy, missed_webhook, amount_mismatch,
  ReconciliationReport,
}
use mandate_razorpay_control.Core.Database.{Db}
use mandate_razorpay_control.Api.Gateway.{RazorpayClient, RazorpayOrderResponse, OrderStatus}

-- `synced_count`, which stays 0, is left out.
pub record ReconciliationResult : Type 0 where
  pub total_checked : ℕ
  pub discrepancies : List Discrepancy

abbrev pub is_paid : OrderStatus → Bool
is_paid OrderStatus.paid = true
is_paid _ = false

abbrev pub missed_if : ℕ → RazorpayOrderResponse → FinancialOperation → List Discrepancy
missed_if order_id order op =
    if is_paid order.status && not (same_status op.status OperationStatus.succeeded)
    then missed_webhook op.operation_id order_id op.status op.amount ∷ []
    else []

abbrev pub mismatch_if : ℕ → RazorpayOrderResponse → FinancialOperation → List Discrepancy
mismatch_if order_id order op =
    if not (order.amount == op.amount)
    then amount_mismatch op.operation_id order_id op.amount order.amount ∷ []
    else []

abbrev pub with_order :
    Option RazorpayOrderResponse
    → ℕ
    → FinancialOperation
    → ReconciliationResult
    → ReconciliationResult
with_order none order_id op result = result
with_order (some order) order_id op result = record result {
  discrepancies =
      (result.discrepancies ++ missed_if order_id order op) ++ mismatch_if order_id order op;
}

abbrev pub with_order_id :
    RazorpayClient → Option ℕ → FinancialOperation → ReconciliationResult → ReconciliationResult
with_order_id razorpay none op result = result
with_order_id razorpay (some order_id) op result =
    with_order (razorpay.fetch_order order_id) order_id op result

-- One turn of the loop. An order that cannot be fetched is passed over.
unfoldable pub check_record :
    RazorpayClient → Transaction × FinancialOperation → ReconciliationResult → ReconciliationResult
check_record razorpay (tx, op) result =
    with_order_id razorpay tx.gateway_order_id op
      (record result { total_checked = result.total_checked + 1 })

unfoldable pub check_records :
    RazorpayClient
    → List (Transaction × FinancialOperation)
    → ReconciliationResult
    → ReconciliationResult
unfolding check_record
check_records razorpay [] result = result
check_records razorpay (r ∷ records) result =
    check_records razorpay records (check_record razorpay r result)

-- `created_at >= now - lookback`, in seconds.
abbrev pub is_recent : ℕ → ℕ → FinancialOperation → Bool
is_recent now lookback_minutes op = leb now (op.created_at + lookback_minutes * 60)

-- The join of a transaction with its operation.
abbrev pub joins : ℕ → ℕ → Transaction → FinancialOperation → Bool
joins now lookback_minutes tx op = tx.operation_id == op.id && is_recent now lookback_minutes op

unfoldable pub joined :
    ℕ → ℕ → List Transaction → List FinancialOperation → List (Transaction × FinancialOperation)
joined now lookback_minutes [] ops = []
joined now lookback_minutes (tx ∷ txs) ops =
    map (λ op. (tx, op)) (filter (joins now lookback_minutes tx) ops)
    ++ joined now lookback_minutes txs ops

abbrev pub blank : ReconciliationResult
blank = record { total_checked = 0; discrepancies = [] }

abbrev pub report_of : ℕ → ReconciliationResult → ReconciliationReport
report_of report_id result = record {
  report_id = report_id;
  total_audited = result.total_checked;
  inconsistencies_detected = length result.discrepancies;
  details = result.discrepancies;
}

abbrev pub add_report : ReconciliationReport → Db → Db
add_report r db = record db { reconciliation_reports = r ∷ db.reconciliation_reports }

unfoldable pub run_gateway_reconciliation :
    RazorpayClient → ℕ → ℕ → ℕ → Db → Db × ReconciliationResult
unfolding joined check_records
run_gateway_reconciliation razorpay report_id now lookback_minutes db =
    let result =
      check_records razorpay (joined now lookback_minutes db.transactions db.operations) blank in
    (add_report (report_of report_id result) db, result)
