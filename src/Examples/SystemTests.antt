-- ===== src/Examples/SystemTests.antt =====
-- A run of handlers: an order, and then a reconciliation report.
use mandate_razorpay_control.Prelude.{refl, find}
use mandate_razorpay_control.Core.Models.{operation_key}
use mandate_razorpay_control.Core.Database.{Db}
use mandate_razorpay_control.Ledger.{Consistent}
use mandate_razorpay_control.Worker.Report.{run_gateway_reconciliation}
use mandate_razorpay_control.System.{requested, reported, here, next, Reach-Consistent}
use mandate_razorpay_control.Examples.{tables-Consistent, gateway}
use mandate_razorpay_control.Examples.CallerTests.{
  development, with_key, around, order_for_buyer, ordered, answered,
}

abbrev audited : Db
audited = (run_gateway_reconciliation gateway 5 60 1440 ordered.0).0

Reach-Consistent_example : Consistent audited
unfolding find
Reach-Consistent_example = Reach-Consistent tables-Consistent (
    next
      (next here
        (requested development with_key gateway around order_for_buyer ordered.1 refl answered))
      (reported gateway 5 60 1440 refl))
