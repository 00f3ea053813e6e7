-- ===== src/Examples/GatewayTests.antt =====
-- The client of the gateway, the report and the bus.
use mandate_razorpay_control.Prelude.{
  ℕ, ◌+◌, ◌≤◌, ◌<◌, ◌≡◌, refl, ◌↔◌, true, false, none, some, List, [], ◌∷◌, find, ◌==◌,
  if◌then◌else◌, arith,
}
use mandate_razorpay_control.Prelude.Text.{text_eq}
use mandate_razorpay_control.Prelude.Members.{Member}
use mandate_razorpay_control.Core.Enums.{OperationStatus}
use mandate_razorpay_control.Core.Models.{Message, missed_webhook, mandate_key, operation_key}
use mandate_razorpay_control.Core.Database.{with_error}
use mandate_razorpay_control.Core.Concurrency.{release}
use mandate_razorpay_control.Api.Dispatch.{execute_gateway_operation}
use mandate_razorpay_control.Razorpay.Retry.{
  Attempt, replied, raised, timeout, returned, request_with_retry,
}
use mandate_razorpay_control.Razorpay.Retry.Attempts.{
  Ends, Transient, attempts_of, request_with_retry-Ends, request_with_retry-returns,
}
use mandate_razorpay_control.Razorpay.Client.{Transport, client_of}
use mandate_razorpay_control.Razorpay.Client.Live.{timeout-fails}
use mandate_razorpay_control.Razorpay.Signature.{Hmac, is_ascii, verify_payment_signature}
use mandate_razorpay_control.Razorpay.Signature.Genuine.{IsHex, verify_payment_signature_unique}
use mandate_razorpay_control.Worker.Report.{run_gateway_reconciliation}
use mandate_razorpay_control.Worker.Report.Exact.{IsDiscrepancy, run_gateway_reconciliation-exact}
use mandate_razorpay_control.Events.Bus.{EventHandler, new_bus}
use mandate_razorpay_control.Events.Bus.Refinement.{
  Command, subscribing, publishing, view, Runs, run, run_refines,
}
use mandate_razorpay_control.Examples.{grant, flying_order, tables, gateway}

-- A timeout, and then a reply.
abbrev hiccup : ℕ → Attempt ℕ
hiccup n = if n == 1 then raised timeout else replied 200 (some 7)

request_with_retry-Ends_example :
    Ends hiccup false (attempts_of false 3) 1 (request_with_retry hiccup false 3)
request_with_retry-Ends_example = request_with_retry-Ends hiccup false 3 (omega arith)

hiccup-Transient : (j : ℕ) → 1 ≤ j → j < 2 → Transient (hiccup j)
hiccup-Transient j h k =
    let first : (j == 1) ≡ true = ground arith in rw first (timeout, refl, refl)

request_with_retry-returns_example :
    request_with_retry hiccup true 3 ≡ record { ending = returned 7; count = 2 }
request_with_retry-returns_example =
    request_with_retry-returns hiccup 3 2 7 (omega arith) hiccup-Transient refl (omega arith)

abbrev dead_network : Transport
dead_network = record {
  Json = ℕ;
  network = λ request attempt. raised timeout;
  read_order = λ json. none;
  read_payment = λ json. none;
  read_refund = λ json. none;
  id_in = λ json. none;
  amount_in = λ json. none;
  currency_in = λ json. none;
  status_in = λ json. none;
}

timeout-fails_example :
    (find 1
        (execute_gateway_operation
          (client_of dead_network false 5 (λ o p s. false))
          8
          10
          flying_order
          flying_order.payload
          tables).operations
      ≡ some (with_error OperationStatus.failed Message.gateway_error flying_order))
    × (find 10
          (execute_gateway_operation
            (client_of dead_network false 5 (λ o p s. false))
            8
            10
            flying_order
            flying_order.payload
            tables).mandates
        ≡ some (release 200 grant))
unfolding find
timeout-fails_example =
    timeout-fails dead_network 5 (λ o p s. false) 8 flying_order flying_order.payload tables refl
      timeout flying_order grant refl refl refl

-- A stand-in for the digest.
abbrev letters : Hmac
letters secret message = b'h' ∷ []

letters-IsHex : IsHex letters
unfolding is_ascii
letters-IsHex secret message = (refl, refl)

verify_payment_signature_unique_example :
    (◌≡◌ {A = List ℕ} (b'o' ∷ []) (b'o' ∷ [])) × (◌≡◌ {A = List ℕ} (b'p' ∷ []) (b'p' ∷ []))
unfolding verify_payment_signature is_ascii text_eq
verify_payment_signature_unique_example =
    verify_payment_signature_unique letters letters-IsHex (b'k' ∷ []) none (b'o' ∷ []) (b'o' ∷ [])
      (b'p' ∷ []) (b'p' ∷ []) (b'h' ∷ []) (omega arith, tt) (omega arith, tt) (λ e. refl) refl refl

run_gateway_reconciliation-exact_example :
    Member
      (missed_webhook 101 70 OperationStatus.executing 200)
      (run_gateway_reconciliation gateway 5 60 1440 tables).1.discrepancies
    ↔ IsDiscrepancy gateway 60 1440 tables (missed_webhook 101 70 OperationStatus.executing 200)
run_gateway_reconciliation-exact_example =
    run_gateway_reconciliation-exact gateway 5 60 1440 tables
      (missed_webhook 101 70 OperationStatus.executing 200)

-- A handler that counts, and one that raises.
abbrev counting : EventHandler ℕ ℕ
counting event world = (world + 1, true)

abbrev raising : EventHandler ℕ ℕ
raising event world = (world, false)

abbrev session : List (Command ℕ ℕ)
session = subscribing 1 counting ∷ subscribing 1 raising ∷ publishing 1 5 ∷ publishing 2 6 ∷ []

run_refines_example :
    Runs session
      (view new_bus)
      0
      (view (run session new_bus 0).0)
      (run session new_bus 0).1.0
      (run session new_bus 0).1.1
run_refines_example = run_refines session new_bus 0
