-- ===== src/Razorpay/Client/Live.antt =====
-- packages/razorpay/client.py: live calls, and what an operation becomes when its call fails.
use mandate_razorpay_control.Prelude.{
  ℕ, ◌≤◌, ◌<◌, ◌≡◌, refl, ◌↔◌, Bool, false, Option, none, some, find, find-modify_self, arith,
}
use mandate_razorpay_control.Core.Enums.{OperationType, OperationStatus}
use mandate_razorpay_control.Core.Models.{
  Mandate, FinancialOperation, Payload, Message, mandate_key, operation_key,
}
use mandate_razorpay_control.Core.Database.{Db, with_error}
use mandate_razorpay_control.Core.Concurrency.{release}
use mandate_razorpay_control.Api.Gateway.{RazorpayOrderRequest, RazorpayOrderResponse}
use mandate_razorpay_control.Api.Dispatch.{
  order_request, dispatch_order, try_dispatch, abort_dispatch, execute_gateway_operation,
}
use mandate_razorpay_control.Razorpay.Retry.{
  Failure, Attempt, replied, raised, Try, body, raises, outcome, attempt_loop, request_with_retry,
}
use mandate_razorpay_control.Razorpay.Retry.Attempts.{Transient, request_with_retry-returns}
use mandate_razorpay_control.Razorpay.Client.{
  HttpRequest, post_orders, get_order, Transport, and_then, call, create_order, fetch_order,
  client_of,
}

module _ (t : Transport) (draw : ℕ) where
  abbrev single : Try t.Json → Option t.Json
  single (body json) = some json
  single (raises x) = none

  -- A request that is not idempotent is sent once.
  call_once :
      (request : HttpRequest)
      → call t false draw request false ≡ single (outcome (t.network request 1))
  unfolding call request_with_retry attempt_loop
  call_once request = ground arith

  replied_order :
      (a : Attempt t.Json) (order : RazorpayOrderResponse)
      → and_then (single (outcome a)) t.read_order ≡ some order
      → (code : ℕ) × (json : t.Json) × (a ≡ replied code (some json))
        × (t.read_order json ≡ some order)
  replied_order (replied code (some json)) order h = (code, json, refl, h)
  replied_order (replied code none) order h = absurd (cc)
  replied_order (raised x) order h = absurd (cc)

  -- A live call makes an order just if its one attempt is answered with a body that reads as that
  -- order, whatever the status of the answer.
  pub create_order_iff :
      (req : RazorpayOrderRequest) (order : RazorpayOrderResponse)
      → (create_order t false draw req ≡ some order) ↔ (
          (code : ℕ) × (json : t.Json) × (t.network (post_orders req) 1 ≡ replied code (some json))
          × (t.read_order json ≡ some order))
  unfolding create_order
  create_order_iff req order = (
    λ h.
        replied_order (t.network (post_orders req) 1) order (rw (call_once (post_orders req)) at h),
    λ v. rw (call_once (post_orders req)) (rw v.2 v.3),
  )

  -- A live order is fetched where one of the three attempts brings it after transient failures.
  pub fetch_order-returns :
      (order_id k : ℕ) (json : t.Json)
      → 1 ≤ k
      → k ≤ 3
      → ((j : ℕ) → 1 ≤ j → j < k → Transient (t.network (get_order order_id) j))
      → outcome (t.network (get_order order_id) k) ≡ body json
      → fetch_order t false draw order_id ≡ t.read_order json
  unfolding fetch_order call
  fetch_order-returns order_id k json some_k within before reply =
      rw
        (request_with_retry-returns (t.network (get_order order_id)) 3 k json within before reply
          some_k)
        refl

  module _ (verify : ℕ → ℕ → ℕ → Bool) (tx_id : ℕ) (op : FinancialOperation) (payload : Payload)
      (db : Db) (is_order : op.operation_type ≡ OperationType.create_order) where
    order_lost :
        create_order t false draw (order_request op) ≡ none
        → execute_gateway_operation
            (client_of t false draw verify)
            tx_id
            op.mandate_id
            op
            payload
            db
          ≡ abort_dispatch
              (client_of t false draw verify)
              tx_id
              op.mandate_id
              op
              Message.gateway_error
              db
    unfolding execute_gateway_operation try_dispatch dispatch_order client_of
    order_lost e = ground (arith, is_order, e)

    -- Where the one attempt of an order raises, a timeout among them, the operation is failed and its
    -- amount given back at once, whatever the gateway made of the request.
    pub timeout-fails :
        (x : Failure) (row : FinancialOperation) (m : Mandate)
        → t.network (post_orders (order_request op)) 1 ≡ raised x
        → find op.id db.operations ≡ some row
        → find op.mandate_id db.mandates ≡ some m
        → let after =
            execute_gateway_operation
              (client_of t false draw verify)
              tx_id
              op.mandate_id
              op
              payload
              db in
          (find op.id after.operations
            ≡ some (with_error OperationStatus.failed Message.gateway_error row))
          × (find op.mandate_id after.mandates ≡ some (release op.amount m))
    unfolding abort_dispatch create_order
    timeout-fails x row m lost found owned =
        let refused : create_order t false draw (order_request op) ≡ none =
          rw (call_once (post_orders (order_request op))) (rw lost refl) in
        rw (order_lost refused) (
          find-modify_self op.id (with_error OperationStatus.failed Message.gateway_error) row
              db.operations refl found,
          find-modify_self op.mandate_id (release op.amount) m db.mandates refl owned,
        )
