-- ===== src/Razorpay/Client.antt =====
-- packages/razorpay/client.py: the calls of `RazorpayClient`, in live and in mock mode. `none` is a
-- call that raises. Times, notes, receipts and customers, which no caller reads, are left out.
pub mod Live
use mandate_razorpay_control.Prelude.{
  ℕ, zero, suc, Bool, true, false, Option, none, some, List, [], ◌∷◌, if◌then◌else◌,
}
use mandate_razorpay_control.Api.Gateway.{
  RazorpayClient, RazorpayOrderRequest, RazorpayOrderResponse, RazorpayRefundRequest,
  RazorpayRefundResponse, RazorpayPaymentLinkRequest, RazorpayPaymentLinkResponse,
  RazorpayPaymentResponse, OrderStatus, PaymentLinkStatus,
}
use mandate_razorpay_control.Razorpay.Retry.{
  Attempt, Ending, returned, failed, exhausted, request_with_retry,
}

-- The method and the path of a request, with what its body is made of.
pub data HttpRequest : Type 0 where
  post_orders : RazorpayOrderRequest → HttpRequest
  get_order get_payment get_refund get_payment_link : ℕ → HttpRequest
  post_capture : ℕ → ℕ → List ℕ → HttpRequest
  post_refund : RazorpayRefundRequest → HttpRequest
  post_payment_links : RazorpayPaymentLinkRequest → HttpRequest
  post_cancel : ℕ → HttpRequest

-- The network, and what the bodies of replies hold. `read_...` is the validation of a whole body,
-- the other fields are the entries of a payment link.
pub record Transport : Type 1 where
  pub Json : Type 0
  pub network : HttpRequest → ℕ → Attempt Json
  pub read_order : Json → Option RazorpayOrderResponse
  pub read_payment : Json → Option RazorpayPaymentResponse
  pub read_refund : Json → Option RazorpayRefundResponse
  pub id_in : Json → Option ℕ
  pub amount_in : Json → Option ℕ
  pub currency_in : Json → Option (List ℕ)
  pub status_in : Json → Option PaymentLinkStatus

module _ {ℓ κ} {A : Type ℓ} {B : Type κ} where
  abbrev pub and_then : Option A → (A → Option B) → Option B
  and_then none f = none
  and_then (some a) f = f a

module _ {ℓ} {A : Type ℓ} where
  -- `data.get(key, default)`
  abbrev pub get_or : Option A → A → A
  get_or none default = default
  get_or (some a) default = a

module _ {Json : Type 0} where
  abbrev pub body_of : Ending Json → Option Json
  body_of (returned json) = some json
  body_of (failed failure) = none
  body_of exhausted = none

-- "INR"
abbrev pub inr_code : List ℕ
inr_code = b'I' ∷ b'N' ∷ b'R' ∷ []

abbrev or_mock_amount : ℕ → ℕ
or_mock_amount zero = 50000
or_mock_amount (suc n) = suc n

module _ (t : Transport) (mock_mode : Bool) (draw : ℕ) where
  -- A request with the default of three retries.
  unfoldable pub call : HttpRequest → Bool → Option t.Json
  unfolding request_with_retry
  call request is_idempotent =
      body_of (request_with_retry (t.network request) is_idempotent 3).ending

  unfoldable pub create_order : RazorpayOrderRequest → Option RazorpayOrderResponse
  unfolding call
  create_order req =
      if mock_mode
      then some (record {
        id = draw;
        amount = req.amount;
        currency = req.currency;
        status = OrderStatus.created;
      })
      else and_then (call (post_orders req) false) t.read_order

  unfoldable pub fetch_order : ℕ → Option RazorpayOrderResponse
  unfolding call
  fetch_order order_id =
      if mock_mode
      then some
          (record { id = order_id; amount = 50000; currency = inr_code; status = OrderStatus.paid })
      else and_then (call (get_order order_id) true) t.read_order

  unfoldable pub fetch_payment : ℕ → Option RazorpayPaymentResponse
  unfolding call
  fetch_payment payment_id =
      if mock_mode
      then some
          (record { id = payment_id; amount = 50000; currency = inr_code; is_captured = true })
      else and_then (call (get_payment payment_id) true) t.read_payment

  unfoldable pub capture_payment : ℕ → ℕ → List ℕ → Option RazorpayPaymentResponse
  unfolding call
  capture_payment payment_id amount currency =
      if mock_mode
      then some
          (record { id = payment_id; amount = amount; currency = currency; is_captured = true })
      else and_then (call (post_capture payment_id amount currency) false) t.read_payment

  unfoldable pub create_refund : RazorpayRefundRequest → Option RazorpayRefundResponse
  unfolding call
  create_refund req =
      if mock_mode
      then some (record {
        id = draw;
        amount = or_mock_amount req.amount;
        currency = inr_code;
        is_processed = true;
      })
      else and_then (call (post_refund req) false) t.read_refund

  unfoldable pub fetch_refund : ℕ → Option RazorpayRefundResponse
  unfolding call
  fetch_refund refund_id =
      if mock_mode
      then some
          (record { id = refund_id; amount = 50000; currency = inr_code; is_processed = true })
      else and_then (call (get_refund refund_id) true) t.read_refund

  -- The entries of a payment link, with what stands in for those that are missing.
  unfoldable pub link_of :
      ℕ → List ℕ → PaymentLinkStatus → t.Json → Option RazorpayPaymentLinkResponse
  link_of amount currency status json = and_then (t.id_in json) λ id. some (record {
    id = id;
    amount = get_or (t.amount_in json) amount;
    currency = get_or (t.currency_in json) currency;
    status = get_or (t.status_in json) status;
  })

  unfoldable pub create_payment_link :
      RazorpayPaymentLinkRequest → Option RazorpayPaymentLinkResponse
  unfolding call link_of
  create_payment_link req =
      if mock_mode
      then some (record {
        id = draw;
        amount = req.amount;
        currency = req.currency;
        status = PaymentLinkStatus.created;
      })
      else and_then (call (post_payment_links req) false)
          (link_of req.amount req.currency PaymentLinkStatus.created)

  unfoldable pub fetch_payment_link : ℕ → Option RazorpayPaymentLinkResponse
  unfolding call link_of
  fetch_payment_link link_id =
      if mock_mode
      then some (record {
        id = link_id;
        amount = 50000;
        currency = inr_code;
        status = PaymentLinkStatus.paid;
      })
      else and_then (call (get_payment_link link_id) true)
          (link_of 0 inr_code PaymentLinkStatus.created)

  -- The one POST that is sent as idempotent.
  unfoldable pub cancel_payment_link : ℕ → Option RazorpayPaymentLinkResponse
  unfolding call link_of
  cancel_payment_link link_id =
      if mock_mode
      then some (record {
        id = link_id;
        amount = 50000;
        currency = inr_code;
        status = PaymentLinkStatus.cancelled;
      })
      else and_then (call (post_cancel link_id) true)
          (link_of 0 inr_code PaymentLinkStatus.cancelled)

  -- The client that the handlers take, with the check of payment signatures.
  unfoldable pub client_of : (ℕ → ℕ → ℕ → Bool) → RazorpayClient
  unfolding create_order create_payment_link create_refund fetch_order
  client_of verify = record {
    create_order = create_order;
    create_payment_link = create_payment_link;
    create_refund = create_refund;
    fetch_order = fetch_order;
    verify_payment_signature = verify;
  }
