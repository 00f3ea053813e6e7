-- ===== src/Api/Gateway.antt =====
-- packages/razorpay/client.py, as its callers see it: the calls that the handlers make, with
-- `none` for a call that raises. The gateway itself is not part of the repository.
use mandate_razorpay_control.Prelude.{ℕ, Bool, Option, List}

pub record RazorpayOrderRequest : Type 0 where
  pub amount : ℕ
  pub currency : List ℕ

pub data OrderStatus : Type 0 where
  created attempted paid : OrderStatus
  other : ℕ → OrderStatus

pub record RazorpayOrderResponse : Type 0 where
  pub id : ℕ
  pub amount : ℕ
  pub currency : List ℕ
  pub status : OrderStatus

pub record RazorpayRefundRequest : Type 0 where
  pub payment_id : ℕ
  pub amount : ℕ

-- `is_processed`: the status is "processed".
pub record RazorpayRefundResponse : Type 0 where
  pub id : ℕ
  pub amount : ℕ
  pub currency : List ℕ
  pub is_processed : Bool

pub record RazorpayPaymentLinkRequest : Type 0 where
  pub amount : ℕ
  pub currency : List ℕ

pub data PaymentLinkStatus : Type 0 where
  created paid cancelled : PaymentLinkStatus
  other : ℕ → PaymentLinkStatus

pub record RazorpayPaymentLinkResponse : Type 0 where
  pub id : ℕ
  pub amount : ℕ
  pub currency : List ℕ
  pub status : PaymentLinkStatus

-- `is_captured`: the status is "captured".
pub record RazorpayPaymentResponse : Type 0 where
  pub id : ℕ
  pub amount : ℕ
  pub currency : List ℕ
  pub is_captured : Bool

pub record RazorpayClient : Type 0 where
  pub create_order : RazorpayOrderRequest → Option RazorpayOrderResponse
  pub create_payment_link : RazorpayPaymentLinkRequest → Option RazorpayPaymentLinkResponse
  pub create_refund : RazorpayRefundRequest → Option RazorpayRefundResponse
  pub fetch_order : ℕ → Option RazorpayOrderResponse
  -- order, payment and signature
  pub verify_payment_signature : ℕ → ℕ → ℕ → Bool
