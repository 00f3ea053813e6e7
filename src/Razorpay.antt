-- ===== src/Razorpay.antt =====
-- packages/razorpay: the client of the gateway, as it is implemented.
pub mod Retry
pub mod Client
pub mod Signature
