-- ===== src/Shared.antt =====
-- packages/shared: what the other packages share.
pub mod RateLimiter
pub mod Auth
