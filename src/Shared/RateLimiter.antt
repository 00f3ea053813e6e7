-- ===== src/Shared/RateLimiter.antt =====
-- packages/shared/rate_limiter.py: the sliding window over the local bucket of one agent and tier,
-- with the refusal that stands in for it in production. Times are in milliseconds.
pub mod Window
pub mod Redis
use mandate_razorpay_control.Prelude.{
  ℕ, ◌+◌, ◌-◌, ◌*◌, ◌/◌, Bool, true, false, Option, none, some, List, [], ◌∷◌, ◌++◌, leb, ltb, ◌==◌,
  if◌then◌else◌, length, replicate,
}

pub record RateLimitResult : Type 0 where
  pub allowed : Bool
  pub limit : ℕ
  pub remaining : ℕ
  pub reset_epoch_seconds : ℕ
  -- `retry_after_seconds` before it is rounded to hundredths, in milliseconds
  pub retry_after : ℕ
  pub agent_id : ℕ
  -- the tier has the suffix `_local`
  pub is_local : Bool

pub record Settings : Type 0 where
  pub default_rate_limit : ℕ
  pub default_window_seconds : ℕ
  pub is_production : Bool

-- `custom or default`
abbrev pub or_default : Option ℕ → ℕ → ℕ
or_default none d = d
or_default (some n) d = if n == 0 then d else n

-- `while bucket and bucket[0] <= clear_before: bucket.popleft()`
unfoldable pub drop_expired : ℕ → ℕ → List ℕ → List ℕ
drop_expired now window [] = []
drop_expired now window (t ∷ bucket) =
    if leb (t + window) now then drop_expired now window bucket else t ∷ bucket

abbrev retry_delay : ℕ → ℕ → List ℕ → ℕ
retry_delay now window [] = window
retry_delay now window (t ∷ bucket) = if ltb (t + window - now) 100 then 100 else t + window - now

-- What is answered, and the bucket afterwards.
unfoldable pub check_local : ℕ → ℕ → ℕ → ℕ → ℕ → List ℕ → RateLimitResult × List ℕ
check_local agent_id now window limit cost old =
    let bucket = drop_expired now window old in
    let delay = retry_delay now window bucket in
    let extended = bucket ++ replicate cost now in
    if ltb limit (length bucket + cost)
    then (
      record {
        allowed = false;
        limit = limit;
        remaining = 0;
        reset_epoch_seconds = (now + delay) / 1000;
        retry_after = delay;
        agent_id = agent_id;
        is_local = true;
      },
      bucket,
    )
    else (
      record {
        allowed = true;
        limit = limit;
        remaining = limit - length extended;
        reset_epoch_seconds = (now + window) / 1000;
        retry_after = 0;
        agent_id = agent_id;
        is_local = true;
      },
      extended,
    )

-- The answer when Redis cannot be reached.
unfoldable pub check_without_redis :
    Settings → ℕ → ℕ → Option ℕ → Option ℕ → ℕ → List ℕ → RateLimitResult × List ℕ
unfolding check_local
check_without_redis s agent_id cost custom_limit custom_window now bucket =
    let limit = or_default custom_limit s.default_rate_limit in
    let window = or_default custom_window s.default_window_seconds * 1000 in
    if s.is_production
    then (
      record {
        allowed = false;
        limit = limit;
        remaining = 0;
        reset_epoch_seconds = (now + window) / 1000;
        retry_after = 1000;
        agent_id = agent_id;
        is_local = false;
      },
      bucket,
    )
    else check_local agent_id now window limit cost bucket
