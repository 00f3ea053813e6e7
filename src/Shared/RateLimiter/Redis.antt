-- ===== src/Shared/RateLimiter/Redis.antt =====
-- packages/shared/rate_limiter.py: `check_rate_limit`, with the replies of Redis as an argument.
use mandate_razorpay_control.Prelude.{
  ℕ, ◌+◌, ◌-◌, ◌*◌, ◌/◌, ◌≤◌, ◌≡◌, ◌↔◌, refl, true, false, Option, none, some, List, inl, inr, ltb,
  arith, Bool-cases, if◌then◌else◌,
}
use mandate_razorpay_control.Shared.RateLimiter.{
  RateLimitResult, Settings, or_default, check_without_redis,
}

-- The transaction fails, or it gives the number of entries in the window; the score of the oldest
-- entry is asked for on a refusal, and `none` is that the revert or this question fails.
pub data RedisReply : Type 0 where
  unreachable : RedisReply
  replied : ℕ → Option (Option ℕ) → RedisReply

-- `int(oldest + window)`, or from now on where there is no entry.
abbrev reset_time : ℕ → ℕ → Option ℕ → ℕ
reset_time now window none = (now + window) / 1000
reset_time now window (some oldest) = (oldest + window) / 1000

-- `max(0.1, reset_time - now)`
abbrev retry_delay : ℕ → ℕ → ℕ
retry_delay now reset = if ltb (reset * 1000 - now) 100 then 100 else reset * 1000 - now

module _ (s : Settings) (agent_id cost : ℕ) (custom_limit custom_window : Option ℕ) (now : ℕ)
    (bucket : List ℕ) where
  abbrev pub limit_of : ℕ
  limit_of = or_default custom_limit s.default_rate_limit

  abbrev window_of : ℕ
  window_of = or_default custom_window s.default_window_seconds * 1000

  abbrev fallback : RateLimitResult × List ℕ
  fallback = check_without_redis s agent_id cost custom_limit custom_window now bucket

  abbrev refused : Option (Option ℕ) → RateLimitResult × List ℕ
  refused none = fallback
  refused (some oldest) = (
    record {
      allowed = false;
      limit = limit_of;
      remaining = 0;
      reset_epoch_seconds = reset_time now window_of oldest;
      retry_after = retry_delay now (reset_time now window_of oldest);
      agent_id = agent_id;
      is_local = false;
    },
    bucket,
  )

  abbrev admitted : ℕ → RateLimitResult × List ℕ
  admitted current_count = (
    record {
      allowed = true;
      limit = limit_of;
      remaining = limit_of - (current_count + cost);
      reset_epoch_seconds = (now + window_of) / 1000;
      retry_after = 0;
      agent_id = agent_id;
      is_local = false;
    },
    bucket,
  )

  -- The answer, and the local bucket afterwards.
  unfoldable pub check_rate_limit : RedisReply → RateLimitResult × List ℕ
  unfolding check_without_redis
  check_rate_limit unreachable = fallback
  check_rate_limit (replied current_count oldest) =
      if ltb limit_of (current_count + cost) then refused oldest else admitted current_count

  refused_shut :
      (oldest : Option (Option ℕ)) → s.is_production ≡ true → (refused oldest).0.allowed ≡ false
  unfolding check_without_redis
  refused_shut none production = rw production refl
  refused_shut (some oldest) production = refl

  same_count : (c d : ℕ) (o p : Option (Option ℕ)) → replied c o ≡ replied d p → c ≡ d
  same_count c d o p e = cc

  -- In production a request is allowed just if Redis replies with a count that leaves room for the
  -- cost: no failure of Redis lets one through.
  pub check_rate_limit_closed :
      (reply : RedisReply)
      → s.is_production ≡ true
      → ((check_rate_limit reply).0.allowed ≡ true) ↔ (
          (count : ℕ) × (oldest : Option (Option ℕ)) × (reply ≡ replied count oldest)
          × (count + cost ≤ limit_of))
  unfolding check_rate_limit check_without_redis
  check_rate_limit_closed unreachable production =
      (λ h. absurd (ground (arith, production, h)), λ h. absurd (cc (h.2)))
  check_rate_limit_closed (replied count oldest) production =
      elim (Bool-cases (ltb limit_of (count + cost))) [
        | inl over ↦ rw over (
          λ h. absurd (ground (arith, refused_shut oldest production, h)),
          λ h. absurd (ground (arith, over, same_count count h.0 oldest h.1 h.2, h.3)),
        )
        | inr room ↦ rw room (λ h. (count, oldest, refl, ground (arith, room)), λ h. refl)
      ]
