-- ===== src/Razorpay/Retry.antt =====
-- packages/razorpay/client.py: `_request_with_retry`. The waiting between two attempts is left out.
pub mod Attempts
use mandate_razorpay_control.Prelude.{
  ℕ, zero, suc, ◌+◌, ◌-◌, Bool, true, false, ◌&&◌, ◌||◌, Option, none, some, ltb, ◌==◌,
  if◌then◌else◌,
}

-- What an attempt raises. Nothing asks a reply for its status, so httpx never raises the error of a
-- status itself.
pub data Failure : Type 0 where
  timeout network_error : Failure
  http_status : ℕ → Failure
  -- what the `except` does not name, such as a body that is not JSON
  uncaught : Failure

-- A reply has a status code, and a body where that is JSON.
pub data Attempt (Json : Type 0) : Type 0 where
  replied : ℕ → Option Json → Attempt Json
  raised : Failure → Attempt Json

-- How the request ends, and how many attempts were sent.
pub data Ending (Json : Type 0) : Type 0 where
  returned : Json → Ending Json
  failed : Failure → Ending Json
  -- `raise RuntimeError`
  exhausted : Ending Json

pub record Sent (Json : Type 0) : Type 0 where
  pub ending : Ending Json
  pub count : ℕ

abbrev pub is_caught : Failure → Bool
is_caught timeout = true
is_caught network_error = true
is_caught (http_status code) = true
is_caught uncaught = false

abbrev is_retryable_status : ℕ → Bool
is_retryable_status code = code == 429 || code == 500 || code == 502 || code == 503 || code == 504

abbrev pub is_retryable : Failure → Bool
is_retryable timeout = true
is_retryable network_error = true
is_retryable (http_status code) = is_retryable_status code
is_retryable uncaught = false

-- An attempt ends with a body, or it raises.
pub data Try (Json : Type 0) : Type 0 where
  body : Json → Try Json
  raises : Failure → Try Json

module _ {Json : Type 0} where
  -- `resp.json()`
  abbrev pub outcome : Attempt Json → Try Json
  outcome (replied code (some json)) = body json
  outcome (replied code none) = raises uncaught
  outcome (raised failure) = raises failure

module _ {Json : Type 0} (network : ℕ → Attempt Json) (is_idempotent : Bool) (attempts : ℕ) where
  abbrev pub retries : ℕ → Failure → Bool
  retries attempt failure =
      is_caught failure && (is_idempotent && (ltb attempt attempts && is_retryable failure))

  -- The loop from an attempt on, with the attempts that are left.
  unfoldable pub attempt_loop : ℕ → ℕ → Sent Json
  attempt_loop zero attempt = record { ending = exhausted; count = attempt - 1 }
  attempt_loop (suc left) attempt =
      let again = attempt_loop left (attempt + 1) in
      elim (outcome (network attempt)) [
        | body json ↦ record { ending = returned json; count = attempt }
        | raises failure ↦
            if retries attempt failure
            then again
            else record { ending = failed failure; count = attempt }
      ]

module _ {Json : Type 0} where
  -- `network` has the outcome of each attempt.
  unfoldable pub request_with_retry : (ℕ → Attempt Json) → Bool → ℕ → Sent Json
  unfolding attempt_loop
  request_with_retry network is_idempotent max_retries =
      let attempts = if is_idempotent then max_retries else 1 in
      attempt_loop network is_idempotent attempts attempts 1
