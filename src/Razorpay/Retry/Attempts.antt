-- ===== src/Razorpay/Retry/Attempts.antt =====
-- packages/razorpay/client.py: how often a request is sent, and what it returns.
use mandate_razorpay_control.Prelude.{
  ℕ, zero, suc, ◌+◌, ◌-◌, ◌≤◌, ◌<◌, ◌≡◌, refl, sym, ap, ◌⊎◌, inl, inr, Bool, true, false, ◌==◌,
  if◌then◌else◌, Bool-cases, ==-eq, ==-ne, subst, arith,
}
use mandate_razorpay_control.Razorpay.Retry.{
  Failure, timeout, network_error, http_status, uncaught, Attempt, Ending, returned, failed, Sent,
  Try, body, raises, is_retryable, outcome, retries, attempt_loop, request_with_retry,
}

Try-cases :
    {Json : Type 0} (t : Try Json)
    → ((json : Json) × (t ≡ body json)) ⊎ ((x : Failure) × (t ≡ raises x))
Try-cases (body json) = inl (json, refl)
Try-cases (raises x) = inr (x, refl)

-- An attempt that is worth another one.
abbrev pub Transient : {Json : Type 0} → Attempt Json → Type 0
Transient a = (x : Failure) × (outcome a ≡ raises x) × (is_retryable x ≡ true)

-- Why no further attempt follows one that raised.
abbrev Last : Bool → ℕ → ℕ → Failure → Type 0
Last is_idempotent attempts count x =
    (is_idempotent ≡ false) ⊎ ((count ≡ attempts) ⊎ (is_retryable x ≡ false))

-- The ending is that of the last attempt.
abbrev EndsWith : {Json : Type 0} → Bool → ℕ → ℕ → Try Json → Ending Json → Type 0
EndsWith is_idempotent attempts count (body json) ending = ending ≡ returned json
EndsWith is_idempotent attempts count (raises x) ending =
    (ending ≡ failed x) × Last is_idempotent attempts count x

module _ {Json : Type 0} (network : ℕ → Attempt Json) (is_idempotent : Bool) (attempts : ℕ) where
  -- From an attempt on, a request sends attempts up to the last one: those before it are
  -- transient failures, and it ends as the last one does.
  pub record Ends (first : ℕ) (sent : Sent Json) : Type 0 where
    pub from_first : first ≤ sent.count
    pub within : sent.count ≤ attempts
    pub earlier : (j : ℕ) → first ≤ j → j < sent.count → Transient (network j)
    pub last : EndsWith is_idempotent attempts sent.count (outcome (network sent.count)) sent.ending

  retries-true :
      (attempt : ℕ) (x : Failure)
      → retries network is_idempotent attempts attempt x ≡ true
      → (attempt < attempts) × (is_retryable x ≡ true)
  retries-true attempt x h = ground arith

  retries-false :
      (attempt : ℕ) (x : Failure)
      → attempt ≤ attempts
      → retries network is_idempotent attempts attempt x ≡ false
      → Last is_idempotent attempts attempt x
  retries-false attempt timeout h e = ground arith
  retries-false attempt network_error h e = ground arith
  retries-false attempt (http_status code) h e = ground arith
  retries-false attempt uncaught h e = inr (inr refl)

  Ends-before :
      (attempt : ℕ) (sent : Sent Json)
      → Transient (network attempt)
      → Ends (attempt + 1) sent
      → Ends attempt sent
  Ends-before attempt sent t v = record {
    from_first = omega (arith, v.from_first);
    within = v.within;
    earlier = λ j h k. elim (Bool-cases (attempt == j)) [
      | inl same ↦
          let e : attempt ≡ j = ==-eq attempt j same in subst (λ n. Transient (network n)) e t
      | inr other ↦ v.earlier j (omega (arith, ==-ne attempt j other)) k
    ];
    last = v.last;
  }

  loop-Ends :
      (left attempt : ℕ)
      → 1 ≤ left
      → left + attempt ≡ attempts + 1
      → Ends attempt (attempt_loop network is_idempotent attempts left attempt)
  unfolding attempt_loop
  loop-Ends zero attempt some_left h = absurd (omega arith)
  loop-Ends (suc left) attempt some_left h = elim (Try-cases (outcome (network attempt))) [
    | inl (json, e) ↦
        rw (e, attempt_loop)
          (record {
            from_first = omega arith;
            within = omega arith;
            earlier = λ j a b. absurd (omega arith);
            last = rw e refl;
          })
    | inr (x, e) ↦ elim (Bool-cases (retries network is_idempotent attempts attempt x)) [
      | inl again ↦
          let (more, transient) = retries-true attempt x again in
          rw (e, attempt_loop)
            (rw (again, attempt_loop)
              (Ends-before attempt _ (x, e, transient)
                (loop-Ends left (attempt + 1) (omega arith) (omega arith))))
      | inr stop ↦
          rw (e, attempt_loop)
            (rw (stop, attempt_loop)
              (record {
                from_first = omega arith;
                within = omega arith;
                earlier = λ j a b. absurd (omega arith);
                last = rw e (refl, retries-false attempt x (omega arith) stop);
              }))
    ]
  ]

abbrev pub attempts_of : Bool → ℕ → ℕ
attempts_of is_idempotent max_retries = if is_idempotent then max_retries else 1

module _ {Json : Type 0} (network : ℕ → Attempt Json) (is_idempotent : Bool) (max_retries : ℕ)
    (some_retries : 1 ≤ max_retries) where
  -- A request sends an attempt at least, and no more than the retries, or than one if it is not
  -- idempotent; every attempt but the last was a transient failure, and the request ends as the
  -- last one does, which is not retried for a reason.
  pub request_with_retry-Ends :
      Ends network is_idempotent
        (attempts_of is_idempotent max_retries)
        1
        (request_with_retry network is_idempotent max_retries)
  unfolding request_with_retry
  request_with_retry-Ends =
      let some_left : 1 ≤ attempts_of is_idempotent max_retries = ground arith in
      loop-Ends network is_idempotent (attempts_of is_idempotent max_retries)
        (attempts_of is_idempotent max_retries) 1 some_left refl

module _ {Json : Type 0} (network : ℕ → Attempt Json) (max_retries k : ℕ) (json : Json)
    (within : k ≤ max_retries) (before : (j : ℕ) → 1 ≤ j → j < k → Transient (network j))
    (reply : outcome (network k) ≡ body json) where
  retried :
      (attempt : ℕ) (x : Failure)
      → attempt < max_retries
      → is_retryable x ≡ true
      → retries network true max_retries attempt x ≡ true
  retried attempt timeout h e = ground arith
  retried attempt network_error h e = ground arith
  retried attempt (http_status code) h e = ground arith
  retried attempt uncaught h e = cc

  loop-returns :
      (wait left attempt : ℕ)
      → attempt + wait ≡ k
      → left + attempt ≡ max_retries + 1
      → 1 ≤ attempt
      → attempt_loop network true max_retries left attempt
        ≡ record { ending = returned json; count = k }
  unfolding attempt_loop
  loop-returns wait zero attempt h e some_k = absurd (omega arith)
  loop-returns zero (suc left) attempt h e some_k =
      let here : k ≡ attempt = omega arith in
      let now : outcome (network attempt) ≡ body json =
        subst (λ n. outcome (network n) ≡ body json) here reply in
      rw (now, attempt_loop) (ap (λ n. record { ending = returned json; count = n }) (sym here))
  loop-returns (suc wait) (suc left) attempt h e some_k =
      let (x, lost, transient) = before attempt some_k (omega arith) in
      rw (lost, attempt_loop)
        (rw (retried attempt x (omega arith) transient, attempt_loop)
          (loop-returns wait left (attempt + 1) (omega arith) (omega arith) (omega arith)))

  -- Where an idempotent request has an attempt within its retries that brings a body, and all
  -- attempts before it are transient failures, it returns that body after that attempt.
  pub request_with_retry-returns :
      1 ≤ k
      → request_with_retry network true max_retries ≡ record { ending = returned json; count = k }
  unfolding request_with_retry
  request_with_retry-returns some_k =
      loop-returns (k - 1) max_retries 1 (omega arith) refl (omega arith)
