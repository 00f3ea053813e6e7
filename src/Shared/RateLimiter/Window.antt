-- ===== src/Shared/RateLimiter/Window.antt =====
-- packages/shared/rate_limiter.py: the sliding window of the local bucket over a run of calls.
use mandate_razorpay_control.Prelude.{
  ℕ, zero, suc, ◌+◌, ◌≡◌, ◌≤◌, refl, sym, subst, ap, ◌∙◌, inl, inr, true, false, ◌&&◌, List, [],
  ◌∷◌, ◌++◌, length, length-replicate, replicate, All, All-append, arith, ltb, leb, if◌then◌else◌,
  Bool-cases,
}
use mandate_razorpay_control.Shared.RateLimiter.{RateLimitResult, drop_expired, check_local}

-- How many of the times lie in the `window` after `s`.
unfoldable pub admitted_in : ℕ → ℕ → List ℕ → ℕ
admitted_in s window [] = 0
admitted_in s window (t ∷ times) =
    (if ltb s t && leb t (s + window) then 1 else 0) + admitted_in s window times

-- The times that an answer admits.
abbrev pub admissions : RateLimitResult → ℕ → ℕ → List ℕ
admissions r cost now = if r.allowed then replicate cost now else []

-- A run of calls of one agent with times that do not go back: the time of the last call, all
-- admissions so far, oldest first, and the bucket.
pub data Served (agent_id window limit : ℕ) : ℕ → List ℕ → List ℕ → Type 0 where
  idle : Served agent_id window limit 0 [] []
  call :
      (before now cost : ℕ) (log bucket : List ℕ)
      → Served agent_id window limit before log bucket
      → before ≤ now
      → Served agent_id window limit now
          (log ++ admissions (check_local agent_id now window limit cost bucket).0 cost now)
          (check_local agent_id now window limit cost bucket).1

IsExpired : ℕ → ℕ → ℕ → Type 0
IsExpired now window t = t + window ≤ now

admitted_in-append :
    (s window : ℕ) (xs ys : List ℕ)
    → admitted_in s window (xs ++ ys) ≡ admitted_in s window xs + admitted_in s window ys
unfolding admitted_in
admitted_in-append s window [] ys = omega arith
admitted_in-append s window (x ∷ xs) ys = ground (arith, admitted_in-append s window xs ys)

admitted_in-le-length : (s window : ℕ) (xs : List ℕ) → admitted_in s window xs ≤ length xs
unfolding admitted_in
admitted_in-le-length s window [] = omega arith
admitted_in-le-length s window (x ∷ xs) = ground (arith, admitted_in-le-length s window xs)

-- A window that reaches up to now has nothing of what has expired.
admitted_in-expired :
    (s window now : ℕ) (xs : List ℕ)
    → now ≤ s + window
    → All (IsExpired now window) xs
    → admitted_in s window xs ≡ 0
unfolding admitted_in IsExpired
admitted_in-expired s window now [] h e = refl
admitted_in-expired s window now (x ∷ xs) h e =
    ground (arith, e.0, admitted_in-expired s window now xs h e.1)

-- A window that does not hold the time of the call has nothing of its admissions.
admitted_in-outside :
    (s window now cost : ℕ)
    → (ltb s now && leb now (s + window)) ≡ false
    → admitted_in s window (replicate cost now) ≡ 0
unfolding admitted_in
admitted_in-outside s window now zero h = refl
admitted_in-outside s window now (suc cost) h =
    ground (arith, admitted_in-outside s window now cost h)

still-IsExpired :
    (before now window : ℕ) (xs : List ℕ)
    → before ≤ now
    → All (IsExpired before window) xs
    → All (IsExpired now window) xs
unfolding IsExpired
still-IsExpired before now window [] h e = tt
still-IsExpired before now window (x ∷ xs) h e =
    (omega (arith, e.0), still-IsExpired before now window xs h e.1)

-- What is dropped has expired.
dropped :
    (now window : ℕ) (bucket : List ℕ)
    → (old : List ℕ) × (bucket ≡ old ++ drop_expired now window bucket)
      × All (IsExpired now window) old
unfolding drop_expired IsExpired
dropped now window [] = ([], refl, tt)
dropped now window (t ∷ bucket) = elim (Bool-cases (leb (t + window) now)) [
  | inl gone ↦
      let (old, split, e) = dropped now window bucket in
      (t ∷ old, rw gone (ap (λ xs. t ∷ xs) split), (ground arith, e))
  | inr kept ↦ ([], rw kept refl, tt)
]

append_assoc : (xs ys zs : List ℕ) → (xs ++ ys) ++ zs ≡ xs ++ (ys ++ zs)
append_assoc [] ys zs = refl
append_assoc (x ∷ xs) ys zs = ap (λ l. x ∷ l) (append_assoc xs ys zs)

append_nil : (xs : List ℕ) → xs ++ [] ≡ xs
append_nil [] = refl
append_nil (x ∷ xs) = ap (λ l. x ∷ l) (append_nil xs)

-- The bucket is what the log has left, and no window holds more than the limit.
record IsBounded (window limit now : ℕ) (log bucket : List ℕ) : Type 0 where
  old : List ℕ
  split : log ≡ old ++ bucket
  expired : All (IsExpired now window) old
  bound : (s : ℕ) → admitted_in s window log ≤ limit

module _ (agent_id window limit before now cost : ℕ) (log bucket : List ℕ)
    (v : IsBounded window limit before log bucket) (h : before ≤ now) where
  kept : List ℕ
  kept = drop_expired now window bucket

  left_over : IsBounded window limit now log kept
  unfolding kept
  left_over =
      let (gone, split, e) = dropped now window bucket in
      record {
        old = v.old ++ gone;
        split = v.split ∙ ap (λ xs. v.old ++ xs) split ∙ sym (append_assoc v.old gone _);
        expired =
            All-append (IsExpired now window) v.old gone
              (still-IsExpired before now window v.old h v.expired) e;
        bound = v.bound;
      }

  -- A window that holds the call.
  inside : (s : ℕ) → now ≤ s + window → admitted_in s window log ≤ length kept
  inside s reach = omega (
    arith,
    ap (admitted_in s window) left_over.split,
    admitted_in-append s window left_over.old kept,
    admitted_in-expired s window now left_over.old reach left_over.expired,
    admitted_in-le-length s window kept,
  )

  admitted_bound :
      length kept + cost ≤ limit
      → (s : ℕ) → admitted_in s window (log ++ replicate cost now) ≤ limit
  admitted_bound room s = elim (Bool-cases (ltb s now && leb now (s + window))) [
    | inl holds ↦ omega (
      arith,
      inside s (reach_now s holds),
      admitted_in-append s window log (replicate cost now),
      admitted_in-le-length s window (replicate cost now),
      length-replicate cost now,
      room,
    )
    | inr misses ↦ omega (
      arith,
      v.bound s,
      admitted_in-append s window log (replicate cost now),
      admitted_in-outside s window now cost misses,
    )
  ]
    where
      reach_now : (s : ℕ) → (ltb s now && leb now (s + window)) ≡ true → now ≤ s + window
      reach_now s e = ground arith

  refused : IsBounded window limit now (log ++ []) kept
  refused = subst (λ l. IsBounded window limit now l kept) (sym (append_nil log)) left_over

  admitted :
      length kept + cost ≤ limit
      → IsBounded window limit now (log ++ replicate cost now) (kept ++ replicate cost now)
  admitted room = record {
    old = left_over.old;
    split =
        ap (λ l. l ++ replicate cost now) left_over.split
        ∙ append_assoc left_over.old kept (replicate cost now);
    expired = left_over.expired;
    bound = admitted_bound room;
  }

  called :
      IsBounded window limit now
        (log ++ admissions (check_local agent_id now window limit cost bucket).0 cost now)
        (check_local agent_id now window limit cost bucket).1
  unfolding check_local kept
  called = elim (Bool-cases (ltb limit (length (drop_expired now window bucket) + cost))) [
    | inl over ↦ rw over refused
    | inr fits ↦ rw fits (admitted (ground arith))
  ]

served :
    (agent_id window limit now : ℕ) (log bucket : List ℕ)
    → Served agent_id window limit now log bucket
    → IsBounded window limit now log bucket
unfolding admitted_in
served agent_id window limit _ _ _ idle = record {
  old = [];
  split = refl;
  expired = tt;
  bound = λ s. omega arith;
}
served agent_id window limit _ _ _ (call before now cost log bucket run h) =
    called agent_id window limit before now cost log bucket
      (served agent_id window limit before log bucket run) h

-- Over any run of calls whose times do not go back, no stretch of time as long as the window holds
-- more admissions than the limit.
pub admitted_in-le-limit :
    (agent_id window limit now : ℕ) (log bucket : List ℕ)
    → Served agent_id window limit now log bucket
    → (s : ℕ) → admitted_in s window log ≤ limit
admitted_in-le-limit agent_id window limit now log bucket run =
    (served agent_id window limit now log bucket run).bound
