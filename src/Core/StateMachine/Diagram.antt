-- ===== src/Core/StateMachine/Diagram.antt =====
-- The diagram that the docstring of packages/core/state_machine.py draws, and the check against it.
use mandate_razorpay_control.Prelude.{
  ℕ, ◌+◌, ◌≤◌, ◌<◌, ◌≡◌, ◌≢◌, suc, zero, refl, ◌↔◌, ◌⊎◌, inl, inr, true, arith,
}
use mandate_razorpay_control.Core.Enums.{OperationStatus}
use mandate_razorpay_control.Core.StateMachine.{can_transition}
use OperationStatus.{
  initiated, policy_approved, policy_rejected, requires_approval, reserved, executing, succeeded,
  failed, cancelled,
}

-- The arrows of the docstring.
infix 40 ◌⟶◌
pub data ◌⟶◌ : OperationStatus → OperationStatus → Type 0 where
  approve : initiated ⟶ policy_approved
  deny : initiated ⟶ policy_rejected
  hold : initiated ⟶ requires_approval
  abort : initiated ⟶ failed
  sign : requires_approval ⟶ reserved
  refuse : requires_approval ⟶ policy_rejected
  withdraw : requires_approval ⟶ cancelled
  lapse : requires_approval ⟶ failed
  reserve : policy_approved ⟶ reserved
  reserve_fails : policy_approved ⟶ failed
  reserve_cancels : policy_approved ⟶ cancelled
  dispatch : reserved ⟶ executing
  early_webhook : reserved ⟶ succeeded
  gateway_fails : reserved ⟶ failed
  dispatch_cancels : reserved ⟶ cancelled
  settle : executing ⟶ succeeded
  reject : executing ⟶ failed
  execution_cancels : executing ⟶ cancelled

ruleset arrows = (
  approve, deny, hold, abort, sign, refuse, withdraw, lapse, reserve, reserve_fails,
  reserve_cancels, dispatch, early_webhook, gateway_fails, dispatch_cancels, settle, reject,
  execution_cancels,
)

can_transition-⟶ : (s t : OperationStatus) → can_transition s t ≡ true → (s ≡ t) ⊎ (s ⟶ t)
unfolding can_transition
can_transition-⟶ s t h = grind (arith, arrows)

arrow-can_transition : {s t : OperationStatus} → s ⟶ t → can_transition s t ≡ true
unfolding can_transition
arrow-can_transition approve = refl
arrow-can_transition _ = refl

arrow_or_stay : (s t : OperationStatus) → (s ≡ t) ⊎ (s ⟶ t) → can_transition s t ≡ true
unfolding can_transition
arrow_or_stay s t (inl e) = ground arith
arrow_or_stay s t (inr a) = arrow-can_transition a

-- The code permits exactly the arrows of the diagram, and staying.
pub can_transition_iff : (s t : OperationStatus) → (can_transition s t ≡ true) ↔ ((s ≡ t) ⊎ (s ⟶ t))
can_transition_iff s t = (can_transition-⟶ s t, arrow_or_stay s t)

-- What is left of the longest path to an end state.
height : OperationStatus → ℕ
height initiated = 4
height requires_approval = 3
height policy_approved = 3
height reserved = 2
height executing = 1
height _ = 0

-- A history of changes that the check lets through, with their number.
pub data Lifecycle : OperationStatus → ℕ → OperationStatus → Type 0 where
  stay : {s : OperationStatus} → Lifecycle s zero s
  advance :
      {s t u : OperationStatus} {n : ℕ}
      → can_transition s t ≡ true
      → s ≢ t
      → Lifecycle t n u
      → Lifecycle s (suc n) u

change-height : (s t : OperationStatus) → can_transition s t ≡ true → s ≢ t → height t < height s
unfolding can_transition height
change-height s t h ne = ground arith

Lifecycle-height : {s t : OperationStatus} {n : ℕ} → Lifecycle s n t → n + height t ≤ height s
Lifecycle-height stay = omega arith
Lifecycle-height (advance {s = s} {t = t} c ne l) =
    omega (arith, Lifecycle-height l, change-height s t c ne)

height_bound : (s : OperationStatus) → height s ≤ 4
unfolding height
height_bound s = ground arith

-- By changes that the check lets through, an operation changes its status at most four times.
pub Lifecycle-le : {s t : OperationStatus} {n : ℕ} → Lifecycle s n t → n ≤ 4
Lifecycle-le {s} l = omega (arith, Lifecycle-height l, height_bound s)
