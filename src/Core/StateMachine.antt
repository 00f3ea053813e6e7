-- ===== src/Core/StateMachine.antt =====
-- packages/core/state_machine.py: the transition matrix and its check.
pub mod Diagram
use mandate_razorpay_control.Prelude.{Bool, true, false, ◌||◌, List, [], ◌∷◌, if◌then◌else◌}
use mandate_razorpay_control.Core.Enums.{OperationStatus, same_status}

pub data TransitionError : Type 0 where
  invalid_state_transition : OperationStatus → OperationStatus → TransitionError

-- ALLOWED_TRANSITIONS, with the empty set for a status that it does not list.
abbrev pub allowed_transitions : OperationStatus → List OperationStatus
allowed_transitions OperationStatus.initiated =
    OperationStatus.policy_approved ∷ OperationStatus.policy_rejected
    ∷ OperationStatus.requires_approval ∷ OperationStatus.failed ∷ []
allowed_transitions OperationStatus.requires_approval =
    OperationStatus.reserved ∷ OperationStatus.policy_rejected ∷ OperationStatus.cancelled
    ∷ OperationStatus.failed ∷ []
allowed_transitions OperationStatus.policy_approved =
    OperationStatus.reserved ∷ OperationStatus.failed ∷ OperationStatus.cancelled ∷ []
allowed_transitions OperationStatus.reserved =
    OperationStatus.executing ∷ OperationStatus.succeeded ∷ OperationStatus.failed
    ∷ OperationStatus.cancelled ∷ []
allowed_transitions OperationStatus.executing =
    OperationStatus.succeeded ∷ OperationStatus.failed ∷ OperationStatus.cancelled ∷ []
allowed_transitions _ = []

-- `target in statuses`
abbrev pub status_in : OperationStatus → List OperationStatus → Bool
status_in target [] = false
status_in target (s ∷ statuses) = same_status target s || status_in target statuses

unfoldable pub can_transition : OperationStatus → OperationStatus → Bool
can_transition current target =
    if same_status current target then true else status_in target (allowed_transitions current)

pub data Validated : Type 0 where
  valid : Validated
  raises : TransitionError → Validated

unfoldable pub validate_transition : OperationStatus → OperationStatus → Validated
unfolding can_transition
validate_transition current target =
    if can_transition current target
    then valid
    else raises (invalid_state_transition current target)
