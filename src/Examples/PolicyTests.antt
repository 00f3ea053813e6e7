-- ===== src/Examples/PolicyTests.antt =====
-- Runs of the policy engine and of the checks of the state machine.
use mandate_razorpay_control.Prelude.{◌≡◌, ◌↔◌, ◌⊎◌, refl, true, some, List, [], ◌∷◌, find, arith}
use mandate_razorpay_control.Core.Enums.{OperationStatus, PolicyDecisionType}
use mandate_razorpay_control.Core.Models.{Mandate, mandate_key}
use mandate_razorpay_control.Core.StateMachine.{can_transition}
use mandate_razorpay_control.Core.StateMachine.Diagram.{◌⟶◌, can_transition_iff}
use mandate_razorpay_control.Policy.Rules.Ancestors.{walk}
use mandate_razorpay_control.Policy.Engine.{evaluate, engine_rules}
use mandate_razorpay_control.Policy.Engine.Decision.{decision_in, severest, evaluate-severest}
use mandate_razorpay_control.Policy.Engine.Approval.{IsAuthorized, evaluate-allow_iff}
use mandate_razorpay_control.Policy.Engine.Ancestry.{IsTree, Decides, walk-Decides}
use mandate_razorpay_control.Examples.{grant, held_order, flying_order, inputs_for}

evaluate-severest_example :
    decision_in (evaluate 0 [] (inputs_for held_order))
    ≡ severest 0 (inputs_for held_order) (engine_rules [])
evaluate-severest_example = evaluate-severest 0 [] (inputs_for held_order)

evaluate-allow_iff_example :
    (decision_in (evaluate 0 [] (inputs_for flying_order)) ≡ some PolicyDecisionType.allow)
    ↔ IsAuthorized 0 (inputs_for flying_order)
evaluate-allow_iff_example = evaluate-allow_iff 0 (inputs_for flying_order)

abbrev sub_grant : Mandate
sub_grant = record grant { id = 11; parent_mandate_id = some 10; delegation_depth = 1 }

abbrev family : List Mandate
family = grant ∷ sub_grant ∷ []

family-IsTree : IsTree family
unfolding find
family-IsTree i m j p e f g = ground arith

walk-Decides_example : Decides family (some 10) (walk 2 family (some 10))
unfolding find
walk-Decides_example = walk-Decides 2 family 11 sub_grant family-IsTree refl (omega arith)

can_transition_iff_example :
    (can_transition OperationStatus.reserved OperationStatus.succeeded ≡ true) ↔ (
      (OperationStatus.reserved ≡ OperationStatus.succeeded)
      ⊎ (OperationStatus.reserved ⟶ OperationStatus.succeeded))
can_transition_iff_example = can_transition_iff OperationStatus.reserved OperationStatus.succeeded
