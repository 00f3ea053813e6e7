-- ===== src/Policy/Engine.antt =====
-- packages/policy/engine.py: `PolicyEngine`, which runs every rule and combines their decisions.
pub mod Decision
pub mod Approval
pub mod Ancestry
pub mod Totality
use mandate_razorpay_control.Prelude.{ℕ, Bool, true, false, Option, none, some, List, [], ◌∷◌, ◌++◌}
use mandate_razorpay_control.Core.Enums.{PolicyDecisionType}
use mandate_razorpay_control.Core.Models.{Reason}
use mandate_razorpay_control.Policy.Rules.{
  Rule, Diagnostic, Inputs, agent_status, mandate_lifecycle, hierarchical_delegation,
  currency_match, allowed_operation_type, per_transaction_limit, aggregate_spend_limit,
  human_review_threshold, rate_limit, agent_status_rule, mandate_lifecycle_rule,
  hierarchical_delegation_rule, currency_match_rule, allowed_operation_type_rule,
  per_transaction_limit_rule, aggregate_spend_limit_rule, human_review_threshold_rule,
  rate_limit_rule,
}
use PolicyDecisionType.{allow, deny, require_human_review}

pub record EvaluationResult : Type 0 where
  pub decision : PolicyDecisionType
  pub approved : Bool
  pub requires_human_review : Bool
  pub rejection_reasons : List Reason
  pub review_reasons : List Reason
  pub rule_diagnostics : List Diagnostic

-- `rule.evaluate`, by the rule's class; the fuel is that of the walk up the delegation tree.
unfoldable pub evaluate_rule : ℕ → Inputs → Rule → Option Diagnostic
evaluate_rule fuel i agent_status = some (agent_status_rule i)
evaluate_rule fuel i mandate_lifecycle = some (mandate_lifecycle_rule i)
evaluate_rule fuel i hierarchical_delegation = hierarchical_delegation_rule fuel i
evaluate_rule fuel i currency_match = some (currency_match_rule i)
evaluate_rule fuel i allowed_operation_type = some (allowed_operation_type_rule i)
evaluate_rule fuel i per_transaction_limit = some (per_transaction_limit_rule i)
evaluate_rule fuel i aggregate_spend_limit = some (aggregate_spend_limit_rule i)
evaluate_rule fuel i human_review_threshold = some (human_review_threshold_rule i)
evaluate_rule fuel i rate_limit = some (rate_limit_rule i)

-- The rules of an engine that is made without any.
abbrev pub default_rules : List Rule
default_rules =
    agent_status ∷ mandate_lifecycle ∷ hierarchical_delegation ∷ currency_match
    ∷ allowed_operation_type ∷ per_transaction_limit ∷ aggregate_spend_limit
    ∷ human_review_threshold ∷ rate_limit ∷ []

-- `rules or [...]`
abbrev pub engine_rules : List Rule → List Rule
engine_rules [] = default_rules
engine_rules (r ∷ rules) = r ∷ rules

-- The variables of the loop.
pub record Tally : Type 0 where
  pub diagnostics : List Diagnostic
  pub rejection_reasons : List Reason
  pub review_reasons : List Reason
  pub final_decision : PolicyDecisionType

abbrev pub start : Tally
start = record {
  diagnostics = [];
  rejection_reasons = [];
  review_reasons = [];
  final_decision = allow;
}

abbrev is_denied : PolicyDecisionType → Bool
is_denied deny = true
is_denied _ = false

abbrev pub tally_decision : PolicyDecisionType → Diagnostic → Tally → Tally
tally_decision deny d t = record t {
  rejection_reasons = t.rejection_reasons ++ d.reason ∷ [];
  final_decision = deny;
}
tally_decision require_human_review d t = elim (is_denied t.final_decision) [
  | true ↦ t
  | false ↦ record t {
    review_reasons = t.review_reasons ++ d.reason ∷ [];
    final_decision = require_human_review;
  }
]
tally_decision allow d t = t

-- One round of the loop.
unfoldable pub tally : Diagnostic → Tally → Tally
tally d t = tally_decision d.decision d (record t { diagnostics = t.diagnostics ++ d ∷ [] })

unfoldable pub run_rules : ℕ → Inputs → List Rule → Tally → Option Tally
run_rules fuel i [] t = some t
run_rules fuel i (r ∷ rules) t = elim (evaluate_rule fuel i r) [
  | none ↦ none
  | some d ↦ run_rules fuel i rules (tally d t)
]

abbrev is_allow : PolicyDecisionType → Bool
is_allow allow = true
is_allow _ = false

abbrev is_review : PolicyDecisionType → Bool
is_review require_human_review = true
is_review _ = false

abbrev pub result_of : Tally → EvaluationResult
result_of t = record {
  decision = t.final_decision;
  approved = is_allow t.final_decision;
  requires_human_review = is_review t.final_decision;
  rejection_reasons = t.rejection_reasons;
  review_reasons = t.review_reasons;
  rule_diagnostics = t.diagnostics;
}

unfoldable pub evaluate : ℕ → List Rule → Inputs → Option EvaluationResult
evaluate fuel rules i = elim (run_rules fuel i (engine_rules rules) start) [
  | none ↦ none
  | some t ↦ some (result_of t)
]
