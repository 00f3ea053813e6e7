-- ===== src/Policy/Engine/Totality.antt =====
-- packages/policy/engine.py: an engine without a session always comes to a decision.
use mandate_razorpay_control.Prelude.{
  ℕ, ◌≡◌, refl, inl, inr, none, some, List, [], ◌∷◌, Option-cases,
}
use mandate_razorpay_control.Core.Models.{satisfied}
use mandate_razorpay_control.Policy.Rules.{
  Rule, agent_status, mandate_lifecycle, hierarchical_delegation, currency_match,
  allowed_operation_type, per_transaction_limit, aggregate_spend_limit, human_review_threshold,
  rate_limit, allows, Diagnostic, Inputs, hierarchical_delegation_rule,
}
use mandate_razorpay_control.Policy.Engine.{
  EvaluationResult, Tally, engine_rules, evaluate_rule, start, tally, run_rules, result_of,
  evaluate,
}

module _ (fuel : ℕ) (i : Inputs) (no_session : i.context_db ≡ none) where
  delegation_decides : (d : Diagnostic) × (hierarchical_delegation_rule fuel i ≡ some d)
  unfolding hierarchical_delegation_rule
  delegation_decides = elim (Option-cases i.mandate.parent_mandate_id) [
    | inl root ↦
        (allows hierarchical_delegation satisfied, rw (root, hierarchical_delegation_rule) refl)
    | inr (p, below) ↦ (
      allows hierarchical_delegation satisfied,
      rw (below, hierarchical_delegation_rule) (rw (no_session, hierarchical_delegation_rule) refl),
    )
  ]

  rule_decides : (r : Rule) → (d : Diagnostic) × (evaluate_rule fuel i r ≡ some d)
  unfolding evaluate_rule
  rule_decides agent_status = (_, refl)
  rule_decides mandate_lifecycle = (_, refl)
  rule_decides hierarchical_delegation = delegation_decides
  rule_decides currency_match = (_, refl)
  rule_decides allowed_operation_type = (_, refl)
  rule_decides per_transaction_limit = (_, refl)
  rule_decides aggregate_spend_limit = (_, refl)
  rule_decides human_review_threshold = (_, refl)
  rule_decides rate_limit = (_, refl)

  rules_finish :
      (rules : List Rule) (t : Tally) → (t' : Tally) × (run_rules fuel i rules t ≡ some t')
  unfolding run_rules
  rules_finish [] t = (t, refl)
  rules_finish (r ∷ rules) t =
      let (d, decided) = rule_decides r in
      let (t', rest) = rules_finish rules (tally d t) in (t', rw (decided, run_rules) rest)

  pub evaluate_finishes :
      (rules : List Rule) → (r : EvaluationResult) × (evaluate fuel rules i ≡ some r)
  unfolding evaluate
  evaluate_finishes rules =
      let (t, finished) = rules_finish (engine_rules rules) start in
      (result_of t, rw (finished, evaluate) refl)
