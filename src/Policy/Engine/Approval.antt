-- ===== src/Policy/Engine/Approval.antt =====
-- packages/policy/engine.py: what an approval by the engine's own rules means.
use mandate_razorpay_control.Prelude.{
  ℕ, zero, suc, ◌+◌, inl, ◌≤◌, ◌≡◌, refl, sym, ◌∙◌, ◌↔◌, ◌⊎◌, true, false, Option, none, some, List,
  [], ◌∷◌, All, arith,
}
use mandate_razorpay_control.Prelude.Int.{ℤ, pos, negsuc, ◌+ℤ◌, ◌≤ℤ◌}
use mandate_razorpay_control.Prelude.Text.{upper, elem, text_eq-eq, text_eq_refl}
use mandate_razorpay_control.Core.Enums.{AgentStatus, MandateStatus, PolicyDecisionType, type_value}
use mandate_razorpay_control.Core.Models.{Mandate}
use mandate_razorpay_control.Policy.Rules.Ancestors.{all_active, walk}
use mandate_razorpay_control.Policy.Rules.{
  Rule, agent_status, mandate_lifecycle, hierarchical_delegation, currency_match,
  allowed_operation_type, per_transaction_limit, aggregate_spend_limit, human_review_threshold,
  rate_limit, Inputs, reaches, agent_status_rule, mandate_lifecycle_rule,
  hierarchical_delegation_rule, currency_match_rule, allowed_operation_type_rule,
  per_transaction_limit_rule, aggregate_spend_limit_rule, human_review_threshold_rule,
  rate_limit_rule,
}
use mandate_razorpay_control.Policy.Engine.{default_rules, evaluate_rule, evaluate}
use mandate_razorpay_control.Policy.Engine.Decision.{
  decision_of, decision_in, join?, severest, evaluate-severest,
}
use PolicyDecisionType.{allow}

-- The walk up the tree, where the engine has a session and the mandate a parent.
abbrev pub AncestorsAllow : ℕ → Option (List Mandate) → Option ℕ → Type 0
AncestorsAllow fuel none parent = Unit
AncestorsAllow fuel (some mandates) parent = walk fuel mandates parent ≡ some all_active

-- No threshold is set, a threshold of 0 counts as none, or the amount is below it.
abbrev pub BelowReview : Option ℤ → ℕ → Type 0
BelowReview none amount = Unit
BelowReview (some t) amount = (t ≡ pos 0) ⊎ (pos (amount + 1) ≤ℤ t)

reaches_below : (o : Option ℤ) (amount : ℕ) → (reaches o amount ≡ false) ↔ BelowReview o amount
reaches_below none amount = (λ e. tt, λ e. refl)
reaches_below (some (pos zero)) amount = (λ e. inl refl, λ e. refl)
reaches_below (some (pos (suc n))) amount = ground arith
reaches_below (some (negsuc n)) amount = ground arith

pub record IsAuthorized (fuel : ℕ) (i : Inputs) : Type 0 where
  pub agent_active : i.agent.status ≡ AgentStatus.active
  pub mandate_active : i.mandate.status ≡ MandateStatus.active
  pub begun : i.mandate.valid_from ≤ i.now
  pub not_over : i.now ≤ i.mandate.valid_until
  pub ancestors : AncestorsAllow fuel i.context_db i.mandate.parent_mandate_id
  pub currency : upper i.operation.currency ≡ upper i.mandate.currency
  pub type_allowed :
      (i.mandate.allowed_operations ≡ [])
      ⊎ (elem (type_value i.operation.operation_type) i.mandate.allowed_operations ≡ true)
  pub within_transaction : i.operation.amount ≤ i.mandate.max_amount_per_op
  pub within_budget :
      i.mandate.current_aggregate_spend +ℤ i.mandate.reserved_spend +ℤ pos i.operation.amount
      ≤ℤ pos i.mandate.aggregate_spend_limit
  pub reviewed :
      ((p : ℕ) × (i.operation.approved_by_id ≡ some p))
      ⊎ BelowReview i.mandate.review_threshold_amount i.operation.amount
  pub within_rate : i.limit_res.allowed ≡ true

join?-allow :
    (a b : Option PolicyDecisionType)
    → (join? a b ≡ some allow) ↔ ((a ≡ some allow) × (b ≡ some allow))
join?-allow a b = ground arith

abbrev Allows : ℕ → Inputs → Rule → Type 0
Allows fuel i r = decision_of (evaluate_rule fuel i r) ≡ some allow

severest-allow :
    (fuel : ℕ) (i : Inputs) (rules : List Rule)
    → severest fuel i rules ≡ some allow
    → All (Allows fuel i) rules
unfolding severest
severest-allow fuel i [] e = tt
severest-allow fuel i (r ∷ rules) e =
    let both = (join?-allow _ (severest fuel i rules)).0 e in
    (both.0, severest-allow fuel i rules both.1)

allow-severest :
    (fuel : ℕ) (i : Inputs) (rules : List Rule)
    → All (Allows fuel i) rules
    → severest fuel i rules ≡ some allow
unfolding severest
allow-severest fuel i [] h = refl
allow-severest fuel i (r ∷ rules) h =
    (join?-allow _ (severest fuel i rules)).1 (h.0, allow-severest fuel i rules h.1)

-- One lemma for each rule.
module _ (fuel : ℕ) (i : Inputs) where
  agent_status-Allows : Allows fuel i agent_status ↔ (i.agent.status ≡ AgentStatus.active)
  unfolding evaluate_rule agent_status_rule
  agent_status-Allows = ground arith

  mandate_lifecycle-Allows : Allows fuel i mandate_lifecycle ↔ (
      (i.mandate.status ≡ MandateStatus.active)
      × (i.mandate.valid_from ≤ i.now)
      × (i.now ≤ i.mandate.valid_until))
  unfolding evaluate_rule mandate_lifecycle_rule
  mandate_lifecycle-Allows = ground arith

  hierarchical_delegation-Allows :
      Allows fuel i hierarchical_delegation
      ↔ AncestorsAllow fuel i.context_db i.mandate.parent_mandate_id
  unfolding evaluate_rule hierarchical_delegation_rule walk
  hierarchical_delegation-Allows = ground arith

  currency_match-Allows :
      Allows fuel i currency_match ↔ (upper i.operation.currency ≡ upper i.mandate.currency)
  unfolding evaluate_rule currency_match_rule
  currency_match-Allows = ground (
    arith,
    text_eq-eq (upper i.operation.currency) (upper i.mandate.currency),
    text_eq_refl (upper i.operation.currency),
  )

  allowed_operation_type-Allows : Allows fuel i allowed_operation_type ↔ (
      (i.mandate.allowed_operations ≡ [])
      ⊎ (elem (type_value i.operation.operation_type) i.mandate.allowed_operations ≡ true))
  unfolding evaluate_rule allowed_operation_type_rule elem
  allowed_operation_type-Allows = ground arith

  per_transaction_limit-Allows :
      Allows fuel i per_transaction_limit ↔ (i.operation.amount ≤ i.mandate.max_amount_per_op)
  unfolding evaluate_rule per_transaction_limit_rule
  per_transaction_limit-Allows = ground arith

  aggregate_spend_limit-Allows : Allows fuel i aggregate_spend_limit ↔ (
      i.mandate.current_aggregate_spend +ℤ i.mandate.reserved_spend +ℤ pos i.operation.amount
      ≤ℤ pos i.mandate.aggregate_spend_limit)
  unfolding evaluate_rule aggregate_spend_limit_rule
  aggregate_spend_limit-Allows = ground arith

  human_review_threshold-Allows : Allows fuel i human_review_threshold ↔ (
      ((p : ℕ) × (i.operation.approved_by_id ≡ some p))
      ⊎ BelowReview i.mandate.review_threshold_amount i.operation.amount)
  unfolding evaluate_rule human_review_threshold_rule
  human_review_threshold-Allows =
      ground (arith, reaches_below i.mandate.review_threshold_amount i.operation.amount)

  rate_limit-Allows : Allows fuel i rate_limit ↔ (i.limit_res.allowed ≡ true)
  unfolding evaluate_rule rate_limit_rule
  rate_limit-Allows = ground arith

  All-IsAuthorized : All (Allows fuel i) default_rules → IsAuthorized fuel i
  All-IsAuthorized (a, (l, (h, (c, (t, (p, (b, (r, (q, _))))))))) =
      let (active, begun, not_over) = mandate_lifecycle-Allows.0 l in
      record {
        agent_active = agent_status-Allows.0 a;
        mandate_active = active;
        begun = begun;
        not_over = not_over;
        ancestors = hierarchical_delegation-Allows.0 h;
        currency = currency_match-Allows.0 c;
        type_allowed = allowed_operation_type-Allows.0 t;
        within_transaction = per_transaction_limit-Allows.0 p;
        within_budget = aggregate_spend_limit-Allows.0 b;
        reviewed = human_review_threshold-Allows.0 r;
        within_rate = rate_limit-Allows.0 q;
      }

  IsAuthorized-All : IsAuthorized fuel i → All (Allows fuel i) default_rules
  IsAuthorized-All v = (
    agent_status-Allows.1 v.agent_active,
    (
      mandate_lifecycle-Allows.1 (v.mandate_active, v.begun, v.not_over),
      (
        hierarchical_delegation-Allows.1 v.ancestors,
        (
          currency_match-Allows.1 v.currency,
          (
            allowed_operation_type-Allows.1 v.type_allowed,
            (
              per_transaction_limit-Allows.1 v.within_transaction,
              (
                aggregate_spend_limit-Allows.1 v.within_budget,
                (
                  human_review_threshold-Allows.1 v.reviewed,
                  (rate_limit-Allows.1 v.within_rate, tt),
                ),
              ),
            ),
          ),
        ),
      ),
    ),
  )

  -- The engine's own rules approve an operation just if the agent and the mandate are active, the
  -- time lies in the mandate's term, the walk up the tree finds active ancestors (where the engine
  -- has a session), currency and type fit, the amount keeps to the limit of one operation and to
  -- the budget, a person has signed or the review threshold is not reached, and the rate limiter
  -- agrees.
  pub evaluate-allow_iff : (decision_in (evaluate fuel [] i) ≡ some allow) ↔ IsAuthorized fuel i
  evaluate-allow_iff = (
    λ e.
        All-IsAuthorized
          (severest-allow fuel i default_rules (sym (evaluate-severest fuel [] i) ∙ e)),
    λ v. evaluate-severest fuel [] i ∙ allow-severest fuel i default_rules (IsAuthorized-All v),
  )
