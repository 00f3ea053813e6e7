-- ===== src/Policy/Rules.antt =====
-- packages/policy/engine.py: the nine rules. A diagnostic leaves out its latency and its texts;
-- the reason tells the branches apart.
pub mod Ancestors
use mandate_razorpay_control.Prelude.{
  ℕ, ◌+◌, Bool, true, false, not, ◌&&◌, Option, none, some, List, [], ◌∷◌, leb, ltb, ◌==◌,
  if◌then◌else◌, length,
}
use mandate_razorpay_control.Prelude.Int.{ℤ, pos, ◌+ℤ◌, ◌-ℤ◌, leb_ℤ, ltb_ℤ, pos_part, neg_part}
use mandate_razorpay_control.Prelude.Text.{upper, text_eq, elem, is_empty}
use mandate_razorpay_control.Core.Enums.{
  PolicyDecisionType, is_active_agent, is_active_mandate, type_value,
}
use mandate_razorpay_control.Core.Models.{
  Agent, Mandate, FinancialOperation, Reason, satisfied, human_signoff, agent_not_active,
  mandate_not_active, not_yet_effective, has_expired, ancestor_not_found, ancestor_not_active,
  currency_mismatch, type_not_authorized, exceeds_transaction_limit, exceeds_remaining_budget,
  reaches_review_threshold, rate_limit_exceeded,
}
use mandate_razorpay_control.Shared.RateLimiter.{RateLimitResult}
use Ancestors.{Walk, all_active, missing, inactive, walk}

pub data Rule : Type 0 where
  agent_status mandate_lifecycle hierarchical_delegation currency_match : Rule
  allowed_operation_type per_transaction_limit aggregate_spend_limit : Rule
  human_review_threshold rate_limit : Rule

pub record Diagnostic : Type 0 where
  pub rule_name : Rule
  pub decision : PolicyDecisionType
  pub passed : Bool
  pub reason : Reason

-- What `evaluate` is given, with the time it reads, the session of its context (the mandates that
-- the session sees) and the answer of the rate limiter.
pub record Inputs : Type 0 where
  pub agent : Agent
  pub mandate : Mandate
  pub operation : FinancialOperation
  pub now : ℕ
  pub context_db : Option (List Mandate)
  pub limit_res : RateLimitResult

abbrev pub allows : Rule → Reason → Diagnostic
allows rule why = record {
  rule_name = rule;
  decision = PolicyDecisionType.allow;
  passed = true;
  reason = why;
}

abbrev pub denies : Rule → Reason → Diagnostic
denies rule why = record {
  rule_name = rule;
  decision = PolicyDecisionType.deny;
  passed = false;
  reason = why;
}

abbrev pub reviews : Rule → Reason → Diagnostic
reviews rule why = record {
  rule_name = rule;
  decision = PolicyDecisionType.require_human_review;
  passed = false;
  reason = why;
}

unfoldable pub agent_status_rule : Inputs → Diagnostic
agent_status_rule i =
    if is_active_agent i.agent.status
    then allows agent_status satisfied
    else denies agent_status agent_not_active

unfoldable pub mandate_lifecycle_rule : Inputs → Diagnostic
mandate_lifecycle_rule i =
    if not (is_active_mandate i.mandate.status)
    then denies mandate_lifecycle mandate_not_active
    else if ltb i.now i.mandate.valid_from
    then denies mandate_lifecycle not_yet_effective
    else if ltb i.mandate.valid_until i.now
    then denies mandate_lifecycle has_expired
    else allows mandate_lifecycle satisfied

abbrev walk_diagnostic : Walk → Diagnostic
walk_diagnostic all_active = allows hierarchical_delegation satisfied
walk_diagnostic (missing p) = denies hierarchical_delegation (ancestor_not_found p)
walk_diagnostic (inactive p) = denies hierarchical_delegation (ancestor_not_active p)

abbrev map_walk : Option Walk → Option Diagnostic
map_walk none = none
map_walk (some w) = some (walk_diagnostic w)

-- `none`: the fuel of the walk ran out.
unfoldable pub hierarchical_delegation_rule : ℕ → Inputs → Option Diagnostic
hierarchical_delegation_rule fuel i = elim i.mandate.parent_mandate_id [
  | none ↦ some (allows hierarchical_delegation satisfied)
  | some p ↦ elim i.context_db [
    | none ↦ some (allows hierarchical_delegation satisfied)
    | some mandates ↦ map_walk (walk fuel mandates (some p))
  ]
]

unfoldable pub currency_match_rule : Inputs → Diagnostic
currency_match_rule i =
    if text_eq (upper i.operation.currency) (upper i.mandate.currency)
    then allows currency_match satisfied
    else denies currency_match currency_mismatch

unfoldable pub allowed_operation_type_rule : Inputs → Diagnostic
allowed_operation_type_rule i =
    if not (is_empty i.mandate.allowed_operations)
      && not (elem (type_value i.operation.operation_type) i.mandate.allowed_operations)
    then denies allowed_operation_type type_not_authorized
    else allows allowed_operation_type satisfied

unfoldable pub per_transaction_limit_rule : Inputs → Diagnostic
per_transaction_limit_rule i =
    if ltb i.mandate.max_amount_per_op i.operation.amount
    then denies per_transaction_limit exceeds_transaction_limit
    else allows per_transaction_limit satisfied

-- `current + reserved + operation.amount`
abbrev pub projected_total : Mandate → ℕ → ℤ
projected_total m amount = m.current_aggregate_spend +ℤ m.reserved_spend +ℤ pos amount

-- `max(0, limit - (current + reserved))`
abbrev pub remaining_budget : Mandate → ℕ
remaining_budget m =
    pos_part (pos m.aggregate_spend_limit -ℤ (m.current_aggregate_spend +ℤ m.reserved_spend))

unfoldable pub aggregate_spend_limit_rule : Inputs → Diagnostic
aggregate_spend_limit_rule i =
    if ltb_ℤ (pos i.mandate.aggregate_spend_limit) (projected_total i.mandate i.operation.amount)
    then denies aggregate_spend_limit (exceeds_remaining_budget (remaining_budget i.mandate))
    else allows aggregate_spend_limit satisfied

-- `threshold and operation.amount >= threshold`
abbrev pub reaches : Option ℤ → ℕ → Bool
reaches none amount = false
reaches (some t) amount = not (pos_part t + neg_part t == 0) && leb_ℤ t (pos amount)

unfoldable pub human_review_threshold_rule : Inputs → Diagnostic
human_review_threshold_rule i = elim i.operation.approved_by_id [
  | some _ ↦ allows human_review_threshold human_signoff
  | none ↦
      if reaches i.mandate.review_threshold_amount i.operation.amount
      then reviews human_review_threshold reaches_review_threshold
      else allows human_review_threshold satisfied
]

unfoldable pub rate_limit_rule : Inputs → Diagnostic
rate_limit_rule i =
    if i.limit_res.allowed
    then allows rate_limit satisfied
    else denies rate_limit rate_limit_exceeded
