-- ===== src/Api/Operations/Requests.antt =====
-- apps/api/routes/operations.py: what a request does to the tables, and when it reaches the gateway.
use mandate_razorpay_control.Prelude.{
  ℕ, not, ◌≡◌, ◌≢◌, refl, ap, ◌∙◌, inl, inr, some, [], find, first_where, ◌==◌, Option-cases,
}
use mandate_razorpay_control.Core.Enums.{PolicyDecisionType}
use mandate_razorpay_control.Core.Models.{
  Agent, Mandate, FinancialOperation, Payload, agent_key, mandate_key, operation_key,
}
use mandate_razorpay_control.Core.Database.{Db, ok, ◌>>=◌, ◌>>◌, raise_if, Exception, Detail}
use mandate_razorpay_control.Policy.Engine.{EvaluationResult, evaluate}
use mandate_razorpay_control.Policy.Engine.Decision.{decision_in}
use mandate_razorpay_control.Policy.Engine.Approval.{IsAuthorized, evaluate-allow_iff}
use mandate_razorpay_control.Api.Gateway.{RazorpayClient}
use mandate_razorpay_control.Api.Operations.{
  OperationCreate, Surroundings, new_operation, policy_inputs, apply_decision, fits_columns, decide,
  request_new, replay_or, is_other_agent, request_financial_operation,
}

-- Without an approval the gateway is not asked.
undispatched :
    (g g' : RazorpayClient) (tx_id : ℕ) (op : FinancialOperation) (payload : Payload)
    (r : EvaluationResult) (d : PolicyDecisionType) (db : Db)
    → d ≢ PolicyDecisionType.allow
    → apply_decision g tx_id op payload r d db ≡ apply_decision g' tx_id op payload r d db
unfolding apply_decision
undispatched g g' tx_id op payload r PolicyDecisionType.deny db h = refl
undispatched g g' tx_id op payload r PolicyDecisionType.require_human_review db h = refl
undispatched g g' tx_id op payload r PolicyDecisionType.allow db h = absurd (h refl)

module _ (g g' : RazorpayClient) (s : Surroundings) (payload : OperationCreate) (db : Db)
    (m : Mandate) (a : Agent) (mandate_found : find payload.mandate_id db.mandates ≡ some m)
    (agent_found : find payload.agent_id db.agents ≡ some a)
    (unauthorized : ¬ IsAuthorized 0 (policy_inputs s a m (new_operation s payload))) where
  pub denied :
      (r : EvaluationResult)
      → evaluate 0 [] (policy_inputs s a m (new_operation s payload)) ≡ some r
      → r.decision ≢ PolicyDecisionType.allow
  denied r e d = unauthorized ((evaluate-allow_iff 0 _).0 (ap decision_in e ∙ ap some d))

  same_decision : decide g s payload a m db ≡ decide g' s payload a m db
  same_decision =
      elim (Option-cases (evaluate 0 [] (policy_inputs s a m (new_operation s payload)))) [
        | inl e ↦ rw e refl
        | inr (r, e) ↦ rw e (
            ap (λ x. ok (x, s.row_id))
              (undispatched g g' s.transaction_id _ payload.payload r r.decision _ (denied r e)))
      ]

  same_new : request_new g s payload db ≡ request_new g' s payload db
  unfolding request_new
  same_new =
      rw (mandate_found, request_new)
        (rw (agent_found, request_new)
          (ap
            (λ new.
              raise_if (not (fits_columns (new_operation s payload))) Exception.data_error >> new)
            same_decision))

  -- A request that the policy does not authorize never reaches the gateway: whatever gateway stands
  -- behind it, the answer and the tables are the same.
  pub request_undispatched :
      request_financial_operation g s payload db ≡ request_financial_operation g' s payload db
  unfolding request_financial_operation
  request_undispatched =
      ap
        (λ new. s.active_agent >>= λ caller.
          raise_if (is_other_agent caller payload.agent_id)
            (Exception.forbidden Detail.identity_mismatch)
          >> replay_or
              (first_where (λ o. o.idempotency_key == payload.idempotency_key) db.operations) db
              new)
        same_new
