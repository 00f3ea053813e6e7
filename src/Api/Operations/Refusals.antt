-- ===== src/Api/Operations/Refusals.antt =====
-- apps/api/routes/operations.py: the answer to a request that the policy does not authorize.
use mandate_razorpay_control.Prelude.{
  ◌≡◌, ◌≢◌, refl, ◌∙◌, ◌⊎◌, inl, inr, [], ◌∷◌, none, some, find, first_where, modify, modify_head,
  ◌==◌,
}
use mandate_razorpay_control.Core.Enums.{OperationStatus, PolicyDecisionType}
use mandate_razorpay_control.Core.Models.{
  Agent, Mandate, FinancialOperation, Message, agent_key, mandate_key, operation_key,
}
use mandate_razorpay_control.Core.Database.{Db, ok, with_error}
use mandate_razorpay_control.Policy.Engine.{EvaluationResult}
use mandate_razorpay_control.Policy.Engine.Approval.{IsAuthorized}
use mandate_razorpay_control.Policy.Engine.Totality.{evaluate_finishes}
use mandate_razorpay_control.Api.Gateway.{RazorpayClient}
use mandate_razorpay_control.Api.Operations.{
  OperationCreate, Surroundings, new_operation, policy_inputs, apply_decision, record_operation,
  request_financial_operation,
}
use mandate_razorpay_control.Api.Operations.Requests.{denied}
use mandate_razorpay_control.Api.Operations.Answers.{IsStorable, new_decided, fresh_request}

-- The new operation is refused or waits for a human; nothing else of the money tables changes.
pub record Refused (s : Surroundings) (payload : OperationCreate) (db db' : Db) : Type 0 where
  pub row : FinancialOperation
  pub added : db'.operations ≡ row ∷ db.operations
  pub keyed : row.id ≡ s.row_id
  pub replayable : row.idempotency_key ≡ payload.idempotency_key
  pub for_agent : row.agent_id ≡ payload.agent_id
  pub under_mandate : row.mandate_id ≡ payload.mandate_id
  pub same_amount : row.amount ≡ payload.amount
  pub waiting :
      (row.status ≡ OperationStatus.policy_rejected)
      ⊎ (row.status ≡ OperationStatus.requires_approval)
  pub mandates : db'.mandates ≡ db.mandates
  pub transactions : db'.transactions ≡ db.transactions

module _ (g : RazorpayClient) (s : Surroundings) (payload : OperationCreate) (db : Db) where
  abbrev op : FinancialOperation
  op = new_operation s payload

  shelved :
      (r : EvaluationResult) (status : OperationStatus) (why : Message)
      → (status ≡ OperationStatus.policy_rejected) ⊎ (status ≡ OperationStatus.requires_approval)
      → (db' : Db)
      → db'.operations ≡ modify op.id (with_error status why) (record_operation op r db).operations
      → db'.mandates ≡ db.mandates
      → db'.transactions ≡ db.transactions
      → Refused s payload db db'
  shelved r status why waits db' e mandates transactions = record {
    row = with_error status why (record op { policy_decision = some r.decision });
    added = e ∙ modify_head op.id (with_error status why) _ db.operations refl;
    keyed = refl;
    replayable = refl;
    for_agent = refl;
    under_mandate = refl;
    same_amount = refl;
    waiting = waits;
    mandates = mandates;
    transactions = transactions;
  }

  decision-Refused :
      (r : EvaluationResult) (d : PolicyDecisionType)
      → d ≢ PolicyDecisionType.allow
      → Refused s payload db
          (apply_decision g s.transaction_id op payload.payload r d (record_operation op r db))
  unfolding apply_decision
  decision-Refused r PolicyDecisionType.deny h = shelved r _ _ (inl refl) _ refl refl refl
  decision-Refused r PolicyDecisionType.require_human_review h =
      shelved r _ _ (inr refl) _ refl refl refl
  decision-Refused r PolicyDecisionType.allow h = absurd (h refl)

  module _ (m : Mandate) (a : Agent) (mandate_found : find payload.mandate_id db.mandates ≡ some m)
      (agent_found : find payload.agent_id db.agents ≡ some a)
      (unused : first_where (λ o. o.idempotency_key == payload.idempotency_key) db.operations
        ≡ none)
      (open_call : s.active_agent ≡ ok none) (storable : IsStorable payload)
      (unauthorized : ¬ IsAuthorized 0 (policy_inputs s a m (new_operation s payload))) where
    -- A request without credentials and under an unused key, for a mandate and an agent that are
    -- there, that fits the columns of its row and that the policy does not authorize, is answered:
    -- its operation stands in front of the others as POLICY_REJECTED or REQUIRES_APPROVAL, with the
    -- agent, mandate, amount and key of the request, and mandates and transactions stay as they were.
    pub request-Refused :
        (db' : Db) × (request_financial_operation g s payload db ≡ ok (db', s.row_id))
        × Refused s payload db db'
    request-Refused =
        let (r, decided) = evaluate_finishes 0 (policy_inputs s a m op) refl [] in
        (
          apply_decision g s.transaction_id op payload.payload r r.decision
              (record_operation op r db),
          fresh_request g s payload db m a mandate_found agent_found unused open_call storable
              ∙ new_decided g s payload db m a mandate_found agent_found unused open_call storable
              ∙ rw decided refl,
          decision-Refused r r.decision
              (denied g g s payload db m a mandate_found agent_found unauthorized r decided),
        )
