-- ===== src/Api/Operations/Pipeline.antt =====
-- apps/api/routes/operations.py: the whole handlers keep the ledger consistent.
use mandate_razorpay_control.Prelude.{
  not, ℕ, ◌≡◌, refl, sym, ◌∙◌, inl, inr, true, false, Option, none, some, [], find, first_where,
  find-modify_self, find-first_where, arith, Bool-cases, not, if◌then◌else◌, ◌==◌,
}
use mandate_razorpay_control.Core.Enums.{OperationStatus, same_status, PolicyDecisionType}
use mandate_razorpay_control.Core.Models.{
  agent_key, Mandate, FinancialOperation, Payload, AuditEvent, mandate_key, operation_key,
}
use mandate_razorpay_control.Core.Database.{
  Db, set_operation, update_mandate, add_audit, with_status,
}
use mandate_razorpay_control.Core.Concurrency.{reserve, has_budget}
use mandate_razorpay_control.Ledger.{in_flight, Consistent}
use mandate_razorpay_control.Ledger.Moves.{relabel-IsConsistent, add_operation-IsConsistent}
use mandate_razorpay_control.Ledger.Settlement.{weight_landed}
use mandate_razorpay_control.Ledger.Reservation.{
  TakesOff, reserve-IsConsistent, reserve_budget_cases,
}
use mandate_razorpay_control.Core.Outcomes.{OnOk, bind-OnOk, or_raise-OnOk, raise_if-OnOk}
use mandate_razorpay_control.Policy.Engine.{EvaluationResult, evaluate}
use mandate_razorpay_control.Api.Gateway.{RazorpayClient}
use mandate_razorpay_control.Api.Operations.{
  fits_columns, OperationCreate, Surroundings, with_approval, reserve_and_execute, apply_decision,
  approve_by_human, reject_by_human, request_new, replay_or, request_financial_operation,
  human_approve_operation, HumanApprovalRequest, new_operation, record_operation, policy_inputs,
}
use mandate_razorpay_control.Api.Dispatch.{execute_gateway_operation}
use mandate_razorpay_control.Api.Operations.Safety.{execute-Consistent}

reserved-TakesOff : (o : FinancialOperation) → TakesOff o (with_status OperationStatus.reserved o)
reserved-TakesOff o = record {
  same_key = refl;
  same_mandate = refl;
  same_amount = refl;
  flies = refl;
}

approval-TakesOff : (who : ℕ) (o : FinancialOperation) → TakesOff o (with_approval who o)
approval-TakesOff who o = record {
  same_key = refl;
  same_mandate = refl;
  same_amount = refl;
  flies = refl;
}

-- An operation that holds nothing yet, as a handler and as the tables have it.
pub record Waits (db : Db) (op row : FinancialOperation) : Type 0 where
  pub found : find op.id db.operations ≡ some row
  pub waiting : in_flight row.status ≡ false
  pub same_amount : row.amount ≡ op.amount
  pub same_mandate : row.mandate_id ≡ op.mandate_id

module _ (g : RazorpayClient) (tx_id : ℕ) (op row : FinancialOperation) (payload : Payload)
    (db : Db) (v : Consistent db) (w : Waits db op row) where
  -- A change to a status that holds nothing.
  pub stay-Consistent :
      (f : FinancialOperation → FinancialOperation)
      → ((x : FinancialOperation) → (f x).id ≡ x.id)
      → ((x : FinancialOperation) → (f x).mandate_id ≡ x.mandate_id)
      → ((x : FinancialOperation) → in_flight (f x).status ≡ false)
      → Consistent (set_operation op.id f db)
  stay-Consistent f key mandate lands =
      relabel-IsConsistent db.mandates db.operations v op.id row f w.found key (mandate row)
        (weight_landed (f row) (lands row) ∙ sym (weight_landed row w.waiting))

  -- The budget is reserved, the operation takes off and goes to the gateway.
  pub launch-Consistent :
      (f : FinancialOperation → FinancialOperation) (m : Mandate) (a : AuditEvent)
      → ((x : FinancialOperation) → TakesOff x (f x))
      → find op.mandate_id db.mandates ≡ some m
      → has_budget op.amount m ≡ true
      → Consistent (
          execute_gateway_operation g tx_id op.mandate_id op payload (
            add_audit a
              (set_operation op.id f (update_mandate op.mandate_id (reserve op.amount) db))))
  launch-Consistent f m a takes owned room =
      execute-Consistent g tx_id op (f row) (reserve op.amount m)
        (add_audit a (set_operation op.id f (update_mandate op.mandate_id (reserve op.amount) db)))
        (rw (← w.same_amount) (
          reserve-IsConsistent v op.id row f op.mandate_id m w.found w.waiting w.same_mandate owned
            (rw w.same_amount room) takes))
        (record {
          found = find-modify_self op.id f row db.operations (takes row).same_key w.found;
          flying = (takes row).flies;
          same_amount = (takes row).same_amount ∙ w.same_amount;
          same_mandate = (takes row).same_mandate ∙ w.same_mandate;
          owned = find-modify_self op.mandate_id (reserve op.amount) m db.mandates refl owned;
        })
        payload

  reserve_and_execute-Consistent : Consistent (reserve_and_execute g tx_id op payload db)
  unfolding reserve_and_execute
  reserve_and_execute-Consistent = elim (reserve_budget_cases db op.mandate_id op.amount) [
    | inl (m, owned, room, e) ↦
        rw (e, reserve_and_execute) (launch-Consistent _ m _ (λ x. reserved-TakesOff x) owned room)
    | inr e ↦ rw (e, reserve_and_execute) (stay-Consistent _ (λ x. refl) (λ x. refl) (λ x. refl))
  ]

  apply_decision-Consistent :
      (r : EvaluationResult) (d : PolicyDecisionType)
      → Consistent (apply_decision g tx_id op payload r d db)
  unfolding apply_decision
  apply_decision-Consistent r PolicyDecisionType.deny =
      stay-Consistent _ (λ x. refl) (λ x. refl) (λ x. refl)
  apply_decision-Consistent r PolicyDecisionType.require_human_review =
      stay-Consistent _ (λ x. refl) (λ x. refl) (λ x. refl)
  apply_decision-Consistent r PolicyDecisionType.allow = reserve_and_execute-Consistent

module _ (g : RazorpayClient) (tx_id : ℕ) (op row : FinancialOperation) (db : Db)
    (v : Consistent db) (w : Waits db op row) (who : ℕ) where
  approve_by_human-Consistent : Consistent (approve_by_human g tx_id op who db)
  unfolding approve_by_human
  approve_by_human-Consistent = elim (reserve_budget_cases db op.mandate_id op.amount) [
    | inl (m, owned, room, e) ↦
        rw (e, approve_by_human)
          (launch-Consistent g tx_id op row op.payload db v w _ m _ (λ x. approval-TakesOff who x)
            owned room)
    | inr e ↦
        rw (e, approve_by_human)
          (stay-Consistent g tx_id op row op.payload db v w _ (λ x. refl) (λ x. refl) (λ x. refl))
  ]

abbrev pub Kept : Db × ℕ → Type 0
Kept (db, i) = Consistent db

module _ (g : RazorpayClient) (s : Surroundings) (payload : OperationCreate) (db : Db)
    (v : Consistent db) (fresh : find s.row_id db.operations ≡ none) where
  recorded-Consistent :
      (r : EvaluationResult)
      → Consistent (
          apply_decision g s.transaction_id
            (new_operation s payload)
            payload.payload
            r
            r.decision
            (record_operation (new_operation s payload) r db))
  unfolding find
  recorded-Consistent r =
      apply_decision-Consistent g s.transaction_id (new_operation s payload)
        (record op { policy_decision = some r.decision }) payload.payload _
        (add_operation-IsConsistent db.mandates db.operations v _ fresh refl)
        (record { found = ground arith; waiting = refl; same_amount = refl; same_mandate = refl }) r
        r.decision
    where
      op : FinancialOperation
      op = new_operation s payload

  request_new-Keeps : OnOk Kept (request_new g s payload db)
  unfolding request_new
  request_new-Keeps = or_raise-OnOk Kept (find payload.mandate_id db.mandates) _ _ λ m _.
      or_raise-OnOk Kept (find payload.agent_id db.agents) _ _ λ a _.
        raise_if-OnOk Kept (not (fits_columns (new_operation s payload))) _ _ λ fits.
          or_raise-OnOk Kept (evaluate 0 [] (policy_inputs s a m (new_operation s payload))) _ _
            λ r _. recorded-Consistent r

  found_or_new :
      (existing : Option FinancialOperation)
      → OnOk Kept (replay_or existing db (request_new g s payload db))
  found_or_new none = request_new-Keeps
  found_or_new (some o) = v

  -- A request for an operation, under a fresh key, keeps the ledger consistent on every path: the
  -- refusals, the replay of a key, the denial, the review, the lost race and every answer of the
  -- gateway.
  pub request-Keeps : OnOk Kept (request_financial_operation g s payload db)
  unfolding request_financial_operation
  request-Keeps = bind-OnOk Kept s.active_agent _ λ caller _. raise_if-OnOk Kept _ _ _ λ _.
      found_or_new (first_where (λ o. o.idempotency_key == payload.idempotency_key) db.operations)

approve_or_reject :
    (g : RazorpayClient) (tx_id : ℕ) (op : FinancialOperation) (approval : HumanApprovalRequest)
    (db : Db)
    → Consistent db
    → Waits db op op
    → Consistent (
        if approval.approved
        then approve_by_human g tx_id op approval.approved_by_id db
        else reject_by_human op approval.reason db)
unfolding reject_by_human
approve_or_reject g tx_id op approval db v w = elim (Bool-cases approval.approved) [
  | inl e ↦ rw e (approve_by_human-Consistent g tx_id op op db v w approval.approved_by_id)
  | inr e ↦
      rw e (stay-Consistent g tx_id op op op.payload db v w _ (λ x. refl) (λ x. refl) (λ x. refl))
]

awaiting :
    (s : OperationStatus)
    → not (same_status s OperationStatus.requires_approval) ≡ false
    → in_flight s ≡ false
awaiting s h = ground arith

-- The answer of a person to an operation under review keeps the ledger consistent on every path.
pub human_approve-Keeps :
    (g : RazorpayClient) (tx_id operation_id : ℕ) (approval : HumanApprovalRequest) (db : Db)
    → Consistent db
    → OnOk Consistent (human_approve_operation g tx_id operation_id approval db)
unfolding human_approve_operation
human_approve-Keeps g tx_id operation_id approval db v =
    or_raise-OnOk Consistent (first_where (λ o. o.operation_id == operation_id) db.operations) _ _
      λ op e. raise_if-OnOk Consistent _ _ _ λ held.
        or_raise-OnOk Consistent (find op.mandate_id db.mandates) _ _ λ m _.
          approve_or_reject g tx_id op approval db v (record {
            found = find-first_where _ op db.operations v.unique e;
            waiting = awaiting op.status held;
            same_amount = refl;
            same_mandate = refl;
          })
