-- ===== src/Api/Operations/Additions.antt =====
-- apps/api/routes/operations.py: the operation that a request adds to the tables.
use mandate_razorpay_control.Prelude.{
  ℕ, not, ◌≡◌, refl, ap, ◌∙◌, inl, inr, Option, none, some, [], ◌∷◌, find, modify, modify_head,
  Option-cases,
}
use mandate_razorpay_control.Core.Enums.{OperationStatus, PolicyDecisionType, OperationType}
use mandate_razorpay_control.Core.Models.{
  FinancialOperation, Payload, Message, agent_key, mandate_key, operation_key,
}
use mandate_razorpay_control.Core.Database.{Db, with_status, with_error}
use mandate_razorpay_control.Core.Outcomes.{OnOk, or_raise-OnOk, raise_if-OnOk}
use mandate_razorpay_control.Ledger.Reservation.{reserve_budget_cases}
use mandate_razorpay_control.Policy.Engine.{EvaluationResult, evaluate}
use mandate_razorpay_control.Api.Gateway.{RazorpayClient}
use mandate_razorpay_control.Api.Operations.{
  OperationCreate, Surroundings, lost_race, new_operation, policy_inputs, record_operation,
  fits_columns, apply_decision, reserve_and_execute, request_new,
}
use mandate_razorpay_control.Api.Dispatch.{
  Attempt, raised, returned, execute_gateway_operation, abort_dispatch, try_dispatch,
  dispatch_order, dispatch_payment_link, dispatch_refund, dispatch_refund_of, order_request,
  link_request, refund_request,
}

-- The tables that a request leaves: one operation more, as it was asked for, and the others as they
-- were.
pub record Adds (s : Surroundings) (payload : OperationCreate) (db db' : Db) : Type 0 where
  pub row : FinancialOperation
  pub others : db'.operations ≡ row ∷ db.operations
  pub keyed : row.id ≡ s.row_id
  pub replayable : row.idempotency_key ≡ payload.idempotency_key
  pub same_mandate : row.mandate_id ≡ payload.mandate_id
  pub same_amount : row.amount ≡ payload.amount
  pub same_agent : row.agent_id ≡ payload.agent_id

-- A change of the new operation that leaves what was asked for.
record Minor (f : FinancialOperation → FinancialOperation) : Type 0 where
  key : (x : FinancialOperation) → (f x).id ≡ x.id
  idempotency : (x : FinancialOperation) → (f x).idempotency_key ≡ x.idempotency_key
  mandate : (x : FinancialOperation) → (f x).mandate_id ≡ x.mandate_id
  amount : (x : FinancialOperation) → (f x).amount ≡ x.amount
  agent : (x : FinancialOperation) → (f x).agent_id ≡ x.agent_id

module _ (g : RazorpayClient) (s : Surroundings) (payload : OperationCreate) (start : Db) where
  Adds-modify :
      (f : FinancialOperation → FinancialOperation) (db db' : Db)
      → Minor f
      → Adds s payload start db
      → db'.operations ≡ modify s.row_id f db.operations
      → Adds s payload start db'
  Adds-modify f db db' minor h e = record {
    row = f h.row;
    others =
        e ∙ ap (modify s.row_id f) h.others ∙ modify_head s.row_id f h.row start.operations h.keyed;
    keyed = minor.key h.row ∙ h.keyed;
    replayable = minor.idempotency h.row ∙ h.replayable;
    same_mandate = minor.mandate h.row ∙ h.same_mandate;
    same_amount = minor.amount h.row ∙ h.same_amount;
    same_agent = minor.agent h.row ∙ h.same_agent;
  }

  status-Minor : (x : OperationStatus) → Minor (with_status x)
  status-Minor x = record {
    key = λ o. refl;
    idempotency = λ o. refl;
    mandate = λ o. refl;
    amount = λ o. refl;
    agent = λ o. refl;
  }

  error-Minor : (x : OperationStatus) (why : Message) → Minor (with_error x why)
  error-Minor x why = record {
    key = λ o. refl;
    idempotency = λ o. refl;
    mandate = λ o. refl;
    amount = λ o. refl;
    agent = λ o. refl;
  }

  race-Minor : Minor lost_race
  race-Minor = record {
    key = λ o. refl;
    idempotency = λ o. refl;
    mandate = λ o. refl;
    amount = λ o. refl;
    agent = λ o. refl;
  }

  abbrev AttemptAdds : Attempt → Type 0
  AttemptAdds (raised why) = Unit
  AttemptAdds (returned db') = Adds s payload start db'

  module _ (db : Db) (h : Adds s payload start db) where
    abbrev op : FinancialOperation
    op = new_operation s payload

    order_adds : AttemptAdds (dispatch_order g s.transaction_id op.mandate_id op db)
    unfolding dispatch_order
    order_adds = elim (Option-cases (g.create_order (order_request op))) [
      | inl e ↦ rw (e, dispatch_order) tt
      | inr (x, e) ↦ rw (e, dispatch_order) (Adds-modify _ db _ (status-Minor _) h refl)
    ]

    link_adds : AttemptAdds (dispatch_payment_link g s.transaction_id op.mandate_id op db)
    unfolding dispatch_payment_link
    link_adds = elim (Option-cases (g.create_payment_link (link_request op))) [
      | inl e ↦ rw (e, dispatch_payment_link) tt
      | inr (x, e) ↦ rw (e, dispatch_payment_link) (Adds-modify _ db _ (status-Minor _) h refl)
    ]

    refund_adds :
        (p : Option ℕ) → AttemptAdds (dispatch_refund g s.transaction_id op.mandate_id op p db)
    unfolding dispatch_refund dispatch_refund_of
    refund_adds none = tt
    refund_adds (some p) = elim (Option-cases (g.create_refund (refund_request p op))) [
      | inl e ↦ rw (e, dispatch_refund_of) tt
      | inr (x, e) ↦ rw (e, dispatch_refund_of) (Adds-modify _ db _ (status-Minor _) h refl)
    ]

    attempt_adds :
        (t : OperationType) (p : Payload)
        → AttemptAdds (try_dispatch g s.transaction_id op.mandate_id op t p db)
    unfolding try_dispatch
    attempt_adds OperationType.create_order p = order_adds
    attempt_adds OperationType.create_payment_link p = link_adds
    attempt_adds OperationType.create_refund p = refund_adds p.payment_id
    attempt_adds OperationType.capture_payment p = h
    attempt_adds OperationType.cancel_payment_link p = h

    finished-Adds :
        (a : Attempt)
        → AttemptAdds a
        → Adds s payload start (elim a [
          | raised why ↦ abort_dispatch g s.transaction_id op.mandate_id op why db
          | returned db' ↦ db'
        ])
    unfolding abort_dispatch
    finished-Adds (raised why) k = Adds-modify _ db _ (error-Minor _ why) h refl
    finished-Adds (returned db') k = k

    execute-Adds :
        (p : Payload)
        → Adds s payload start (execute_gateway_operation g s.transaction_id op.mandate_id op p db)
    unfolding execute_gateway_operation
    execute-Adds p = finished-Adds _ (attempt_adds op.operation_type p)

  reserve-Adds :
      (db : Db) (p : Payload)
      → Adds s payload start db
      → Adds s payload start (reserve_and_execute g s.transaction_id (new_operation s payload) p db)
  unfolding reserve_and_execute
  reserve-Adds db p h = elim (reserve_budget_cases db payload.mandate_id payload.amount) [
    | inl (m, owned, room, e) ↦
        rw (e, reserve_and_execute)
          (execute-Adds _ (Adds-modify _ db _ (status-Minor OperationStatus.reserved) h refl) p)
    | inr e ↦ rw (e, reserve_and_execute) (Adds-modify _ db _ race-Minor h refl)
  ]

  decision-Adds :
      (db : Db) (p : Payload) (r : EvaluationResult) (d : PolicyDecisionType)
      → Adds s payload start db
      → Adds s payload start (apply_decision g s.transaction_id (new_operation s payload) p r d db)
  unfolding apply_decision
  decision-Adds db p r PolicyDecisionType.deny h = Adds-modify _ db _ (error-Minor _ _) h refl
  decision-Adds db p r PolicyDecisionType.require_human_review h =
      Adds-modify _ db _ (error-Minor _ _) h refl
  decision-Adds db p r PolicyDecisionType.allow h = reserve-Adds db p h

  recorded-Adds :
      (r : EvaluationResult)
      → Adds s payload start (record_operation (new_operation s payload) r start)
  recorded-Adds r = record {
    row = record op { policy_decision = some r.decision };
    others = refl;
    keyed = refl;
    replayable = refl;
    same_mandate = refl;
    same_amount = refl;
    same_agent = refl;
  }
    where
      op : FinancialOperation
      op = new_operation s payload

  abbrev Answer : Db × ℕ → Type 0
  Answer a = Adds s payload start a.0 × (a.1 ≡ s.row_id)

  pub request_new-Adds :
      OnOk (λ a. Adds s payload start a.0 × (a.1 ≡ s.row_id)) (request_new g s payload start)
  unfolding request_new
  request_new-Adds = or_raise-OnOk Answer (find payload.mandate_id start.mandates) _ _ λ m _.
      or_raise-OnOk Answer (find payload.agent_id start.agents) _ _ λ a _.
        raise_if-OnOk Answer (not (fits_columns (new_operation s payload))) _ _ λ fits.
          or_raise-OnOk Answer (evaluate 0 [] (policy_inputs s a m (new_operation s payload))) _ _
            λ r _. (decision-Adds _ payload.payload r r.decision (recorded-Adds r), refl)
