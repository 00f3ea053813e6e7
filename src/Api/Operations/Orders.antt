-- ===== src/Api/Operations/Orders.antt =====
-- apps/api/routes/operations.py: an authorized request for an order, to its end.
use mandate_razorpay_control.Prelude.{
  ℕ, ◌≡◌, refl, sym, ap, ◌∙◌, [], ◌∷◌, true, none, some, find, modify, first_where,
  find-modify_self, arith, ◌==◌,
}
use mandate_razorpay_control.Prelude.Int.{pos, ◌+ℤ◌, ◌≤ℤ◌}
use mandate_razorpay_control.Core.Enums.{
  OperationType, OperationStatus, TransactionStatus, AuditAction, PolicyDecisionType,
}
use mandate_razorpay_control.Core.Models.{
  Agent, Mandate, FinancialOperation, Transaction, Payload, ResourceType, agent_key, mandate_key,
  operation_key,
}
use mandate_razorpay_control.Core.Database.{
  Db, ok, set_operation, add_transaction, update_mandate, add_audit, audit, with_status,
}
use mandate_razorpay_control.Core.Concurrency.{has_budget, reserve, reserve_budget}
use mandate_razorpay_control.Policy.Engine.{EvaluationResult, evaluate}
use mandate_razorpay_control.Policy.Engine.Decision.{decision_in}
use mandate_razorpay_control.Policy.Engine.Approval.{IsAuthorized, evaluate-allow_iff}
use mandate_razorpay_control.Policy.Engine.Totality.{evaluate_finishes}
use mandate_razorpay_control.Api.Gateway.{RazorpayClient, RazorpayOrderResponse}
use mandate_razorpay_control.Api.Dispatch.{
  order_request, dispatch_order, try_dispatch, execute_gateway_operation, returned,
}
use mandate_razorpay_control.Api.Operations.{
  OperationCreate, Surroundings, new_operation, policy_inputs, request_new, apply_decision,
  reserve_and_execute, record_operation, request_financial_operation,
}
use mandate_razorpay_control.Api.Operations.Answers.{IsStorable, new_decided, fresh_request}

-- What placing an order leaves: the operation executing, the amount reserved, and the transaction.
pub record Placed (s : Surroundings) (payload : OperationCreate) (m : Mandate)
    (order : RazorpayOrderResponse) (db db' : Db) : Type 0 where
  pub row : FinancialOperation
  pub found : find s.row_id db'.operations ≡ some row
  pub executing : row.status ≡ OperationStatus.executing
  pub reserved : find payload.mandate_id db'.mandates ≡ some (reserve payload.amount m)
  pub transaction : Transaction
  pub recorded : db'.transactions ≡ transaction ∷ db.transactions
  pub ordered : transaction.gateway_order_id ≡ some order.id
  pub owned : transaction.operation_id ≡ s.row_id

abbrev order_transaction : ℕ → FinancialOperation → RazorpayOrderResponse → Transaction
order_transaction tx_id op order = record {
  id = tx_id;
  operation_id = op.id;
  gateway_order_id = some order.id;
  gateway_payment_id = none;
  gateway_refund_id = none;
  gateway_payment_link_id = none;
  amount = order.amount;
  currency = order.currency;
  status = TransactionStatus.created;
}

abbrev placed : ℕ → FinancialOperation → RazorpayOrderResponse → Db → Db
placed tx_id op order db =
    set_operation op.id (with_status OperationStatus.executing)
      (add_transaction (order_transaction tx_id op order) db)

module _ (g : RazorpayClient) (tx_id : ℕ) (op : FinancialOperation) (order : RazorpayOrderResponse)
    (mandate_id : ℕ) (pl : Payload) (db : Db)
    (taken : g.create_order (order_request op) ≡ some order) where
  tried :
      (ty : OperationType)
      → ty ≡ OperationType.create_order
      → try_dispatch g tx_id mandate_id op ty pl db ≡ returned (placed tx_id op order db)
  unfolding try_dispatch dispatch_order
  tried OperationType.create_order e = rw (taken, dispatch_order) refl
  tried OperationType.capture_payment e = cc
  tried OperationType.create_refund e = cc
  tried OperationType.create_payment_link e = cc
  tried OperationType.cancel_payment_link e = cc

  executed :
      op.operation_type ≡ OperationType.create_order
      → execute_gateway_operation g tx_id mandate_id op pl db ≡ placed tx_id op order db
  unfolding execute_gateway_operation
  executed e = rw (tried op.operation_type e, execute_gateway_operation) refl

-- The budget is there, so it is reserved.
reserves :
    (db : Db) (i amount : ℕ) (m : Mandate)
    → find i db.mandates ≡ some m
    → has_budget amount m ≡ true
    → reserve_budget db i amount ≡ (update_mandate i (reserve amount) db, true)
unfolding reserve_budget
reserves db i amount m found room = rw (found, reserve_budget) (rw room refl)

module _ (g : RazorpayClient) (tx_id : ℕ) (op : FinancialOperation) (order : RazorpayOrderResponse)
    (pl : Payload) (db : Db) (m : Mandate) (taken : g.create_order (order_request op) ≡ some order)
    (is_order : op.operation_type ≡ OperationType.create_order)
    (owned : find op.mandate_id db.mandates ≡ some m) (room : has_budget op.amount m ≡ true) where
  abbrev reserved_tables : Db
  reserved_tables =
      add_audit
        (audit AuditAction.budget_reserved ResourceType.mandate op.mandate_id (some op.amount))
        (set_operation op.id (with_status OperationStatus.reserved)
          (update_mandate op.mandate_id (reserve op.amount) db))

  reserved_and_executed :
      reserve_and_execute g tx_id op pl db ≡ placed tx_id op order reserved_tables
  unfolding reserve_and_execute
  reserved_and_executed =
      rw (reserves db op.mandate_id op.amount m owned room, reserve_and_execute)
        (executed g tx_id op order op.mandate_id pl reserved_tables taken is_order)

some_inj : (x y : PolicyDecisionType) → some x ≡ some y → x ≡ y
some_inj x y e = cc

allowed_branch :
    (g : RazorpayClient) (tx_id : ℕ) (op : FinancialOperation) (pl : Payload) (r : EvaluationResult)
    (d : PolicyDecisionType) (db : Db)
    → d ≡ PolicyDecisionType.allow
    → apply_decision g tx_id op pl r d db ≡ reserve_and_execute g tx_id op pl db
unfolding apply_decision
allowed_branch g tx_id op pl r PolicyDecisionType.allow db e = refl
allowed_branch g tx_id op pl r PolicyDecisionType.deny db e = cc
allowed_branch g tx_id op pl r PolicyDecisionType.require_human_review db e = cc

has_room :
    (amount : ℕ) (m : Mandate)
    → m.current_aggregate_spend +ℤ m.reserved_spend +ℤ pos amount ≤ℤ pos m.aggregate_spend_limit
    → has_budget amount m ≡ true
has_room amount m h = ground arith

module _ (g : RazorpayClient) (s : Surroundings) (payload : OperationCreate) (db : Db) (m : Mandate)
    (a : Agent) (order : RazorpayOrderResponse)
    (mandate_found : find payload.mandate_id db.mandates ≡ some m)
    (agent_found : find payload.agent_id db.agents ≡ some a)
    (unused : first_where (λ o. o.idempotency_key == payload.idempotency_key) db.operations ≡ none)
    (open_call : s.active_agent ≡ ok none) (storable : IsStorable payload)
    (authorized : IsAuthorized 0 (policy_inputs s a m (new_operation s payload)))
    (is_order : payload.operation_type ≡ OperationType.create_order)
    (taken : g.create_order (order_request (new_operation s payload)) ≡ some order) where
  abbrev op : FinancialOperation
  op = new_operation s payload

  decided :
      (r : EvaluationResult)
      → evaluate 0 [] (policy_inputs s a m op) ≡ some r
      → r.decision ≡ PolicyDecisionType.allow
  decided r e = some_inj _ _ (sym (ap decision_in e) ∙ (evaluate-allow_iff 0 _).1 authorized)

  abbrev final : EvaluationResult → Db
  final r = placed s.transaction_id op order (
      reserved_tables g s.transaction_id op order payload.payload (record_operation op r db) m taken
        is_order mandate_found (has_room payload.amount m authorized.within_budget))

  answered :
      (r : EvaluationResult)
      → evaluate 0 [] (policy_inputs s a m op) ≡ some r
      → request_new g s payload db ≡ ok (final r, s.row_id)
  answered r e =
      new_decided g s payload db m a mandate_found agent_found unused open_call storable
      ∙ rw e (
          ap (λ x. ok (x, s.row_id))
            (allowed_branch g s.transaction_id op payload.payload r r.decision
                (record_operation op r db) (decided r e)
              ∙ reserved_and_executed g s.transaction_id op order payload.payload
                  (record_operation op r db) m taken is_order mandate_found
                  (has_room payload.amount m authorized.within_budget)))

  final-Placed : (r : EvaluationResult) → Placed s payload m order db (final r)
  unfolding find modify
  final-Placed r = record {
    row =
        with_status OperationStatus.executing
          (with_status OperationStatus.reserved (record op { policy_decision = some r.decision }));
    found = ground arith;
    executing = refl;
    reserved =
        find-modify_self payload.mandate_id (reserve payload.amount) m db.mandates refl
          mandate_found;
    transaction = order_transaction s.transaction_id op order;
    recorded = refl;
    ordered = refl;
    owned = refl;
  }

  -- A request without credentials and under an unused key that fits the columns of its row and that
  -- the policy authorizes, for an order that the gateway takes, is answered with an operation that is
  -- executing; its amount is reserved on the row of its mandate, and the transaction of the gateway's
  -- order is recorded.
  pub request-Placed :
      (db' : Db) × (request_financial_operation g s payload db ≡ ok (db', s.row_id))
      × Placed s payload m order db db'
  request-Placed =
      let (r, e) = evaluate_finishes 0 (policy_inputs s a m op) refl [] in
      (
        final r,
        fresh_request g s payload db m a mandate_found agent_found unused open_call storable
            ∙ answered r e,
        final-Placed r,
      )
