-- ===== src/Agents/Delegation.antt =====
-- packages/agents/delegation.py: an order that a shopping agent hands to a procurement agent. The
-- texts of the result are left out; of the risk score, which is one of two numbers, the test that
-- it passes is kept, and the quantity is a Python integer.
use mandate_razorpay_control.Prelude.{
  ℕ, suc, ◌*◌, ◌≡◌, Bool, Option, none, some, List, [], ◌∷◌, filter, find, leb, ◌==◌,
}
use mandate_razorpay_control.Prelude.Int.{ℤ, pos}
use mandate_razorpay_control.Core.Enums.{OperationType, OperationStatus, PolicyDecisionType}
use mandate_razorpay_control.Core.Models.{
  Agent, Mandate, FinancialOperation, Transaction, Message, operation_key,
}
use mandate_razorpay_control.Core.Database.{
  Db, Exception, Detail, Result, ok, err, ◌>>=◌, or_raise, scalar_one_or_none,
}
use mandate_razorpay_control.Core.Outcomes.{OnOk}
use mandate_razorpay_control.Ledger.{Consistent}
use mandate_razorpay_control.Api.Gateway.{RazorpayClient}
use mandate_razorpay_control.Api.Operations.{
  OperationCreate, Surroundings, request_financial_operation,
}
use mandate_razorpay_control.Api.Operations.Callers.{with_caller}
use mandate_razorpay_control.Api.Operations.Pipeline.{request-Keeps}
use mandate_razorpay_control.Agents.Tools.{Product, get_product}

pub record CollaborativeCommerceResult : Type 0 where
  pub order_id : Option ℕ
  pub operation_id : ℕ
  pub policy_decision : PolicyDecisionType
  pub risk_passed : Bool
  pub shopping_agent_id : ℕ
  pub procurement_agent_id : ℕ
  pub total_amount_paise : ℕ
  pub status : OperationStatus
  pub error_message : Option Message

abbrev rupees : List ℕ
rupees = b'I' ∷ b'N' ∷ b'R' ∷ []

-- A quantity above 0; with another the amount is not above 0 and the request does not validate.
abbrev positive : ℤ → Option ℕ
positive (pos (suc n)) = some (suc n)
positive _ = none

-- `details.get("decision", "DENY")`
abbrev decision_or_deny : Option PolicyDecisionType → PolicyDecisionType
decision_or_deny none = PolicyDecisionType.deny
decision_or_deny (some d) = d

abbrev order_id_of : Option Transaction → Option ℕ
order_id_of none = none
order_id_of (some tx) = tx.gateway_order_id

module _ (g : RazorpayClient) (s : Surroundings) (idempotency_key : ℕ)
    (shopping_agent procurement_agent : Agent) (child_mandate : Mandate) where
  abbrev pub procurement_request : ℕ → OperationCreate
  procurement_request total_amount = record {
    idempotency_key = idempotency_key;
    agent_id = procurement_agent.id;
    mandate_id = child_mandate.id;
    operation_type = OperationType.create_order;
    amount = total_amount;
    currency = rupees;
    payload = record { payment_id = none };
  }

  abbrev result_of : ℕ → FinancialOperation → Option Transaction → CollaborativeCommerceResult
  result_of total_amount op tx = record {
    order_id = order_id_of tx;
    operation_id = op.operation_id;
    policy_decision = decision_or_deny op.policy_decision;
    risk_passed = leb total_amount child_mandate.max_amount_per_op;
    shopping_agent_id = shopping_agent.id;
    procurement_agent_id = procurement_agent.id;
    total_amount_paise = total_amount;
    status = op.status;
    error_message = op.error_message;
  }

  -- The request, and the tables that it commits before its transaction is looked up.
  abbrev pub procured : ℕ → Db × ℕ → Db × Result CollaborativeCommerceResult
  procured total_amount (db, i) = (
    db,
    do
      op ← or_raise (find i db.operations) (Exception.not_found Detail.operation_not_found)
      tx ← scalar_one_or_none (filter (λ t. t.operation_id == op.id) db.transactions)
      ok (result_of total_amount op tx),
  )

  abbrev pub committed : Db → ℕ → Result (Db × ℕ) → Db × Result CollaborativeCommerceResult
  committed db total_amount (err x) = (db, err x)
  committed db total_amount (ok a) = procured total_amount a

  abbrev pub checked_amount : Product → Option ℕ → Db → Db × Result CollaborativeCommerceResult
  checked_amount product none db = (db, err Exception.validation_error)
  checked_amount product (some quantity) db =
      let total_amount = product.price_paise * quantity in
      committed db total_amount (
        request_financial_operation g (with_caller s (ok none)) (procurement_request total_amount)
          db)

  abbrev pub of_product : Option Product → ℤ → Db → Db × Result CollaborativeCommerceResult
  of_product none quantity db = (db, err Exception.value_error)
  of_product (some product) quantity db = checked_amount product (positive quantity) db

  -- The tables that are committed, and the result or the exception.
  unfoldable pub execute_procurement_flow :
      List ℕ → ℤ → Db → Db × Result CollaborativeCommerceResult
  unfolding get_product
  execute_procurement_flow product_id quantity db = of_product (get_product product_id) quantity db

  committed-Consistent :
      (db : Db) (total_amount : ℕ) (x : Result (Db × ℕ))
      → Consistent db
      → OnOk (λ a. Consistent a.0) x
      → Consistent (committed db total_amount x).0
  committed-Consistent db total_amount (err e) v h = v
  committed-Consistent db total_amount (ok a) v h = h

  -- The order of one agent under the mandate of another keeps the ledger.
  pub execute_procurement_flow-Consistent :
      (product_id : List ℕ) (quantity : ℤ) (db : Db)
      → Consistent db
      → find s.row_id db.operations ≡ none
      → Consistent (execute_procurement_flow product_id quantity db).0
  unfolding execute_procurement_flow
  execute_procurement_flow-Consistent product_id quantity db v fresh =
      found (get_product product_id)
    where
      amounts : (p : Product) (q : Option ℕ) → Consistent (checked_amount p q db).0
      amounts p none = v
      amounts p (some q) = committed-Consistent db (p.price_paise * q) _ v (
          request-Keeps g (with_caller s (ok none)) (procurement_request (p.price_paise * q)) db v
            fresh)

      found : (p : Option Product) → Consistent (of_product p quantity db).0
      found none = v
      found (some p) = amounts p (positive quantity)
