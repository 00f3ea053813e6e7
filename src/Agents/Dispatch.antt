-- ===== src/Agents/Dispatch.antt =====
-- packages/agents/runner.py: the dispatch of a call that a language model proposes. What the dispatch
-- draws comes with the call. The session is explicit: its tables as they were last committed, and as
-- they are now. Texts for the user are left out.
use Prim.Native.String.{String}
use text.Mathlib.Text.{◌==◌ as str_eq}
use mandate_razorpay_control.Prelude.{
  ℕ, suc, ◌*◌, Bool, false, Option, none, some, List, [], ◌∷◌, find, if◌then◌else◌,
}
use mandate_razorpay_control.Prelude.Int.{ℤ, pos}
use mandate_razorpay_control.Core.Enums.{OperationType, PolicyDecisionType}
use mandate_razorpay_control.Core.Models.{
  Agent, Mandate, FinancialOperation, TracedOperation, sample_order, traced, operation_key,
}
use mandate_razorpay_control.Core.Database.{Db, Exception, Detail, Result, ok, err, ◌>>=◌, or_raise}
use mandate_razorpay_control.Shared.Auth.{lstrip, rstrip}
use mandate_razorpay_control.Api.Gateway.{RazorpayClient}
use mandate_razorpay_control.Api.Operations.{
  OperationCreate, Surroundings, request_financial_operation,
}
use mandate_razorpay_control.Api.Operations.Callers.{with_caller}
use mandate_razorpay_control.Agents.Tools.{Product, get_product, execute_local_catalog_tool}
use mandate_razorpay_control.Agents.Lookup.{lookup_transaction}

-- A JSON value that a tool reads; a decimal is its 64 bits. (A null is left out.)
pub data Argument : Type 0 where
  integer : ℤ → Argument
  decimal : ℕ → Argument
  chars : List ℕ → Argument

abbrev pub Arguments : Type 0
Arguments = List (String × Argument)

-- How Python reads an argument: `int(x)`, `int(float(x) * 100)`, `str(x)` and `bool(x)`, with `none`
-- for a call that raises, and the identifier that a text is.
pub record Readings : Type 0 where
  pub int_of : Argument → Option ℤ
  pub paise_of : Argument → Option ℤ
  pub str_of : Argument → List ℕ
  pub bool_of : Argument → Bool
  pub id_of : List ℕ → ℕ

-- A call that the model proposes, with the key and the surroundings of its request.
pub record ToolCall : Type 0 where
  pub name : String
  pub arguments : Arguments
  pub idempotency_key : ℕ
  pub surroundings : Surroundings

pub data ToolResult : Type 0 where
  catalog_items : List Product → ToolResult
  sample_details : ToolResult
  details : FinancialOperation → ToolResult
  unknown_product : List ℕ → ToolResult
  requested : FinancialOperation → ToolResult
  unauthorized_tool : String → ToolResult

-- What a dispatch gives: the result, the operation, and the decision where there is one.
pub record Dispatched : Type 0 where
  pub tool_result : ToolResult
  pub op_id : Option TracedOperation
  pub decision : Option PolicyDecisionType

pub record Session : Type 0 where
  pub committed : Db
  pub current : Db

-- `args.get(name)`
unfoldable pub get : String → Arguments → Option Argument
get name [] = none
get name ((k, v) ∷ rest) = let later = get name rest in if str_eq k name then some v else later

abbrev answer : ToolResult → Dispatched
answer r = record { tool_result = r; op_id = none; decision = none }

abbrev pub text_of : Readings → Option Argument → List ℕ
text_of r none = []
text_of r (some a) = r.str_of a

abbrev pub true_of : Readings → Option Argument → Bool
true_of r none = false
true_of r (some a) = r.bool_of a

-- A category that is not a text has no `lower`; a false one counts as absent.
abbrev pub category_of : Readings → Option Argument → Result (Option (List ℕ))
category_of r none = ok none
category_of r (some (chars s)) = ok (some s)
category_of r (some (integer z)) =
    if r.bool_of (integer z) then err Exception.attribute_error else ok none
category_of r (some (decimal d)) =
    if r.bool_of (decimal d) then err Exception.attribute_error else ok none

abbrev looked_up : Option FinancialOperation → Dispatched
looked_up none = record { tool_result = sample_details; op_id = some sample_order; decision = none }
looked_up (some op) = record {
  tool_result = details op;
  op_id = some (traced op.operation_id);
  decision = none;
}

-- `max(1, z)`
abbrev pub at_least_one : ℤ → ℕ
at_least_one (pos (suc n)) = suc n
at_least_one _ = 1

abbrev pub quantity_of : Readings → Option Argument → Option ℕ
quantity_of r none = some 1
quantity_of r (some a) = elim (r.int_of a) [ none ↦ none | some z ↦ some (at_least_one z) ]

abbrev pub paise_or : ℤ → Readings → Option Argument → Option ℤ
paise_or z r none = some z
paise_or z r (some a) = r.paise_of a

-- An amount above 0, as the schema of a request wants it.
abbrev pub positive : ℤ → Option ℕ
positive (pos (suc n)) = some (suc n)
positive _ = none

-- "INR"
abbrev rupees : List ℕ
rupees = b'I' ∷ b'N' ∷ b'R' ∷ []

abbrev payment_reference : (List ℕ → ℕ) → List ℕ → Option ℕ
payment_reference id_of [] = none
payment_reference id_of (c ∷ s) = some (id_of (c ∷ s))

module _ (r : Readings) (g : RazorpayClient) (agent : Agent) (mandate : Mandate) where
  abbrev pub request_of : ToolCall → OperationType → ℕ → Option ℕ → OperationCreate
  request_of tc kind amount payment_id = record {
    idempotency_key = tc.idempotency_key;
    agent_id = agent.id;
    mandate_id = mandate.id;
    operation_type = kind;
    amount = amount;
    currency = rupees;
    payload = record { payment_id = payment_id };
  }

  abbrev pub answer_for : Db → Option FinancialOperation → Result (Dispatched × Session)
  answer_for db none = err (Exception.not_found Detail.operation_not_found)
  answer_for db (some op) = ok (
    record {
      tool_result = requested op;
      op_id = some (traced op.operation_id);
      decision = op.policy_decision;
    },
    record { committed = db; current = db },
  )

  -- The operation that the handler returned is in the tables; they are committed.
  abbrev pub concluded : Db × ℕ → Result (Dispatched × Session)
  concluded (db, i) = answer_for db (find i db.operations)

  -- A call of the handler itself, without headers: no agent is authenticated. The key is drawn for it,
  -- so no operation is under that key and the handler commits.
  unfoldable pub request :
      ToolCall → OperationType → ℕ → Option ℕ → Session → Result (Dispatched × Session)
  request tc kind amount payment_id s = do
    x ←
        request_financial_operation g (with_caller tc.surroundings (ok none))
          (request_of tc kind amount payment_id) s.current
    concluded x

  abbrev pub order :
      ToolCall → Option Product → List ℕ → ℕ → Session → Result (Dispatched × Session)
  order tc none product_id quantity s = ok (answer (unknown_product product_id), s)
  order tc (some p) product_id quantity s =
      request tc OperationType.create_order (p.price_paise * quantity) none s

  unfoldable pub create_purchase_order : ToolCall → Session → Result (Dispatched × Session)
  unfolding get get_product request
  create_purchase_order tc s = do
    let product_id = text_of r (get "product_id" tc.arguments)
    quantity ← or_raise (quantity_of r (get "quantity" tc.arguments)) Exception.value_error
    order tc (get_product product_id) product_id quantity s

  unfoldable pub create_payment_link : ToolCall → Session → Result (Dispatched × Session)
  unfolding get request
  create_payment_link tc s = do
    paise ←
        or_raise (paise_or (pos 0) r (get "amount_in_rupees" tc.arguments)) Exception.value_error
    amount ← or_raise (positive paise) Exception.validation_error
    request tc OperationType.create_payment_link amount none s

  unfoldable pub issue_refund : ToolCall → Session → Result (Dispatched × Session)
  unfolding get request
  issue_refund tc s = do
    paise ←
        or_raise (paise_or (pos 50000) r (get "amount_in_rupees" tc.arguments))
          Exception.value_error
    amount ← or_raise (positive paise) Exception.validation_error
    request tc OperationType.create_refund amount
        (payment_reference r.id_of (text_of r (get "payment_id" tc.arguments))) s

  unfoldable pub browse : ToolCall → Session → Result (Dispatched × Session)
  unfolding get execute_local_catalog_tool
  browse tc s = do
    category ← category_of r (get "category" tc.arguments)
    ok (answer (catalog_items (execute_local_catalog_tool category)), s)

  unfoldable pub lookup : ToolCall → Session → Result (Dispatched × Session)
  unfolding get lookup_transaction
  lookup tc s = do
    op ←
        lookup_transaction r.id_of (rstrip (lstrip (text_of r (get "operation_id" tc.arguments))))
          (true_of r (get "order_only" tc.arguments)) s.current
    ok (looked_up op, s)

  unfoldable pub dispatch_agent_tool : ToolCall → Session → Result (Dispatched × Session)
  unfolding browse lookup create_purchase_order create_payment_link issue_refund
  dispatch_agent_tool tc s =
      if str_eq tc.name "browse_catalog"
      then browse tc s
      else if str_eq tc.name "lookup_transaction"
      then lookup tc s
      else if str_eq tc.name "create_purchase_order"
      then create_purchase_order tc s
      else if str_eq tc.name "create_payment_link_for_customer"
      then create_payment_link tc s
      else if str_eq tc.name "issue_customer_refund"
      then issue_refund tc s
      else ok (answer (unauthorized_tool tc.name), s)
