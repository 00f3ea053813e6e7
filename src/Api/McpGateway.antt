-- ===== src/Api/McpGateway.antt =====
-- apps/api/routes/mcp_gateway.py: the JSON-RPC gateway, by which an agent lists and calls tools.
-- Texts, latencies and the remaining budget that an answer quotes are left out.
pub mod Requests
pub mod Acts
pub mod Ledger
pub mod Refusals
use Prim.Native.String.{String}
use text.Mathlib.Text.{◌==◌ as str_eq}
use mandate_razorpay_control.Prelude.{
  ℕ, suc, Bool, true, false, ◌&&◌, Option, none, some, List, [], ◌∷◌, find, filter, first_where,
  ltb, ◌==◌, if◌then◌else◌,
}
use mandate_razorpay_control.Prelude.Int.{ℤ, pos, negsuc}
use mandate_razorpay_control.Prelude.Text.{elem}
use mandate_razorpay_control.Core.Enums.{
  OperationType, OperationStatus, PolicyDecisionType, is_active_mandate,
}
use mandate_razorpay_control.Core.Models.{
  Agent, Mandate, FinancialOperation, Transaction, Message, operation_key,
}
use mandate_razorpay_control.Core.Database.{
  Db, Exception, Detail, Result, ok, err, ◌>>=◌, or_raise, scalar_one_or_none,
}
use mandate_razorpay_control.Shared.Auth.{Environment, Headers, authenticate_agent_caller}
use mandate_razorpay_control.Mcp.Catalog.{get_filtered_mcp_tools}
use mandate_razorpay_control.Mcp.Catalog.Tools.{Tool, registry}
use mandate_razorpay_control.Api.Gateway.{RazorpayClient, RazorpayOrderResponse}
use mandate_razorpay_control.Api.Operations.{OperationCreate, Surroundings}
use mandate_razorpay_control.Api.Operations.Callers.{request_as}
use mandate_razorpay_control.Api.McpGateway.Requests.{
  Value, Arguments, JsonRpcRequest, Call, RpcError, OrderName, Response, get, unexpected, newer_of,
  newest, is_active_of, active_mandate, find_tool, currency_of, amount_of, reference, identifier,
  validated, operation_request, number, chars, unauthenticated, authentication_required,
  no_active_mandate, method_not_found, unknown_tool, unexpected_parameter, payouts_denied,
  execution_error, gateway_order, placeholder, error, server_info, tools, order_details,
  payment_details, denied, executed,
}

-- The call of the handler with the stored hash as the key.
abbrev pub own_headers : Agent → Headers
own_headers agent = record {
  x_agent_key = some agent.api_key_hash;
  authorization = none;
  x_agent_id = some agent.id;
}

abbrev pub is_denial : Option PolicyDecisionType → Bool
is_denial none = true
is_denial (some PolicyDecisionType.deny) = true
is_denial (some _) = false

abbrev pub order_name : FinancialOperation → Option Transaction → OrderName
order_name op none = placeholder op.operation_id
order_name op (some tx) = elim tx.gateway_order_id [
  | some order ↦ gateway_order order
  | none ↦ placeholder op.operation_id
]

-- The answer for the operation that the handler returned. Whatever is not a denial is reported as
-- executed, with the status that the operation has.
unfoldable pub answer_for : String → FinancialOperation → Db → Response
answer_for name op db =
    if is_denial op.policy_decision
    then denied op.operation_id op.error_message
    else elim (scalar_one_or_none (filter (λ t. t.operation_id == op.id) db.transactions)) [
      | err raised ↦ error (execution_error raised)
      | ok tx ↦ executed name op.operation_id op.status (order_name op tx)
    ]

-- The `try` around the request: any exception becomes an answer. (The operation that is returned is
-- in the tables.)
unfoldable pub conclude : String → Db → Result (Db × ℕ) → Db × Response
unfolding answer_for
conclude name db (err raised) = (db, error (execution_error raised))
conclude name db (ok (db', i)) = elim (find i db'.operations) [
  | none ↦ (db', error (execution_error (Exception.not_found Detail.operation_not_found)))
  | some op ↦ (db', answer_for name op db')
]

module _ (e : Environment) (g : RazorpayClient) (call : Call) (agent : Agent)
    (mandate : Mandate) where
  -- A tool that moves money; the request is validated outside the `try`.
  unfoldable pub route_operation : Tool → Arguments → Db → Result (Db × Response)
  unfolding conclude get
  route_operation t arguments db = do
    op_req ←
        or_raise (operation_request call agent mandate t.operation_type arguments)
          Exception.validation_error
    ok (conclude t.name db (request_as e (own_headers agent) g call.surroundings op_req db))

  unfoldable pub fetch_order_details : Arguments → Db → Result (Db × Response)
  unfolding get
  fetch_order_details arguments db = do
    order ←
        or_raise (g.fetch_order (identifier call (get "order_id" arguments)))
          Exception.gateway_exception
    ok (db, order_details order)

  -- A tool without an operation: three are handled, the others go on to the request.
  unfoldable pub run_read_only : Tool → Arguments → Db → Result (Db × Response)
  unfolding fetch_order_details route_operation get
  run_read_only t arguments db =
      if str_eq t.name "payments_fetch_order"
      then fetch_order_details arguments db
      else if str_eq t.name "payments_fetch_payment"
      then ok (db, payment_details (identifier call (get "payment_id" arguments)))
      else if str_eq t.name "payouts_create"
      then ok (db, error payouts_denied)
      else route_operation t arguments db

  abbrev pub run_by : Option OperationType → Tool → Arguments → Db → Result (Db × Response)
  run_by none t arguments db = run_read_only t arguments db
  run_by (some kind) t arguments db = route_operation t arguments db

  abbrev pub run_checked : Option String → Tool → Arguments → Db → Result (Db × Response)
  run_checked (some key) t arguments db = ok (db, error (unexpected_parameter key))
  run_checked none t arguments db = run_by t.operation_type t arguments db

  abbrev pub run_found : Option Tool → Arguments → Db → Result (Db × Response)
  run_found none arguments db = ok (db, error unknown_tool)
  run_found (some t) arguments db = run_checked (unexpected t.properties arguments) t arguments db

  abbrev pub find_named : Option String → Option Tool
  find_named none = none
  find_named (some name) = find_tool name registry

  unfoldable pub dispatch_mcp_tool_call : Option String → Arguments → Db → Result (Db × Response)
  unfolding find_tool unexpected run_read_only route_operation
  dispatch_mcp_tool_call name arguments db = run_found (find_named name) arguments db

  unfoldable pub run_method : JsonRpcRequest → Db → Result (Db × Response)
  unfolding dispatch_mcp_tool_call
  run_method request db =
      if str_eq request.method "initialize"
      then ok (db, server_info)
      else if str_eq request.method "tools/list"
      then ok (db, tools (get_filtered_mcp_tools agent mandate))
      else if str_eq request.method "tools/call"
      then dispatch_mcp_tool_call request.tool_name request.arguments db
      else ok (db, error method_not_found)

module _ (e : Environment) (g : RazorpayClient) (call : Call) (request : JsonRpcRequest)
    (db : Db) where
  abbrev pub with_mandate : Agent → Option Mandate → Result (Db × Response)
  with_mandate agent none = ok (db, error no_active_mandate)
  with_mandate agent (some mandate) = run_method e g call agent mandate request db

  -- The authentication raises nothing but HTTP exceptions, which become answers.
  abbrev pub with_agent : Result (Option Agent) → Result (Db × Response)
  with_agent (err raised) = ok (db, error (unauthenticated raised))
  with_agent (ok none) = ok (db, error authentication_required)
  with_agent (ok (some agent)) = with_mandate agent (active_mandate agent.id db)

  unfoldable pub handle_mcp_jsonrpc_gateway : Headers → Result (Db × Response)
  unfolding newest run_method
  handle_mcp_jsonrpc_gateway headers = with_agent (authenticate_agent_caller e headers true db)
