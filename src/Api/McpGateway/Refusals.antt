-- ===== src/Api/McpGateway/Refusals.antt =====
-- apps/api/routes/mcp_gateway.py: calls of tools that name no amount.
use Prim.Native.String.{String}
use text.Mathlib.Text.{◌==◌ as str_eq}
use text.Mathlib.TextEquality.{eq_iff}
use mandate_razorpay_control.Prelude.{
  ◌≡◌, refl, Bool, true, false, Option, none, some, List, [], ◌∷◌, if◌then◌else◌, arith,
}
use mandate_razorpay_control.Prelude.Text.{elem}
use mandate_razorpay_control.Core.Enums.{OperationType}
use mandate_razorpay_control.Core.Models.{Agent, Mandate}
use mandate_razorpay_control.Core.Database.{Db, Exception, ok, err}
use mandate_razorpay_control.Shared.Auth.{Environment, Headers, authenticate_agent_caller}
use mandate_razorpay_control.Mcp.Catalog.Tools.{Tool, registry}
use mandate_razorpay_control.Api.Gateway.{RazorpayClient}
use mandate_razorpay_control.Api.McpGateway.{
  route_operation, run_read_only, run_by, dispatch_mcp_tool_call, run_method,
  handle_mcp_jsonrpc_gateway,
}
use mandate_razorpay_control.Api.McpGateway.Requests.{
  Arguments, Call, JsonRpcRequest, get, unexpected, find_tool, operation_request, active_mandate,
}

-- What a schema does not have is not among the arguments that it accepts.
get-unexpected :
    (name : String) (props : List String) (arguments : Arguments)
    → elem name props ≡ false
    → unexpected props arguments ≡ none
    → get name arguments ≡ none
unfolding get unexpected
get-unexpected name props [] h e = refl
get-unexpected name props ((k, v) ∷ rest) h e =
    ground (arith, eq_iff k name, get-unexpected name props rest h)

-- The read-only tools that the gateway answers itself.
abbrev pub is_handled : Tool → Bool
is_handled t =
    if str_eq t.name "payments_fetch_order"
    then true
    else if str_eq t.name "payments_fetch_payment"
    then true
    else if str_eq t.name "payouts_create"
    then true
    else false

module _ (e : Environment) (g : RazorpayClient) (call : Call) (agent : Agent) (m : Mandate)
    (t : Tool) (arguments : Arguments) (db : Db) (no_amount : elem "amount" t.properties ≡ false)
    (expected : unexpected t.properties arguments ≡ none) where
  no_request : (kind : Option OperationType) → operation_request call agent m kind arguments ≡ none
  no_request none = refl
  no_request (some kind) =
      rw (get-unexpected "amount" t.properties arguments no_amount expected) refl

  route-raises : route_operation e g call agent m t arguments db ≡ err Exception.validation_error
  unfolding route_operation
  route-raises = rw (no_request t.operation_type, route_operation) refl

  run-raises :
      (kind : Option OperationType)
      → (kind ≡ none → is_handled t ≡ false)
      → run_by e g call agent m kind t arguments db ≡ err Exception.validation_error
  unfolding run_read_only
  run-raises (some kind) unhandled = route-raises
  run-raises none unhandled = ground (arith, route-raises, unhandled refl)

abbrev pub tool_call : String → Arguments → JsonRpcRequest
tool_call name arguments = record {
  method = "tools/call";
  tool_name = some name;
  arguments = arguments;
}

-- A call of a tool that has no parameter for an amount, and that is not one of the three read-only
-- tools that are handled, with parameters of the schema, raises for every authenticated agent with
-- an active mandate: nothing is requested, and no answer is given.
pub no_amount-raises :
    (e : Environment) (g : RazorpayClient) (call : Call) (name : String) (arguments : Arguments)
    (db : Db) (headers : Headers) (agent : Agent) (m : Mandate) (t : Tool)
    → authenticate_agent_caller e headers true db ≡ ok (some agent)
    → active_mandate agent.id db ≡ some m
    → find_tool name registry ≡ some t
    → unexpected t.properties arguments ≡ none
    → elem "amount" t.properties ≡ false
    → (t.operation_type ≡ none → is_handled t ≡ false)
    → handle_mcp_jsonrpc_gateway e g call (tool_call name arguments) db headers
      ≡ err Exception.validation_error
unfolding handle_mcp_jsonrpc_gateway run_method dispatch_mcp_tool_call
no_amount-raises e g call name arguments db headers agent m t found chosen tool expected no_amount
      unhandled =
    rw (found, handle_mcp_jsonrpc_gateway)
      (rw (chosen, handle_mcp_jsonrpc_gateway)
        (rw (tool, dispatch_mcp_tool_call)
          (rw (expected, dispatch_mcp_tool_call)
            (run-raises e g call agent m t arguments db no_amount expected t.operation_type
              unhandled))))
