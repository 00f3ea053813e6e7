-- ===== src/Api/McpGateway/Requests.antt =====
-- apps/api/routes/mcp_gateway.py: what a call brings, and the request that is made of it.
use Prim.Native.String.{String}
use text.Mathlib.Text.{◌==◌ as str_eq}
use mandate_razorpay_control.Prelude.{
  ℕ, suc, Bool, ◌&&◌, Option, none, some, List, [], ◌∷◌, filter, ltb, ◌==◌, if◌then◌else◌,
}
use mandate_razorpay_control.Prelude.Int.{ℤ, pos}
use mandate_razorpay_control.Prelude.Text.{elem}
use mandate_razorpay_control.Core.Enums.{OperationType, OperationStatus, is_active_mandate}
use mandate_razorpay_control.Core.Models.{Agent, Mandate, Message, operation_key}
use mandate_razorpay_control.Core.Database.{Db, Exception}
use mandate_razorpay_control.Mcp.Catalog.Tools.{Tool}
use mandate_razorpay_control.Api.Gateway.{RazorpayOrderResponse}
use mandate_razorpay_control.Api.Operations.{OperationCreate, Surroundings}

-- An argument of a tool: the kinds of JSON value that the code reads.
pub data Value : Type 0 where
  number : ℤ → Value
  chars : List ℕ → Value

abbrev pub Arguments : Type 0
Arguments = List (String × Value)

-- The name of a tool is `none` where it is absent or empty.
pub record JsonRpcRequest : Type 0 where
  pub method : String
  pub tool_name : Option String
  pub arguments : Arguments

-- What a call reads besides the tables: the surroundings of its request, the idempotency key that
-- it draws, the identifier that a text is, and the integer that the validation reads in a text.
pub record Call : Type 0 where
  pub surroundings : Surroundings
  pub idempotency_key : ℕ
  pub id_of : List ℕ → ℕ
  pub read_int : List ℕ → Option ℤ

pub data RpcError : Type 0 where
  -- -32001, -32002 and -32601
  unauthenticated : Exception → RpcError
  authentication_required no_active_mandate method_not_found : RpcError
  -- -32602
  unknown_tool : RpcError
  unexpected_parameter : String → RpcError
  -- -32003 and -32000
  payouts_denied : RpcError
  execution_error : Exception → RpcError

-- The order that a successful call names: the gateway's, or a text made from the operation.
pub data OrderName : Type 0 where
  gateway_order placeholder : ℕ → OrderName

pub data Response : Type 0 where
  error : RpcError → Response
  server_info : Response
  tools : List Tool → Response
  order_details : RazorpayOrderResponse → Response
  payment_details : ℕ → Response
  denied : ℕ → Option Message → Response
  executed : String → ℕ → OperationStatus → OrderName → Response

-- `arguments.get(name)`
unfoldable pub get : String → Arguments → Option Value
get name [] = none
get name ((k, v) ∷ rest) = let later = get name rest in if str_eq k name then some v else later

-- The first argument that the schema does not have.
unfoldable pub unexpected : List String → Arguments → Option String
unexpected props [] = none
unexpected props ((k, v) ∷ rest) =
    let later = unexpected props rest in if elem k props then later else some k

-- `order_by(created_at.desc())` and the first: of equals, the one that stands first.
abbrev pub newer_of : Mandate → Option Mandate → Option Mandate
newer_of m none = some m
newer_of m (some n) = if ltb m.created_at n.created_at then some n else some m

unfoldable pub newest : List Mandate → Option Mandate
newest [] = none
newest (m ∷ ms) = newer_of m (newest ms)

abbrev pub is_active_of : ℕ → Mandate → Bool
is_active_of agent_id m = m.agent_id == agent_id && is_active_mandate m.status

abbrev pub active_mandate : ℕ → Db → Option Mandate
active_mandate agent_id db = newest (filter (is_active_of agent_id) db.mandates)

unfoldable pub find_tool : String → List Tool → Option Tool
find_tool name [] = none
find_tool name (t ∷ ts) =
    let later = find_tool name ts in if str_eq t.name name then some t else later

abbrev rupees : List ℕ
rupees = b'I' ∷ b'N' ∷ b'R' ∷ []

-- `arguments.get("currency", "INR")`, which has to be a text.
abbrev pub currency_of : Option Value → Option (List ℕ)
currency_of none = some rupees
currency_of (some (chars s)) = some s
currency_of (some (number z)) = none

-- A field above 0.
abbrev positive : Option ℤ → Option ℕ
positive (some (pos (suc n))) = some (suc n)
positive _ = none

-- `arguments.get("amount", 0)`
abbrev pub amount_of : Call → Option Value → Option ℕ
amount_of call none = positive (some (pos 0))
amount_of call (some (number z)) = positive (some z)
amount_of call (some (chars s)) = positive (call.read_int s)

-- An identifier among the arguments; an empty one counts as absent.
abbrev pub reference : Call → Option Value → Option ℕ
reference call (some (chars (c ∷ s))) = some (call.id_of (c ∷ s))
reference call _ = none

-- `arguments.get(name, "")`
abbrev pub identifier : Call → Option Value → ℕ
identifier call (some (chars s)) = call.id_of s
identifier call _ = call.id_of []

-- `OperationCreate(...)`, where it validates.
abbrev pub validated :
    Call
    → Agent
    → Mandate
    → Arguments
    → Option OperationType
    → Option ℕ
    → Option (List ℕ)
    → Option OperationCreate
validated call agent mandate arguments (some kind) (some amount) (some currency) = some (record {
  idempotency_key = call.idempotency_key;
  agent_id = agent.id;
  mandate_id = mandate.id;
  operation_type = kind;
  amount = amount;
  currency = currency;
  payload = record { payment_id = reference call (get "payment_id" arguments) };
})
validated call agent mandate arguments _ _ _ = none

abbrev pub operation_request :
    Call → Agent → Mandate → Option OperationType → Arguments → Option OperationCreate
operation_request call agent mandate kind arguments =
    validated call agent mandate arguments kind (amount_of call (get "amount" arguments))
      (currency_of (get "currency" arguments))
