-- ===== src/Api/McpGateway/Acts.antt =====
-- apps/api/routes/mcp_gateway.py: what a call leaves in the tables.
use Prim.Native.String.{String}
use text.Mathlib.Text.{◌==◌ as str_eq}
use mandate_razorpay_control.Prelude.{
  ℕ, ◌≡◌, inl, inr, subst, Option, none, some, List, [], ◌∷◌, find, ltb, All, Option-cases,
  Bool-cases, arith,
}
use mandate_razorpay_control.Core.Enums.{OperationType}
use mandate_razorpay_control.Core.Models.{Agent, Mandate, agent_key, mandate_key, operation_key}
use mandate_razorpay_control.Core.Database.{Db, Result, ok, err}
use mandate_razorpay_control.Core.Outcomes.{OnOk, or_raise-OnOk}
use mandate_razorpay_control.Shared.Auth.{Environment}
use mandate_razorpay_control.Mcp.Catalog.Tools.{Tool}
use mandate_razorpay_control.Api.Gateway.{RazorpayClient}
use mandate_razorpay_control.Api.Operations.{OperationCreate}
use mandate_razorpay_control.Api.Operations.Callers.{request_as}
use mandate_razorpay_control.Api.McpGateway.{
  own_headers, conclude, route_operation, fetch_order_details, run_read_only, run_by, run_checked,
  run_found, find_named, dispatch_mcp_tool_call, run_method,
}
use mandate_razorpay_control.Api.McpGateway.Requests.{
  Arguments, JsonRpcRequest, Call, Response, get, identifier, amount_of, currency_of,
  operation_request, newer_of, newest, unexpected,
}

module _ (P : Mandate → Type 0) where
  newer-holds :
      (x m : Mandate) (o : Option Mandate)
      → P x
      → ((n : Mandate) → o ≡ some n → P n)
      → newer_of x o ≡ some m
      → P m
  newer-holds x m none p rest e = let same : x ≡ m = ground arith in subst P same p
  newer-holds x m (some n) p rest e = elim (Bool-cases (ltb x.created_at n.created_at)) [
    | inl older ↦ rest m (cc (rw older at e))
    | inr newer ↦ let same : x ≡ m = cc (rw newer at e) in subst P same p
  ]

  pub newest-holds : (ms : List Mandate) (m : Mandate) → All P ms → newest ms ≡ some m → P m
  unfolding newest
  newest-holds [] m h e = absurd (cc)
  newest-holds (x ∷ ms) m h e =
      newer-holds x m (newest ms) h.0 (λ n later. newest-holds ms n h.1 later) e

-- A request of the agent itself, under the mandate.
abbrev pub OwnRequest : Agent → Mandate → OperationCreate → Type 0
OwnRequest agent mandate payload = (payload.agent_id ≡ agent.id) × (payload.mandate_id ≡ mandate.id)

-- What holds of the tables before, and of those that a request of the agent leaves, holds of those
-- that the call leaves.
module _ {κ} (Q : Db → Type κ) (e : Environment) (g : RazorpayClient) (call : Call) (agent : Agent)
    (mandate : Mandate) (db : Db) (start : Q db)
    (requested : (payload : OperationCreate)
      → OwnRequest agent mandate payload
      → OnOk (λ x. Q x.0) (request_as e (own_headers agent) g call.surroundings payload db)) where
  abbrev Left : Db × Response → Type κ
  Left x = Q x.0

  conclude-Left :
      (name : String) (r : Result (Db × ℕ)) → OnOk (λ x. Q x.0) r → Left (conclude name db r)
  unfolding conclude
  conclude-Left name (err raised) h = start
  conclude-Left name (ok (db', i)) h = elim (Option-cases (find i db'.operations)) [
    | inl missing ↦ rw (missing, conclude) h
    | inr (op, found) ↦ rw (found, conclude) h
  ]

  validated-OwnRequest :
      (kind : Option OperationType) (arguments : Arguments) (payload : OperationCreate)
      → operation_request call agent mandate kind arguments ≡ some payload
      → OwnRequest agent mandate payload
  validated-OwnRequest kind arguments payload h = elim (Option-cases kind) [
    | inl f ↦ absurd (ground (arith, f, h))
    | inr (k, f) ↦ elim (Option-cases (amount_of call (get "amount" arguments))) [
      | inl v ↦ absurd (ground (arith, f, v, h))
      | inr (a, v) ↦ elim (Option-cases (currency_of (get "currency" arguments))) [
        | inl w ↦ absurd (ground (arith, f, v, w, h))
        | inr (c, w) ↦ ground (arith, f, v, w, h)
      ]
    ]
  ]

  route_operation-Left :
      (t : Tool) (arguments : Arguments)
      → OnOk Left (route_operation e g call agent mandate t arguments db)
  unfolding route_operation
  route_operation-Left t arguments =
      or_raise-OnOk Left (operation_request call agent mandate t.operation_type arguments) _ _
        λ payload valid.
          conclude-Left t.name _
            (requested payload (validated-OwnRequest t.operation_type arguments payload valid))

  run_read_only-Left :
      (t : Tool) (arguments : Arguments)
      → OnOk Left (run_read_only e g call agent mandate t arguments db)
  unfolding run_read_only fetch_order_details
  run_read_only-Left t arguments = elim (Bool-cases (str_eq t.name "payments_fetch_order")) [
    | inl yes_order ↦
        rw (yes_order, run_read_only)
          (or_raise-OnOk Left (g.fetch_order (identifier call (get "order_id" arguments))) _ _
            λ order found. start)
    | inr not_order ↦ elim (Bool-cases (str_eq t.name "payments_fetch_payment")) [
      | inl payment ↦ rw (not_order, run_read_only) (rw (payment, run_read_only) start)
      | inr not_payment ↦ elim (Bool-cases (str_eq t.name "payouts_create")) [
        | inl payout ↦
            rw (not_order, run_read_only)
              (rw (not_payment, run_read_only) (rw (payout, run_read_only) start))
        | inr other ↦
            rw (not_order, run_read_only)
              (rw (not_payment, run_read_only)
                (rw (other, run_read_only) (route_operation-Left t arguments)))
      ]
    ]
  ]

  run_by-Left :
      (kind : Option OperationType) (t : Tool) (arguments : Arguments)
      → OnOk Left (run_by e g call agent mandate kind t arguments db)
  run_by-Left none t arguments = run_read_only-Left t arguments
  run_by-Left (some kind) t arguments = route_operation-Left t arguments

  run_checked-Left :
      (key : Option String) (t : Tool) (arguments : Arguments)
      → OnOk Left (run_checked e g call agent mandate key t arguments db)
  run_checked-Left none t arguments = run_by-Left t.operation_type t arguments
  run_checked-Left (some key) t arguments = start

  run_found-Left :
      (t : Option Tool) (arguments : Arguments)
      → OnOk Left (run_found e g call agent mandate t arguments db)
  run_found-Left none arguments = start
  run_found-Left (some t) arguments =
      run_checked-Left (unexpected t.properties arguments) t arguments

  pub run_method-Left :
      (request : JsonRpcRequest) → OnOk Left (run_method e g call agent mandate request db)
  unfolding run_method dispatch_mcp_tool_call
  run_method-Left request = elim (Bool-cases (str_eq request.method "initialize")) [
    | inl first ↦ rw (first, run_method) start
    | inr not_first ↦ elim (Bool-cases (str_eq request.method "tools/list")) [
      | inl listing ↦ rw (not_first, run_method) (rw (listing, run_method) start)
      | inr not_listing ↦ elim (Bool-cases (str_eq request.method "tools/call")) [
        | inl calling ↦
            rw (not_first, run_method)
              (rw (not_listing, run_method)
                (rw (calling, run_method)
                  (run_found-Left (find_named e g call agent mandate request.tool_name)
                    request.arguments)))
        | inr other ↦
            rw (not_first, run_method) (rw (not_listing, run_method) (rw (other, run_method) start))
      ]
    ]
  ]
