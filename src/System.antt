-- ===== src/System.antt =====
-- apps/api/routes, packages/agents and services/worker together: the handlers as steps on the tables, in any order,
-- with any caller, gateway and clock.
use mandate_razorpay_control.Prelude.{
  ℕ, ◌≡◌, ◌≢◌, sym, ◌∙◌, subst, true, Bool, Option, none, some, List, All, find, first_where,
  filter, ◌==◌,
}
use mandate_razorpay_control.Prelude.Int.{ℤ, pos, ◌≤ℤ◌}
use mandate_razorpay_control.Core.Models.{
  Agent, Mandate, FinancialOperation, Transaction, agent_key, mandate_key, operation_key,
}
use mandate_razorpay_control.Core.Database.{Db, ok, scalar_one_or_none}
use mandate_razorpay_control.Core.Outcomes.{OnOk-answer}
use mandate_razorpay_control.Ledger.{in_flight, Consistent}
use mandate_razorpay_control.Shared.Auth.{Environment, Headers}
use mandate_razorpay_control.Api.Gateway.{RazorpayClient}
use mandate_razorpay_control.Api.Operations.{
  OperationCreate, Surroundings, HumanApprovalRequest, PaymentVerifyRequest,
  human_approve_operation, verify_payment,
}
use mandate_razorpay_control.Api.Operations.Callers.{request_as, caller_of, with_caller}
use mandate_razorpay_control.Api.Operations.Pipeline.{Kept, request-Keeps, human_approve-Keeps}
use mandate_razorpay_control.Api.Operations.Verification.{verify_payment-Consistent}
use mandate_razorpay_control.Api.Webhooks.{
  EventData, WebhookRequest, Reply, handle_razorpay_webhook,
}
use mandate_razorpay_control.Api.Webhooks.Safety.{handle_razorpay_webhook-Consistent}
use mandate_razorpay_control.Api.Mandates.{
  MandateDelegateRequest, delegate_child_mandate, suspend_mandate_cascade, revoke_mandate_cascade,
  activate_mandate,
}
use mandate_razorpay_control.Api.Mandates.Issue.{MandateCreate, create_mandate}
use mandate_razorpay_control.Api.Mandates.Ledger.{
  suspend-Consistent, revoke-Consistent, activate-Consistent, delegate-Consistent,
  create-Consistent,
}
use mandate_razorpay_control.Api.Agents.{
  AgentCreate, AgentStatusUpdate, Draws, register_agent, update_agent_status,
}
use mandate_razorpay_control.Api.Agents.Ledger.{register-Consistent, set_status-Consistent}
use mandate_razorpay_control.Api.McpGateway.{handle_mcp_jsonrpc_gateway}
use mandate_razorpay_control.Api.McpGateway.Requests.{Call, JsonRpcRequest, Response}
use mandate_razorpay_control.Api.McpGateway.Ledger.{handle-Consistent}
use mandate_razorpay_control.Api.AgentChat.{Chat, chat_with_agent}
use mandate_razorpay_control.Api.AgentChat.Reissue.{chat_with_agent-Consistent}
use mandate_razorpay_control.Agents.Runner.{tables_after}
use mandate_razorpay_control.Agents.Dispatch.{ToolCall}
use mandate_razorpay_control.Agents.Authority.{Unused}
use mandate_razorpay_control.Agents.Delegation.{
  execute_procurement_flow, execute_procurement_flow-Consistent,
}
use mandate_razorpay_control.Worker.{Worker, reconcile_stuck_reservations}
use mandate_razorpay_control.Worker.Sweep.{reconcile_stuck_reservations-counts}
use mandate_razorpay_control.Worker.Report.{run_gateway_reconciliation}

-- No operation names the mandate.
abbrev pub Unnamed : ℕ → Db → Type 0
Unnamed i db = All (λ (o : FinancialOperation). o.mandate_id ≢ i) db.operations

-- What one handler makes of the tables, where it does not raise. Identifiers that are drawn are
-- fresh, no refund is negative, and a payment is verified while its operation is in flight.
pub data Step (db db' : Db) : Type 0 where
  requested :
      (e : Environment) (headers : Headers) (g : RazorpayClient) (s : Surroundings)
      (payload : OperationCreate) (i : ℕ)
      → find s.row_id db.operations ≡ none
      → request_as e headers g s payload db ≡ ok (db', i)
      → Step db db'
  approved :
      (g : RazorpayClient) (tx_id operation_id : ℕ) (approval : HumanApprovalRequest)
      → human_approve_operation g tx_id operation_id approval db ≡ ok db'
      → Step db db'
  verified :
      (g : RazorpayClient) (operation_id : ℕ) (payload : PaymentVerifyRequest)
      (op : FinancialOperation) (m : Mandate) (tx : Option Transaction)
      → first_where (λ o. o.operation_id == operation_id) db.operations ≡ some op
      → in_flight op.status ≡ true
      → find op.mandate_id db.mandates ≡ some m
      → g.verify_payment_signature payload.razorpay_order_id payload.razorpay_payment_id
          payload.razorpay_signature
        ≡ true
      → scalar_one_or_none (filter (λ t. t.operation_id == op.id) db.transactions) ≡ ok tx
      → verify_payment g operation_id payload db ≡ ok db'
      → Step db db'
  delivered :
      (r : WebhookRequest) (reply : Reply)
      → ((d : EventData) → r.body ≡ some d → pos 0 ≤ℤ d.payload.refund_amount)
      → handle_razorpay_webhook r db ≡ ok (db', reply)
      → Step db db'
  called :
      (e : Environment) (g : RazorpayClient) (call : Call) (request : JsonRpcRequest)
      (headers : Headers) (response : Response)
      → find call.surroundings.row_id db.operations ≡ none
      → handle_mcp_jsonrpc_gateway e g call request db headers ≡ ok (db', response)
      → Step db db'
  swept :
      (g : RazorpayClient) (timeout_seconds now : ℕ) (later : ℕ → ℕ) (w w' : Worker) (n : ℕ)
      → reconcile_stuck_reservations g timeout_seconds now later w db ≡ ok (w', (db', n))
      → Step db db'
  issued :
      (e : Environment) (ilike : List ℕ → List ℕ → Bool) (new_id now : ℕ) (payload : MandateCreate)
      (m : Mandate)
      → Unnamed new_id db
      → create_mandate e ilike new_id now payload db ≡ ok (db', m)
      → Step db db'
  delegated :
      (child_id now parent_id : ℕ) (payload : MandateDelegateRequest) (m : Mandate)
      → Unnamed child_id db
      → delegate_child_mandate child_id now parent_id payload db ≡ ok (db', m)
      → Step db db'
  suspended :
      (fuel mandate_id : ℕ) (reason : Option ℕ)
      → suspend_mandate_cascade fuel mandate_id reason db ≡ ok db'
      → Step db db'
  revoked :
      (fuel mandate_id : ℕ) (reason : Option ℕ)
      → revoke_mandate_cascade fuel mandate_id reason db ≡ ok db'
      → Step db db'
  activated : (mandate_id : ℕ) → activate_mandate mandate_id db ≡ ok db' → Step db db'
  registered :
      (e : Environment) (demo_owner : ℕ) (draws : Draws) (payload : AgentCreate) (a : Agent)
      → register_agent e demo_owner draws payload db ≡ ok (db', a)
      → Step db db'
  set_status :
      (agent_id : ℕ) (update : AgentStatusUpdate)
      → update_agent_status agent_id update db ≡ ok db'
      → Step db db'
  reported :
      (g : RazorpayClient) (report_id now lookback_minutes : ℕ)
      → db' ≡ (run_gateway_reconciliation g report_id now lookback_minutes db).0
      → Step db db'
  chatted :
      (e : Environment) (chat : Chat) (headers : Headers) (agent_id : ℕ)
      → Unnamed chat.new_mandate_id db
      → ((tcs : List ToolCall) → chat.proposed ≡ ok tcs → Unused tcs db)
      → db' ≡ tables_after (chat_with_agent e chat db headers agent_id)
      → Step db db'
  procured :
      (g : RazorpayClient) (s : Surroundings) (key : ℕ) (shopping_agent procurement_agent : Agent)
      (child_mandate : Mandate) (product_id : List ℕ) (quantity : ℤ)
      → find s.row_id db.operations ≡ none
      → db'
        ≡ (execute_procurement_flow g s key shopping_agent procurement_agent child_mandate
            product_id quantity db).0
      → Step db db'

pub data Reach (db : Db) : Db → Type 0 where
  here : Reach db db
  next : {a b : Db} → Reach db a → Step a b → Reach db b

ok-injective : (a b : Db) → ok a ≡ ok b → a ≡ b
ok-injective a b e = cc

Step-Consistent : {a b : Db} → Step a b → Consistent a → Consistent b
unfolding request_as run_gateway_reconciliation
Step-Consistent {a} {b} (requested e headers g s payload i fresh h) v =
    OnOk-answer Kept (b, i) _
      (request-Keeps g (with_caller s (caller_of e headers payload.agent_id a)) payload a v fresh) h
Step-Consistent {a} {b} (approved g tx_id operation_id approval h) v =
    OnOk-answer Consistent b _ (human_approve-Keeps g tx_id operation_id approval a v) h
Step-Consistent {a} {b}
      (verified g operation_id payload op m tx selected flies owned genuine single h) v =
    let (db', done, kept) =
      verify_payment-Consistent g operation_id payload a op m tx v selected owned genuine single
        flies in
    subst Consistent (ok-injective db' b (sym done ∙ h)) kept
Step-Consistent {a} {b} (delivered r reply refunds h) v =
    OnOk-answer (λ x. Consistent x.0) (b, reply) _
      (handle_razorpay_webhook-Consistent r a v refunds) h
Step-Consistent {a} {b} (called e g call request headers response fresh h) v =
    OnOk-answer (λ x. Consistent x.0) (b, response) _
      (handle-Consistent e g call request a headers v fresh) h
Step-Consistent {a} {b} (swept g timeout_seconds now later w w' n h) v =
    (OnOk-answer _ (w', (b, n)) _
      (reconcile_stuck_reservations-counts g timeout_seconds now later w a v) h).0
Step-Consistent {a} {b} (issued e ilike new_id now payload m unnamed h) v =
    OnOk-answer (λ x. Consistent x.0) (b, m) _
      (create-Consistent a v new_id unnamed e ilike now payload) h
Step-Consistent {a} {b} (delegated child_id now parent_id payload m unnamed h) v =
    OnOk-answer (λ x. Consistent x.0) (b, m) _
      (delegate-Consistent a v child_id unnamed now parent_id payload) h
Step-Consistent {a} {b} (suspended fuel mandate_id reason h) v =
    OnOk-answer Consistent b _ (suspend-Consistent a v fuel mandate_id reason) h
Step-Consistent {a} {b} (revoked fuel mandate_id reason h) v =
    OnOk-answer Consistent b _ (revoke-Consistent a v fuel mandate_id reason) h
Step-Consistent {a} {b} (activated mandate_id h) v =
    OnOk-answer Consistent b _ (activate-Consistent a v mandate_id) h
Step-Consistent {a} {b} (registered e demo_owner draws payload agent h) v =
    OnOk-answer (λ x. Consistent x.0) (b, agent) _
      (register-Consistent a v e demo_owner draws payload) h
Step-Consistent {a} {b} (set_status agent_id update h) v =
    OnOk-answer Consistent b _ (set_status-Consistent a v agent_id update) h
Step-Consistent {a} {b} (reported g report_id now lookback_minutes h) v = rw h v
Step-Consistent (chatted e chat headers agent_id unnamed unused h) v =
    rw h (chat_with_agent-Consistent e chat _ v unnamed unused headers agent_id)
Step-Consistent
      (procured g s key shopping_agent procurement_agent child_mandate product_id quantity fresh h)
      v =
    rw h (
      execute_procurement_flow-Consistent g s key shopping_agent procurement_agent child_mandate
        product_id quantity _ v fresh)

-- Whatever handlers run, in any order: from consistent tables only consistent ones are reached.
pub Reach-Consistent : {a b : Db} → Consistent a → Reach a b → Consistent b
Reach-Consistent v here = v
Reach-Consistent v (next r s) = Step-Consistent s (Reach-Consistent v r)
