-- ===== src/Api/McpGateway/Ledger.antt =====
-- apps/api/routes/mcp_gateway.py: the whole gateway, its caller and the ledger.
use mandate_razorpay_control.Prelude.{
  ℕ, ◌≡◌, refl, ◌∙◌, ◌⊎◌, inl, inr, true, Option, none, some, ◌∷◌, find, filter, UniqueKeys,
  filter-found, ==-eq, arith,
}
use mandate_razorpay_control.Core.Enums.{MandateStatus, is_active_mandate}
use mandate_razorpay_control.Core.Models.{
  Agent, Mandate, FinancialOperation, agent_key, mandate_key, operation_key,
}
use mandate_razorpay_control.Core.Database.{Db, Result, ok, err}
use mandate_razorpay_control.Core.Outcomes.{OnOk}
use mandate_razorpay_control.Ledger.{Consistent}
use mandate_razorpay_control.Shared.Auth.{Environment, Headers, authenticate_agent_caller}
use mandate_razorpay_control.Shared.Auth.Authentic.{IsAuthentic, authenticate-IsAuthentic}
use mandate_razorpay_control.Api.Gateway.{RazorpayClient}
use mandate_razorpay_control.Api.Operations.{OperationCreate, Surroundings}
use mandate_razorpay_control.Api.Operations.Additions.{Adds}
use mandate_razorpay_control.Api.Operations.Pipeline.{request-Keeps}
use mandate_razorpay_control.Api.Operations.Callers.{
  request_as, caller_of, with_caller, Leaves, request-Leaves,
}
use mandate_razorpay_control.Api.McpGateway.{
  own_headers, with_mandate, with_agent, handle_mcp_jsonrpc_gateway,
}
use mandate_razorpay_control.Api.McpGateway.Requests.{
  JsonRpcRequest, Call, is_active_of, active_mandate,
}
use mandate_razorpay_control.Api.McpGateway.Acts.{OwnRequest, newest-holds, run_method-Left}

-- The caller that the headers authenticate, and the mandate that its calls run under.
record IsCaller (e : Environment) (headers : Headers) (db : Db) (agent : Agent) (m : Mandate)
    : Type 0 where
  authenticated : authenticate_agent_caller e headers true db ≡ ok (some agent)
  chosen : active_mandate agent.id db ≡ some m

module _ (e : Environment) (g : RazorpayClient) (call : Call) (request : JsonRpcRequest) (db : Db)
    (headers : Headers) where
  module _ {κ} (Q : Db → Type κ) (start : Q db)
      (requested : (agent : Agent) (m : Mandate) (payload : OperationCreate)
        → IsCaller e headers db agent m
        → OwnRequest agent m payload
        → OnOk (λ x. Q x.0) (request_as e (own_headers agent) g call.surroundings payload db)) where
    with_mandate-Left :
        (agent : Agent) (m : Option Mandate)
        → authenticate_agent_caller e headers true db ≡ ok (some agent)
        → active_mandate agent.id db ≡ m
        → OnOk (λ x. Q x.0) (with_mandate e g call request db agent m)
    with_mandate-Left agent none found chosen = start
    with_mandate-Left agent (some m) found chosen =
        run_method-Left Q e g call agent m db start
          (λ payload own.
            requested agent m payload (record { authenticated = found; chosen = chosen }) own)
          request

    with_agent-Left :
        (r : Result (Option Agent))
        → authenticate_agent_caller e headers true db ≡ r
        → OnOk (λ x. Q x.0) (with_agent e g call request db r)
    with_agent-Left (err raised) found = start
    with_agent-Left (ok none) found = start
    with_agent-Left (ok (some agent)) found =
        with_mandate-Left agent (active_mandate agent.id db) found refl

  -- A call of the gateway, whose operation would have a fresh key, leaves consistent tables
  -- consistent where it does not raise.
  pub handle-Consistent :
      Consistent db
      → find call.surroundings.row_id db.operations ≡ none
      → OnOk (λ x. Consistent x.0) (handle_mcp_jsonrpc_gateway e g call request db headers)
  unfolding handle_mcp_jsonrpc_gateway request_as
  handle-Consistent v fresh =
      with_agent-Left Consistent v
        (λ agent m payload caller own.
          request-Keeps g
            (with_caller call.surroundings (caller_of e (own_headers agent) payload.agent_id db))
            payload db v fresh)
        (authenticate_agent_caller e headers true db) refl

  -- The one operation that a call adds, of an authenticated agent under an active mandate of its own.
  pub record Acts (db' : Db) : Type 0 where
    pub agent : Agent
    pub mandate : Mandate
    pub row : FinancialOperation
    pub authentic : IsAuthentic e headers db agent
    pub known : find mandate.id db.mandates ≡ some mandate
    pub active : mandate.status ≡ MandateStatus.active
    pub owner : mandate.agent_id ≡ agent.id
    pub added : db'.operations ≡ row ∷ db.operations
    pub for_agent : row.agent_id ≡ agent.id
    pub under_mandate : row.mandate_id ≡ mandate.id

  active_status : (s : MandateStatus) → is_active_mandate s ≡ true → s ≡ MandateStatus.active
  active_status s h = ground arith

  active_of :
      (i : ℕ) (m : Mandate)
      → is_active_of i m ≡ true
      → (m.agent_id ≡ i) × (m.status ≡ MandateStatus.active)
  active_of i m h = (==-eq m.agent_id i (ground arith), active_status m.status (ground arith))

  chosen_mandate :
      (i : ℕ) (m : Mandate)
      → UniqueKeys db.mandates
      → active_mandate i db ≡ some m
      → (find m.id db.mandates ≡ some m) × (is_active_of i m ≡ true)
  chosen_mandate i m unique =
      newest-holds (λ x. (find x.id db.mandates ≡ some x) × (is_active_of i x ≡ true))
        (filter (is_active_of i) db.mandates) m
        (filter-found (is_active_of i) db.mandates db.mandates unique (λ j x found. found))

  added-Acts :
      (agent : Agent) (m : Mandate) (payload : OperationCreate) (db' : Db)
      → UniqueKeys db.agents
      → UniqueKeys db.mandates
      → IsCaller e headers db agent m
      → OwnRequest agent m payload
      → (s : Surroundings) → Adds s payload db db'
      → Acts db'
  added-Acts agent m payload db' agents mandates caller own s adds =
      let (known, test) = chosen_mandate agent.id m mandates caller.chosen in
      let (owner, active) = active_of agent.id m test in
      record {
        agent = agent;
        mandate = m;
        row = adds.row;
        authentic = authenticate-IsAuthentic e headers true db agent agents caller.authenticated;
        known = known;
        active = active;
        owner = owner;
        added = adds.others;
        for_agent = adds.same_agent ∙ own.0;
        under_mandate = adds.same_mandate ∙ own.1;
      }

  left-Acts :
      (agent : Agent) (m : Mandate) (payload : OperationCreate)
      → UniqueKeys db.agents
      → UniqueKeys db.mandates
      → IsCaller e headers db agent m
      → OwnRequest agent m payload
      → (s : Surroundings) (r : Result (Db × ℕ)) → OnOk (Leaves s payload db) r
      → OnOk (λ x. (x.0 ≡ db) ⊎ Acts x.0) r
  left-Acts agent m payload agents mandates caller own s (err x) h = tt
  left-Acts agent m payload agents mandates caller own s (ok (db', i)) (inl same) = inl same
  left-Acts agent m payload agents mandates caller own s (ok (db', i)) (inr (adds, keyed)) =
      inr (added-Acts agent m payload db' agents mandates caller own s adds)

  -- A call changes nothing, or adds one operation that belongs to the authenticated agent and runs
  -- under an active mandate of that agent.
  pub handle-Acts :
      UniqueKeys db.agents
      → UniqueKeys db.mandates
      → OnOk (λ x. (x.0 ≡ db) ⊎ Acts x.0) (handle_mcp_jsonrpc_gateway e g call request db headers)
  unfolding handle_mcp_jsonrpc_gateway request_as
  handle-Acts agents mandates =
      with_agent-Left (λ x. (x ≡ db) ⊎ Acts x) (inl refl)
        (λ agent m payload caller own.
          let s =
            with_caller call.surroundings (caller_of e (own_headers agent) payload.agent_id db) in
          left-Acts agent m payload agents mandates caller own s _ (request-Leaves g s payload db))
        (authenticate_agent_caller e headers true db) refl
