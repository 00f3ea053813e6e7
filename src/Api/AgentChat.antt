-- ===== src/Api/AgentChat.antt =====
-- apps/api/routes/agent_chat.py: the dialogue with an agent. Its headers name no agent; the path
-- does.
pub mod Latest
pub mod Reissue
use Prim.Native.String.{String}
use mandate_razorpay_control.Prelude.{
  ℕ, ◌+◌, ◌*◌, Bool, true, Option, none, some, List, [], ◌∷◌, find, filter, ◌==◌, if◌then◌else◌,
}
use mandate_razorpay_control.Prelude.Int.{pos}
use mandate_razorpay_control.Prelude.Text.{upper, text_eq}
use mandate_razorpay_control.Core.Enums.{MandateStatus}
use mandate_razorpay_control.Core.Models.{Agent, Mandate, agent_key}
use mandate_razorpay_control.Core.Database.{Db, Exception, Detail, Result, ok, err}
use mandate_razorpay_control.Shared.Auth.{Environment, Headers, authenticate_agent_caller}
use mandate_razorpay_control.Api.Gateway.{RazorpayClient}
use mandate_razorpay_control.Api.Operations.Callers.{has_credential}
use mandate_razorpay_control.Api.Mandates.{add_mandate}
use mandate_razorpay_control.Api.McpGateway.Requests.{newest, active_mandate}
use mandate_razorpay_control.Agents.Runner.{Turn, raised, execute_turn}
use mandate_razorpay_control.Agents.Dispatch.{Readings, ToolCall, Session}

-- What a chat reads besides the tables: the gateway, how arguments are read, the identifier and the
-- time of a mandate that it makes, and what the language model answers twice.
pub record Chat : Type 0 where
  pub readings : Readings
  pub gateway : RazorpayClient
  pub new_mandate_id : ℕ
  pub now : ℕ
  pub proposed : Result (List ToolCall)
  pub reply : Result (Unit {0})

-- The limits of a mandate that is made for an agent that has none.
pub record Limits : Type 0 where
  pub max_op : ℕ
  pub agg_limit : ℕ
  pub allowed_ops : List String

-- "SUPPORT"
abbrev support : List ℕ
support = b'S' ∷ b'U' ∷ b'P' ∷ b'P' ∷ b'O' ∷ b'R' ∷ b'T' ∷ []

-- "SHOPPING"
abbrev shopping : List ℕ
shopping = b'S' ∷ b'H' ∷ b'O' ∷ b'P' ∷ b'P' ∷ b'I' ∷ b'N' ∷ b'G' ∷ []

-- "INR"
abbrev rupees : List ℕ
rupees = b'I' ∷ b'N' ∷ b'R' ∷ []

abbrev limits : ℕ → ℕ → List String → Limits
limits max_op agg_limit allowed_ops = record {
  max_op = max_op;
  agg_limit = agg_limit;
  allowed_ops = allowed_ops;
}

unfoldable pub limits_of : List ℕ → Limits
unfolding upper text_eq
limits_of agent_type =
    if text_eq (upper agent_type) support
    then limits 500000 2500000 ("CREATE_REFUND" ∷ [])
    else if text_eq (upper agent_type) shopping
    then limits 2500000 10000000 ("CREATE_ORDER" ∷ "CREATE_PAYMENT_LINK" ∷ [])
    else limits 1000000 1500000 ("CREATE_ORDER" ∷ [])

abbrev pub depth_of : Option Mandate → ℕ
depth_of none = 0
depth_of (some prev_mandate) = prev_mandate.delegation_depth

abbrev pub previous_mandate : ℕ → Db → Option Mandate
previous_mandate agent_id db = newest (filter (λ m. m.agent_id == agent_id) db.mandates)

-- The row, with the defaults of its columns; it is valid for thirty days.
abbrev pub reissued : Chat → Agent → Option Mandate → Limits → Mandate
reissued chat agent prev_mandate l = record {
  id = chat.new_mandate_id;
  agent_id = agent.id;
  granted_by_id = agent.owner_id;
  parent_mandate_id = none;
  delegation_depth = depth_of prev_mandate;
  max_delegation_depth = 2;
  status = MandateStatus.active;
  currency = rupees;
  max_amount_per_op = l.max_op;
  aggregate_spend_limit = l.agg_limit;
  current_aggregate_spend = pos 0;
  reserved_spend = pos 0;
  delegated_child_budget_allocated = 0;
  review_threshold_amount = none;
  allowed_operations = l.allowed_ops;
  suspension_reason = none;
  version = 1;
  valid_from = chat.now;
  valid_until = chat.now + 30 * 86400;
  created_at = chat.now;
}

module _ (e : Environment) (chat : Chat) (db : Db) where
  -- A mandate that is made is in the session, and not yet committed.
  abbrev pub chat_under : Agent → Option Mandate → Turn
  chat_under agent (some mandate) =
      execute_turn chat.readings chat.gateway agent mandate chat.proposed chat.reply
        (record { committed = db; current = db })
  chat_under agent none =
      let mandate =
        reissued chat agent (previous_mandate agent.id db) (limits_of agent.agent_type) in
      execute_turn chat.readings chat.gateway agent mandate chat.proposed chat.reply
        (record { committed = db; current = add_mandate mandate db })

  abbrev pub chat_as : Result (Option Agent) → Turn
  chat_as (err x) = raised x db
  chat_as (ok none) = raised (Exception.not_found Detail.agent_not_found) db
  chat_as (ok (some agent)) = chat_under agent (active_mandate agent.id db)

  -- Without a key the agent of the path is taken as it is.
  unfoldable pub agent_of : Headers → ℕ → Result (Option Agent)
  unfolding authenticate_agent_caller
  agent_of headers agent_id =
      if has_credential headers
      then authenticate_agent_caller e (record headers { x_agent_id = some agent_id }) true db
      else ok (find agent_id db.agents)

  unfoldable pub chat_with_agent : Headers → ℕ → Turn
  unfolding newest execute_turn limits_of agent_of
  chat_with_agent headers agent_id = chat_as (agent_of headers agent_id)
