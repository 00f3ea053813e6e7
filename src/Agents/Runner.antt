-- ===== src/Agents/Runner.antt =====
-- packages/agents/runner.py: a turn of an agent. What the language model answers is an argument: the
-- adapter calls an outside service. Latencies are left out.
use mandate_razorpay_control.Prelude.{List, [], ◌∷◌}
use mandate_razorpay_control.Core.Models.{Agent, Mandate, operation_key}
use mandate_razorpay_control.Core.Database.{Db, Exception, Result, ok, err, add_trace}
use mandate_razorpay_control.Api.Gateway.{RazorpayClient}
use mandate_razorpay_control.Agents.Dispatch.{
  Readings, ToolCall, Dispatched, Session, dispatch_agent_tool,
}

-- How the calls end: they raise with what was committed before, or all are dispatched.
pub data Turn : Type 0 where
  raised : Exception → Db → Turn
  done : List Dispatched → Session → Turn

abbrev pub and_then : Dispatched → Turn → Turn
and_then d (raised x db) = raised x db
and_then d (done ds s) = done (d ∷ ds) s

module _ (r : Readings) (g : RazorpayClient) (agent : Agent) (mandate : Mandate) where
  abbrev pub with_trace : ToolCall → Dispatched → Session → Session
  with_trace tc d s = record s {
    current =
        add_trace
          (record {
            agent_id = agent.id;
            tool_name = tc.name;
            operation_id = d.op_id;
            policy_decision = d.decision;
          })
          s.current;
  }

  unfoldable pub run_calls : List ToolCall → Session → Turn
  unfolding dispatch_agent_tool
  run_calls [] s = done [] s
  run_calls (tc ∷ tcs) s = elim (dispatch_agent_tool r g agent mandate tc s) [
    | err x ↦ raised x s.committed
    | ok a ↦ and_then a.0 (run_calls tcs (with_trace tc a.0 a.1))
  ]

  abbrev pub finished : Turn → Turn
  finished (raised x db) = raised x db
  finished (done ds s) = done ds (record s { committed = s.current })

  -- The second call of the model may raise, too.
  abbrev pub formulated : Result (Unit {0}) → Turn → Turn
  formulated reply (raised x db) = raised x db
  formulated (err x) (done ds s) = raised x s.committed
  formulated (ok replied) (done ds s) = finished (done ds s)

  abbrev pub turn_with : Result (Unit {0}) → List ToolCall → Session → Turn
  turn_with reply [] s = finished (done [] s)
  turn_with reply (tc ∷ tcs) s = formulated reply (run_calls (tc ∷ tcs) s)

  -- The model proposes calls and, where there are some, replies to their results.
  unfoldable pub execute_turn : Result (List ToolCall) → Result (Unit {0}) → Session → Turn
  unfolding run_calls
  execute_turn (err x) reply s = raised x s.committed
  execute_turn (ok proposed) reply s = turn_with reply proposed s

-- The tables that a turn leaves to the next request.
abbrev pub tables_after : Turn → Db
tables_after (raised x db) = db
tables_after (done ds s) = s.committed
