-- ===== src/Agents/Acts.antt =====
-- packages/agents/runner.py: what a turn leaves in the tables, whatever the model proposes.
use text.Mathlib.Text.{◌==◌ as str_eq}
use mandate_razorpay_control.Prelude.{ℕ, ◌*◌, subst, Option, none, some, List, [], ◌∷◌, find}
use mandate_razorpay_control.Prelude.Int.{pos}
use mandate_razorpay_control.Core.Enums.{OperationType}
use mandate_razorpay_control.Core.Models.{
  Agent, Mandate, FinancialOperation, ExecutionTrace, operation_key,
}
use mandate_razorpay_control.Core.Database.{Db, Result, ok, err, add_trace}
use mandate_razorpay_control.Core.Outcomes.{OnOk, bind-OnOk, or_raise-OnOk, if-OnOk}
use mandate_razorpay_control.Api.Gateway.{RazorpayClient}
use mandate_razorpay_control.Api.Operations.{request_financial_operation}
use mandate_razorpay_control.Api.Operations.Callers.{with_caller}
use mandate_razorpay_control.Agents.Tools.{Product}
use mandate_razorpay_control.Agents.Lookup.{lookup_transaction}
use mandate_razorpay_control.Shared.Auth.{lstrip, rstrip}
use mandate_razorpay_control.Agents.Runner.{
  Turn, raised, done, with_trace, and_then, run_calls, finished, formulated, turn_with,
  execute_turn, tables_after,
}
use mandate_razorpay_control.Agents.Dispatch.{
  Readings, ToolCall, Dispatched, Session, get, concluded, request, request_of, order,
  create_purchase_order, create_payment_link, issue_refund, browse, lookup, dispatch_agent_tool,
  answer_for, category_of, text_of, true_of, quantity_of, paise_or, positive,
}

module _ {κ} (r : Readings) (g : RazorpayClient) (agent : Agent) (mandate : Mandate)
    (Q : List ToolCall → Db → Type κ) (R : Db → Type κ)
    (leave : (tcs : List ToolCall) (db : Db) → Q tcs db → R db)
    (skip : (tc : ToolCall) (tcs : List ToolCall) (db : Db) → Q (tc ∷ tcs) db → Q tcs db)
    (trace : (t : ExecutionTrace) (tcs : List ToolCall) (db : Db)
      → Q tcs db
      → Q tcs (add_trace t db))
    (step : (tc : ToolCall) (tcs : List ToolCall) (kind : OperationType) (amount : ℕ)
        (payment_id : Option ℕ) (db : Db)
      → Q (tc ∷ tcs) db
      → OnOk
          (λ x. Q tcs x.0)
          (request_financial_operation g
            (with_caller tc.surroundings (ok none))
            (request_of r g agent mandate tc kind amount payment_id)
            db)) where
  abbrev Holds : List ToolCall → Session → Type κ
  Holds tcs s = R s.committed × Q tcs s.current

  abbrev Left : List ToolCall → Dispatched × Session → Type κ
  Left tcs a = Holds tcs a.1

  module _ (tc : ToolCall) (tcs : List ToolCall) (s : Session) (h : Holds (tc ∷ tcs) s) where
    concluded-Left :
        (db : Db) (o : Option FinancialOperation)
        → Q tcs db
        → OnOk (Left tcs) (answer_for r g agent mandate db o)
    concluded-Left db none q = tt
    concluded-Left db (some op) q = (leave tcs db q, q)

    request-Left :
        (kind : OperationType) (amount : ℕ) (payment_id : Option ℕ)
        → OnOk (Left tcs) (request r g agent mandate tc kind amount payment_id s)
    unfolding request
    request-Left kind amount payment_id =
        bind-OnOk (Left tcs)
          (request_financial_operation g (with_caller tc.surroundings (ok none))
            (request_of r g agent mandate tc kind amount payment_id) s.current)
          (concluded r g agent mandate)
          λ x e.
            concluded-Left x.0 (find x.1 x.0.operations)
              (subst (OnOk (λ y. Q tcs y.0)) e (step tc tcs kind amount payment_id s.current h.1))

    unchanged : Holds tcs s
    unchanged = (h.0, skip tc tcs s.current h.1)

    order-Left :
        (p : Option Product) (product_id : List ℕ) (quantity : ℕ)
        → OnOk (Left tcs) (order r g agent mandate tc p product_id quantity s)
    order-Left none product_id quantity = unchanged
    order-Left (some p) product_id quantity =
        request-Left OperationType.create_order (p.price_paise * quantity) none

    purchase-Left : OnOk (Left tcs) (create_purchase_order r g agent mandate tc s)
    unfolding create_purchase_order
    purchase-Left =
        or_raise-OnOk (Left tcs) (quantity_of r (get "quantity" tc.arguments)) _ _
          λ quantity e. order-Left _ _ quantity

    link-Left : OnOk (Left tcs) (create_payment_link r g agent mandate tc s)
    unfolding create_payment_link
    link-Left =
        or_raise-OnOk (Left tcs) (paise_or (pos 0) r (get "amount_in_rupees" tc.arguments)) _ _
          λ paise e.
            or_raise-OnOk (Left tcs) (positive paise) _ _
              λ amount e'. request-Left OperationType.create_payment_link amount none

    refund-Left : OnOk (Left tcs) (issue_refund r g agent mandate tc s)
    unfolding issue_refund
    refund-Left =
        or_raise-OnOk (Left tcs) (paise_or (pos 50000) r (get "amount_in_rupees" tc.arguments)) _ _
          λ paise e.
            or_raise-OnOk (Left tcs) (positive paise) _ _
              λ amount e'. request-Left OperationType.create_refund amount _

    browse-Left : OnOk (Left tcs) (browse r g agent mandate tc s)
    unfolding browse
    browse-Left =
        bind-OnOk (Left tcs) (category_of r (get "category" tc.arguments)) _ λ category e. unchanged

    lookup-Left : OnOk (Left tcs) (lookup r g agent mandate tc s)
    unfolding lookup
    lookup-Left =
        bind-OnOk (Left tcs)
          (lookup_transaction r.id_of
            (rstrip (lstrip (text_of r (get "operation_id" tc.arguments))))
            (true_of r (get "order_only" tc.arguments)) s.current)
          _ λ op e. unchanged

    dispatch-Left : OnOk (Left tcs) (dispatch_agent_tool r g agent mandate tc s)
    unfolding dispatch_agent_tool
    dispatch-Left = if-OnOk (Left tcs) (str_eq tc.name "browse_catalog") _ _ browse-Left (
        if-OnOk (Left tcs) (str_eq tc.name "lookup_transaction") _ _ lookup-Left (
          if-OnOk (Left tcs) (str_eq tc.name "create_purchase_order") _ _ purchase-Left (
            if-OnOk (Left tcs) (str_eq tc.name "create_payment_link_for_customer") _ _ link-Left (
              if-OnOk (Left tcs) (str_eq tc.name "issue_customer_refund") _ _ refund-Left
                unchanged))))

  abbrev Ended : Turn → Type κ
  Ended (raised x db) = R db
  Ended (done ds s) = Holds [] s

  and_then-Ended : (d : Dispatched) (t : Turn) → Ended t → Ended (and_then d t)
  and_then-Ended d (raised x db) h = h
  and_then-Ended d (done ds s) h = h

  run_calls-Ended :
      (tcs : List ToolCall) (s : Session) → Holds tcs s → Ended (run_calls r g agent mandate tcs s)
  unfolding run_calls
  run_calls-Ended [] s h = h
  run_calls-Ended (tc ∷ tcs) s h =
      after (λ a. run_calls r g agent mandate tcs (with_trace r g agent mandate tc a.0 a.1))
        (λ a k. run_calls-Ended tcs _ (k.0, trace _ tcs a.1.current k.1))
        (dispatch_agent_tool r g agent mandate tc s) (dispatch-Left tc tcs s h)
    where
      after :
          (run : Dispatched × Session → Turn)
          → ((a : Dispatched × Session) → Left tcs a → Ended (run a))
          → (x : Result (Dispatched × Session)) → OnOk (Left tcs) x
          → Ended (elim x [ err e ↦ raised e s.committed | ok a ↦ and_then a.0 (run a) ])
      after run rest (err e) k = h.0
      after run rest (ok a) k = and_then-Ended a.0 _ (rest a k)

  finished-R : (t : Turn) → Ended t → R (tables_after (finished r g agent mandate t))
  finished-R (raised x db) h = h
  finished-R (done ds s) h = leave [] s.current h.1

  formulated-R :
      (reply : Result (Unit {0})) (t : Turn)
      → Ended t
      → R (tables_after (formulated r g agent mandate reply t))
  formulated-R reply (raised x db) h = h
  formulated-R (err x) (done ds s) h = h.0
  formulated-R (ok replied) (done ds s) h = leave [] s.current h.1

  turn-R :
      (reply : Result (Unit {0})) (tcs : List ToolCall) (s : Session)
      → Holds tcs s
      → R (tables_after (turn_with r g agent mandate reply tcs s))
  turn-R reply [] s h = leave [] s.current h.1
  turn-R reply (tc ∷ tcs) s h = formulated-R reply _ (run_calls-Ended (tc ∷ tcs) s h)

  pub execute_turn-R :
      (tcs : List ToolCall) (reply : Result (Unit {0})) (s : Session)
      → Holds tcs s
      → R (tables_after (execute_turn r g agent mandate (ok tcs) reply s))
  unfolding execute_turn
  execute_turn-R tcs reply s h = turn-R reply tcs s h
