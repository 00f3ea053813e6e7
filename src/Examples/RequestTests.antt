-- ===== src/Examples/RequestTests.antt =====
-- Requests that the policy holds back, requests that come twice, and one that goes to its end.
use mandate_razorpay_control.Prelude.{ℕ, ◌≡◌, refl, inl, inr, none, find, first_where, arith}
use mandate_razorpay_control.Prelude.Text.{upper}
use mandate_razorpay_control.Prelude.Int.{◌+ℤ◌}
use mandate_razorpay_control.Core.Enums.{OperationType}
use mandate_razorpay_control.Core.Models.{agent_key, mandate_key, operation_key}
use mandate_razorpay_control.Core.Database.{Db, ok, err}
use mandate_razorpay_control.Policy.Rules.{hierarchical_delegation_rule}
use mandate_razorpay_control.Policy.Engine.{evaluate, run_rules, evaluate_rule}
use mandate_razorpay_control.Policy.Engine.Approval.{IsAuthorized}
use mandate_razorpay_control.Api.Operations.{
  OperationCreate, Surroundings, new_operation, policy_inputs, fits_columns, request_new,
  request_financial_operation,
}
use mandate_razorpay_control.Api.Operations.Requests.{request_undispatched}
use mandate_razorpay_control.Api.Operations.Replay.{request_replay}
use mandate_razorpay_control.Api.Operations.Refusals.{Refused, request-Refused}
use mandate_razorpay_control.Api.Operations.Orders.{Placed, request-Placed}
use mandate_razorpay_control.Api.Gateway.{RazorpayOrderResponse, OrderStatus}
use mandate_razorpay_control.Examples.{
  rupees, buyer, grant, tables, gateway, broken_gateway, within_rate,
}

abbrev purchase : ℕ → OperationCreate
purchase amount = record {
  idempotency_key = 900;
  agent_id = 1;
  mandate_id = 10;
  operation_type = OperationType.create_order;
  amount = amount;
  currency = rupees;
  payload = record { payment_id = none };
}

abbrev here : Surroundings
here = record {
  row_id = 4;
  operation_id = 104;
  transaction_id = 8;
  now = 60;
  limit_res = within_rate;
  active_agent = ok none;
}

-- The operation is over the limit of one operation.
over_limit : ¬ IsAuthorized 0 (policy_inputs here buyer grant (new_operation here (purchase 600)))
over_limit h = omega (arith, h.within_transaction)

request_undispatched_example :
    request_financial_operation gateway here (purchase 600) tables
    ≡ request_financial_operation broken_gateway here (purchase 600) tables
unfolding find
request_undispatched_example =
    request_undispatched gateway broken_gateway here (purchase 600) tables grant buyer refl refl
      over_limit

-- The tables after the first request, which is over the limit.
abbrev requested : Db
requested = elim (request_financial_operation gateway here (purchase 600) tables) [
  | ok x ↦ x.0
  | err e ↦ tables
]

first_answer : request_financial_operation gateway here (purchase 600) tables ≡ ok (requested, 4)
unfolding request_financial_operation request_new find first_where evaluate run_rules evaluate_rule
    hierarchical_delegation_rule fits_columns upper
first_answer = refl

request_replay_example :
    request_financial_operation broken_gateway here (purchase 5) requested ≡ ok (requested, 4)
request_replay_example =
    request_replay gateway broken_gateway here here (purchase 600) (purchase 5) tables requested 4
      first_answer refl refl

too_much : ¬ IsAuthorized 0 (policy_inputs here buyer grant (new_operation here (purchase 600)))
unfolding ◌+ℤ◌ upper
too_much v = ground (arith, v.within_transaction)

request-Refused_example :
    (db' : Db) × (request_financial_operation broken_gateway here (purchase 600) tables
      ≡ ok (db', 4))
    × Refused here (purchase 600) tables db'
unfolding find first_where fits_columns upper
request-Refused_example =
    request-Refused broken_gateway here (purchase 600) tables grant buyer refl refl refl refl
      (omega arith, omega arith) too_much

authorized : IsAuthorized 0 (policy_inputs here buyer grant (new_operation here (purchase 300)))
unfolding ◌+ℤ◌ upper
authorized = record {
  agent_active = refl;
  mandate_active = refl;
  begun = omega arith;
  not_over = omega arith;
  ancestors = tt;
  currency = refl;
  type_allowed = inl refl;
  within_transaction = omega arith;
  within_budget = omega arith;
  reviewed = inr (inr (omega arith));
  within_rate = refl;
}

abbrev taken_order : RazorpayOrderResponse
taken_order = record { id = 71; amount = 300; currency = rupees; status = OrderStatus.created }

request-Placed_example :
    (db' : Db) × (request_financial_operation gateway here (purchase 300) tables ≡ ok (db', 4))
    × Placed here (purchase 300) grant taken_order tables db'
unfolding find first_where upper fits_columns
request-Placed_example =
    request-Placed gateway here (purchase 300) tables grant buyer taken_order refl refl refl refl
      (omega arith, omega arith) authorized refl refl
