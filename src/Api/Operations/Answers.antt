-- ===== src/Api/Operations/Answers.antt =====
-- apps/api/routes/operations.py: a request that finds its mandate and its agent, and fits its row,
-- comes to the policy.
use mandate_razorpay_control.Prelude.{
  ◌≤◌, ◌<◌, length, arith, ◌≡◌, refl, true, none, some, find, first_where, ◌==◌,
}
use mandate_razorpay_control.Prelude.Text.{upper}
use mandate_razorpay_control.Core.Models.{Agent, Mandate, agent_key, mandate_key, operation_key}
use mandate_razorpay_control.Core.Database.{Db, ok}
use mandate_razorpay_control.Api.Gateway.{RazorpayClient}
use mandate_razorpay_control.Api.Operations.{
  OperationCreate, Surroundings, new_operation, fits_columns, decide, request_new,
  request_financial_operation,
}

-- The currency and the amount of the request are no wider than their columns.
abbrev pub IsStorable : OperationCreate → Type 0
IsStorable payload = (length (upper payload.currency) ≤ 3) × (payload.amount < 9223372036854775808)

storable_fits :
    (s : Surroundings) (payload : OperationCreate)
    → IsStorable payload
    → fits_columns (new_operation s payload) ≡ true
unfolding fits_columns
storable_fits s payload h = ground (arith, h.0, h.1)

module _ (g : RazorpayClient) (s : Surroundings) (payload : OperationCreate) (db : Db) (m : Mandate)
    (a : Agent) (mandate_found : find payload.mandate_id db.mandates ≡ some m)
    (agent_found : find payload.agent_id db.agents ≡ some a)
    (unused : first_where (λ o. o.idempotency_key == payload.idempotency_key) db.operations ≡ none)
    (open_call : s.active_agent ≡ ok none) (storable : IsStorable payload) where
  pub new_decided : request_new g s payload db ≡ decide g s payload a m db
  unfolding request_new
  new_decided =
      rw (mandate_found, request_new)
        (rw (agent_found, request_new) (rw (storable_fits s payload storable, request_new) refl))

  pub fresh_request : request_financial_operation g s payload db ≡ request_new g s payload db
  unfolding request_financial_operation
  fresh_request =
      rw (open_call, request_financial_operation) (rw (unused, request_financial_operation) refl)
