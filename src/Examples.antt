-- ===== src/Examples.antt =====
-- Concrete tables for the tests: one mandate of a thousand rupees with operations in several states,
-- and a gateway that answers every call.
pub mod LedgerTests
pub mod EventTests
pub mod RequestTests
pub mod PolicyTests
pub mod MandateTests
pub mod CallerTests
pub mod McpTests
pub mod GatewayTests
pub mod SystemTests
pub mod AgentTests
use mandate_razorpay_control.Prelude.{
  ℕ, ◌+◌, ◌≡◌, refl, Bool, true, false, Option, none, some, List, [], ◌∷◌, find, sum_of, arith,
}
use mandate_razorpay_control.Prelude.Int.{pos, ◌+ℤ◌}
use mandate_razorpay_control.Core.Enums.{
  AgentStatus, MandateStatus, OperationType, OperationStatus, TransactionStatus,
}
use mandate_razorpay_control.Core.Models.{
  Agent, Mandate, FinancialOperation, Transaction, mandate_key, operation_key,
}
use mandate_razorpay_control.Core.Database.{Db}
use mandate_razorpay_control.Ledger.{held, Consistent}
use mandate_razorpay_control.Shared.RateLimiter.{RateLimitResult}
use mandate_razorpay_control.Policy.Rules.{Inputs}
use mandate_razorpay_control.Api.Gateway.{RazorpayClient, OrderStatus, PaymentLinkStatus}

abbrev pub rupees : List ℕ
rupees = b'I' ∷ b'N' ∷ b'R' ∷ []

abbrev pub shopping : List ℕ
shopping = b'S' ∷ b'H' ∷ b'O' ∷ b'P' ∷ b'P' ∷ b'I' ∷ b'N' ∷ b'G' ∷ []

abbrev pub buyer : Agent
buyer = record {
  id = 1;
  name = b'b' ∷ [];
  owner_id = 3;
  status = AgentStatus.active;
  api_key_hash = b'k' ∷ [];
  agent_type = shopping;
}

abbrev pub grant : Mandate
grant = record {
  id = 10;
  agent_id = 1;
  granted_by_id = 3;
  parent_mandate_id = none;
  delegation_depth = 0;
  max_delegation_depth = 2;
  status = MandateStatus.active;
  currency = rupees;
  max_amount_per_op = 500;
  aggregate_spend_limit = 1000;
  current_aggregate_spend = pos 100;
  reserved_spend = pos 200;
  delegated_child_budget_allocated = 0;
  review_threshold_amount = some (pos 400);
  allowed_operations = [];
  suspension_reason = none;
  version = 1;
  valid_from = 0;
  valid_until = 9000;
  created_at = 0;
}

abbrev pub order_of : ℕ → OperationStatus → ℕ → FinancialOperation
order_of i status amount = record {
  id = i;
  operation_id = 100 + i;
  idempotency_key = 200 + i;
  agent_id = 1;
  mandate_id = 10;
  operation_type = OperationType.create_order;
  status = status;
  amount = amount;
  currency = rupees;
  payload = record { payment_id = none };
  policy_decision = none;
  error_message = none;
  approved_by_id = none;
  created_at = 50;
}

abbrev pub flying_order : FinancialOperation
flying_order = order_of 1 OperationStatus.executing 200

abbrev pub settled_order : FinancialOperation
settled_order = order_of 2 OperationStatus.succeeded 100

abbrev pub held_order : FinancialOperation
held_order = order_of 3 OperationStatus.requires_approval 450

abbrev pub flying_tx : Transaction
flying_tx = record {
  id = 7;
  operation_id = 1;
  gateway_order_id = some 70;
  gateway_payment_id = none;
  gateway_refund_id = none;
  gateway_payment_link_id = none;
  amount = 200;
  currency = rupees;
  status = TransactionStatus.created;
}

abbrev pub tables : Db
tables = record {
  principals = [];
  agents = buyer ∷ [];
  mandates = grant ∷ [];
  operations = flying_order ∷ settled_order ∷ held_order ∷ [];
  transactions = flying_tx ∷ [];
  webhook_events = [];
  audit_events = [];
  reconciliation_reports = [];
  execution_traces = [];
}

only_grant : (k : ℕ) (m : Mandate) → find k tables.mandates ≡ some m → (k ≡ 10) × (m ≡ grant)
unfolding find
only_grant k m e = ground arith

pub tables-Consistent : Consistent tables
unfolding find sum_of held ◌+ℤ◌
tables-Consistent = record {
  unique = (refl, (refl, (refl, tt)));
  balanced = λ k m e. let (a, b) = only_grant k m e in rw (a, b) refl;
  within = λ k m e. let (a, b) = only_grant k m e in rw b (omega arith);
}

-- A gateway that takes every order and finds it paid.
abbrev pub gateway : RazorpayClient
gateway = record {
  create_order = λ r.
      some (record {
        id = 71;
        amount = r.amount;
        currency = r.currency;
        status = OrderStatus.created;
      });
  create_payment_link = λ r. some (record {
    id = 72;
    amount = r.amount;
    currency = r.currency;
    status = PaymentLinkStatus.created;
  });
  create_refund =
      λ r. some (record { id = 73; amount = r.amount; currency = rupees; is_processed = true });
  fetch_order =
      λ i. some (record { id = i; amount = 200; currency = rupees; status = OrderStatus.paid });
  verify_payment_signature = λ o p s. true;
}

-- A gateway that refuses every call.
abbrev pub broken_gateway : RazorpayClient
broken_gateway = record {
  create_order = λ r. none;
  create_payment_link = λ r. none;
  create_refund = λ r. none;
  fetch_order = λ i. none;
  verify_payment_signature = λ o p s. false;
}

abbrev pub within_rate : RateLimitResult
within_rate = record {
  allowed = true;
  limit = 60;
  remaining = 59;
  reset_epoch_seconds = 60;
  retry_after = 0;
  agent_id = 1;
  is_local = false;
}

abbrev pub inputs_for : FinancialOperation → Inputs
inputs_for op = record {
  agent = buyer;
  mandate = grant;
  operation = op;
  now = 60;
  context_db = none;
  limit_res = within_rate;
}
