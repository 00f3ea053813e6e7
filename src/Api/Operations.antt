-- ===== src/Api/Operations.antt =====
-- apps/api/routes/operations.py: requesting an operation, its dispatch to the gateway, the human
-- approval and the verification of a payment. Identifiers that the code draws at random are
-- arguments; a commit succeeds.
pub mod Safety
pub mod Pipeline
pub mod Verification
pub mod Requests
pub mod Additions
pub mod Replay
pub mod Answers
pub mod Refusals
pub mod Orders
pub mod Callers
use mandate_razorpay_control.Prelude.{
  ℕ, ◌+◌, Bool, true, false, not, Option, none, some, List, [], ◌∷◌, ◌++◌, find, modify,
  first_where, filter, length, leb, ltb, ◌&&◌, ◌==◌, if◌then◌else◌,
}
use mandate_razorpay_control.Prelude.Int.{pos, ◌+ℤ◌, ◌-ℤ◌}
use mandate_razorpay_control.Prelude.Text.{upper}
use mandate_razorpay_control.Core.Enums.{
  OperationType, OperationStatus, PolicyDecisionType, TransactionStatus, AuditAction, same_status,
}
use mandate_razorpay_control.Core.Models.{
  Agent, Mandate, FinancialOperation, Transaction, AuditEvent, Payload, Message, Reason,
  ResourceType, agent_key, mandate_key, operation_key, transaction_key,
}
use mandate_razorpay_control.Core.Database.{
  Db, Exception, Detail, Result, ok, err, ◌>>=◌, ◌>>◌, raise_if, or_raise, scalar_one_or_none,
  update_mandate, set_operation, set_transaction, add_operation, add_transaction, add_audit, audit,
  with_status, with_error,
}
use mandate_razorpay_control.Core.Concurrency.{reserve_budget, release, commit}
use mandate_razorpay_control.Shared.RateLimiter.{RateLimitResult}
use mandate_razorpay_control.Policy.Rules.{Inputs}
use mandate_razorpay_control.Policy.Engine.{EvaluationResult, evaluate}
use mandate_razorpay_control.Api.Dispatch.{execute_gateway_operation}
use mandate_razorpay_control.Api.Gateway.{
  RazorpayClient, RazorpayOrderRequest, RazorpayPaymentLinkRequest, RazorpayRefundRequest,
}

pub record OperationCreate : Type 0 where
  pub idempotency_key : ℕ
  pub agent_id : ℕ
  pub mandate_id : ℕ
  pub operation_type : OperationType
  pub amount : ℕ
  pub currency : List ℕ
  pub payload : Payload

-- What a request reads besides the tables: the identifiers that it draws, the clock, the answer of
-- the rate limiter, and what the authentication of its headers gave, if there are any.
pub record Surroundings : Type 0 where
  pub row_id : ℕ
  pub operation_id : ℕ
  pub transaction_id : ℕ
  pub now : ℕ
  pub limit_res : RateLimitResult
  pub active_agent : Result (Option Agent)

pub record HumanApprovalRequest : Type 0 where
  pub approved_by_id : ℕ
  pub approved : Bool
  pub reason : Option ℕ

pub record PaymentVerifyRequest : Type 0 where
  pub razorpay_order_id : ℕ
  pub razorpay_payment_id : ℕ
  pub razorpay_signature : ℕ

abbrev pub new_operation : Surroundings → OperationCreate → FinancialOperation
new_operation s payload = record {
  id = s.row_id;
  operation_id = s.operation_id;
  idempotency_key = payload.idempotency_key;
  agent_id = payload.agent_id;
  mandate_id = payload.mandate_id;
  operation_type = payload.operation_type;
  status = OperationStatus.initiated;
  amount = payload.amount;
  currency = upper payload.currency;
  payload = payload.payload;
  policy_decision = none;
  error_message = none;
  approved_by_id = none;
  created_at = s.now;
}

-- The request gives the engine no context.
abbrev pub policy_inputs : Surroundings → Agent → Mandate → FinancialOperation → Inputs
policy_inputs s agent mandate op = record {
  agent = agent;
  mandate = mandate;
  operation = op;
  now = s.now;
  context_db = none;
  limit_res = s.limit_res;
}

abbrev lost_race : FinancialOperation → FinancialOperation
lost_race o = record o {
  status = OperationStatus.policy_rejected;
  error_message = some Message.budget_exhausted;
  policy_decision = some PolicyDecisionType.deny;
}

-- The budget is reserved, and the operation goes to the gateway if that succeeds.
unfoldable pub reserve_and_execute : RazorpayClient → ℕ → FinancialOperation → Payload → Db → Db
reserve_and_execute g tx_id op payload db =
    let (db', was_reserved) = reserve_budget db op.mandate_id op.amount in
    if was_reserved
    then execute_gateway_operation g tx_id op.mandate_id op payload (
        add_audit
          (audit AuditAction.budget_reserved ResourceType.mandate op.mandate_id (some op.amount))
          (set_operation op.id (with_status OperationStatus.reserved) db'))
    else set_operation op.id lost_race db'

unfoldable pub apply_decision :
    RazorpayClient
    → ℕ
    → FinancialOperation
    → Payload
    → EvaluationResult
    → PolicyDecisionType
    → Db
    → Db
apply_decision g tx_id op payload result PolicyDecisionType.deny db =
    set_operation op.id
      (with_error OperationStatus.policy_rejected
        (Message.rejection_reasons result.rejection_reasons))
      db
apply_decision g tx_id op payload result PolicyDecisionType.require_human_review db =
    set_operation op.id
      (with_error OperationStatus.requires_approval (Message.review_reasons result.review_reasons))
      db
apply_decision g tx_id op payload result PolicyDecisionType.allow db =
    reserve_and_execute g tx_id op payload db

-- The new row with the policy's answer, and its audit.
abbrev pub record_operation : FinancialOperation → EvaluationResult → Db → Db
record_operation op result db =
    add_audit
      (audit AuditAction.policy_evaluated ResourceType.financial_operation op.operation_id
        (some op.amount))
      (add_operation (record op { policy_decision = some result.decision }) db)

abbrev pub is_other_agent : Option Agent → ℕ → Bool
is_other_agent none agent_id = false
is_other_agent (some a) agent_id = not (a.id == agent_id)

-- What the flush of the new row asks for: the currency is a String(3), the amount a BigInteger. The
-- other columns take every value that the schema lets through.
unfoldable pub fits_columns : FinancialOperation → Bool
fits_columns op = leb (length op.currency) 3 && ltb op.amount 9223372036854775808

-- From the evaluation of the policy on.
abbrev pub decide :
    RazorpayClient → Surroundings → OperationCreate → Agent → Mandate → Db → Result (Db × ℕ)
decide g s payload agent mandate db = do
  let op = new_operation s payload
  result ← or_raise (evaluate 0 [] (policy_inputs s agent mandate op)) Exception.unfinished
  ok (
    apply_decision g s.transaction_id op payload.payload result result.decision
        (record_operation op result db),
    op.id,
  )

unfoldable pub request_new : RazorpayClient → Surroundings → OperationCreate → Db → Result (Db × ℕ)
request_new g s payload db = do
  mandate ←
      or_raise (find payload.mandate_id db.mandates) (Exception.not_found Detail.mandate_not_found)
  agent ← or_raise (find payload.agent_id db.agents) (Exception.not_found Detail.agent_not_found)
  raise_if (not (fits_columns (new_operation s payload))) Exception.data_error
  decide g s payload agent mandate db

-- `if existing_op: return existing_op`
abbrev pub replay_or : Option FinancialOperation → Db → Result (Db × ℕ) → Result (Db × ℕ)
replay_or (some existing) db fresh = ok (db, existing.id)
replay_or none db fresh = fresh

-- The tables afterwards, and the key of the operation that is returned.
unfoldable pub request_financial_operation :
    RazorpayClient → Surroundings → OperationCreate → Db → Result (Db × ℕ)
request_financial_operation g s payload db = do
  caller ← s.active_agent
  raise_if (is_other_agent caller payload.agent_id) (Exception.forbidden Detail.identity_mismatch)
  replay_or (first_where (λ o. o.idempotency_key == payload.idempotency_key) db.operations) db
      (request_new g s payload db)

abbrev with_approval : ℕ → FinancialOperation → FinancialOperation
with_approval who o = record o { approved_by_id = some who; status = OperationStatus.reserved }

unfoldable pub reject_by_human : FinancialOperation → Option ℕ → Db → Db
reject_by_human op reason db =
    add_audit
      (audit AuditAction.human_approval_rejected ResourceType.financial_operation op.operation_id
        none)
      (set_operation op.id
        (with_error OperationStatus.policy_rejected (Message.human_rejection reason)) db)

unfoldable pub approve_by_human : RazorpayClient → ℕ → FinancialOperation → ℕ → Db → Db
approve_by_human g tx_id op who db =
    let (db', was_reserved) = reserve_budget db op.mandate_id op.amount in
    if was_reserved
    then execute_gateway_operation g tx_id op.mandate_id op op.payload (
        add_audit
          (audit AuditAction.human_approval_granted ResourceType.financial_operation op.operation_id
            (some op.amount))
          (set_operation op.id (with_approval who) db'))
    else set_operation op.id
        (with_error OperationStatus.policy_rejected Message.budget_exhausted_before_approval) db'

unfoldable pub human_approve_operation :
    RazorpayClient → ℕ → ℕ → HumanApprovalRequest → Db → Result Db
human_approve_operation g tx_id operation_id approval db = do
  op ←
      or_raise (first_where (λ o. o.operation_id == operation_id) db.operations)
        (Exception.not_found Detail.operation_not_found)
  raise_if (not (same_status op.status OperationStatus.requires_approval))
      (Exception.bad_request Detail.cannot_approve)
  mandate ← or_raise (find op.mandate_id db.mandates) (Exception.not_found Detail.mandate_not_found)
  ok (
      if approval.approved
      then approve_by_human g tx_id op approval.approved_by_id db
      else reject_by_human op approval.reason db)

abbrev capture : ℕ → Transaction → Transaction
capture payment_id t = record t {
  gateway_payment_id = some payment_id;
  status = TransactionStatus.captured;
}

-- `if tx: ...`
abbrev pub change_if :
    Option Transaction → (Transaction → Transaction) → List Transaction → List Transaction
change_if none f rows = rows
change_if (some t) f rows = modify t.id f rows

abbrev pub capture_if : Option Transaction → ℕ → Db → Db
capture_if tx payment_id db = record db {
  transactions = change_if tx (capture payment_id) db.transactions;
}

unfoldable pub record_payment : FinancialOperation → Option Transaction → ℕ → Db → Db
record_payment op tx payment_id db =
    add_audit
      (audit AuditAction.transaction_recorded ResourceType.financial_operation op.operation_id none)
      (set_operation op.id (with_status OperationStatus.succeeded) (
        capture_if tx payment_id (
          add_audit
            (audit AuditAction.budget_committed ResourceType.mandate op.mandate_id (some op.amount))
            (update_mandate op.mandate_id (commit op.amount) db))))

unfoldable pub verify_payment : RazorpayClient → ℕ → PaymentVerifyRequest → Db → Result Db
verify_payment g operation_id payload db = do
  op ←
      or_raise (first_where (λ o. o.operation_id == operation_id) db.operations)
        (Exception.not_found Detail.operation_not_found)
  raise_if
      (not (
        g.verify_payment_signature payload.razorpay_order_id payload.razorpay_payment_id
          payload.razorpay_signature))
      (Exception.bad_request Detail.invalid_signature)
  tx ← scalar_one_or_none (filter (λ t. t.operation_id == op.id) db.transactions)
  ok (record_payment op tx payload.razorpay_payment_id db)
