-- ===== src/Core/Models.antt =====
-- packages/core/models.py: the rows of the tables. Money is in the smallest unit of its currency,
-- a time is an instant in UTC, and an absent or empty text is `none`. The columns that no part of
-- the model reads (names, texts, raw gateway replies, `updated_at`) are left out.
use Prim.Native.String.{String}
use mandate_razorpay_control.Prelude.{ℕ, Bool, Option, List, Keyed}
use mandate_razorpay_control.Prelude.Int.{ℤ}
use mandate_razorpay_control.Core.Enums.{
  AgentStatus, MandateStatus, OperationType, PolicyDecisionType, OperationStatus, TransactionStatus,
  AuditAction,
}

pub record Principal : Type 0 where
  pub id : ℕ
  pub email : String

pub record Agent : Type 0 where
  pub id : ℕ
  pub name : List ℕ
  pub owner_id : ℕ
  pub status : AgentStatus
  pub api_key_hash : List ℕ
  pub agent_type : List ℕ

-- The reason of a request, or the text that stands in for it.
pub data SuspensionReason : Type 0 where
  given_reason : ℕ → SuspensionReason
  parent_suspended parent_revoked : SuspensionReason

-- A currency is the list of the code points of its name.
pub record Mandate : Type 0 where
  pub id : ℕ
  pub agent_id : ℕ
  pub granted_by_id : ℕ
  pub parent_mandate_id : Option ℕ
  pub delegation_depth : ℕ
  pub max_delegation_depth : ℕ
  pub status : MandateStatus
  pub currency : List ℕ
  pub max_amount_per_op : ℕ
  pub aggregate_spend_limit : ℕ
  pub current_aggregate_spend : ℤ
  pub reserved_spend : ℤ
  pub delegated_child_budget_allocated : ℕ
  pub review_threshold_amount : Option ℤ
  pub allowed_operations : List String
  pub suspension_reason : Option SuspensionReason
  pub version : ℕ
  pub valid_from : ℕ
  pub valid_until : ℕ
  pub created_at : ℕ

-- Why a policy rule decided as it did, with the row that the text names.
pub data Reason : Type 0 where
  satisfied human_signoff : Reason
  agent_not_active mandate_not_active not_yet_effective has_expired : Reason
  ancestor_not_found ancestor_not_active : ℕ → Reason
  currency_mismatch type_not_authorized exceeds_transaction_limit : Reason
  exceeds_remaining_budget : ℕ → Reason
  reaches_review_threshold rate_limit_exceeded : Reason
  exhausted_during_reservation : Reason

-- The texts that the code writes to `error_message`.
pub data Message : Type 0 where
  rejection_reasons review_reasons : List Reason → Message
  budget_exhausted budget_exhausted_before_approval : Message
  human_rejection : Option ℕ → Message
  refund_without_payment_id gateway_error : Message
  payment_failed : Message
  reservation_expired order_unpaid : Message

-- Of the request's payload the code itself reads the payment to refund.
pub record Payload : Type 0 where
  pub payment_id : Option ℕ

pub record FinancialOperation : Type 0 where
  pub id : ℕ
  pub operation_id : ℕ
  pub idempotency_key : ℕ
  pub agent_id : ℕ
  pub mandate_id : ℕ
  pub operation_type : OperationType
  pub status : OperationStatus
  pub amount : ℕ
  pub currency : List ℕ
  pub payload : Payload
  pub policy_decision : Option PolicyDecisionType
  pub error_message : Option Message
  pub approved_by_id : Option ℕ
  pub created_at : ℕ

-- `operation_id` is the `id` of the operation's row.
pub record Transaction : Type 0 where
  pub id : ℕ
  pub operation_id : ℕ
  pub gateway_order_id : Option ℕ
  pub gateway_payment_id : Option ℕ
  pub gateway_refund_id : Option ℕ
  pub gateway_payment_link_id : Option ℕ
  pub amount : ℕ
  pub currency : List ℕ
  pub status : TransactionStatus

pub data WebhookStatus : Type 0 where
  received processing processed failed dead_letter : WebhookStatus

pub data EventType : Type 0 where
  order_paid payment_captured payment_failed refund_processed : EventType
  other : ℕ → EventType

pub record WebhookEvent : Type 0 where
  pub event_id : ℕ
  pub event_type : EventType
  pub signature_verified : Bool
  pub status : WebhookStatus
  pub processed : Bool
  pub processing_attempts : ℕ
  pub max_retries : ℕ

pub data ResourceType : Type 0 where
  agent mandate financial_operation : ResourceType

-- The amount is that of the event's payload, where it has one.
pub record AuditEvent : Type 0 where
  pub action : AuditAction
  pub resource_id : ℕ
  pub resource_type : ResourceType
  pub amount : Option ℕ

-- What a reconciliation finds, with what it logs of it.
pub data Discrepancy : Type 0 where
  -- operation, order, status and amount of the operation
  missed_webhook : ℕ → ℕ → OperationStatus → ℕ → Discrepancy
  -- operation, order, amount of the operation and of the order
  amount_mismatch : ℕ → ℕ → ℕ → ℕ → Discrepancy

pub record ReconciliationReport : Type 0 where
  pub report_id : ℕ
  pub total_audited : ℕ
  pub inconsistencies_detected : ℕ
  pub details : List Discrepancy

-- What a tool call was about: an operation, or the sample that stands in for one.
pub data TracedOperation : Type 0 where
  sample_order : TracedOperation
  traced : ℕ → TracedOperation

pub record ExecutionTrace : Type 0 where
  pub agent_id : ℕ
  pub tool_name : String
  pub operation_id : Option TracedOperation
  pub policy_decision : Option PolicyDecisionType

instance abbrev pub principal_key : Keyed Principal
principal_key = record { key = λ p. p.id }

instance abbrev pub agent_key : Keyed Agent
agent_key = record { key = λ a. a.id }

instance abbrev pub mandate_key : Keyed Mandate
mandate_key = record { key = λ m. m.id }

instance abbrev pub operation_key : Keyed FinancialOperation
operation_key = record { key = λ o. o.id }

instance abbrev pub transaction_key : Keyed Transaction
transaction_key = record { key = λ t. t.id }

instance abbrev pub webhook_key : Keyed WebhookEvent
webhook_key = record { key = λ w. w.event_id }
