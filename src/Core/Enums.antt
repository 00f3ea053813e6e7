-- ===== src/Core/Enums.antt =====
-- packages/core/enums.py: the enumerations. `value` stands for the text of a status, which is what
-- two members are compared by.
use Prim.Native.String.{String}
use mandate_razorpay_control.Prelude.{ℕ, Bool, true, false, ◌==◌}

pub data AgentStatus : Type 0 where
  active suspended revoked : AgentStatus

pub data MandateStatus : Type 0 where
  pending_approval active suspended expired exhausted revoked : MandateStatus

pub data OperationType : Type 0 where
  create_order capture_payment create_refund create_payment_link cancel_payment_link : OperationType

pub data PolicyDecisionType : Type 0 where
  allow deny require_human_review : PolicyDecisionType

pub data OperationStatus : Type 0 where
  initiated policy_check_pending policy_approved policy_rejected requires_approval : OperationStatus
  reserved executing succeeded failed cancelled : OperationStatus

pub data TransactionStatus : Type 0 where
  created authorized captured refunded failed : TransactionStatus

pub data AuditAction : Type 0 where
  principal_created agent_registered agent_status_changed mandate_created : AuditAction
  mandate_issued mandate_delegated mandate_status_changed mandate_revoked : AuditAction
  mandate_suspended mandate_activated operation_requested policy_evaluated : AuditAction
  budget_reserved budget_committed budget_released human_approval_granted : AuditAction
  human_approval_rejected operation_executed transaction_recorded webhook_received : AuditAction

abbrev pub value : OperationStatus → ℕ
value OperationStatus.initiated = 0
value OperationStatus.policy_check_pending = 1
value OperationStatus.policy_approved = 2
value OperationStatus.policy_rejected = 3
value OperationStatus.requires_approval = 4
value OperationStatus.reserved = 5
value OperationStatus.executing = 6
value OperationStatus.succeeded = 7
value OperationStatus.failed = 8
value OperationStatus.cancelled = 9

-- `a == b` on two statuses of an operation.
abbrev pub same_status : OperationStatus → OperationStatus → Bool
same_status a b = value a == value b

abbrev pub is_active_agent : AgentStatus → Bool
is_active_agent AgentStatus.active = true
is_active_agent _ = false

abbrev pub is_active_mandate : MandateStatus → Bool
is_active_mandate MandateStatus.active = true
is_active_mandate _ = false

-- `operation_type.value`
abbrev pub type_value : OperationType → String
type_value OperationType.create_order = "CREATE_ORDER"
type_value OperationType.capture_payment = "CAPTURE_PAYMENT"
type_value OperationType.create_refund = "CREATE_REFUND"
type_value OperationType.create_payment_link = "CREATE_PAYMENT_LINK"
type_value OperationType.cancel_payment_link = "CANCEL_PAYMENT_LINK"
