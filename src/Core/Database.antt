-- ===== src/Core/Database.antt =====
-- The tables behind an `AsyncSession`, the statements that the handlers execute on them, and the
-- errors that a handler raises. A handler that raises leaves the tables as they were.
use mandate_razorpay_control.Prelude.{
  ℕ, Bool, true, false, Option, none, some, List, [], ◌∷◌, modify,
}
use mandate_razorpay_control.Core.Models.{
  Principal, Agent, Mandate, FinancialOperation, Transaction, WebhookEvent, AuditEvent, Message,
  ResourceType, ReconciliationReport, ExecutionTrace, agent_key, mandate_key, operation_key,
  transaction_key, webhook_key,
}
use mandate_razorpay_control.Core.Enums.{OperationStatus, AuditAction}
use mandate_razorpay_control.Core.StateMachine.{TransitionError, Validated, valid, raises}

pub record Db : Type 0 where
  pub principals : List Principal
  pub agents : List Agent
  pub mandates : List Mandate
  pub operations : List FinancialOperation
  pub transactions : List Transaction
  pub webhook_events : List WebhookEvent
  pub audit_events : List AuditEvent
  pub reconciliation_reports : List ReconciliationReport
  pub execution_traces : List ExecutionTrace

-- What the detail of an `HTTPException` tells apart.
pub data Detail : Type 0 where
  mandate_not_found agent_not_found operation_not_found parent_not_found child_agent_not_found :
      Detail
  cannot_approve invalid_signature identity_mismatch : Detail
  parent_not_active max_depth_reached : Detail
  currency_escalation amount_escalation operation_escalation : Detail
  validity_escalation budget_escalation : Detail
  secret_missing malformed_json : Detail
  invalid_key inactive_agent missing_credential not_authenticated : Detail

-- An `HTTPException` by its status code, or another exception.
pub data Exception : Type 0 where
  bad_request unauthorized forbidden not_found server_error : Detail → Exception
  -- sqlalchemy's MultipleResultsFound
  multiple_results : Exception
  -- sqlalchemy's IntegrityError, pydantic's ValidationError
  integrity_error validation_error : Exception
  -- sqlalchemy's DataError: a value that is wider than its column
  data_error : Exception
  -- Python's ValueError, TypeError and AttributeError
  value_error attribute_error : Exception
  -- a call of the gateway that raises
  gateway_exception : Exception
  invalid_transition : TransitionError → Exception
  -- a policy rule that does not finish
  unfinished : Exception

-- How a handler ends: it raises, or it has an answer.
pub data Result {ℓ} (A : Type ℓ) : Type ℓ where
  err : Exception → Result A
  ok : A → Result A

infixl 5 ◌>>=◌ ◌>>◌
abbrev pub ◌>>=◌ {κ ι} : {B : Type κ} {C : Type ι} → Result B → (B → Result C) → Result C
err raised >>= next = err raised
ok answer >>= next = next answer

-- A check, and what follows where it passes.
abbrev pub ◌>>◌ {κ} : {C : Type κ} → Result (Unit {0}) → Result C → Result C
check >> next = check >>= λ passed. next

-- `if condition: raise exception`
abbrev pub raise_if : Bool → Exception → Result (Unit {0})
raise_if false exception = ok tt
raise_if true exception = err exception

-- `if not row: raise exception`
abbrev pub or_raise {ι} : {B : Type ι} → Option B → Exception → Result B
or_raise (some row) exception = ok row
or_raise none exception = err exception

-- A check of the state machine, as a step of a handler.
abbrev pub raise_unless_valid : Validated → Result (Unit {0})
raise_unless_valid valid = ok tt
raise_unless_valid (raises e) = err (Exception.invalid_transition e)

-- `result.scalar_one_or_none()`
abbrev pub scalar_one_or_none {ℓ} : {A : Type ℓ} → List A → Result (Option A)
scalar_one_or_none [] = ok none
scalar_one_or_none (a ∷ []) = ok (some a)
scalar_one_or_none (a ∷ b ∷ rest) = err Exception.multiple_results

-- `update(Mandate).where(Mandate.id == i).values(...)`
abbrev pub update_mandate : ℕ → (Mandate → Mandate) → Db → Db
update_mandate i f db = record db { mandates = modify i f db.mandates }

abbrev pub set_agent : ℕ → (Agent → Agent) → Db → Db
set_agent i f db = record db { agents = modify i f db.agents }

-- Assignments to the fields of an operation that the session holds.
abbrev pub set_operation : ℕ → (FinancialOperation → FinancialOperation) → Db → Db
set_operation i f db = record db { operations = modify i f db.operations }

abbrev pub set_transaction : ℕ → (Transaction → Transaction) → Db → Db
set_transaction i f db = record db { transactions = modify i f db.transactions }

-- `db.add(row)`
abbrev pub add_agent : Agent → Db → Db
add_agent a db = record db { agents = a ∷ db.agents }

abbrev pub add_trace : ExecutionTrace → Db → Db
add_trace t db = record db { execution_traces = t ∷ db.execution_traces }

abbrev pub add_operation : FinancialOperation → Db → Db
add_operation o db = record db { operations = o ∷ db.operations }

abbrev pub add_transaction : Transaction → Db → Db
add_transaction t db = record db { transactions = t ∷ db.transactions }

abbrev pub add_audit : AuditEvent → Db → Db
add_audit a db = record db { audit_events = a ∷ db.audit_events }

abbrev pub audit : AuditAction → ResourceType → ℕ → Option ℕ → AuditEvent
audit action kind resource amount = record {
  action = action;
  resource_id = resource;
  resource_type = kind;
  amount = amount;
}

abbrev pub with_status : OperationStatus → FinancialOperation → FinancialOperation
with_status s o = record o { status = s }

abbrev pub with_error : OperationStatus → Message → FinancialOperation → FinancialOperation
with_error s why o = record o { status = s; error_message = some why }
