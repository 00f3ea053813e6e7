-- ===== src/Api/Mandates.antt =====
-- apps/api/routes/mandates.py: delegating a mandate to another agent, and the changes of a mandate's
-- status that cascade down the tree. Identifiers that the code draws are arguments.
pub mod Escalation
pub mod Issue
pub mod Ledger
pub mod Allocation
pub mod Cascade
pub mod Revocation
use Prim.Native.String.{String}
use mandate_razorpay_control.Prelude.{
  ℕ, zero, suc, ◌+◌, Bool, true, false, not, ◌&&◌, Option, none, some, List, [], ◌∷◌, ◌++◌, map,
  filter, find, modify, leb, ltb, ◌==◌, if◌then◌else◌,
}
use mandate_razorpay_control.Prelude.Int.{ℤ, pos, negsuc, ◌+ℤ◌, ◌-ℤ◌, leb_ℤ, ltb_ℤ, clamp}
use mandate_razorpay_control.Prelude.Text.{upper, text_eq, elem, all_in, is_empty}
use mandate_razorpay_control.Core.Enums.{MandateStatus, AuditAction, is_active_mandate}
use mandate_razorpay_control.Core.Models.{
  Agent, Mandate, AuditEvent, ResourceType, SuspensionReason, agent_key, mandate_key,
}
use mandate_razorpay_control.Core.Database.{
  Db, Exception, Detail, Result, ok, err, ◌>>=◌, ◌>>◌, raise_if, or_raise, update_mandate,
  add_audit, audit,
}

pub record MandateDelegateRequest : Type 0 where
  pub target_agent_id : ℕ
  pub currency : Option (List ℕ)
  pub max_amount_per_op : ℕ
  pub aggregate_spend_limit : ℕ
  pub review_threshold_amount : Option ℤ
  pub allowed_operations : List String
  pub valid_until : ℕ

abbrev pub child_currency_of : Option (List ℕ) → List ℕ → List ℕ
child_currency_of none parent = upper parent
child_currency_of (some c) parent = upper c

-- `parent_available`
abbrev pub available : Mandate → ℤ
available parent = clamp (
    pos parent.aggregate_spend_limit
    -ℤ (parent.current_aggregate_spend
        +ℤ parent.reserved_spend
        +ℤ pos parent.delegated_child_budget_allocated))

-- An operation that is not on the parent's list; an empty list allows every one.
abbrev pub escalates_operations : List String → List String → Bool
escalates_operations [] child = false
escalates_operations (o ∷ parent) child = not (all_in child (o ∷ parent))

-- The currency of the child.
unfoldable pub validate_delegation_invariants : Mandate → MandateDelegateRequest → Result (List ℕ)
validate_delegation_invariants parent payload = do
  let child_currency = child_currency_of payload.currency parent.currency
  raise_if (leb parent.max_delegation_depth parent.delegation_depth)
      (Exception.bad_request Detail.max_depth_reached)
  raise_if (not (text_eq child_currency (upper parent.currency)))
      (Exception.bad_request Detail.currency_escalation)
  raise_if (ltb parent.max_amount_per_op payload.max_amount_per_op)
      (Exception.bad_request Detail.amount_escalation)
  raise_if (escalates_operations parent.allowed_operations payload.allowed_operations)
      (Exception.bad_request Detail.operation_escalation)
  raise_if (ltb parent.valid_until payload.valid_until)
      (Exception.bad_request Detail.validity_escalation)
  raise_if (ltb_ℤ (available parent) (pos payload.aggregate_spend_limit))
      (Exception.bad_request Detail.budget_escalation)
  ok child_currency

-- `a or b` on an amount: an amount of 0 counts as absent.
abbrev pub amount_or : Option ℤ → Option ℤ → Option ℤ
amount_or (some (pos (suc n))) b = some (pos (suc n))
amount_or (some (negsuc n)) b = some (negsuc n)
amount_or _ b = b

-- `a or b` on a list.
abbrev pub names_or : List String → List String → List String
names_or [] b = b
names_or (n ∷ names) b = n ∷ names

-- The child's row. `valid_from` and `created_at` have the instant of the insertion as their default.
abbrev pub child_mandate : ℕ → ℕ → Mandate → MandateDelegateRequest → List ℕ → Mandate
child_mandate child_id now parent payload child_currency = record {
  id = child_id;
  agent_id = payload.target_agent_id;
  granted_by_id = parent.granted_by_id;
  parent_mandate_id = some parent.id;
  delegation_depth = parent.delegation_depth + 1;
  max_delegation_depth = parent.max_delegation_depth;
  status = MandateStatus.active;
  currency = child_currency;
  max_amount_per_op = payload.max_amount_per_op;
  aggregate_spend_limit = payload.aggregate_spend_limit;
  current_aggregate_spend = pos 0;
  reserved_spend = pos 0;
  delegated_child_budget_allocated = 0;
  review_threshold_amount =
      amount_or payload.review_threshold_amount parent.review_threshold_amount;
  allowed_operations = names_or payload.allowed_operations parent.allowed_operations;
  suspension_reason = none;
  version = 1;
  valid_from = now;
  valid_until = payload.valid_until;
  created_at = now;
}

-- The budget of the child is set aside in the parent's row.
abbrev pub set_aside : ℕ → Mandate → Mandate
set_aside amount parent = record parent {
  delegated_child_budget_allocated = parent.delegated_child_budget_allocated + amount;
  version = parent.version + 1;
}

abbrev pub add_mandate : Mandate → Db → Db
add_mandate m db = record db { mandates = m ∷ db.mandates }

-- What a delegation writes.
abbrev pub delegated : Mandate → Mandate → Db → Db
delegated parent child db =
    add_audit
      (audit AuditAction.mandate_created ResourceType.mandate child.id
        (some child.aggregate_spend_limit))
      (add_mandate child (update_mandate parent.id (set_aside child.aggregate_spend_limit) db))

-- The tables afterwards, and the child.
unfoldable pub delegate_child_mandate :
    ℕ → ℕ → ℕ → MandateDelegateRequest → Db → Result (Db × Mandate)
delegate_child_mandate child_id now parent_id payload db = do
  parent ← or_raise (find parent_id db.mandates) (Exception.not_found Detail.parent_not_found)
  raise_if (not (is_active_mandate parent.status)) (Exception.bad_request Detail.parent_not_active)
  agent ←
      or_raise (find payload.target_agent_id db.agents)
        (Exception.not_found Detail.child_agent_not_found)
  child_currency ← validate_delegation_invariants parent payload
  let child = child_mandate child_id now parent payload child_currency
  ok (delegated parent child db, child)

abbrev pub with_mandate_status : MandateStatus → SuspensionReason → Mandate → Mandate
with_mandate_status target reason m = record m {
  status = target;
  suspension_reason = some reason;
  version = m.version + 1;
}

abbrev pub cascade_action : MandateStatus → AuditAction
cascade_action MandateStatus.revoked = AuditAction.mandate_revoked
cascade_action _ = AuditAction.mandate_suspended

abbrev pub is_visited : ℕ → List ℕ → Bool
is_visited i [] = false
is_visited i (v ∷ visited) = if v == i then true else is_visited i visited

abbrev pub is_child_of : ℕ → Mandate → Bool
is_child_of i m = elim m.parent_mandate_id [ none ↦ false | some p ↦ p == i ]

-- `select(Mandate.id).where(Mandate.parent_mandate_id == i)`
abbrev pub children : ℕ → List Mandate → List ℕ
children i ms = map (λ m. m.id) (filter (is_child_of i) ms)

-- One turn of the loop changes the row of the mandate, if it is there.
abbrev pub cascade_found : MandateStatus → SuspensionReason → ℕ → Option Mandate → Db → Db
cascade_found target reason i none db = db
cascade_found target reason i (some m) db =
    add_audit (audit (cascade_action target) ResourceType.mandate m.id none)
      (update_mandate i (with_mandate_status target reason) db)

abbrev pub cascade_row : MandateStatus → SuspensionReason → ℕ → Db → Db
cascade_row target reason i db = cascade_found target reason i (find i db.mandates) db

-- The loop, on fuel; `none` when the fuel runs out.
unfoldable pub cascade : ℕ → MandateStatus → SuspensionReason → List ℕ → List ℕ → Db → Option Db
cascade fuel target reason visited [] db = some db
cascade zero target reason visited (i ∷ queue) db = none
cascade (suc fuel) target reason visited (i ∷ queue) db =
    let db' = cascade_row target reason i db in
    cascade fuel target reason (i ∷ visited)
      (queue ++ filter (λ c. not (is_visited c (i ∷ visited))) (children i db'.mandates)) db'

unfoldable pub cascade_mandate_status : ℕ → ℕ → MandateStatus → SuspensionReason → Db → Option Db
cascade_mandate_status fuel root target reason db = cascade fuel target reason [] (root ∷ []) db

-- What suspending and revoking share: the mandate has to be there. The text of the reason is the
-- request's, or a fixed one. (The fuel bounds the cascade's turns.)
unfoldable pub cascade_from : ℕ → ℕ → MandateStatus → SuspensionReason → Db → Result Db
cascade_from fuel mandate_id target reason db = do
  mandate ← or_raise (find mandate_id db.mandates) (Exception.not_found Detail.mandate_not_found)
  or_raise (cascade_mandate_status fuel mandate.id target reason db) Exception.unfinished

-- `payload.reason or "..."`
abbrev pub reason_or : Option ℕ → SuspensionReason → SuspensionReason
reason_or none default = default
reason_or (some r) default = SuspensionReason.given_reason r

unfoldable pub suspend_mandate_cascade : ℕ → ℕ → Option ℕ → Db → Result Db
suspend_mandate_cascade fuel mandate_id reason db =
    cascade_from fuel mandate_id MandateStatus.suspended
      (reason_or reason SuspensionReason.parent_suspended) db

unfoldable pub revoke_mandate_cascade : ℕ → ℕ → Option ℕ → Db → Result Db
revoke_mandate_cascade fuel mandate_id reason db =
    cascade_from fuel mandate_id MandateStatus.revoked
      (reason_or reason SuspensionReason.parent_revoked) db

abbrev pub reactivate : Mandate → Mandate
reactivate m = record m {
  status = MandateStatus.active;
  suspension_reason = none;
  version = m.version + 1;
}

-- `parent and parent.status != ACTIVE`
abbrev pub is_blocked : Option Mandate → Bool
is_blocked none = false
is_blocked (some parent) = not (is_active_mandate parent.status)

abbrev pub parent_of : Mandate → List Mandate → Option Mandate
parent_of m ms = elim m.parent_mandate_id [ none ↦ none | some p ↦ find p ms ]

unfoldable pub activate_mandate : ℕ → Db → Result Db
activate_mandate mandate_id db = do
  mandate ← or_raise (find mandate_id db.mandates) (Exception.not_found Detail.mandate_not_found)
  raise_if (is_blocked (parent_of mandate db.mandates))
      (Exception.bad_request Detail.parent_not_active)
  ok (update_mandate mandate.id reactivate db)
