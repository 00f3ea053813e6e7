-- ===== src/Agents/Lookup.antt =====
-- packages/agents/runner.py: the tool `lookup_transaction`, which changes nothing.
use mandate_razorpay_control.Prelude.{
  ℕ, Bool, true, false, ◌&&◌, ◌||◌, not, Option, none, some, List, [], ◌∷◌, filter, ltb, ◌==◌,
  if◌then◌else◌,
}
use mandate_razorpay_control.Prelude.Text.{lower, text_eq, contains, is_empty}
use mandate_razorpay_control.Core.Enums.{OperationType, OperationStatus}
use mandate_razorpay_control.Core.StateMachine.{status_in}
use mandate_razorpay_control.Core.Models.{FinancialOperation}
use mandate_razorpay_control.Core.Database.{Db, Result, ok, ◌>>=◌, scalar_one_or_none}

abbrev pub any_of : (List ℕ → Bool) → List (List ℕ) → Bool
any_of p [] = false
any_of p (s ∷ rest) = p s || any_of p rest

-- "order", "bought", "purchase", "item", "keyboard", "mat", "mouse", "monitor"
abbrev order_words : List (List ℕ)
order_words =
    (b'o' ∷ b'r' ∷ b'd' ∷ b'e' ∷ b'r' ∷ [])
    ∷ (b'b' ∷ b'o' ∷ b'u' ∷ b'g' ∷ b'h' ∷ b't' ∷ [])
    ∷ (b'p' ∷ b'u' ∷ b'r' ∷ b'c' ∷ b'h' ∷ b'a' ∷ b's' ∷ b'e' ∷ [])
    ∷ (b'i' ∷ b't' ∷ b'e' ∷ b'm' ∷ [])
    ∷ (b'k' ∷ b'e' ∷ b'y' ∷ b'b' ∷ b'o' ∷ b'a' ∷ b'r' ∷ b'd' ∷ [])
    ∷ (b'm' ∷ b'a' ∷ b't' ∷ [])
    ∷ (b'm' ∷ b'o' ∷ b'u' ∷ b's' ∷ b'e' ∷ [])
    ∷ (b'm' ∷ b'o' ∷ b'n' ∷ b'i' ∷ b't' ∷ b'o' ∷ b'r' ∷ [])
    ∷ []

-- "latest", "recent", "last", "op_demo_step1", "latest_order", "order"
abbrev latest_words : List (List ℕ)
latest_words =
    (b'l' ∷ b'a' ∷ b't' ∷ b'e' ∷ b's' ∷ b't' ∷ [])
    ∷ (b'r' ∷ b'e' ∷ b'c' ∷ b'e' ∷ b'n' ∷ b't' ∷ [])
    ∷ (b'l' ∷ b'a' ∷ b's' ∷ b't' ∷ [])
    ∷ (b'o' ∷ b'p' ∷ b'_' ∷ b'd' ∷ b'e' ∷ b'm' ∷ b'o' ∷ b'_' ∷ b's' ∷ b't' ∷ b'e' ∷ b'p' ∷ b'1'
        ∷ [])
    ∷ (b'l' ∷ b'a' ∷ b't' ∷ b'e' ∷ b's' ∷ b't' ∷ b'_' ∷ b'o' ∷ b'r' ∷ b'd' ∷ b'e' ∷ b'r' ∷ [])
    ∷ (b'o' ∷ b'r' ∷ b'd' ∷ b'e' ∷ b'r' ∷ [])
    ∷ []

abbrev pub names_order : List ℕ → Bool
names_order op_id = any_of (λ w. contains w (lower op_id)) order_words

abbrev pub names_latest : List ℕ → Bool
names_latest op_id = any_of (λ w. text_eq w op_id) latest_words

-- The statuses that a search for the latest operation takes.
abbrev pub is_settled : FinancialOperation → Bool
is_settled op =
    status_in op.status
      (OperationStatus.succeeded ∷ OperationStatus.policy_approved ∷ OperationStatus.reserved ∷ [])

-- `order_by(created_at.desc()).limit(1)`: of equals, the one that stands first.
abbrev newer_of : FinancialOperation → Option FinancialOperation → Option FinancialOperation
newer_of op none = some op
newer_of op (some later) = if ltb op.created_at later.created_at then some later else some op

unfoldable pub latest : List FinancialOperation → Option FinancialOperation
latest [] = none
latest (op ∷ ops) = newer_of op (latest ops)

abbrev is_create_order : OperationType → Bool
is_create_order OperationType.create_order = true
is_create_order _ = false

abbrev pub is_order : FinancialOperation → Bool
is_order op = is_create_order op.operation_type && is_settled op

abbrev pub latest_by : Bool → Db → Option FinancialOperation
latest_by lookup_order_only db =
    latest (filter (if lookup_order_only then is_order else is_settled) db.operations)

abbrev or_latest : Bool → Db → Option FinancialOperation → Option FinancialOperation
or_latest lookup_order_only db none = latest_by lookup_order_only db
or_latest lookup_order_only db (some op) = some op

-- The operation that the text names, of any agent.
abbrev pub named_operation : (List ℕ → ℕ) → List ℕ → Db → Result (Option FinancialOperation)
named_operation id_of op_id db =
    if not (is_empty op_id) && not (names_latest op_id)
    then scalar_one_or_none (filter (λ o. o.operation_id == id_of op_id) db.operations)
    else ok none

-- `none` for the sample that stands in for an operation.
unfoldable pub lookup_transaction :
    (List ℕ → ℕ) → List ℕ → Bool → Db → Result (Option FinancialOperation)
unfolding latest lower contains text_eq
lookup_transaction id_of op_id order_only db = do
  op ← named_operation id_of op_id db
  ok (or_latest (order_only || names_order op_id) db op)
