-- ===== src/Mcp/Catalog.antt =====
-- packages/mcp/catalog.py: the tools that an agent is shown.
pub mod Tools
pub mod Shown
use Prim.Native.String.{String}
use mandate_razorpay_control.Prelude.{
  ℕ, Bool, true, false, ◌&&◌, ◌||◌, Option, none, some, List, [], ◌∷◌, filter, if◌then◌else◌,
}
use mandate_razorpay_control.Prelude.Text.{text_eq, elem, is_empty}
use mandate_razorpay_control.Core.Enums.{OperationType, type_value}
use mandate_razorpay_control.Core.Models.{Agent, Mandate}
use Tools.{Tool, registry}

-- `if ...: categories.add(category)`
abbrev pub with_if : Bool → String → List String → List String
with_if b category rest = if b then category ∷ rest else rest

-- The categories that the operations of a mandate open.
unfoldable pub categories_of : List String → List String
unfolding elem
categories_of ops = with_if (elem "CREATE_ORDER" ops) "ORDERS" (
    with_if (elem "CREATE_PAYMENT_LINK" ops || elem "CANCEL_PAYMENT_LINK" ops) "PAYMENT_LINKS" (
      with_if (elem "CREATE_REFUND" ops) "REFUNDS" (
        with_if (elem "CREATE_INVOICE" ops) "INVOICES" (
          with_if (elem "CREATE_SUBSCRIPTION" ops) "SUBSCRIPTIONS" (
            with_if (elem "PAYOUTS" ops) "PAYOUTS"
              (with_if (elem "SETTLEMENTS" ops) "SETTLEMENTS" []))))))

-- "SHOPPING"
abbrev pub shopping_type : List ℕ
shopping_type = b'S' ∷ b'H' ∷ b'O' ∷ b'P' ∷ b'P' ∷ b'I' ∷ b'N' ∷ b'G' ∷ []

-- "PROCUREMENT"
abbrev pub procurement_type : List ℕ
procurement_type = b'P' ∷ b'R' ∷ b'O' ∷ b'C' ∷ b'U' ∷ b'R' ∷ b'E' ∷ b'M' ∷ b'E' ∷ b'N' ∷ b'T' ∷ []

-- "SUPPORT"
abbrev pub support_type : List ℕ
support_type = b'S' ∷ b'U' ∷ b'P' ∷ b'P' ∷ b'O' ∷ b'R' ∷ b'T' ∷ []

-- What the type of an agent opens where its operations open nothing.
unfoldable pub categories_by_type : List ℕ → List String
unfolding text_eq
categories_by_type kind =
    if text_eq kind shopping_type
    then "ORDERS" ∷ "PAYMENT_LINKS" ∷ []
    else if text_eq kind procurement_type
    then "ORDERS" ∷ []
    else if text_eq kind support_type
    then "REFUNDS" ∷ []
    else []

abbrev pub or_by_type : List String → List ℕ → List String
or_by_type [] kind = categories_by_type kind
or_by_type (c ∷ categories) kind = c ∷ categories

-- The gate of the operation type.
abbrev pub passes_type : Option OperationType → List String → Bool
passes_type none ops = true
passes_type (some t) ops = elem (type_value t) ops

abbrev pub is_shown : List String → List String → Tool → Bool
is_shown categories ops t = elem t.category categories && passes_type t.operation_type ops

unfoldable pub get_filtered_mcp_tools : Agent → Mandate → List Tool
unfolding categories_of categories_by_type registry
get_filtered_mcp_tools agent mandate =
    filter
      (is_shown (or_by_type (categories_of mandate.allowed_operations) agent.agent_type)
        mandate.allowed_operations)
      registry
