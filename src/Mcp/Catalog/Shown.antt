-- ===== src/Mcp/Catalog/Shown.antt =====
-- packages/mcp/catalog.py: what a tool that is shown may do.
use Prim.Native.String.{String}
use text.Mathlib.Text.{◌==◌ as str_eq}
use mandate_razorpay_control.Prelude.{
  ℕ, ◌≡◌, ◌≢◌, refl, Bool, true, false, ◌&&◌, ◌||◌, some, List, [], ◌∷◌, All, All-filter, subst,
  arith,
}
use mandate_razorpay_control.Prelude.Text.{elem}
use mandate_razorpay_control.Core.Enums.{PolicyDecisionType}
use mandate_razorpay_control.Core.Models.{Agent, Mandate}
use mandate_razorpay_control.Policy.Rules.{Inputs, allowed_operation_type_rule}
use mandate_razorpay_control.Mcp.Catalog.{
  with_if, categories_of, categories_by_type, or_by_type, is_shown, get_filtered_mcp_tools,
}
use mandate_razorpay_control.Mcp.Catalog.Tools.{Tool, registry}

-- Which operations a category needs, where the mandate's operations open it or the agent's type.
abbrev pub Opens : List String → String → Type 0
Opens ops category =
    ((category ≡ "PAYOUTS") → elem "PAYOUTS" ops ≡ true)
    × ((category ≡ "SETTLEMENTS") → elem "SETTLEMENTS" ops ≡ true)
    × ((category ≡ "INVOICES") → elem "CREATE_INVOICE" ops ≡ true)
    × (category ≢ "PAYMENTS")
    × (category ≢ "QR_CODES")
    × (category ≢ "CUSTOMERS")

elem-with_if :
    (name : String) (b : Bool) (category : String) (rest : List String)
    → elem name (with_if b category rest) ≡ ((b && str_eq name category) || elem name rest)
unfolding elem
elem-with_if name true category rest = refl
elem-with_if name false category rest = refl

and_false : (b : Bool) → (b && false) ≡ false
and_false true = refl
and_false false = refl

and_true : (b : Bool) → (b && true) ≡ b
and_true true = refl
and_true false = refl

or_false : (b : Bool) → (b || false) ≡ b
or_false true = refl
or_false false = refl

ruleset category_laws = (elem-with_if, and_false, and_true, or_false)

at_name : (xs : List String) {a b : String} → elem a xs ≡ true → a ≡ b → elem b xs ≡ true
at_name xs h e = subst (λ c. elem c xs ≡ true) e h

-- The type of an agent opens only orders, payment links and refunds.
not_by_type :
    (kind : List ℕ) (name : String)
    → str_eq name "ORDERS" ≡ false
    → str_eq name "PAYMENT_LINKS" ≡ false
    → str_eq name "REFUNDS" ≡ false
    → elem name (categories_by_type kind) ≡ false
unfolding categories_by_type elem
not_by_type kind name a b c = ground arith

module _ (ops : List String) (category : String) where
  opened_by : elem category (categories_of ops) ≡ true → Opens ops category
  unfolding categories_of
  opened_by h = (
    λ e. simp category_laws at (at_name (categories_of ops) h e),
    λ e. simp category_laws at (at_name (categories_of ops) h e),
    λ e. simp category_laws at (at_name (categories_of ops) h e),
    λ e. cc (simp category_laws at (at_name (categories_of ops) h e)),
    λ e. cc (simp category_laws at (at_name (categories_of ops) h e)),
    λ e. cc (simp category_laws at (at_name (categories_of ops) h e)),
  )

  opened_by_type :
      (kind : List ℕ) → elem category (categories_by_type kind) ≡ true → Opens ops category
  opened_by_type kind h = (
    λ e. cc (at_name _ h e, not_by_type kind "PAYOUTS" refl refl refl),
    λ e. cc (at_name _ h e, not_by_type kind "SETTLEMENTS" refl refl refl),
    λ e. cc (at_name _ h e, not_by_type kind "INVOICES" refl refl refl),
    λ e. cc (at_name _ h e, not_by_type kind "PAYMENTS" refl refl refl),
    λ e. cc (at_name _ h e, not_by_type kind "QR_CODES" refl refl refl),
    λ e. cc (at_name _ h e, not_by_type kind "CUSTOMERS" refl refl refl),
  )

  opened_by_either :
      (opened : List String) (kind : List ℕ)
      → categories_of ops ≡ opened
      → elem category (or_by_type opened kind) ≡ true
      → Opens ops category
  opened_by_either [] kind e h = opened_by_type kind h
  opened_by_either (c ∷ opened) kind e h = opened_by (rw e h)

-- What a mandate grants for a tool that is shown: the policy's rule of the operation type allows
-- its operation, and its category is opened.
pub record IsGranted (mandate : Mandate) (t : Tool) : Type 0 where
  pub type_allowed :
      (i : Inputs)
      → i.mandate ≡ mandate
      → t.operation_type ≡ some i.operation.operation_type
      → (allowed_operation_type_rule i).decision ≡ PolicyDecisionType.allow
  pub opened : Opens mandate.allowed_operations t.category

shown-IsGranted :
    (kind : List ℕ) (mandate : Mandate) (t : Tool)
    → is_shown
        (or_by_type (categories_of mandate.allowed_operations) kind)
        mandate.allowed_operations
        t
      ≡ true
    → IsGranted mandate t
unfolding allowed_operation_type_rule
shown-IsGranted kind mandate t h = record {
  type_allowed = λ i same typed. ground arith;
  opened =
      opened_by_either mandate.allowed_operations t.category
        (categories_of mandate.allowed_operations) kind refl (ground arith);
}

pub get_filtered_mcp_tools-IsGranted :
    (agent : Agent) (mandate : Mandate)
    → All (IsGranted mandate) (get_filtered_mcp_tools agent mandate)
unfolding get_filtered_mcp_tools
get_filtered_mcp_tools-IsGranted agent mandate =
    All-filter (IsGranted mandate) _ registry (shown-IsGranted agent.agent_type mandate)
