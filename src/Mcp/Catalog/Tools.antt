-- ===== src/Mcp/Catalog/Tools.antt =====
-- packages/mcp/catalog.py: `RAZORPAY_MCP_TOOL_REGISTRY`, section by section. Of a tool's schema the
-- names of its parameters and which are required are kept; descriptions and the types of
-- parameters, which no code reads, are left out.
use Prim.Native.String.{String}
use mandate_razorpay_control.Prelude.{Option, none, some, List, [], ◌∷◌, ◌++◌}
use mandate_razorpay_control.Core.Enums.{OperationType}

pub record Tool : Type 0 where
  pub name : String
  pub category : String
  pub operation_type : Option OperationType
  pub properties : List String
  pub required : List String

abbrev tool : String → String → Option OperationType → List String → List String → Tool
tool name category operation_type properties required = record {
  name = name;
  category = category;
  operation_type = operation_type;
  properties = properties;
  required = required;
}

unfoldable pub orders_and_payments_tools : List Tool
orders_and_payments_tools =
    tool "payments_create_order" "ORDERS" (some OperationType.create_order)
      ("amount" ∷ "currency" ∷ "receipt" ∷ "notes" ∷ []) ("amount" ∷ "currency" ∷ [])
    ∷ tool "payments_fetch_order" "ORDERS" (none) ("order_id" ∷ []) ("order_id" ∷ [])
    ∷ tool "payments_fetch_all_orders" "ORDERS" (none) ("count" ∷ []) ([])
    ∷ tool "payments_fetch_payment" "PAYMENTS" (none) ("payment_id" ∷ []) ("payment_id" ∷ [])
    ∷ tool "payments_fetch_all_payments" "PAYMENTS" (none) ("count" ∷ []) ([])
    ∷ tool "payments_capture_payment" "PAYMENTS" (some OperationType.capture_payment)
        ("payment_id" ∷ "amount" ∷ "currency" ∷ []) ("payment_id" ∷ "amount" ∷ [])
    ∷ []

unfoldable pub payment_link_tools : List Tool
payment_link_tools =
    tool "payments_create_payment_link" "PAYMENT_LINKS" (some OperationType.create_payment_link)
      ("amount" ∷ "currency" ∷ "description" ∷ "customer_name" ∷ "customer_email"
        ∷ "customer_contact" ∷ "notes" ∷ [])
      ("amount" ∷ "currency" ∷ "description" ∷ [])
    ∷ tool "payments_fetch_payment_link" "PAYMENT_LINKS" (none) ("payment_link_id" ∷ [])
        ("payment_link_id" ∷ [])
    ∷ tool "payments_cancel_payment_link" "PAYMENT_LINKS" (some OperationType.cancel_payment_link)
        ("payment_link_id" ∷ []) ("payment_link_id" ∷ [])
    ∷ []

unfoldable pub refund_tools : List Tool
refund_tools =
    tool "payments_create_refund" "REFUNDS" (some OperationType.create_refund)
      ("payment_id" ∷ "amount" ∷ "notes" ∷ []) ("payment_id" ∷ [])
    ∷ tool "payments_fetch_refund" "REFUNDS" (none) ("refund_id" ∷ []) ("refund_id" ∷ [])
    ∷ tool "payments_fetch_all_refunds" "REFUNDS" (none) ("count" ∷ []) ([])
    ∷ []

unfoldable pub qr_code_tools : List Tool
qr_code_tools =
    tool "qr_codes_create" "QR_CODES" (some OperationType.create_order)
      ("type" ∷ "name" ∷ "usage" ∷ "fixed_amount" ∷ "payment_amount" ∷ [])
      ("type" ∷ "name" ∷ "usage" ∷ [])
    ∷ tool "qr_codes_fetch_by_id" "QR_CODES" (none) ("qr_id" ∷ []) ("qr_id" ∷ [])
    ∷ tool "qr_codes_close" "QR_CODES" (none) ("qr_id" ∷ []) ("qr_id" ∷ [])
    ∷ []

unfoldable pub settlement_tools : List Tool
settlement_tools =
    tool "settlements_fetch_all" "SETTLEMENTS" (none) ("count" ∷ []) ([])
    ∷ tool "settlements_fetch_by_id" "SETTLEMENTS" (none) ("settlement_id" ∷ [])
        ("settlement_id" ∷ [])
    ∷ tool "settlements_fetch_combined_report" "SETTLEMENTS" (none) ("year" ∷ "month" ∷ []) ([])
    ∷ []

unfoldable pub invoice_tools : List Tool
invoice_tools =
    tool "invoices_create" "INVOICES" (some OperationType.create_payment_link)
      ("type" ∷ "description" ∷ "amount" ∷ "customer" ∷ []) ("type" ∷ "description" ∷ "amount" ∷ [])
    ∷ tool "invoices_fetch_by_id" "INVOICES" (none) ("invoice_id" ∷ []) ("invoice_id" ∷ [])
    ∷ tool "invoices_cancel" "INVOICES" (some OperationType.cancel_payment_link) ("invoice_id" ∷ [])
        ("invoice_id" ∷ [])
    ∷ []

unfoldable pub customer_tools : List Tool
customer_tools =
    tool "customers_create" "CUSTOMERS" (none) ("name" ∷ "email" ∷ "contact" ∷ [])
      ("name" ∷ "email" ∷ [])
    ∷ tool "customers_fetch_by_id" "CUSTOMERS" (none) ("customer_id" ∷ []) ("customer_id" ∷ [])
    ∷ []

unfoldable pub payout_tools : List Tool
payout_tools =
    tool "payouts_create" "PAYOUTS" (none)
      ("account_number" ∷ "fund_account_id" ∷ "amount" ∷ "currency" ∷ "mode" ∷ "purpose" ∷ [])
      ("account_number" ∷ "amount" ∷ "currency" ∷ "mode" ∷ "purpose" ∷ [])
    ∷ tool "payouts_fetch_by_id" "PAYOUTS" (none) ("payout_id" ∷ []) ("payout_id" ∷ [])
    ∷ tool "payouts_cancel" "PAYOUTS" (none) ("payout_id" ∷ []) ("payout_id" ∷ [])
    ∷ []

unfoldable pub registry : List Tool
unfolding orders_and_payments_tools payment_link_tools refund_tools qr_code_tools settlement_tools
    invoice_tools customer_tools payout_tools
registry =
    orders_and_payments_tools
    ++ (payment_link_tools
        ++ (refund_tools
            ++ (qr_code_tools
                ++ (settlement_tools ++ (invoice_tools ++ (customer_tools ++ payout_tools))))))
