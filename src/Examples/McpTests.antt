-- ===== src/Examples/McpTests.antt =====
-- Calls of the tools by the buyer.
use mandate_razorpay_control.Prelude.{
  ◌≡◌, refl, ◌⊎◌, true, none, some, [], ◌∷◌, map, All, find, first_where,
}
use mandate_razorpay_control.Prelude.Int.{pos}
use mandate_razorpay_control.Prelude.Text.{elem}
use mandate_razorpay_control.Core.Models.{Mandate, agent_key, mandate_key, operation_key}
use mandate_razorpay_control.Core.Database.{Exception, ok, err}
use mandate_razorpay_control.Core.Outcomes.{OnOk}
use mandate_razorpay_control.Shared.Auth.{authenticate_agent_caller}
use mandate_razorpay_control.Mcp.Catalog.{get_filtered_mcp_tools}
use mandate_razorpay_control.Mcp.Catalog.Tools.{Tool, registry}
use mandate_razorpay_control.Mcp.Catalog.Shown.{IsGranted, get_filtered_mcp_tools-IsGranted}
use mandate_razorpay_control.Api.McpGateway.{handle_mcp_jsonrpc_gateway}
use mandate_razorpay_control.Api.McpGateway.Requests.{Call, number, newest, find_tool, unexpected}
use mandate_razorpay_control.Api.McpGateway.Ledger.{Acts, handle-Acts}
use mandate_razorpay_control.Api.McpGateway.Refusals.{tool_call, no_amount-raises}
use mandate_razorpay_control.Examples.{buyer, grant, tables, gateway}
use mandate_razorpay_control.Examples.CallerTests.{development, with_key, around}

abbrev shopping_grant : Mandate
shopping_grant = record grant { allowed_operations = "CREATE_ORDER" ∷ "CREATE_PAYMENT_LINK" ∷ [] }

get_filtered_mcp_tools-IsGranted_example :
    All (IsGranted shopping_grant) (get_filtered_mcp_tools buyer shopping_grant)
get_filtered_mcp_tools-IsGranted_example = get_filtered_mcp_tools-IsGranted buyer shopping_grant

-- Five tools, where the summary of the registry tells of three.
shown_to_buyer :
    map (λ t. t.name) (get_filtered_mcp_tools buyer shopping_grant)
    ≡ "payments_create_order" ∷ "payments_fetch_order" ∷ "payments_fetch_all_orders"
      ∷ "payments_create_payment_link" ∷ "payments_fetch_payment_link" ∷ []
unfolding get_filtered_mcp_tools
shown_to_buyer = refl

abbrev first_call : Call
first_call = record {
  surroundings = around;
  idempotency_key = 902;
  id_of = λ s. 0;
  read_int = λ s. none;
}

handle-Acts_example :
    OnOk
      (λ x.
        (x.0 ≡ tables)
        ⊎ Acts development gateway first_call
            (tool_call "payments_create_order" (("amount", number (pos 300)) ∷ []))
            tables
            with_key
            x.0)
      (handle_mcp_jsonrpc_gateway development gateway first_call
        (tool_call "payments_create_order" (("amount", number (pos 300)) ∷ []))
        tables
        with_key)
unfolding find
handle-Acts_example =
    handle-Acts development gateway first_call
      (tool_call "payments_create_order" (("amount", number (pos 300)) ∷ [])) tables with_key
      (refl, tt) (refl, tt)

abbrev cancel_link : Tool
cancel_link = elim (find_tool "payments_cancel_payment_link" registry) [
  | some t ↦ t
  | none ↦ record {
    name = "";
    category = "";
    operation_type = none;
    properties = [];
    required = [];
  }
]

buyer_authenticated : authenticate_agent_caller development with_key true tables ≡ ok (some buyer)
unfolding authenticate_agent_caller first_where
buyer_authenticated = refl

no_amount-raises_example :
    handle_mcp_jsonrpc_gateway development gateway first_call
      (tool_call "payments_cancel_payment_link" [])
      tables
      with_key
    ≡ err Exception.validation_error
unfolding newest registry find_tool unexpected elem
no_amount-raises_example =
    no_amount-raises development gateway first_call "payments_cancel_payment_link" [] tables
      with_key buyer grant cancel_link buyer_authenticated refl refl refl refl (λ e. refl)
