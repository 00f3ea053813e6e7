-- ===== src/Examples/AgentTests.antt =====
-- Turns of an agent, whatever a model proposes.
use mandate_razorpay_control.Prelude.{ℕ, ◌≡◌, refl, true, Option, none, some, List, [], ◌∷◌, find}
use mandate_razorpay_control.Prelude.Int.{ℤ, pos}
use mandate_razorpay_control.Core.Enums.{MandateStatus}
use mandate_razorpay_control.Core.Models.{Mandate, agent_key, mandate_key}
use mandate_razorpay_control.Core.Database.{Db, ok}
use mandate_razorpay_control.Shared.Auth.{Headers, present}
use mandate_razorpay_control.Api.McpGateway.Requests.{newest}
use mandate_razorpay_control.Api.AgentChat.{Chat, chat_with_agent}
use mandate_razorpay_control.Api.AgentChat.Reissue.{IsStanding, chat_reissues}
use mandate_razorpay_control.Agents.Runner.{execute_turn, tables_after}
use mandate_razorpay_control.Agents.Dispatch.{Argument, integer, chars, Readings, ToolCall}
use mandate_razorpay_control.Agents.Tools.{prod_desk_mat_01}
use mandate_razorpay_control.Agents.Authority.{Grown, execute_turn-Authorized}
use mandate_razorpay_control.Examples.{buyer, grant, tables, gateway}
use mandate_razorpay_control.Examples.CallerTests.{development, around}

abbrev int_of : Argument → Option ℤ
int_of (integer z) = some z
int_of _ = none

abbrev str_of : Argument → List ℕ
str_of (chars s) = s
str_of _ = []

abbrev readings : Readings
readings = record {
  int_of = int_of;
  paise_of = int_of;
  str_of = str_of;
  bool_of = λ a. true;
  id_of = λ s. 0;
}

-- Two desk mats, and a tool that does not exist.
abbrev proposed : List ToolCall
proposed =
    record {
      name = "create_purchase_order";
      arguments = ("product_id", chars prod_desk_mat_01) ∷ ("quantity", integer (pos 2)) ∷ [];
      idempotency_key = 903;
      surroundings = around;
    }
    ∷ record {
      name = "transfer_everything";
      arguments = [];
      idempotency_key = 904;
      surroundings = around;
    }
    ∷ []

execute_turn-Authorized_example : Grown buyer grant tables (
    tables_after (
      execute_turn readings gateway buyer grant
        (ok proposed)
        (ok tt)
        (record { committed = tables; current = tables })))
execute_turn-Authorized_example =
    execute_turn-Authorized readings gateway buyer grant tables proposed (ok tt)

abbrev silent : Chat
silent = record {
  readings = readings;
  gateway = gateway;
  new_mandate_id = 77;
  now = 60;
  proposed = ok [];
  reply = ok tt;
}

abbrev anonymous : Headers
anonymous = record { x_agent_key = none; authorization = none; x_agent_id = none }

abbrev revoked_tables : Db
revoked_tables = record tables { mandates = (record grant { status = MandateStatus.revoked }) ∷ [] }

chat_reissues_example :
    (m : Mandate) × ((tables_after
        (chat_with_agent development silent revoked_tables anonymous 1)).mandates
      ≡ m ∷ revoked_tables.mandates)
    × IsStanding 60 buyer revoked_tables.mandates m
unfolding find present newest
chat_reissues_example =
    chat_reissues development silent revoked_tables anonymous buyer refl refl refl refl
