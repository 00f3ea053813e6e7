-- ===== src/Examples/CallerTests.antt =====
-- Who is authenticated: an agent by its key, a new agent by the key that was drawn for it.
use mandate_razorpay_control.Prelude.{
  ℕ, ◌≡◌, ◌≢◌, refl, ◌↔◌, ◌⊎◌, inl, inr, subst, List, true, false, none, some, [], ◌∷◌, find,
  first_where, arith,
}
use mandate_razorpay_control.Core.Enums.{AgentStatus}
use mandate_razorpay_control.Core.Models.{Agent, principal_key, agent_key, mandate_key}
use mandate_razorpay_control.Core.Database.{Db, Exception, ok, err}
use mandate_razorpay_control.Shared.Auth.{
  Environment, Headers, active_key, authenticate_agent_caller,
}
use mandate_razorpay_control.Shared.Auth.Authentic.{
  KeysIdentify, Proves, IsAuthentic, authenticate_iff,
}
use mandate_razorpay_control.Api.Agents.{
  AgentCreate, Draws, has_email, has_hash, register_agent, update_agent_status,
}
use mandate_razorpay_control.Api.Agents.Keys.{register-authenticate, suspended-unauthenticated}
use mandate_razorpay_control.Api.Agents.Owners.{second_owner_fails}
use mandate_razorpay_control.Api.Operations.{OperationCreate, Surroundings}
use mandate_razorpay_control.Api.Operations.Callers.{
  for_agent, Fresh, Replayed, request_as, request_as-acts,
}
use mandate_razorpay_control.Core.Enums.{OperationType}
use OperationType.{create_order}
use mandate_razorpay_control.Policy.Rules.{hierarchical_delegation_rule}
use mandate_razorpay_control.Policy.Engine.{evaluate, run_rules, evaluate_rule}
use mandate_razorpay_control.Prelude.Text.{upper}
use mandate_razorpay_control.Api.Operations.{fits_columns, request_new, request_financial_operation}
use mandate_razorpay_control.Examples.{buyer, tables, gateway, rupees, within_rate}

-- A stand-in for the digest.
abbrev pub development : Environment
development = record { sha256 = λ s. b'#' ∷ s; id_text = λ i. i ∷ []; is_production = false }

abbrev pub with_key : Headers
with_key = record {
  x_agent_key = none;
  authorization = some (b'B' ∷ b'e' ∷ b'a' ∷ b'r' ∷ b'e' ∷ b'r' ∷ b' ' ∷ b'k' ∷ b' ' ∷ []);
  x_agent_id = some 1;
}

pub key_of_buyer : active_key with_key ≡ some (b'k' ∷ [])
unfolding active_key
key_of_buyer = refl

only_buyer : (k : ℕ) (a : Agent) → find k tables.agents ≡ some a → a ≡ buyer
unfolding find
only_buyer k a e = ground arith

tables-KeysIdentify : KeysIdentify development tables
tables-KeysIdentify key a b found found' p p' =
    cc (only_buyer a.id a found, only_buyer b.id b found')

authenticate_iff_example :
    (authenticate_agent_caller development with_key true tables ≡ ok (some buyer))
    ↔ IsAuthentic development with_key tables buyer
unfolding find
authenticate_iff_example =
    authenticate_iff development with_key true tables buyer (refl, tt) tables-KeysIdentify

abbrev drawn : Draws
drawn = record { agent_id = 2; hex = b'7' ∷ [] }

abbrev newcomer : AgentCreate
newcomer = record { name = []; owner_id = some 9; agent_type = [] }

abbrev newcomer_key : Headers
newcomer_key = record { x_agent_key = some (2 ∷ []); authorization = none; x_agent_id = none }

-- The tables with the newcomer, and the newcomer.
abbrev grown : Db × Agent
grown = elim (register_agent development 3 drawn newcomer tables) [
  | ok x ↦ x
  | err e ↦ (tables, buyer)
]

registered : register_agent development 3 drawn newcomer tables ≡ ok grown
unfolding register_agent find has_email has_hash
registered = refl

only_grown : (k : ℕ) (a : Agent) → find k grown.0.agents ≡ some a → (a ≡ grown.1) ⊎ (a ≡ buyer)
unfolding find register_agent has_email has_hash
only_grown k a e = ground arith

grown-disjoint : (key : List ℕ) → Proves development key grown.1 → ¬ Proves development key buyer
unfolding register_agent has_email has_hash find
grown-disjoint key p q = ground (arith, p, q)

grown-KeysIdentify : KeysIdentify development grown.0
grown-KeysIdentify key a b found found' p p' = elim (only_grown a.id a found) [
  | inl new ↦ elim (only_grown b.id b found') [
    | inl new' ↦ cc
    | inr old' ↦ absurd (
        grown-disjoint key (subst (Proves development key) new p)
          (subst (Proves development key) old' p'))
  ]
  | inr old ↦ elim (only_grown b.id b found') [
    | inl new' ↦ absurd (
        grown-disjoint key (subst (Proves development key) new' p')
          (subst (Proves development key) old p))
    | inr old' ↦ cc
  ]
]

register-authenticate_example :
    authenticate_agent_caller development newcomer_key true grown.0 ≡ ok (some grown.1)
unfolding find active_key register_agent has_email has_hash
register-authenticate_example =
    register-authenticate development 3 drawn newcomer tables grown.0 grown.1 registered
      newcomer_key true (refl, (refl, tt)) grown-KeysIdentify refl (λ i e. absurd (cc))

abbrev suspended_tables : Db
suspended_tables = elim (update_agent_status 1 (record { status = AgentStatus.suspended }) tables) [
  | ok db ↦ db
  | err e ↦ tables
]

suspended_buyer :
    update_agent_status 1 (record { status = AgentStatus.suspended }) tables ≡ ok suspended_tables
unfolding update_agent_status find
suspended_buyer = refl

suspended-unauthenticated_example :
    authenticate_agent_caller development with_key true suspended_tables ≢ ok (some buyer)
unfolding find
suspended-unauthenticated_example =
    suspended-unauthenticated 1 AgentStatus.suspended tables suspended_tables (λ e. absurd (cc))
      suspended_buyer development with_key true buyer (refl, tt) refl

second_owner_fails_example :
    register_agent development 3
      (record { agent_id = 4; hex = [] })
      (record { name = []; owner_id = some 8; agent_type = [] })
      grown.0
    ≡ err Exception.integrity_error
unfolding find
second_owner_fails_example =
    second_owner_fails development 3 9 drawn [] [] tables grown.0 grown.1 (refl, refl) registered 8
      (record { agent_id = 4; hex = [] }) [] [] (omega arith) (omega arith) refl

abbrev pub order_for_buyer : OperationCreate
order_for_buyer = record {
  idempotency_key = 901;
  agent_id = 1;
  mandate_id = 10;
  operation_type = create_order;
  amount = 300;
  currency = rupees;
  payload = record { payment_id = none };
}

abbrev pub around : Surroundings
around = record {
  row_id = 4;
  operation_id = 104;
  transaction_id = 8;
  now = 60;
  limit_res = within_rate;
  active_agent = ok none;
}

abbrev pub ordered : Db × ℕ
ordered = elim (request_as development with_key gateway around order_for_buyer tables) [
  | ok x ↦ x
  | err e ↦ (tables, 0)
]

pub answered : request_as development with_key gateway around order_for_buyer tables ≡ ok ordered
unfolding request_as request_financial_operation request_new find first_where evaluate run_rules
    evaluate_rule hierarchical_delegation_rule fits_columns upper
answered = refl

request_as-acts_example :
    (a : Agent) × IsAuthentic development (for_agent with_key 1) tables a
    × (Fresh a order_for_buyer tables ordered ⊎ Replayed order_for_buyer tables ordered)
unfolding find
request_as-acts_example =
    request_as-acts development with_key gateway around order_for_buyer tables (b'k' ∷ []) ordered
      (refl, tt) key_of_buyer answered
