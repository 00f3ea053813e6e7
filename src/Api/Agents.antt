-- ===== src/Api/Agents.antt =====
-- apps/api/routes/agents.py: registering an agent and setting its status.
pub mod Keys
pub mod Owners
pub mod Ledger
use Prim.Native.String.{String}
use text.Mathlib.Text.{◌==◌ as str_eq}
use mandate_razorpay_control.Prelude.{
  ℕ, Bool, true, false, ◌||◌, Option, none, some, List, [], ◌∷◌, ◌++◌, find, first_where,
  if◌then◌else◌,
}
use mandate_razorpay_control.Prelude.Text.{upper, text_eq}
use mandate_razorpay_control.Core.Enums.{AgentStatus, AuditAction}
use mandate_razorpay_control.Core.Models.{Principal, Agent, ResourceType, principal_key, agent_key}
use mandate_razorpay_control.Core.Database.{
  Db, Exception, Detail, Result, ok, err, ◌>>=◌, ◌>>◌, or_raise, raise_if, set_agent, add_agent,
  add_audit, audit,
}
use mandate_razorpay_control.Shared.Auth.{Environment}

-- The owner is `none` where the text is empty.
pub record AgentCreate : Type 0 where
  pub name : List ℕ
  pub owner_id : Option ℕ
  pub agent_type : List ℕ

pub record AgentStatusUpdate : Type 0 where
  pub status : AgentStatus

-- The identifier of the new row, and the hexadecimal digits of its key.
pub record Draws : Type 0 where
  pub agent_id : ℕ
  pub hex : List ℕ

-- "prn_demo_merchant_01" is the identifier `demo_owner`.
abbrev pub demo_email : String
demo_email = "admin@alphacommerce.example"

-- The table has no two principals with one address.
unfoldable pub has_email : String → List Principal → Bool
has_email email [] = false
has_email email (p ∷ rows) =
    let rest = has_email email rows in if str_eq p.email email then true else rest

abbrev pub id_or : Option ℕ → ℕ → ℕ
id_or (some i) other = i
id_or none other = other

unfoldable pub insert_principal : Principal → Db → Result Db
insert_principal p db = do
  raise_if (has_email p.email db.principals) Exception.integrity_error
  ok (record db { principals = p ∷ db.principals })

abbrev pub find_opt : Option ℕ → List Principal → Option Principal
find_opt none rows = none
find_opt (some i) rows = find i rows

abbrev pub new_principal : ℕ → Option ℕ → Principal
new_principal demo_owner owner = record { id = id_or owner demo_owner; email = demo_email }

-- The demo merchant, or a new principal where that is missing too.
abbrev pub fallback : ℕ → Option ℕ → Option Principal → Db → Result (Db × ℕ)
fallback demo_owner owner (some p) db = ok (db, p.id)
fallback demo_owner owner none db = do
  db' ← insert_principal (new_principal demo_owner owner) db
  ok (db', id_or owner demo_owner)

abbrev pub owner_or : ℕ → Option ℕ → Option Principal → Db → Result (Db × ℕ)
owner_or demo_owner owner (some p) db = ok (db, p.id)
owner_or demo_owner owner none db = fallback demo_owner owner (find demo_owner db.principals) db

unfoldable pub resolve_owner : ℕ → Option ℕ → Db → Result (Db × ℕ)
unfolding insert_principal
resolve_owner demo_owner owner db = owner_or demo_owner owner (find_opt owner db.principals) db

-- "ag_key_" and the digits.
abbrev pub raw_api_key : List ℕ → List ℕ
raw_api_key hex = b'a' ∷ b'g' ∷ b'_' ∷ b'k' ∷ b'e' ∷ b'y' ∷ b'_' ∷ hex

abbrev default_type : List ℕ
default_type = b'S' ∷ b'H' ∷ b'O' ∷ b'P' ∷ b'P' ∷ b'I' ∷ b'N' ∷ b'G' ∷ []

-- `payload.agent_type or "SHOPPING"`
abbrev type_or : List ℕ → List ℕ
type_or [] = default_type
type_or (c ∷ s) = c ∷ s

abbrev pub new_agent : Environment → Draws → AgentCreate → ℕ → Agent
new_agent e draws payload owner = record {
  id = draws.agent_id;
  name = payload.name;
  owner_id = owner;
  status = AgentStatus.active;
  api_key_hash = e.sha256 (raw_api_key draws.hex);
  agent_type = upper (type_or payload.agent_type);
}

-- The table has no two agents with one hash.
unfoldable pub has_hash : List ℕ → List Agent → Bool
unfolding text_eq
has_hash api_key_hash [] = false
has_hash api_key_hash (a ∷ rows) = text_eq a.api_key_hash api_key_hash || has_hash api_key_hash rows

-- The tables afterwards and the agent that is returned.
unfoldable pub register_agent : Environment → ℕ → Draws → AgentCreate → Db → Result (Db × Agent)
unfolding resolve_owner has_hash
register_agent e demo_owner draws payload db = do
  (db', owner) ← resolve_owner demo_owner payload.owner_id db
  let agent = new_agent e draws payload owner
  raise_if (has_hash agent.api_key_hash db'.agents) Exception.integrity_error
  ok (
    add_audit (audit AuditAction.agent_registered ResourceType.agent agent.id none)
        (add_agent agent db'),
    agent,
  )

abbrev pub to_status : AgentStatus → Agent → Agent
to_status s a = record a { status = s }

unfoldable pub update_agent_status : ℕ → AgentStatusUpdate → Db → Result Db
update_agent_status agent_id update db = do
  agent ← or_raise (find agent_id db.agents) (Exception.not_found Detail.agent_not_found)
  ok (
      add_audit (audit AuditAction.agent_status_changed ResourceType.agent agent.id none)
        (set_agent agent.id (to_status update.status) db))
