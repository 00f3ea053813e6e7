-- ===== src/Api/Agents/Keys.antt =====
-- apps/api/routes/agents.py with packages/shared/auth.py: the key of a new agent, and what a status
-- does to its calls.
use mandate_razorpay_control.Prelude.{
  ℕ, Bool, ◌⊎◌, ◌≡◌, ◌≢◌, refl, sym, inl, inr, some, List, ◌∷◌, find, modify, UniqueKeys,
  find-modify_self, modify-UniqueKeys, find_key, Option-cases, subst, arith,
}
use mandate_razorpay_control.Core.Enums.{AgentStatus}
use mandate_razorpay_control.Core.Models.{Agent, Mandate, principal_key, agent_key, mandate_key}
use mandate_razorpay_control.Core.Database.{Db, Exception, Result, ok, err}
use mandate_razorpay_control.Shared.Auth.{
  Environment, Headers, active_key, authenticate_agent_caller,
}
use mandate_razorpay_control.Shared.Auth.Authentic.{
  KeysIdentify, authenticate-IsAuthentic, authenticate_iff,
}
use mandate_razorpay_control.Api.Gateway.{RazorpayClient}
use mandate_razorpay_control.Api.Operations.{
  OperationCreate, Surroundings, request_financial_operation,
}
use mandate_razorpay_control.Api.Operations.Requests.{request_undispatched}
use mandate_razorpay_control.Api.Agents.{
  AgentCreate, Draws, new_agent, to_status, resolve_owner, register_agent, update_agent_status,
}

Result-cases {ℓ} :
    {A : Type ℓ} (r : Result A) → ((x : Exception) × (r ≡ err x)) ⊎ ((a : A) × (r ≡ ok a))
Result-cases (err x) = inl (x, refl)
Result-cases (ok a) = inr (a, refl)

module _ (e : Environment) (demo_owner : ℕ) (draws : Draws) (payload : AgentCreate) (db db' : Db)
    (a : Agent) (registered : register_agent e demo_owner draws payload db ≡ ok (db', a)) where
  registered_shape :
      (owner : ℕ) × (rest : List Agent) × (a ≡ new_agent e draws payload owner)
      × (db'.agents ≡ a ∷ rest)
  unfolding register_agent
  registered_shape = elim (Result-cases (resolve_owner demo_owner payload.owner_id db)) [
    | inl (x, failed) ↦ ground (arith, failed)
    | inr ((d, owner), found) ↦ (owner, d.agents, ground (arith, found), ground (arith, found))
  ]

  -- The identifier with which a registration answers is a credential: on a table in which no two
  -- agents share an identifier and no key belongs to two, a caller that brings it as its key, and
  -- that asks for no other agent, is authenticated as the new agent, in every environment.
  pub register-authenticate :
      (headers : Headers) (required : Bool)
      → UniqueKeys db'.agents
      → KeysIdentify e db'
      → active_key headers ≡ some (e.id_text a.id)
      → ((i : ℕ) → headers.x_agent_id ≡ some i → a.id ≡ i)
      → authenticate_agent_caller e headers required db' ≡ ok (some a)
  unfolding find
  register-authenticate headers required unique identify given asked =
      let (owner, rest, made, listed) = registered_shape in
      (authenticate_iff e headers required db' a unique identify).1 (record {
        known = ground (arith, listed);
        active = ground (arith, made);
        asked = asked;
        proven = inl (e.id_text a.id, given, inr (inr (inr refl)));
      })

module _ (agent_id : ℕ) (s : AgentStatus) (db db' : Db) (inactive : s ≢ AgentStatus.active)
    (updated : update_agent_status agent_id (record { status = s }) db ≡ ok db') where
  -- The row after the update.
  updated_row :
      (a : Agent) × (find agent_id db'.agents ≡ some (to_status s a))
      × (db'.agents ≡ modify agent_id (to_status s) db.agents)
      × (db'.mandates ≡ db.mandates)
      × (db'.operations ≡ db.operations)
  unfolding update_agent_status
  updated_row = elim (Option-cases (find agent_id db.agents)) [
    | inl missing ↦ absurd (ground (arith, missing))
    | inr (a, found) ↦
        let key : a.id ≡ agent_id = find_key agent_id a db.agents found in
        (
          a,
          ground
              (arith, found, key, find-modify_self agent_id (to_status s) a db.agents refl found),
          ground (arith, found, key),
          ground (arith, found),
          ground (arith, found),
        )
  ]

  -- An agent that was suspended or revoked is authenticated by no caller, whatever it presents.
  pub suspended-unauthenticated :
      (e : Environment) (headers : Headers) (required : Bool) (a : Agent)
      → UniqueKeys db.agents
      → a.id ≡ agent_id
      → authenticate_agent_caller e headers required db' ≢ ok (some a)
  suspended-unauthenticated e headers required a unique same h =
      let (b, found, agents, mandates, operations) = updated_row in
      let unique' : UniqueKeys db'.agents =
        subst (λ rows. UniqueKeys rows) (sym agents)
          (modify-UniqueKeys agent_id (to_status s) db.agents (λ r. refl) unique) in
      let v = authenticate-IsAuthentic e headers required db' a unique' h in
      inactive (ground (arith, v.known, v.active, found, same))

  -- Its requests do not reach the gateway: the answer and the tables are the same behind any two.
  pub suspended-undispatched :
      (g g' : RazorpayClient) (x : Surroundings) (payload : OperationCreate) (m : Mandate)
      → payload.agent_id ≡ agent_id
      → find payload.mandate_id db.mandates ≡ some m
      → request_financial_operation g x payload db' ≡ request_financial_operation g' x payload db'
  suspended-undispatched g g' x payload m same mandate_found =
      let (b, found, agents, mandates, operations) = updated_row in
      request_undispatched g g' x payload db' m (to_status s b)
        (ground (arith, mandates, mandate_found)) (ground (arith, found, same))
        (λ v. inactive v.agent_active)
