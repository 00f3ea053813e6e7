-- ===== src/Api/Agents/Ledger.antt =====
-- apps/api/routes/agents.py: the handlers of agents leave the ledger alone.
use mandate_razorpay_control.Prelude.{ℕ, inl, inr, Option, none, some, find, Bool-cases, subst}
use mandate_razorpay_control.Core.Models.{Principal, principal_key, agent_key}
use mandate_razorpay_control.Core.Database.{Db}
use mandate_razorpay_control.Core.Outcomes.{OnOk, bind-OnOk, raise_if-OnOk, or_raise-OnOk}
use mandate_razorpay_control.Ledger.{Consistent}
use mandate_razorpay_control.Shared.Auth.{Environment}
use mandate_razorpay_control.Api.Agents.{
  AgentCreate, AgentStatusUpdate, Draws, has_email, has_hash, new_agent, find_opt, new_principal,
  insert_principal, fallback, owner_or, resolve_owner, register_agent, update_agent_status,
}

module _ (db : Db) (v : Consistent db) where
  abbrev Kept : Db × ℕ → Type 0
  Kept x = Consistent x.0

  fallback-Kept :
      (demo_owner : ℕ) (owner : Option ℕ) (p : Option Principal)
      → OnOk Kept (fallback demo_owner owner p db)
  unfolding insert_principal
  fallback-Kept demo_owner owner (some p) = v
  fallback-Kept demo_owner owner none =
      elim (Bool-cases (has_email (new_principal demo_owner owner).email db.principals)) [
        | inl taken ↦ rw (taken, insert_principal) tt
        | inr free ↦ rw (free, insert_principal) v
      ]

  owner_or-Kept :
      (demo_owner : ℕ) (owner : Option ℕ) (p : Option Principal)
      → OnOk Kept (owner_or demo_owner owner p db)
  owner_or-Kept demo_owner owner (some p) = v
  owner_or-Kept demo_owner owner none =
      fallback-Kept demo_owner owner (find demo_owner db.principals)

  pub register-Consistent :
      (e : Environment) (demo_owner : ℕ) (draws : Draws) (payload : AgentCreate)
      → OnOk (λ x. Consistent x.0) (register_agent e demo_owner draws payload db)
  unfolding register_agent resolve_owner
  register-Consistent e demo_owner draws payload =
      bind-OnOk (λ x. Consistent x.0) (resolve_owner demo_owner payload.owner_id db) _
        λ x found.
          raise_if-OnOk (λ x. Consistent x.0)
            (has_hash (new_agent e draws payload x.1).api_key_hash x.0.agents) _ _
            λ free.
              subst (OnOk Kept) found (
                owner_or-Kept demo_owner payload.owner_id (find_opt payload.owner_id db.principals))

  pub set_status-Consistent :
      (agent_id : ℕ) (update : AgentStatusUpdate)
      → OnOk Consistent (update_agent_status agent_id update db)
  unfolding update_agent_status
  set_status-Consistent agent_id update =
      or_raise-OnOk Consistent (find agent_id db.agents) _ _ λ a found. v
