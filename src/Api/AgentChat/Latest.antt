-- ===== src/Api/AgentChat/Latest.antt =====
-- apps/api/routes/agent_chat.py: the latest mandate of an agent.
use mandate_razorpay_control.Prelude.{
  ℕ, ◌≤◌, ◌≡◌, ◌≢◌, refl, Option, none, some, inl, inr, List, [], ◌∷◌, All, filter, ltb, ◌==◌,
  ==-eq, ==-ne, arith, Bool-cases,
}
use mandate_razorpay_control.Prelude.Members.{Member}
use mandate_razorpay_control.Core.Models.{Mandate}
use mandate_razorpay_control.Api.McpGateway.Requests.{newer_of, newest}

module _ (i : ℕ) where
  -- No mandate of the agent is younger.
  abbrev pub NotBefore : List Mandate → Mandate → Type 0
  NotBefore ms p = All (λ (q : Mandate). q.agent_id ≡ i → q.created_at ≤ p.created_at) ms

  -- The agent has no mandate, or this one of its mandates is the latest.
  abbrev pub IsLatest : List Mandate → Option Mandate → Type 0
  IsLatest ms none = All (λ (q : Mandate). q.agent_id ≢ i) ms
  IsLatest ms (some p) = Member p ms × (p.agent_id ≡ i) × NotBefore ms p

  relax :
      (ms : List Mandate) (p x : Mandate)
      → p.created_at ≤ x.created_at
      → NotBefore ms p
      → NotBefore ms x
  relax [] p x le h = tt
  relax (q ∷ ms) p x le h = (λ own. omega (arith, h.0 own, le), relax ms p x le h.1)

  no_rival :
      (ms : List Mandate) (x : Mandate) → All (λ (q : Mandate). q.agent_id ≢ i) ms → NotBefore ms x
  no_rival [] x h = tt
  no_rival (q ∷ ms) x h = (λ own. absurd (h.0 own), no_rival ms x h.1)

  newer_of-IsLatest :
      (x : Mandate) (ms : List Mandate) (o : Option Mandate)
      → x.agent_id ≡ i
      → IsLatest ms o
      → IsLatest (x ∷ ms) (newer_of x o)
  newer_of-IsLatest x ms none own h = (inl refl, own, (λ e. omega arith, no_rival ms x h))
  newer_of-IsLatest x ms (some p) own (there, same, rest) =
      elim (Bool-cases (ltb x.created_at p.created_at)) [
        | inl older ↦ rw older (inr there, same, (λ e. ground (arith, older), rest))
        | inr newer ↦
            rw newer (inl refl, own, (λ e. omega arith, relax ms p x (ground (arith, newer)) rest))
      ]

  other-IsLatest :
      (x : Mandate) (ms : List Mandate) (o : Option Mandate)
      → x.agent_id ≢ i
      → IsLatest ms o
      → IsLatest (x ∷ ms) o
  other-IsLatest x ms none ne h = (ne, h)
  other-IsLatest x ms (some p) ne (there, same, rest) =
      (inr there, same, (λ e. absurd (ne e), rest))

  pub newest-IsLatest :
      (ms : List Mandate) → IsLatest ms (newest (filter (λ m. m.agent_id == i) ms))
  unfolding newest
  newest-IsLatest [] = tt
  newest-IsLatest (x ∷ ms) = elim (Bool-cases (x.agent_id == i)) [
    | inl own ↦ rw own (newer_of-IsLatest x ms _ (==-eq x.agent_id i own) (newest-IsLatest ms))
    | inr other ↦ rw other (other-IsLatest x ms _ (==-ne x.agent_id i other) (newest-IsLatest ms))
  ]
