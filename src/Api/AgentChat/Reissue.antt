-- ===== src/Api/AgentChat/Reissue.antt =====
-- apps/api/routes/agent_chat.py: the mandate that a chat makes, and the ledger.
use Prim.Native.String.{String}
use mandate_razorpay_control.Prelude.{
  ℕ, ◌+◌, ◌≡◌, ◌≢◌, refl, true, false, subst, inl, inr, Bool-cases, arith, ◌⊎◌, false, Option, none,
  some, List, [], ◌∷◌, All, find,
}
use mandate_razorpay_control.Prelude.Int.{pos}
use mandate_razorpay_control.Prelude.Text.{upper, text_eq, text_eq-eq, text_eq_refl}
use mandate_razorpay_control.Core.Enums.{MandateStatus}
use mandate_razorpay_control.Core.Models.{
  Agent, Mandate, FinancialOperation, agent_key, mandate_key, operation_key,
}
use mandate_razorpay_control.Core.Database.{Db, Result, ok, err}
use mandate_razorpay_control.Ledger.{Consistent}
use mandate_razorpay_control.Shared.Auth.{Environment, Headers}
use mandate_razorpay_control.Api.Operations.Callers.{has_credential}
use mandate_razorpay_control.Api.Mandates.{add_mandate}
use mandate_razorpay_control.Api.Mandates.Ledger.{add-IsConsistent}
use mandate_razorpay_control.Api.McpGateway.Requests.{active_mandate}
use mandate_razorpay_control.Api.AgentChat.{
  Chat, depth_of, reissued, previous_mandate, limits_of, chat_under, chat_as, agent_of,
  chat_with_agent,
}
use mandate_razorpay_control.Agents.Runner.{execute_turn, tables_after}
use mandate_razorpay_control.Api.AgentChat.Latest.{IsLatest, newest-IsLatest}
use mandate_razorpay_control.Agents.Dispatch.{ToolCall}
use mandate_razorpay_control.Agents.Authority.{Unused, execute_turn-Consistent}

abbrev support_type : List ℕ
support_type = b'S' ∷ b'U' ∷ b'P' ∷ b'P' ∷ b'O' ∷ b'R' ∷ b'T' ∷ []

abbrev shopping_type : List ℕ
shopping_type = b'S' ∷ b'H' ∷ b'O' ∷ b'P' ∷ b'P' ∷ b'I' ∷ b'N' ∷ b'G' ∷ []

-- What an agent of a type may spend at once, in all, and on which operations, in paise.
pub data Tier (kind : List ℕ) : ℕ → ℕ → List String → Type 0 where
  for_support : kind ≡ support_type → Tier kind 500000 2500000 ("CREATE_REFUND" ∷ [])
  for_shopping :
      kind ≡ shopping_type
      → Tier kind 2500000 10000000 ("CREATE_ORDER" ∷ "CREATE_PAYMENT_LINK" ∷ [])
  for_others :
      kind ≢ support_type → kind ≢ shopping_type → Tier kind 1000000 1500000 ("CREATE_ORDER" ∷ [])

abbrev pub DeepAsLatest : ℕ → List Mandate → ℕ → Type 0
DeepAsLatest i ms d =
    (IsLatest i ms none × (d ≡ 0))
    ⊎ ((p : Mandate) × IsLatest i ms (some p) × (d ≡ p.delegation_depth))

depth_of-DeepAsLatest :
    (i : ℕ) (ms : List Mandate) (o : Option Mandate)
    → IsLatest i ms o
    → DeepAsLatest i ms (depth_of o)
depth_of-DeepAsLatest i ms none h = inl (h, refl)
depth_of-DeepAsLatest i ms (some p) h = inr (p, h, refl)

-- A mandate of the agent itself that is active, unspent and valid for thirty days, and that no other
-- mandate grants.
-- How deep it counts as delegated: as the latest mandate of the agent, if there is one.
pub record IsStanding (now : ℕ) (agent : Agent) (before : List Mandate) (m : Mandate) : Type 0 where
  pub own : m.agent_id ≡ agent.id
  pub granted : m.granted_by_id ≡ agent.owner_id
  pub root : m.parent_mandate_id ≡ none
  pub active : m.status ≡ MandateStatus.active
  pub currency : m.currency ≡ b'I' ∷ b'N' ∷ b'R' ∷ []
  pub tier :
      Tier (upper agent.agent_type) m.max_amount_per_op m.aggregate_spend_limit m.allowed_operations
  pub depth : DeepAsLatest agent.id before m.delegation_depth
  pub unreviewed : m.review_threshold_amount ≡ none
  pub unspent : (m.current_aggregate_spend ≡ pos 0) × (m.reserved_spend ≡ pos 0)
  pub begins : m.valid_from ≡ now
  pub ends : m.valid_until ≡ now + 2592000

differs : (s t : List ℕ) → text_eq s t ≡ false → s ≢ t
differs s t h e = absurd (ground (arith, subst (λ x. text_eq s x ≡ true) e (text_eq_refl s), h))

limits_of-Tier :
    (agent_type : List ℕ)
    → Tier
        (upper agent_type)
        (limits_of agent_type).max_op
        (limits_of agent_type).agg_limit
        (limits_of agent_type).allowed_ops
unfolding limits_of
limits_of-Tier agent_type = elim (Bool-cases (text_eq (upper agent_type) support_type)) [
  | inl yes_support ↦ rw yes_support (for_support (text_eq-eq _ _ yes_support))
  | inr no_support ↦ rw no_support (elim (Bool-cases (text_eq (upper agent_type) shopping_type)) [
    | inl yes_shopping ↦ rw yes_shopping (for_shopping (text_eq-eq _ _ yes_shopping))
    | inr no_shopping ↦
        rw no_shopping (for_others (differs _ _ no_support) (differs _ _ no_shopping))
  ])
]

module _ (e : Environment) (chat : Chat) (db : Db) where
  abbrev new_mandate : Agent → Mandate
  new_mandate agent =
      reissued chat agent (previous_mandate agent.id db) (limits_of agent.agent_type)

  -- An agent without an active mandate, for example after a revocation or as an agent that is
  -- suspended, has a new active one for itself after a chat without any credentials in which the
  -- model proposes nothing: it is committed in front of the others, granted in the name of the
  -- owner and by no other mandate, unspent, valid for thirty days and as deep as the agent's latest
  -- mandate, and its limits and operations are the fixed ones of the agent's type.
  pub chat_reissues :
      (headers : Headers) (agent : Agent)
      → has_credential headers ≡ false
      → find agent.id db.agents ≡ some agent
      → active_mandate agent.id db ≡ none
      → chat.proposed ≡ ok []
      → (m : Mandate) × ((tables_after (chat_with_agent e chat db headers agent.id)).mandates
          ≡ m ∷ db.mandates)
        × IsStanding chat.now agent db.mandates m
  unfolding chat_with_agent agent_of execute_turn
  chat_reissues headers agent bare known idle silent = (
    new_mandate agent,
    rw (bare, known, idle, silent) refl,
    record {
      own = refl;
      granted = refl;
      root = refl;
      active = refl;
      currency = refl;
      tier = limits_of-Tier agent.agent_type;
      depth = depth_of-DeepAsLatest agent.id db.mandates _ (newest-IsLatest agent.id db.mandates);
      unreviewed = refl;
      unspent = (refl, refl);
      begins = refl;
      ends = refl;
    },
  )

  module _ (v : Consistent db)
      (unnamed : All (λ (o : FinancialOperation). o.mandate_id ≢ chat.new_mandate_id) db.operations)
      (unused : (tcs : List ToolCall) → chat.proposed ≡ ok tcs → Unused tcs db) where
    turn-Consistent :
        (agent : Agent) (mandate : Mandate) (p : Result (List ToolCall)) (current : Db)
        → chat.proposed ≡ p
        → Consistent current
        → current.operations ≡ db.operations
        → Consistent (
            tables_after (
              execute_turn chat.readings chat.gateway agent mandate p chat.reply
                (record { committed = db; current = current })))
    unfolding execute_turn
    turn-Consistent agent mandate (err x) current same w ops = v
    turn-Consistent agent mandate (ok tcs) current same w ops =
        execute_turn-Consistent chat.readings chat.gateway agent mandate tcs chat.reply
          (record { committed = db; current = current }) v w (rw ops (unused tcs same))

    chat_under-Consistent :
        (agent : Agent) (m : Option Mandate)
        → Consistent (tables_after (chat_under e chat db agent m))
    chat_under-Consistent agent (some m) = turn-Consistent agent m chat.proposed db refl v refl
    chat_under-Consistent agent none =
        turn-Consistent agent (new_mandate agent) chat.proposed (add_mandate (new_mandate agent) db)
          refl (add-IsConsistent db.mandates db.operations v (new_mandate agent) unnamed refl refl)
          refl

    -- A chat that draws fresh keys leaves consistent tables consistent, also where it raises.
    pub chat_with_agent-Consistent :
        (headers : Headers) (agent_id : ℕ)
        → Consistent (tables_after (chat_with_agent e chat db headers agent_id))
    unfolding chat_with_agent
    chat_with_agent-Consistent headers agent_id = of_caller (agent_of e chat db headers agent_id)
      where
        of_caller : (r : Result (Option Agent)) → Consistent (tables_after (chat_as e chat db r))
        of_caller (err x) = v
        of_caller (ok none) = v
        of_caller (ok (some agent)) = chat_under-Consistent agent (active_mandate agent.id db)
