-- ===== src/Agents/Authority.antt =====
-- packages/agents/runner.py: the authority of a turn, and the ledger.
use mandate_razorpay_control.Prelude.{
  ℕ, ◌≡◌, ◌≢◌, refl, sym, ap, ◌∙◌, inl, inr, subst, none, List, [], ◌∷◌, ◌++◌, All, Keyed,
  UniqueKeys, find, find-cons_none, ==-eq, ◌==◌, Bool-cases,
}
use mandate_razorpay_control.Core.Models.{Agent, Mandate, FinancialOperation, operation_key}
use mandate_razorpay_control.Core.Database.{Db, Result, ok, err}
use mandate_razorpay_control.Core.Outcomes.{OnOk, implied-OnOk}
use mandate_razorpay_control.Ledger.{Consistent}
use mandate_razorpay_control.Api.Gateway.{RazorpayClient}
use mandate_razorpay_control.Api.Operations.{
  OperationCreate, Surroundings, request_financial_operation,
}
use mandate_razorpay_control.Api.Operations.Pipeline.{request-Keeps}
use mandate_razorpay_control.Api.Operations.Callers.{with_caller, Leaves, request-Leaves}
use mandate_razorpay_control.Agents.Runner.{execute_turn, tables_after}
use mandate_razorpay_control.Agents.Dispatch.{Readings, ToolCall, Session, request_of}
use mandate_razorpay_control.Agents.Acts.{execute_turn-R}

-- The operations of the agent under the mandate.
abbrev pub Own : Agent → Mandate → FinancialOperation → Type 0
Own agent mandate o = (o.agent_id ≡ agent.id) × (o.mandate_id ≡ mandate.id)

-- The operations from before, as they were, with the agent's own ones in front.
abbrev pub Grown : Agent → Mandate → Db → Db → Type 0
Grown agent mandate start db =
    (added : List FinancialOperation) × (db.operations ≡ added ++ start.operations)
    × All (Own agent mandate) added

module _ (r : Readings) (g : RazorpayClient) (agent : Agent) (mandate : Mandate) (start : Db) where
  Grown-Leaves :
      (s : Surroundings) (payload : OperationCreate) (db : Db) (x : Db × ℕ)
      → payload.agent_id ≡ agent.id
      → payload.mandate_id ≡ mandate.id
      → Grown agent mandate start db
      → Leaves s payload db x
      → Grown agent mandate start x.0
  Grown-Leaves s payload db x a m h (inl same) = subst (Grown agent mandate start) (sym same) h
  Grown-Leaves s payload db x a m (added, e, own) (inr (adds, keyed)) = (
    adds.row ∷ added,
    adds.others ∙ ap (λ ops. adds.row ∷ ops) e,
    ((adds.same_agent ∙ a, adds.same_mandate ∙ m), own),
  )

  -- Whatever calls the model proposes, with whatever arguments, a turn keeps the operations that
  -- were there as they were, and each one that it adds is for the agent and under the mandate of
  -- the turn; so it is if the turn raises.
  pub execute_turn-Authorized :
      (proposed : List ToolCall) (reply : Result (Unit {0}))
      → Grown agent mandate start (
          tables_after (
            execute_turn r g agent mandate
              (ok proposed)
              reply
              (record { committed = start; current = start })))
  execute_turn-Authorized proposed reply =
      execute_turn-R r g agent mandate (λ tcs db. Grown agent mandate start db)
        (Grown agent mandate start) (λ tcs db h. h) (λ tc tcs db h. h) (λ t tcs db h. h)
        (λ tc tcs kind amount payment_id db h.
          let payload = request_of r g agent mandate tc kind amount payment_id in
          let s = with_caller tc.surroundings (ok none) in
          implied-OnOk (λ x. Grown agent mandate start x.0)
            (λ x l. Grown-Leaves s payload db x refl refl h l)
            (request_financial_operation g s payload db) (request-Leaves g s payload db))
        proposed reply _ (([], refl, tt), ([], refl, tt))

instance abbrev pub call_key : Keyed ToolCall
call_key = record { key = λ tc. tc.surroundings.row_id }

-- The calls draw different keys, which no operation has.
abbrev pub Unused : List ToolCall → Db → Type 0
Unused tcs db = UniqueKeys tcs × All (λ tc. find tc.surroundings.row_id db.operations ≡ none) tcs

module _ (i : ℕ) (row : FinancialOperation) (ops : List FinancialOperation)
    (keyed : row.id ≡ i) where
  still_unused :
      (tcs : List ToolCall)
      → find i tcs ≡ none
      → All (λ (tc : ToolCall). find tc.surroundings.row_id ops ≡ none) tcs
      → All (λ (tc : ToolCall). find tc.surroundings.row_id (row ∷ ops) ≡ none) tcs
  unfolding find
  still_unused [] fresh h = tt
  still_unused (tc ∷ tcs) fresh h =
      let (differs, rest) = find-cons_none i tc tcs fresh in
      (
        missing tc.surroundings.row_id h.0 (λ same. differs (sym same ∙ keyed)),
        still_unused tcs rest h.1,
      )
    where
      missing : (j : ℕ) → find j ops ≡ none → row.id ≢ j → find j (row ∷ ops) ≡ none
      missing j e ne = elim (Bool-cases (row.id == j)) [
        | inl same ↦ absurd (ne (==-eq row.id j same))
        | inr other ↦ rw other e
      ]

Unused-Leaves :
    (tc : ToolCall) (tcs : List ToolCall) (s : Surroundings) (payload : OperationCreate) (db : Db)
    (x : Db × ℕ)
    → s.row_id ≡ tc.surroundings.row_id
    → Unused (tc ∷ tcs) db
    → Leaves s payload db x
    → Unused tcs x.0
Unused-Leaves tc tcs s payload db x same h (inl left) = subst (Unused tcs) (sym left) (h.0.1, h.1.1)
Unused-Leaves tc tcs s payload db x same h (inr (adds, keyed)) = (
  h.0.1,
  subst (λ ops. All (λ (c : ToolCall). find c.surroundings.row_id ops ≡ none) tcs) (sym adds.others)
      (still_unused tc.surroundings.row_id adds.row db.operations (adds.keyed ∙ same) tcs h.0.0
        h.1.1),
)

both-OnOk :
    (P Q : Db × ℕ → Type 0) (x : Result (Db × ℕ)) → OnOk P x → OnOk Q x → OnOk (λ y. P y × Q y) x
both-OnOk P Q (ok y) p q = (p, q)
both-OnOk P Q (err e) p q = tt

-- A turn on consistent tables leaves them consistent.
pub execute_turn-Consistent :
    (r : Readings) (g : RazorpayClient) (agent : Agent) (mandate : Mandate)
    (proposed : List ToolCall) (reply : Result (Unit {0})) (s : Session)
    → Consistent s.committed
    → Consistent s.current
    → Unused proposed s.current
    → Consistent (tables_after (execute_turn r g agent mandate (ok proposed) reply s))
execute_turn-Consistent r g agent mandate proposed reply s v w unused =
    execute_turn-R r g agent mandate (λ tcs db. Consistent db × Unused tcs db) Consistent
      (λ tcs db h. h.0) (λ tc tcs db h. (h.0, (h.1.0.1, h.1.1.1))) (λ t tcs db h. h)
      (λ tc tcs kind amount payment_id db h.
        let payload = request_of r g agent mandate tc kind amount payment_id in
        let s = with_caller tc.surroundings (ok none) in
        both-OnOk (λ x. Consistent x.0) (λ x. Unused tcs x.0)
          (request_financial_operation g s payload db) (request-Keeps g s payload db h.0 h.1.1.0)
          (implied-OnOk (λ x. Unused tcs x.0)
            (λ x l. Unused-Leaves tc tcs s payload db x refl h.1 l)
            (request_financial_operation g s payload db) (request-Leaves g s payload db)))
      proposed reply s (v, (w, unused))
