-- ===== src/Api/Operations/Callers.antt =====
-- apps/api/routes/operations.py with packages/shared/auth.py: a request with its headers.
use mandate_razorpay_control.Prelude.{
  ℕ, ◌≡◌, ◌≢◌, refl, sym, ◌∙◌, ◌∷◌, ◌⊎◌, inl, inr, Bool, true, false, Option, none, some, List,
  first_where, UniqueKeys, Option-cases, Bool-cases, ◌==◌, ==-eq, if◌then◌else◌, arith,
}
use mandate_razorpay_control.Core.Models.{Agent, FinancialOperation, agent_key, operation_key}
use mandate_razorpay_control.Core.Database.{Db, Result, ok, err}
use mandate_razorpay_control.Core.Outcomes.{
  OnOk, OnOk-answer, implied-OnOk, bind-OnOk, raise_if-OnOk,
}
use mandate_razorpay_control.Shared.Auth.{
  Environment, Headers, present, bearer_token, active_key, by_key, authenticate_by,
  authenticate_agent_caller,
}
use mandate_razorpay_control.Shared.Auth.Authentic.{IsAuthentic, authenticate-IsAuthentic}
use mandate_razorpay_control.Api.Gateway.{RazorpayClient}
use mandate_razorpay_control.Api.Operations.{
  OperationCreate, Surroundings, is_other_agent, replay_or, request_new,
  request_financial_operation,
}
use mandate_razorpay_control.Api.Operations.Additions.{Adds, request_new-Adds}

-- `x_agent_id or payload.agent_id`
abbrev pub asked_agent : Option ℕ → ℕ → ℕ
asked_agent (some i) agent_id = i
asked_agent none agent_id = agent_id

abbrev pub for_agent : Headers → ℕ → Headers
for_agent headers agent_id = record headers {
  x_agent_id = some (asked_agent headers.x_agent_id agent_id);
}

-- `x_agent_key or authorization`
abbrev pub has_credential : Headers → Bool
has_credential headers = elim (present headers.x_agent_key) [
  | some key ↦ true
  | none ↦ elim (present headers.authorization) [ some auth ↦ true | none ↦ false ]
]

unfoldable pub caller_of : Environment → Headers → ℕ → Db → Result (Option Agent)
unfolding present authenticate_agent_caller
caller_of e headers agent_id db =
    if has_credential headers
    then authenticate_agent_caller e (for_agent headers agent_id) false db
    else ok none

abbrev pub with_caller : Surroundings → Result (Option Agent) → Surroundings
with_caller s caller = record s { active_agent = caller }

-- The whole handler, with the authentication of the headers.
unfoldable pub request_as :
    Environment → Headers → RazorpayClient → Surroundings → OperationCreate → Db → Result (Db × ℕ)
unfolding caller_of
request_as e headers g s payload db =
    request_financial_operation g (with_caller s (caller_of e headers payload.agent_id db)) payload
      db

-- What a request leaves: the tables as they were, or one operation more.
abbrev pub Leaves : Surroundings → OperationCreate → Db → Db × ℕ → Type 0
Leaves s payload db (db', i) = (db' ≡ db) ⊎ (Adds s payload db db' × (i ≡ s.row_id))

module _ (g : RazorpayClient) (s : Surroundings) (payload : OperationCreate) (db : Db) where
  new-Leaves :
      (r : Result (Db × ℕ))
      → OnOk (λ a. Adds s payload db a.0 × (a.1 ≡ s.row_id)) r
      → OnOk (Leaves s payload db) r
  new-Leaves (ok a) h = inr h
  new-Leaves (err x) h = tt

  pub request-Leaves : OnOk (Leaves s payload db) (request_financial_operation g s payload db)
  unfolding request_financial_operation
  request-Leaves = bind-OnOk (Leaves s payload db) s.active_agent _ λ caller _.
      raise_if-OnOk (Leaves s payload db) (is_other_agent caller payload.agent_id) _ _ λ _.
        elim (Option-cases
          (first_where (λ o. o.idempotency_key == payload.idempotency_key) db.operations)) [
            | inl unused ↦ rw unused (new-Leaves _ (request_new-Adds g s payload db))
            | inr (o, used) ↦ rw used (inl refl)
          ]

abbrev by_idempotency_key : OperationCreate → Db → Option FinancialOperation
by_idempotency_key payload db =
    first_where (λ o. o.idempotency_key == payload.idempotency_key) db.operations

-- The answer is the one operation that the request added, and it is the agent's.
pub record Fresh (a : Agent) (payload : OperationCreate) (db : Db) (x : Db × ℕ) : Type 0 where
  pub unused : by_idempotency_key payload db ≡ none
  pub row : FinancialOperation
  pub answered_with : x.1 ≡ row.id
  pub added : x.0.operations ≡ row ∷ db.operations
  pub own : row.agent_id ≡ a.id
  pub under_mandate : row.mandate_id ≡ payload.mandate_id

-- The answer is an operation from before.
pub record Replayed (payload : OperationCreate) (db : Db) (x : Db × ℕ) : Type 0 where
  pub earlier : FinancialOperation
  pub used : by_idempotency_key payload db ≡ some earlier
  pub answered_with : x.1 ≡ earlier.id
  pub unchanged : x.0 ≡ db

abbrev Answered : Surroundings → OperationCreate → Db → Db × ℕ → Type 0
Answered s payload db x =
    ((by_idempotency_key payload db ≡ none) × Adds s payload db x.0 × (x.1 ≡ s.row_id))
    ⊎ Replayed payload db x

module _ (g : RazorpayClient) (s : Surroundings) (payload : OperationCreate) (db : Db) where
  replay_or-Answered :
      (o : Option FinancialOperation)
      → by_idempotency_key payload db ≡ o
      → OnOk (Answered s payload db) (replay_or o db (request_new g s payload db))
  replay_or-Answered none e =
      implied-OnOk (Answered s payload db) (λ x h. inl (e, h.0, h.1)) (request_new g s payload db)
        (request_new-Adds g s payload db)
  replay_or-Answered (some o) e =
      inr (record { earlier = o; used = e; answered_with = refl; unchanged = refl })

  request-Answered : OnOk (Answered s payload db) (request_financial_operation g s payload db)
  unfolding request_financial_operation
  request-Answered = bind-OnOk (Answered s payload db) s.active_agent _ λ caller _.
      raise_if-OnOk (Answered s payload db) (is_other_agent caller payload.agent_id) _ _
        λ _. replay_or-Answered (by_idempotency_key payload db) refl

keyed-has_credential :
    (headers : Headers) (key : List ℕ)
    → active_key headers ≡ some key
    → has_credential headers ≡ true
unfolding active_key bearer_token present
keyed-has_credential headers key h = elim (Option-cases (present headers.x_agent_key)) [
  | inl e ↦ elim (Option-cases (present headers.authorization)) [
    | inl f ↦ absurd (ground (arith, e, f, h))
    | inr (auth, f) ↦ ground (arith, e, f)
  ]
  | inr (k, e) ↦ ground (arith, e)
]

by_key_finds :
    (e : Environment) (key : List ℕ) (i : Option ℕ) (db : Db) → by_key e key i db ≢ ok none
unfolding by_key
by_key_finds e key i db h = ground arith

keyed_finds :
    (e : Environment) (headers : Headers) (key : List ℕ) (required : Bool) (db : Db)
    → active_key headers ≡ some key
    → authenticate_agent_caller e headers required db ≢ ok none
unfolding authenticate_agent_caller authenticate_by
keyed_finds e headers key required db given h =
    by_key_finds e key headers.x_agent_id db (ground (arith, given, h))

module _ (e : Environment) (headers : Headers) (g : RazorpayClient) (s : Surroundings)
    (payload : OperationCreate) (db : Db) (key : List ℕ) (x : Db × ℕ)
    (unique : UniqueKeys db.agents) (given : active_key headers ≡ some key)
    (answered : request_as e headers g s payload db ≡ ok x) where
  -- What the authentication of a request with a key may have given.
  acts_by :
      (r : Result (Option Agent))
      → authenticate_agent_caller e (for_agent headers payload.agent_id) false db ≡ r
      → request_financial_operation g (with_caller s r) payload db ≡ ok x
      → (a : Agent) × IsAuthentic e (for_agent headers payload.agent_id) db a
        × (a.id ≡ payload.agent_id)
  unfolding request_financial_operation active_key
  acts_by (err failed) found h = absurd (cc)
  acts_by (ok none) found h =
      absurd (keyed_finds e (for_agent headers payload.agent_id) key false db given found)
  acts_by (ok (some a)) found h = (
    a,
    authenticate-IsAuthentic e (for_agent headers payload.agent_id) false db a unique found,
    elim (Bool-cases (a.id == payload.agent_id)) [
      | inl same ↦ ==-eq a.id payload.agent_id same
      | inr other ↦ absurd (ground (arith, other, h))
    ],
  )

  acting :
      (a : Agent) × IsAuthentic e (for_agent headers payload.agent_id) db a
      × (a.id ≡ payload.agent_id)
  unfolding request_as caller_of
  acting =
      acts_by (authenticate_agent_caller e (for_agent headers payload.agent_id) false db) refl
        (rw (keyed-has_credential headers key given) at answered)

  -- On a table in which no two agents share an identifier, a request with a key that is answered
  -- comes from an active agent that the key authenticates. The answer is an operation of that agent,
  -- added to the others under the mandate of the request, if the idempotency key was not used before;
  -- else it is the operation that stands under that key, whoever it belongs to, and nothing changes.
  pub request_as-acts :
      (a : Agent) × IsAuthentic e (for_agent headers payload.agent_id) db a
      × (Fresh a payload db x ⊎ Replayed payload db x)
  unfolding request_as
  request_as-acts =
      let (a, authentic, same) = acting in
      let s' = with_caller s (caller_of e headers payload.agent_id db) in
      (
        a,
        authentic,
        answer_for a same s'
            (OnOk-answer (Answered s' payload db) x _ (request-Answered g s' payload db) answered),
      )
    where
      answer_for :
          (a : Agent)
          → a.id ≡ payload.agent_id
          → (s' : Surroundings) → Answered s' payload db x
          → Fresh a payload db x ⊎ Replayed payload db x
      answer_for a same s' (inl h) = inl (record {
        unused = h.0;
        row = h.1.row;
        answered_with = h.2 ∙ sym h.1.keyed;
        added = h.1.others;
        own = h.1.same_agent ∙ sym same;
        under_mandate = h.1.same_mandate;
      })
      answer_for a same s' (inr h) = inr h
