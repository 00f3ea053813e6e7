-- ===== src/Api/Operations/Replay.antt =====
-- apps/api/routes/operations.py: a request with an idempotency key that was used before.
use mandate_razorpay_control.Prelude.{
  ℕ, ◌≡◌, refl, ap, sym, subst, ◌∙◌, Bool, Option, none, some, ◌∷◌, first_where, ◌==◌, arith,
}
use mandate_razorpay_control.Core.Models.{FinancialOperation, agent_key, mandate_key, operation_key}
use mandate_razorpay_control.Core.Database.{Db, Result, ok, err}
use mandate_razorpay_control.Core.Outcomes.{OnOk, bind-OnOk, raise_if-OnOk}
use mandate_razorpay_control.Api.Gateway.{RazorpayClient}
use mandate_razorpay_control.Api.Operations.{
  OperationCreate, Surroundings, replay_or, is_other_agent, request_financial_operation,
}
use mandate_razorpay_control.Api.Operations.Additions.{Adds, request_new-Adds}

replayed :
    (key : ℕ) (row : FinancialOperation) (db db' : Db)
    → db'.operations ≡ row ∷ db.operations
    → row.idempotency_key ≡ key
    → first_where (λ o. o.idempotency_key == key) db'.operations ≡ some row
unfolding first_where
replayed key row db db' e h = rw e (ground arith)

-- The answer to any request leaves the operation that it returns under the request's key.
abbrev Remembers : ℕ → Db × ℕ → Type 0
Remembers key (db', i) =
    (row : FinancialOperation) × (first_where (λ o. o.idempotency_key == key) db'.operations
      ≡ some row)
    × (row.id ≡ i)

abbrev same_key : ℕ → FinancialOperation → Bool
same_key key o = o.idempotency_key == key

remember_new :
    (s : Surroundings) (payload : OperationCreate) (db : Db) (r : Result (Db × ℕ))
    → OnOk (λ a. Adds s payload db a.0 × (a.1 ≡ s.row_id)) r
    → OnOk (Remembers payload.idempotency_key) r
remember_new s payload db (ok (db', i)) (h, e) =
    (h.row, replayed _ h.row db db' h.others h.replayable, h.keyed ∙ sym e)
remember_new s payload db (err e) h = tt

remember_any :
    (s : Surroundings) (payload : OperationCreate) (db : Db) (o : Option FinancialOperation)
    (r : Result (Db × ℕ))
    → first_where (same_key payload.idempotency_key) db.operations ≡ o
    → OnOk (Remembers payload.idempotency_key) r
    → OnOk (Remembers payload.idempotency_key) (replay_or o db r)
remember_any s payload db none r e h = h
remember_any s payload db (some o) r e h = (o, e, refl)

remember :
    (g : RazorpayClient) (s : Surroundings) (payload : OperationCreate) (db : Db)
    → OnOk (Remembers payload.idempotency_key) (request_financial_operation g s payload db)
unfolding request_financial_operation
remember g s payload db = bind-OnOk (Remembers payload.idempotency_key) s.active_agent _ λ caller _.
    raise_if-OnOk (Remembers payload.idempotency_key) (is_other_agent caller payload.agent_id) _ _
      λ _.
        remember_any s payload db _ _ refl
          (remember_new s payload db _ (request_new-Adds g s payload db))

found_again :
    (g : RazorpayClient) (s : Surroundings) (payload : OperationCreate) (db : Db) (i : ℕ)
    → s.active_agent ≡ ok none
    → Remembers payload.idempotency_key (db, i)
    → request_financial_operation g s payload db ≡ ok (db, i)
unfolding request_financial_operation
found_again g s payload db i open_call (row, found, same) =
    rw (open_call, request_financial_operation)
      (rw (found, request_financial_operation) (ap (λ x. ok (db, x)) same))

-- A request that has been answered is idempotent: a later one under the same key, whatever else it
-- asks for and whatever the gateway and the limiter say, returns the same operation and changes
-- nothing.
pub request_replay :
    (g g' : RazorpayClient) (s s' : Surroundings) (payload payload' : OperationCreate) (db db' : Db)
    (i : ℕ)
    → request_financial_operation g s payload db ≡ ok (db', i)
    → payload'.idempotency_key ≡ payload.idempotency_key
    → s'.active_agent ≡ ok none
    → request_financial_operation g' s' payload' db' ≡ ok (db', i)
request_replay g g' s s' payload payload' db db' i answered same open_call =
    found_again g' s' payload' db' i open_call (
      rw same (subst (OnOk (Remembers payload.idempotency_key)) answered (remember g s payload db)))
