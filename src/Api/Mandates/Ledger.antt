-- ===== src/Api/Mandates/Ledger.antt =====
-- apps/api/routes/mandates.py: the handlers of mandates keep the ledger consistent.
use mandate_razorpay_control.Prelude.{
  ℕ, zero, suc, ◌≡◌, ◌≢◌, refl, sym, ap, subst, inl, inr, Bool, not, Option, none, some, List, [],
  ◌∷◌, All, find, modify, sum_of, find-cons_cases, modify_missing, Option-cases, arith,
}
use mandate_razorpay_control.Prelude.Int.{pos, ◌+ℤ◌}
use mandate_razorpay_control.Core.Enums.{MandateStatus, is_active_mandate}
use mandate_razorpay_control.Core.Models.{
  Mandate, FinancialOperation, SuspensionReason, agent_key, mandate_key, operation_key,
}
use mandate_razorpay_control.Core.Database.{Db, Exception, Detail, ok, update_mandate}
use mandate_razorpay_control.Core.Outcomes.{OnOk, bind-OnOk, or_raise-OnOk, raise_if-OnOk}
use mandate_razorpay_control.Ledger.{held, IsConsistent, Consistent}
use mandate_razorpay_control.Ledger.Moves.{update_mandate-IsConsistent}
use mandate_razorpay_control.Shared.Auth.{Environment}
use mandate_razorpay_control.Api.Mandates.{
  MandateDelegateRequest, delegate_child_mandate, delegated, child_mandate, set_aside,
  with_mandate_status, cascade_row, cascade_found, cascade, cascade_mandate_status, cascade_from,
  suspend_mandate_cascade, revoke_mandate_cascade, reason_or, reactivate, is_blocked, parent_of,
  activate_mandate, validate_delegation_invariants,
}
use mandate_razorpay_control.Api.Mandates.Issue.{
  MandateCreate, create_mandate, root_mandate, resolve_agent, target_lookup,
}

-- A change of a row that leaves its key, its counters and its limit.
record Quiet (f : Mandate → Mandate) : Type 0 where
  key : (m : Mandate) → (f m).id ≡ m.id
  reserved : (m : Mandate) → (f m).reserved_spend ≡ m.reserved_spend
  spent : (m : Mandate) → (f m).current_aggregate_spend ≡ m.current_aggregate_spend
  limit : (m : Mandate) → (f m).aggregate_spend_limit ≡ m.aggregate_spend_limit

module _ (ms : List Mandate) (ops : List FinancialOperation) (v : IsConsistent ms ops) where
  Quiet-IsConsistent : (i : ℕ) (f : Mandate → Mandate) → Quiet f → IsConsistent (modify i f ms) ops
  Quiet-IsConsistent i f q = elim (Option-cases (find i ms)) [
    | inl missing ↦ rw (modify_missing i f ms missing) v
    | inr (m, found) ↦
        update_mandate-IsConsistent ms ops v i m f found q.key (q.reserved m)
          (rw (q.reserved m, q.spent m, q.limit m) (v.within i m found))
  ]

  -- A mandate is added with nothing spent, under an identifier that no operation names.
  nothing_held :
      (i : ℕ) (rows : List FinancialOperation)
      → All (λ o. o.mandate_id ≢ i) rows
      → sum_of (held i) rows ≡ 0
  unfolding sum_of held
  nothing_held i [] h = refl
  nothing_held i (o ∷ rows) h = ground (arith, h.0, nothing_held i rows h.1)

  pub add-IsConsistent :
      (m : Mandate)
      → All (λ o. o.mandate_id ≢ m.id) ops
      → m.reserved_spend ≡ pos 0
      → m.current_aggregate_spend ≡ pos 0
      → IsConsistent (m ∷ ms) ops
  unfolding ◌+ℤ◌
  add-IsConsistent m unnamed reserved spent = record {
    unique = v.unique;
    balanced = λ k x e. elim (find-cons_cases k m x ms e) [
      | inl (key, same) ↦ rw (same, reserved, ← key) (ap pos (sym (nothing_held m.id ops unnamed)))
      | inr (other, old) ↦ v.balanced k x old
    ];
    within = λ k x e. elim (find-cons_cases k m x ms e) [
      | inl (key, same) ↦ rw (same, reserved, spent) (omega arith)
      | inr (other, old) ↦ v.within k x old
    ];
  }

status-Quiet : (s : MandateStatus) (why : SuspensionReason) → Quiet (with_mandate_status s why)
status-Quiet s why = record {
  key = λ m. refl;
  reserved = λ m. refl;
  spent = λ m. refl;
  limit = λ m. refl;
}

reactivate-Quiet : Quiet reactivate
reactivate-Quiet = record {
  key = λ m. refl;
  reserved = λ m. refl;
  spent = λ m. refl;
  limit = λ m. refl;
}

set_aside-Quiet : (amount : ℕ) → Quiet (set_aside amount)
set_aside-Quiet amount = record {
  key = λ m. refl;
  reserved = λ m. refl;
  spent = λ m. refl;
  limit = λ m. refl;
}

module _ (target : MandateStatus) (why : SuspensionReason) where
  row-Consistent :
      (i : ℕ) (m : Option Mandate) (db : Db)
      → Consistent db
      → Consistent (cascade_found target why i m db)
  row-Consistent i none db v = v
  row-Consistent i (some m) db v =
      Quiet-IsConsistent db.mandates db.operations v i (with_mandate_status target why)
        (status-Quiet target why)

  cascade-Consistent :
      (fuel : ℕ) (visited queue : List ℕ) (db db' : Db)
      → Consistent db
      → cascade fuel target why visited queue db ≡ some db'
      → Consistent db'
  unfolding cascade
  cascade-Consistent zero visited [] db db' v e =
      let same : db ≡ db' = cc in subst Consistent same v
  cascade-Consistent (suc fuel) visited [] db db' v e =
      let same : db ≡ db' = cc in subst Consistent same v
  cascade-Consistent zero visited (i ∷ queue) db db' v e = absurd (cc)
  cascade-Consistent (suc fuel) visited (i ∷ queue) db db' v e =
      cascade-Consistent fuel (i ∷ visited) _ (cascade_row target why i db) db'
        (row-Consistent i (find i db.mandates) db v) e

  cascade_from-Consistent :
      (fuel mandate_id : ℕ) (db : Db)
      → Consistent db
      → OnOk Consistent (cascade_from fuel mandate_id target why db)
  unfolding cascade_from cascade_mandate_status
  cascade_from-Consistent fuel mandate_id db v =
      or_raise-OnOk Consistent (find mandate_id db.mandates) _ _ λ m found.
        elim (Option-cases (cascade fuel target why [] (m.id ∷ []) db)) [
          | inl stuck ↦ rw stuck tt
          | inr (db', done) ↦ rw done (cascade-Consistent fuel [] (m.id ∷ []) db db' v done)
        ]

module _ (db : Db) (v : Consistent db) where
  pub suspend-Consistent :
      (fuel mandate_id : ℕ) (reason : Option ℕ)
      → OnOk Consistent (suspend_mandate_cascade fuel mandate_id reason db)
  unfolding suspend_mandate_cascade
  suspend-Consistent fuel mandate_id reason =
      cascade_from-Consistent MandateStatus.suspended
        (reason_or reason SuspensionReason.parent_suspended) fuel mandate_id db v

  pub revoke-Consistent :
      (fuel mandate_id : ℕ) (reason : Option ℕ)
      → OnOk Consistent (revoke_mandate_cascade fuel mandate_id reason db)
  unfolding revoke_mandate_cascade
  revoke-Consistent fuel mandate_id reason =
      cascade_from-Consistent MandateStatus.revoked
        (reason_or reason SuspensionReason.parent_revoked) fuel mandate_id db v

  pub activate-Consistent : (mandate_id : ℕ) → OnOk Consistent (activate_mandate mandate_id db)
  unfolding activate_mandate
  activate-Consistent mandate_id =
      or_raise-OnOk Consistent (find mandate_id db.mandates) _ _ λ m found.
        raise_if-OnOk Consistent (is_blocked (parent_of m db.mandates))
          (Exception.bad_request Detail.parent_not_active) (ok (update_mandate m.id reactivate db))
          λ free. Quiet-IsConsistent db.mandates db.operations v m.id reactivate reactivate-Quiet

  -- A new mandate under an identifier that no operation names.
  module _ (new_id : ℕ)
      (unnamed : All (λ (o : FinancialOperation). o.mandate_id ≢ new_id) db.operations) where
    abbrev Issued : Db × Mandate → Type 0
    Issued x = Consistent x.0

    Issued-child :
        (now : ℕ) (parent : Mandate) (payload : MandateDelegateRequest) (currency : List ℕ)
        → Issued (
          delegated parent (child_mandate new_id now parent payload currency) db,
          child_mandate new_id now parent payload currency,
        )
    Issued-child now parent payload currency =
        add-IsConsistent _ db.operations
          (Quiet-IsConsistent db.mandates db.operations v parent.id
            (set_aside payload.aggregate_spend_limit)
            (set_aside-Quiet payload.aggregate_spend_limit))
          (child_mandate new_id now parent payload currency) unnamed refl refl

    pub delegate-Consistent :
        (now parent_id : ℕ) (payload : MandateDelegateRequest)
        → OnOk (λ x. Consistent x.0) (delegate_child_mandate new_id now parent_id payload db)
    unfolding delegate_child_mandate
    delegate-Consistent now parent_id payload =
        or_raise-OnOk Issued (find parent_id db.mandates) _ _ λ parent found.
          raise_if-OnOk Issued (not (is_active_mandate parent.status)) _ _ λ alive.
            or_raise-OnOk Issued (find payload.target_agent_id db.agents) _ _ λ agent there.
              bind-OnOk Issued (validate_delegation_invariants parent payload)
                (λ currency. ok (
                  delegated parent (child_mandate new_id now parent payload currency) db,
                  child_mandate new_id now parent payload currency,
                ))
                λ currency valid. Issued-child now parent payload currency

    pub create-Consistent :
        (e : Environment) (ilike : List ℕ → List ℕ → Bool) (now : ℕ) (payload : MandateCreate)
        → OnOk (λ x. Consistent x.0) (create_mandate e ilike new_id now payload db)
    unfolding create_mandate
    create-Consistent e ilike now payload =
        bind-OnOk Issued (resolve_agent e ilike (target_lookup payload.agent_id) db) _
          λ found searched.
            or_raise-OnOk Issued found (Exception.not_found Detail.agent_not_found) _ λ agent there.
              add-IsConsistent db.mandates db.operations v (root_mandate new_id now agent payload)
                unnamed refl refl
