-- ===== src/Api/Mandates/Escalation.antt =====
-- apps/api/routes/mandates.py: a delegated mandate gives no more than its parent has.
use Prim.Native.String.{String}
use mandate_razorpay_control.Prelude.{
  ℕ, suc, ◌≡◌, ◌≤◌, ◌<◌, refl, ◌∙◌, subst, Bool, true, false, not, ◌||◌, some, List, [], ◌∷◌, find,
  arith, leb, ltb,
}
use mandate_razorpay_control.Prelude.Int.{ℤ, pos, ◌+ℤ◌, ◌-ℤ◌, ◌≤ℤ◌, ltb_ℤ, clamp}
use mandate_razorpay_control.Prelude.Text.{upper, text_eq, text_eq-eq, elem, is_empty, elem-all_in}
use mandate_razorpay_control.Core.Enums.{MandateStatus, is_active_mandate}
use mandate_razorpay_control.Core.Models.{Mandate, mandate_key, agent_key}
use mandate_razorpay_control.Core.Database.{Db, ok}
use mandate_razorpay_control.Core.Outcomes.{OnOk, bind-OnOk, or_raise-OnOk, raise_if-OnOk}
use mandate_razorpay_control.Api.Mandates.{
  MandateDelegateRequest, child_currency_of, available, escalates_operations, names_or,
  validate_delegation_invariants, child_mandate, delegated, delegate_child_mandate,
}

-- The operations that a list allows: an empty list allows every one.
abbrev permits : List String → String → Bool
permits names name = is_empty names || elem name names

-- What a child may at most do, as its parent stands when it is delegated.
pub record IsBounded (parent child : Mandate) : Type 0 where
  pub parent_named : child.parent_mandate_id ≡ some parent.id
  pub deeper : child.delegation_depth ≡ suc parent.delegation_depth
  pub within_depth : child.delegation_depth ≤ parent.max_delegation_depth
  pub same_currency : child.currency ≡ upper parent.currency
  pub amount_bound : child.max_amount_per_op ≤ parent.max_amount_per_op
  pub operations_bound :
      (name : String)
      → permits child.allowed_operations name ≡ true
      → permits parent.allowed_operations name ≡ true
  pub validity_bound : child.valid_until ≤ parent.valid_until
  pub budget_bound :
      parent.current_aggregate_spend
        +ℤ parent.reserved_spend
        +ℤ pos parent.delegated_child_budget_allocated
        +ℤ pos child.aggregate_spend_limit
      ≤ℤ pos parent.aggregate_spend_limit

-- The checks, as they stand behind each other.
record Passes (parent : Mandate) (payload : MandateDelegateRequest) : Type 0 where
  depth : leb parent.max_delegation_depth parent.delegation_depth ≡ false
  currency_kept :
      not (text_eq (child_currency_of payload.currency parent.currency) (upper parent.currency))
      ≡ false
  amount : ltb parent.max_amount_per_op payload.max_amount_per_op ≡ false
  operations : escalates_operations parent.allowed_operations payload.allowed_operations ≡ false
  validity : ltb parent.valid_until payload.valid_until ≡ false
  budget : ltb_ℤ (available parent) (pos payload.aggregate_spend_limit) ≡ false

room : (x : ℤ) (l a : ℕ) → 0 < a → ltb_ℤ (clamp (pos l -ℤ x)) (pos a) ≡ false → x +ℤ pos a ≤ℤ pos l
unfolding ◌+ℤ◌ ◌-ℤ◌
room x l a positive h = ground arith

listed : (b : Bool) → not b ≡ false → b ≡ true
listed b h = ground arith

module _ (parent : Mandate) (payload : MandateDelegateRequest) where
  validate-Passes :
      OnOk
        (λ c. Passes parent payload × (c ≡ child_currency_of payload.currency parent.currency))
        (validate_delegation_invariants parent payload)
  unfolding validate_delegation_invariants
  validate-Passes = raise_if-OnOk P _ _ _ λ depth. raise_if-OnOk P _ _ _ λ currency_kept.
      raise_if-OnOk P _ _ _ λ amount. raise_if-OnOk P _ _ _ λ operations.
        raise_if-OnOk P _ _ _ λ validity.
          raise_if-OnOk P _ _ (ok (child_currency_of payload.currency parent.currency)) λ budget. (
            record {
              depth = depth;
              currency_kept = currency_kept;
              amount = amount;
              operations = operations;
              validity = validity;
              budget = budget;
            },
            refl,
          )
    where
      P : List ℕ → Type 0
      P c = Passes parent payload × (c ≡ child_currency_of payload.currency parent.currency)

  available_bound :
      0 < payload.aggregate_spend_limit
      → ltb_ℤ (available parent) (pos payload.aggregate_spend_limit) ≡ false
      → parent.current_aggregate_spend
          +ℤ parent.reserved_spend
          +ℤ pos parent.delegated_child_budget_allocated
          +ℤ pos payload.aggregate_spend_limit
        ≤ℤ pos parent.aggregate_spend_limit
  available_bound positive h = room _ parent.aggregate_spend_limit _ positive h

  operations_bounded :
      (ps cs : List String)
      → escalates_operations ps cs ≡ false
      → (name : String) → permits (names_or cs ps) name ≡ true
      → permits ps name ≡ true
  operations_bounded ps [] h name p = p
  operations_bounded [] (c ∷ cs) h name p = refl
  operations_bounded (q ∷ ps) (c ∷ cs) h name p = elem-all_in name (c ∷ cs) (q ∷ ps) (listed _ h) p

  child-IsBounded :
      (child_id now : ℕ) (c : List ℕ)
      → 0 < payload.aggregate_spend_limit
      → Passes parent payload
      → c ≡ child_currency_of payload.currency parent.currency
      → IsBounded parent (child_mandate child_id now parent payload c)
  child-IsBounded child_id now c positive p e = record {
    parent_named = refl;
    deeper = omega arith;
    within_depth = ground (arith, p.depth);
    same_currency = e ∙ text_eq-eq _ _ (listed _ p.currency_kept);
    amount_bound = ground (arith, p.amount);
    operations_bound =
        operations_bounded parent.allowed_operations payload.allowed_operations p.operations;
    validity_bound = ground (arith, p.validity);
    budget_bound = available_bound positive p.budget;
  }

status_active : (s : MandateStatus) → is_active_mandate s ≡ true → s ≡ MandateStatus.active
status_active s h = ground arith

-- A delegation that does not raise (its limit is positive, as the schema of the request asks) is of
-- an active parent that is there, and the child it gives may do no more than the parent: it is one
-- level deeper and within the parent's depth, has the parent's currency, no higher amount per
-- operation, only operations that the parent allows, no later end, and a limit that fits in what the
-- parent has not spent, reserved or given to other children.
pub delegate_child_mandate-IsBounded :
    (child_id now parent_id : ℕ) (payload : MandateDelegateRequest) (db : Db)
    → 0 < payload.aggregate_spend_limit
    → OnOk
        (λ x.
          (parent : Mandate) × (find parent_id db.mandates ≡ some parent)
          × (parent.status ≡ MandateStatus.active)
          × IsBounded parent x.1)
        (delegate_child_mandate child_id now parent_id payload db)
unfolding delegate_child_mandate
delegate_child_mandate-IsBounded child_id now parent_id payload db positive =
    or_raise-OnOk P (find parent_id db.mandates) _ _ λ parent found.
      raise_if-OnOk P (not (is_active_mandate parent.status)) _ _ λ alive.
        or_raise-OnOk P (find payload.target_agent_id db.agents) _ _ λ agent e.
          bind-OnOk P (validate_delegation_invariants parent payload) (λ c. ok (answer parent c))
            λ c passed.
              let (p, same) = subst (OnOk (Q parent)) passed (validate-Passes parent payload) in
              (
                parent,
                found,
                status_active parent.status (listed _ alive),
                child-IsBounded parent payload child_id now c positive p same,
              )
  where
    P : Db × Mandate → Type 0
    P x =
        (parent : Mandate) × (find parent_id db.mandates ≡ some parent)
        × (parent.status ≡ MandateStatus.active)
        × IsBounded parent x.1

    Q : Mandate → List ℕ → Type 0
    Q parent c = Passes parent payload × (c ≡ child_currency_of payload.currency parent.currency)

    answer : Mandate → List ℕ → Db × Mandate
    answer parent c =
        let child = child_mandate child_id now parent payload c in
        (delegated parent child db, child)
