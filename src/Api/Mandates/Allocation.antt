-- ===== src/Api/Mandates/Allocation.antt =====
-- apps/api/routes/mandates.py: what a mandate has given to its children.
use mandate_razorpay_control.Prelude.{
  ℕ, ◌+◌, ◌≡◌, ◌≢◌, refl, subst, sym, ◌∙◌, ap, inl, inr, not, none, some, List, ◌∷◌, find, modify,
  sum_of, find-modify_cases, find-cons_cases, find-cons_none, find-unmodify, sum_of-modify,
  find_key, arith, if◌then◌else◌,
}
use mandate_razorpay_control.Core.Enums.{is_active_mandate}
use mandate_razorpay_control.Core.Models.{Mandate, mandate_key, agent_key}
use mandate_razorpay_control.Core.Database.{Db, ok}
use mandate_razorpay_control.Core.Outcomes.{OnOk, bind-OnOk, or_raise-OnOk, raise_if-OnOk}
use mandate_razorpay_control.Api.Mandates.{
  MandateDelegateRequest, validate_delegation_invariants, child_mandate, delegated, set_aside,
  is_child_of, delegate_child_mandate,
}

-- The part of the mandate `k` that a row takes.
unfoldable pub share : ℕ → Mandate → ℕ
share k m = if is_child_of k m then m.aggregate_spend_limit else 0

-- Every mandate's allocated budget is the sum of its children's limits, and nothing is allocated
-- from a mandate that is not there.
pub record IsAllocated (ms : List Mandate) : Type 0 where
  pub allocated :
      (k : ℕ) (m : Mandate)
      → find k ms ≡ some m
      → m.delegated_child_budget_allocated ≡ sum_of (share k) ms
  pub rooted : (k : ℕ) → find k ms ≡ none → sum_of (share k) ms ≡ 0

module _ (ms : List Mandate) (v : IsAllocated ms) (p : ℕ) (parent : Mandate) (a : ℕ)
    (found : find p ms ≡ some parent) where
  share-set_aside : (k : ℕ) → sum_of (share k) (modify p (set_aside a) ms) ≡ sum_of (share k) ms
  unfolding share
  share-set_aside k = omega (arith, sum_of-modify (share k) p (set_aside a) parent ms found)

  module _ (child : Mandate) (named : child.parent_mandate_id ≡ some p)
      (limit : child.aggregate_spend_limit ≡ a) (empty : child.delegated_child_budget_allocated ≡ 0)
      (fresh : find child.id ms ≡ none) where
    share_parent : share p child ≡ a
    unfolding share
    share_parent = ground (arith, named)

    share_other : (k : ℕ) → p ≢ k → share k child ≡ 0
    unfolding share
    share_other k ne = ground (arith, named)

    other : p ≢ child.id
    other = λ same. cc

    added :
        (k : ℕ)
        → sum_of (share k) (child ∷ modify p (set_aside a) ms) ≡ share k child + sum_of (share k) ms
    unfolding sum_of
    added k = ap (λ n. share k child + n) (share-set_aside k)

    old_row :
        (k : ℕ) (m : Mandate)
        → find k (modify p (set_aside a) ms) ≡ some m
        → m.delegated_child_budget_allocated ≡ sum_of (share k) (child ∷ modify p (set_aside a) ms)
    old_row k m e = elim (find-modify_cases p k (set_aside a) parent m ms (λ x. refl) found e) [
      | inl (same, changed) ↦
          ground (arith, added k, changed, share_parent, same, v.allocated p parent found)
      | inr (differs, older) ↦ ground (arith, added k, share_other k differs, v.allocated k m older)
    ]

    new_root :
        (k : ℕ)
        → find k (modify p (set_aside a) ms) ≡ none
        → sum_of (share k) (child ∷ modify p (set_aside a) ms) ≡ 0
    new_root k e =
        let missing : find k ms ≡ none = find-unmodify p k (set_aside a) ms (λ x. refl) e in
        ground (arith, added k, v.rooted k missing, share_other k (λ same. cc))

    delegated-IsAllocated : IsAllocated (child ∷ modify p (set_aside a) ms)
    delegated-IsAllocated = record {
      allocated = λ k m e. elim (find-cons_cases k child m (modify p (set_aside a) ms) e) [
        | inl (same, is_child) ↦ ground (
          arith,
          added k,
          is_child,
          empty,
          share_other k (λ h. other (h ∙ sym same)),
          v.rooted k (subst (λ i. find i ms ≡ none) same fresh),
        )
        | inr (differs, older) ↦ old_row k m older
      ];
      rooted = λ k e. new_root k (find-cons_none k child (modify p (set_aside a) ms) e).1;
    }

-- A delegation under a fresh key that does not raise keeps the allocation exact: every mandate's
-- allocated budget is still the sum of the limits of its children.
pub delegate_child_mandate-IsAllocated :
    (child_id now parent_id : ℕ) (payload : MandateDelegateRequest) (db : Db)
    → IsAllocated db.mandates
    → find child_id db.mandates ≡ none
    → OnOk
        (λ x. IsAllocated x.0.mandates)
        (delegate_child_mandate child_id now parent_id payload db)
unfolding delegate_child_mandate
delegate_child_mandate-IsAllocated child_id now parent_id payload db v fresh =
    or_raise-OnOk P (find parent_id db.mandates) _ _ λ parent found.
      raise_if-OnOk P (not (is_active_mandate parent.status)) _ _ λ alive.
        or_raise-OnOk P (find payload.target_agent_id db.agents) _ _ λ agent e.
          bind-OnOk P (validate_delegation_invariants parent payload) (λ c. ok (answer parent c))
            λ c passed.
              delegated-IsAllocated db.mandates v parent.id parent payload.aggregate_spend_limit
                (own_key parent found) (child_mandate child_id now parent payload c) refl refl refl
                fresh
  where
    P : Db × Mandate → Type 0
    P x = IsAllocated x.0.mandates

    answer : Mandate → List ℕ → Db × Mandate
    answer parent c =
        let child = child_mandate child_id now parent payload c in
        (delegated parent child db, child)

    own_key :
        (parent : Mandate)
        → find parent_id db.mandates ≡ some parent
        → find parent.id db.mandates ≡ some parent
    own_key parent found =
        subst (λ j. find j db.mandates ≡ some parent)
          (sym (find_key parent_id parent db.mandates found)) found
