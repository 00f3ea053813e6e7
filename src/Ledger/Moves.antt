-- ===== src/Ledger/Moves.antt =====
-- The changes of the tables that keep the ledger consistent: every handler is made of these.
use mandate_razorpay_control.Prelude.{
  ℕ, ◌+◌, ◌≡◌, ◌≢◌, inl, inr, none, some, List, ◌∷◌, find, modify, sum_of, find-modify_cases,
  sum_of-modify, modify-UniqueKeys, arith,
}
use mandate_razorpay_control.Prelude.Int.{pos, ◌+ℤ◌, ◌≤ℤ◌, counter_follows}
use mandate_razorpay_control.Core.Models.{Mandate, FinancialOperation, mandate_key, operation_key}
use mandate_razorpay_control.Ledger.{weight, held, IsConsistent}

module _ (ms : List Mandate) (ops : List FinancialOperation) (v : IsConsistent ms ops) where
  -- An operation that holds nothing is added under a fresh key.
  pub add_operation-IsConsistent :
      (o : FinancialOperation) → find o.id ops ≡ none → weight o ≡ 0 → IsConsistent ms (o ∷ ops)
  unfolding sum_of held
  add_operation-IsConsistent o fresh light = record {
    unique = (fresh, v.unique);
    balanced = λ k m e. ground (arith, v.balanced k m e);
    within = v.within;
  }

  -- A row of an operation and the row of its mandate change together, by as much.
  module _ (i : ℕ) (o : FinancialOperation) (g : FinancialOperation → FinancialOperation)
      (m : Mandate) (f : Mandate → Mandate) (found : find i ops ≡ some o)
      (owned : find o.mandate_id ms ≡ some m) (g_key : (x : FinancialOperation) → (g x).id ≡ x.id)
      (f_key : (x : Mandate) → (f x).id ≡ x.id) (g_mandate : (g o).mandate_id ≡ o.mandate_id)
      (moved : (f m).reserved_spend +ℤ pos (weight o) ≡ m.reserved_spend +ℤ pos (weight (g o)))
      (room : (f m).current_aggregate_spend +ℤ (f m).reserved_spend
        ≤ℤ pos (f m).aggregate_spend_limit) where
    sum_elsewhere :
        (k : ℕ) → o.mandate_id ≢ k → sum_of (held k) (modify i g ops) ≡ sum_of (held k) ops
    unfolding held
    sum_elsewhere k ne = ground (arith, sum_of-modify (held k) i g o ops found)

    sum_here :
        sum_of (held o.mandate_id) (modify i g ops) + weight o
        ≡ sum_of (held o.mandate_id) ops + weight (g o)
    unfolding held
    sum_here = ground (arith, sum_of-modify (held o.mandate_id) i g o ops found)

    balanced_here : (f m).reserved_spend ≡ pos (sum_of (held o.mandate_id) (modify i g ops))
    balanced_here =
        counter_follows _ m.reserved_spend _ (sum_of (held o.mandate_id) ops) (weight o)
          (weight (g o)) moved (v.balanced o.mandate_id m owned) sum_here

    pub move-IsConsistent : IsConsistent (modify o.mandate_id f ms) (modify i g ops)
    move-IsConsistent = record {
      unique = modify-UniqueKeys i g ops g_key v.unique;
      balanced = λ k x e. elim (find-modify_cases o.mandate_id k f m x ms f_key owned e) [
        | inl (same, changed) ↦ rw (changed, ← same) balanced_here
        | inr (other, old) ↦ rw (sum_elsewhere k other) (v.balanced k x old)
      ];
      within = λ k x e. elim (find-modify_cases o.mandate_id k f m x ms f_key owned e) [
        | inl (same, changed) ↦ rw changed room
        | inr (other, old) ↦ v.within k x old
      ];
    }

  module _ (i : ℕ) (o : FinancialOperation) (g : FinancialOperation → FinancialOperation)
      (found : find i ops ≡ some o) (g_key : (x : FinancialOperation) → (g x).id ≡ x.id)
      (g_mandate : (g o).mandate_id ≡ o.mandate_id) where
    relabel_sum :
        weight (g o) ≡ weight o → (k : ℕ) → sum_of (held k) (modify i g ops) ≡ sum_of (held k) ops
    unfolding held
    relabel_sum even k = ground (arith, sum_of-modify (held k) i g o ops found)

    -- An operation changes and holds as much as before.
    pub relabel-IsConsistent : weight (g o) ≡ weight o → IsConsistent ms (modify i g ops)
    relabel-IsConsistent even = record {
      unique = modify-UniqueKeys i g ops g_key v.unique;
      balanced = λ k x e. rw (relabel_sum even k) (v.balanced k x e);
      within = v.within;
    }

    orphan_sum : (k : ℕ) → o.mandate_id ≢ k → sum_of (held k) (modify i g ops) ≡ sum_of (held k) ops
    unfolding held
    orphan_sum k ne = ground (arith, sum_of-modify (held k) i g o ops found)

    -- An operation whose mandate is not there changes.
    pub orphan-IsConsistent : find o.mandate_id ms ≡ none → IsConsistent ms (modify i g ops)
    orphan-IsConsistent missing = record {
      unique = modify-UniqueKeys i g ops g_key v.unique;
      balanced = λ k x e. rw (orphan_sum k (λ same. cc)) (v.balanced k x e);
      within = v.within;
    }

  -- The row of a mandate changes and holds as much as before.
  pub update_mandate-IsConsistent :
      (i : ℕ) (m : Mandate) (f : Mandate → Mandate)
      → find i ms ≡ some m
      → ((x : Mandate) → (f x).id ≡ x.id)
      → (f m).reserved_spend ≡ m.reserved_spend
      → (f m).current_aggregate_spend +ℤ (f m).reserved_spend ≤ℤ pos (f m).aggregate_spend_limit
      → IsConsistent (modify i f ms) ops
  update_mandate-IsConsistent i m f found f_key even room = record {
    unique = v.unique;
    balanced = λ k x e. elim (find-modify_cases i k f m x ms f_key found e) [
      | inl (same, changed) ↦ rw (changed, even, ← same) (v.balanced i m found)
      | inr (other, old) ↦ v.balanced k x old
    ];
    within = λ k x e. elim (find-modify_cases i k f m x ms f_key found e) [
      | inl (same, changed) ↦ rw changed room
      | inr (other, old) ↦ v.within k x old
    ];
  }
