-- ===== src/Policy/Rules/Ancestors.antt =====
-- packages/policy/engine.py: the walk of HierarchicalDelegationRule up the parents of a mandate.
use mandate_razorpay_control.Prelude.{ℕ, zero, suc, true, false, Option, none, some, List, find}
use mandate_razorpay_control.Core.Enums.{is_active_mandate}
use mandate_razorpay_control.Core.Models.{Mandate, mandate_key}

pub data Walk : Type 0 where
  all_active : Walk
  missing inactive : ℕ → Walk

-- `while curr_parent_id`, on fuel: `none` is an unfinished walk.
unfoldable pub walk : ℕ → List Mandate → Option ℕ → Option Walk
walk fuel mandates none = some all_active
walk zero mandates (some p) = none
walk (suc fuel) mandates (some p) = elim (find p mandates) [
  | none ↦ some (missing p)
  | some parent ↦ elim (is_active_mandate parent.status) [
    | true ↦ walk fuel mandates parent.parent_mandate_id
    | false ↦ some (inactive p)
  ]
]
