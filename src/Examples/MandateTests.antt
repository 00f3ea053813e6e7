-- ===== src/Examples/MandateTests.antt =====
-- Delegations and cascades on concrete mandates.
use mandate_razorpay_control.Prelude.{
  ℕ, ◌≡◌, refl, none, some, [], ◌∷◌, find, sum_of, UniqueKeys, arith,
}
use mandate_razorpay_control.Core.Enums.{MandateStatus}
use mandate_razorpay_control.Core.Models.{Mandate, SuspensionReason, mandate_key}
use mandate_razorpay_control.Core.Database.{Db}
use mandate_razorpay_control.Core.Outcomes.{OnOk}
use mandate_razorpay_control.Api.Mandates.{
  MandateDelegateRequest, delegate_child_mandate, cascade_mandate_status,
}
use mandate_razorpay_control.Api.Mandates.Escalation.{IsBounded, delegate_child_mandate-IsBounded}
use mandate_razorpay_control.Api.Mandates.Allocation.{
  IsAllocated, share, delegate_child_mandate-IsAllocated,
}
use mandate_razorpay_control.Api.Mandates.Cascade.Descendants.{
  Below, cascade_mandate_status-descends,
}
use mandate_razorpay_control.Api.Mandates.{revoke_mandate_cascade, activate_mandate}
use mandate_razorpay_control.Api.Mandates.Revocation.{revoke-activate}
use mandate_razorpay_control.Core.Database.{Exception, Detail, ok, err}
use mandate_razorpay_control.Examples.{grant, tables}

abbrev share_of_grant : MandateDelegateRequest
share_of_grant = record {
  target_agent_id = 1;
  currency = none;
  max_amount_per_op = 50;
  aggregate_spend_limit = 300;
  review_threshold_amount = none;
  allowed_operations = "CREATE_ORDER" ∷ [];
  valid_until = 800;
}

delegate_child_mandate-IsBounded_example :
    OnOk
      (λ x.
        (parent : Mandate) × (find 10 tables.mandates ≡ some parent)
        × (parent.status ≡ MandateStatus.active)
        × IsBounded parent x.1)
      (delegate_child_mandate 11 60 10 share_of_grant tables)
delegate_child_mandate-IsBounded_example =
    delegate_child_mandate-IsBounded 11 60 10 share_of_grant tables (omega arith)

only_grant : (k : ℕ) (m : Mandate) → find k tables.mandates ≡ some m → m ≡ grant
unfolding find
only_grant k m e = ground arith

tables-IsAllocated : IsAllocated tables.mandates
unfolding sum_of share
tables-IsAllocated = record {
  allocated = λ k m e. rw (only_grant k m e) refl;
  rooted = λ k e. refl;
}

delegate_child_mandate-IsAllocated_example :
    OnOk (λ x. IsAllocated x.0.mandates) (delegate_child_mandate 11 60 10 share_of_grant tables)
unfolding find
delegate_child_mandate-IsAllocated_example =
    delegate_child_mandate-IsAllocated 11 60 10 share_of_grant tables tables-IsAllocated refl

-- A family of two, and a stranger.
abbrev sub_grant : Mandate
sub_grant = record grant { id = 11; parent_mandate_id = some 10; delegation_depth = 1 }

abbrev stranger : Mandate
stranger = record grant { id = 12 }

abbrev family : Db
family = record tables { mandates = grant ∷ sub_grant ∷ stranger ∷ [] }

family-UniqueKeys : UniqueKeys family.mandates
unfolding find
family-UniqueKeys = (refl, (refl, (refl, tt)))

cascade_mandate_status-descends_example :
    (db' : Db) × (cascade_mandate_status 4 10 MandateStatus.revoked SuspensionReason.parent_revoked
        family
      ≡ some db')
    × ((i : ℕ) (m : Mandate)
        → Below family.mandates 10 i
        → find i db'.mandates ≡ some m
        → m.status ≡ MandateStatus.revoked)
    × ((i : ℕ) → ¬ (Below family.mandates 10 i) → find i db'.mandates ≡ find i family.mandates)
cascade_mandate_status-descends_example =
    cascade_mandate_status-descends 10 MandateStatus.revoked SuspensionReason.parent_revoked family
      family-UniqueKeys

revoke-activate_example :
    (db' : Db) × (revoke_mandate_cascade 4 10 none family ≡ ok db')
    × ((c : ℕ) (m : Mandate) (p : ℕ) (q : Mandate)
        → find c db'.mandates ≡ some m
        → m.parent_mandate_id ≡ some p
        → Below family.mandates 10 p
        → find p db'.mandates ≡ some q
        → activate_mandate c db' ≡ err (Exception.bad_request Detail.parent_not_active))
unfolding find
revoke-activate_example = revoke-activate 10 none grant family family-UniqueKeys refl
