-- ===== src/Policy/Engine/Ancestry.antt =====
-- packages/policy/engine.py: the walk of HierarchicalDelegationRule over a tree of mandates.
use mandate_razorpay_control.Prelude.{
  ℕ, zero, suc, ◌+◌, ◌<◌, ◌≡◌, refl, subst, ◌↔◌, inl, inr, false, Option, none, some, List, find,
  arith, Option-cases, Bool-cases,
}
use mandate_razorpay_control.Core.Enums.{MandateStatus, is_active_mandate}
use mandate_razorpay_control.Core.Models.{Mandate, mandate_key}
use mandate_razorpay_control.Policy.Rules.Ancestors.{Walk, all_active, missing, inactive, walk}

-- Every ancestor is there and active, up to a mandate without a parent.
pub data ActiveLine (mandates : List Mandate) : Option ℕ → Type 0 where
  root : ActiveLine mandates none
  up :
      (p : ℕ) (m : Mandate)
      → find p mandates ≡ some m
      → m.status ≡ MandateStatus.active
      → ActiveLine mandates m.parent_mandate_id
      → ActiveLine mandates (some p)

-- A child is one deeper than its parent.
abbrev pub IsTree : List Mandate → Type 0
IsTree mandates =
    (i : ℕ) (m : Mandate) (j : ℕ) (p : Mandate)
    → find i mandates ≡ some m
    → m.parent_mandate_id ≡ some j
    → find j mandates ≡ some p
    → m.delegation_depth ≡ p.delegation_depth + 1

-- What a finished walk says.
abbrev pub Decides : List Mandate → Option ℕ → Option Walk → Type 0
Decides mandates parent r =
    (w : Walk) × (r ≡ some w) × ((w ≡ all_active) ↔ ActiveLine mandates parent)

pub ActiveLine-parent :
    (ms : List Mandate) {o : Option ℕ} (p : ℕ) (m : Mandate)
    → ActiveLine ms o
    → o ≡ some p
    → find p ms ≡ some m
    → (m.status ≡ MandateStatus.active) × ActiveLine ms m.parent_mandate_id
ActiveLine-parent ms p m root e f = cc
ActiveLine-parent ms p m (up q n g a l) e f =
    let same : n ≡ m = cc in (cc, subst (λ x. ActiveLine ms x.parent_mandate_id) same l)

ActiveLine-found :
    (ms : List Mandate) {o : Option ℕ} (p : ℕ) → ActiveLine ms o → o ≡ some p → find p ms ≡ none → ⊥
ActiveLine-found ms p root e f = cc
ActiveLine-found ms p (up q n g a l) e f = cc

inactive_line : (s : MandateStatus) → is_active_mandate s ≡ false → s ≡ MandateStatus.active → ⊥
inactive_line s a e = ground arith

ascend-Decides :
    (fuel : ℕ) (ms : List Mandate) (i : ℕ) (m : Mandate)
    → IsTree ms
    → find i ms ≡ some m
    → m.delegation_depth < fuel
    → (o : Option ℕ) → m.parent_mandate_id ≡ o
    → Decides ms o (walk fuel ms o)
unfolding walk
ascend-Decides fuel ms i m tree fi lt none e = (all_active, refl, ((λ _. root), (λ _. refl)))
ascend-Decides zero ms i m tree fi lt (some p) e = absurd (omega arith)
ascend-Decides (suc fuel) ms i m tree fi lt (some p) e = elim (Option-cases (find p ms)) [
  | inl f ↦
      rw (f, walk)
        (missing p, refl, ((λ c. cc), (λ line. absurd (ActiveLine-found ms p line refl f))))
  | inr (q, f) ↦ elim (Bool-cases (is_active_mandate q.status)) [
    | inl a ↦
        let (w, found, iff) =
          ascend-Decides fuel ms p q tree f (omega (arith, tree i m p q fi e f)) q.parent_mandate_id
            refl in
        rw (f, walk)
          (rw (a, walk)
            (
              w,
              found,
              (
                (λ c. up p q f (ground arith) (iff.0 c)),
                (λ line. iff.1 (ActiveLine-parent ms p q line refl f).1),
              ),
            ))
    | inr a ↦
        rw (f, walk)
          (rw (a, walk)
            (
              inactive p,
              refl,
              (
                (λ c. cc),
                (λ line.
                    absurd (inactive_line q.status a (ActiveLine-parent ms p q line refl f).0)),
              ),
            ))
  ]
]

-- In a tree of mandates the walk ends within the mandate's depth, and it approves just if every
-- ancestor exists and is active.
pub walk-Decides :
    (fuel : ℕ) (mandates : List Mandate) (i : ℕ) (m : Mandate)
    → IsTree mandates
    → find i mandates ≡ some m
    → m.delegation_depth < fuel
    → Decides mandates m.parent_mandate_id (walk fuel mandates m.parent_mandate_id)
walk-Decides fuel mandates i m tree found enough =
    ascend-Decides fuel mandates i m tree found enough m.parent_mandate_id refl
