-- ===== src/Api/Mandates/Cascade.antt =====
-- apps/api/routes/mandates.py: `_cascade_mandate_status` and the tree that it walks.
pub mod Termination
pub mod Members
pub mod Descendants
use mandate_razorpay_control.Prelude.{
  ℕ, ◌+◌, ◌≡◌, ◌≤◌, ◌≢◌, refl, sym, subst, ◌∙◌, inl, inr, Bool, true, false, not, Option, none,
  some, List, [], ◌∷◌, ◌++◌, map, filter, length, All, find, modify, sum_of, UniqueKeys, arith,
  ==-eq, ◌==◌, if◌then◌else◌, Bool-cases, Option-cases,
}
use mandate_razorpay_control.Core.Enums.{MandateStatus}
use mandate_razorpay_control.Core.Models.{Mandate, SuspensionReason, mandate_key}
use mandate_razorpay_control.Core.Database.{Db}
use mandate_razorpay_control.Api.Mandates.{
  with_mandate_status, is_visited, is_child_of, children, cascade_found,
}

-- No number twice.
abbrev pub Distinct : List ℕ → Type 0
Distinct [] = Unit
Distinct (c ∷ cs) = (is_visited c cs ≡ false) × Distinct cs

-- The row of `c` has the parent `p`.
abbrev pub IsChild : List Mandate → ℕ → ℕ → Type 0
IsChild ms p c = (m : Mandate) × (find c ms ≡ some m) × (m.parent_mandate_id ≡ some p)

-- The numbers of a list that are not visited.
abbrev pub unvisited : List ℕ → List ℕ → List ℕ
unvisited visited = filter (λ c. not (is_visited c visited))

pub visited-append :
    (c : ℕ) (xs ys : List ℕ)
    → is_visited c xs ≡ false
    → is_visited c ys ≡ false
    → is_visited c (xs ++ ys) ≡ false
visited-append c [] ys h k = k
visited-append c (x ∷ xs) ys h k = ground (arith, visited-append c xs ys)

pub visited-filter :
    (p : ℕ → Bool) (c : ℕ) (xs : List ℕ)
    → is_visited c xs ≡ false
    → is_visited c (filter p xs) ≡ false
visited-filter p c [] h = refl
visited-filter p c (x ∷ xs) h = ground (arith, visited-filter p c xs)

pub filter-Distinct : (p : ℕ → Bool) (xs : List ℕ) → Distinct xs → Distinct (filter p xs)
filter-Distinct p [] d = tt
filter-Distinct p (x ∷ xs) d = ground (arith, filter-Distinct p xs d.1, visited-filter p x xs d.0)

missing-child :
    (i c : ℕ) (ms : List Mandate) → find c ms ≡ none → is_visited c (children i ms) ≡ false
unfolding find
missing-child i c [] e = refl
missing-child i c (m ∷ ms) e = ground (arith, missing-child i c ms)

pub children-Distinct : (i : ℕ) (ms : List Mandate) → UniqueKeys ms → Distinct (children i ms)
children-Distinct i [] u = tt
children-Distinct i (m ∷ ms) u =
    ground (arith, children-Distinct i ms u.1, missing-child i m.id ms u.0)

-- Updates of the status keep the tree.
pub children-modify :
    (t : MandateStatus) (r : SuspensionReason) (i k : ℕ) (ms : List Mandate)
    → children k (modify i (with_mandate_status t r) ms) ≡ children k ms
unfolding modify
children-modify t r i k [] = refl
children-modify t r i k (m ∷ ms) = ground (arith, children-modify t r i k ms)

pub children-cascade_found :
    (t : MandateStatus) (r : SuspensionReason) (i k : ℕ) (o : Option Mandate) (db : Db)
    → children k (cascade_found t r i o db).mandates ≡ children k db.mandates
children-cascade_found t r i k none db = refl
children-cascade_found t r i k (some m) db = children-modify t r i k db.mandates
