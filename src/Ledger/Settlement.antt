-- ===== src/Ledger/Settlement.antt =====
-- Ends of a reservation: an operation in flight lands, and its amount leaves the reserved spend.
use mandate_razorpay_control.Prelude.{
  ℕ, ◌≡◌, subst, true, false, some, List, find, modify, le-sum_of, arith,
}
use mandate_razorpay_control.Prelude.Int.{ℤ, pos, ◌+ℤ◌, ◌-ℤ◌, ◌≤ℤ◌, leb_ℤ, int_laws}
use mandate_razorpay_control.Core.Models.{Mandate, FinancialOperation, mandate_key, operation_key}
use mandate_razorpay_control.Ledger.{in_flight, weight, held, IsConsistent}
use mandate_razorpay_control.Ledger.Moves.{move-IsConsistent}

-- How the row of a mandate may change when `amount` of its reserved spend is given back or spent.
pub record Settles (amount : ℕ) (m m' : Mandate) : Type 0 where
  pub same_key : m'.id ≡ m.id
  pub same_limit : m'.aggregate_spend_limit ≡ m.aggregate_spend_limit
  pub given_back : m'.reserved_spend ≡ m.reserved_spend -ℤ pos amount
  pub no_more :
      m'.current_aggregate_spend +ℤ m'.reserved_spend
      ≤ℤ m.current_aggregate_spend +ℤ m.reserved_spend

-- How the row of an operation lands.
pub record Lands (o o' : FinancialOperation) : Type 0 where
  pub same_key : o'.id ≡ o.id
  pub same_mandate : o'.mandate_id ≡ o.mandate_id
  pub landed : in_flight o'.status ≡ false

pub weight-in_flight : (o : FinancialOperation) → in_flight o.status ≡ true → weight o ≡ o.amount
weight-in_flight o h = ground arith

pub weight_landed : (o : FinancialOperation) → in_flight o.status ≡ false → weight o ≡ 0
weight_landed o h = ground arith

give_back : (r' r : ℤ) (a w w' : ℕ) → r' ≡ r -ℤ pos a → w ≡ a → w' ≡ 0 → r' +ℤ pos w ≡ r +ℤ pos w'
give_back r' r a w w' e f g = rw (e, f, g) (omega int_laws)

module _ {ms : List Mandate} {ops : List FinancialOperation} (v : IsConsistent ms ops) (i : ℕ)
    (o : FinancialOperation) (g : FinancialOperation → FinancialOperation) (j : ℕ) (m : Mandate)
    (f : Mandate → Mandate) where
  settled_room :
      Settles o.amount m (f m)
      → m.current_aggregate_spend +ℤ m.reserved_spend ≤ℤ pos m.aggregate_spend_limit
      → (f m).current_aggregate_spend +ℤ (f m).reserved_spend ≤ℤ pos (f m).aggregate_spend_limit
  settled_room s h = rw s.same_limit (omega (arith, s.no_more))

  pub settle-IsConsistent :
      find i ops ≡ some o
      → in_flight o.status ≡ true
      → o.mandate_id ≡ j
      → find j ms ≡ some m
      → ((x : FinancialOperation) → Lands x (g x))
      → ((x : Mandate) → (f x).id ≡ x.id)
      → Settles o.amount m (f m)
      → IsConsistent (modify j f ms) (modify i g ops)
  settle-IsConsistent found flies owner owned lands f_key settles =
      subst (λ k. IsConsistent (modify k f ms) (modify i g ops)) owner
        (move-IsConsistent ms ops v i o g m f found (rw owner owned) (λ x. (lands x).same_key) f_key
          (lands o).same_mandate
          (give_back _ _ o.amount _ _ settles.given_back (weight-in_flight o flies)
            (weight_landed (g o) (lands o).landed))
          (settled_room settles (v.within j m owned)))

-- What an operation in flight holds is part of its mandate's reserved spend.
pub reserved_covers :
    {ms : List Mandate} {ops : List FinancialOperation} (v : IsConsistent ms ops) (i : ℕ)
    (o : FinancialOperation) (m : Mandate)
    → find i ops ≡ some o
    → in_flight o.status ≡ true
    → find o.mandate_id ms ≡ some m
    → leb_ℤ (pos o.amount) m.reserved_spend ≡ true
unfolding held
reserved_covers {ms} {ops} v i o m found flies owned =
    ground (arith, le-sum_of (held o.mandate_id) i o ops found, v.balanced o.mandate_id m owned)
