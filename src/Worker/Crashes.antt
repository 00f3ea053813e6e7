-- ===== src/Worker/Crashes.antt =====
-- services/worker/main.py: one turn of the sweep, for the operations that are still to come and for one
-- whose process crashed before any call of the gateway.
use mandate_razorpay_control.Prelude.{
  ℕ, ◌≡◌, refl, subst, ap, ◌∙◌, true, Bool, Option, none, some, inl, inr, List, [], ◌∷◌, map,
  filter, find, modify, find-modify_self, find-unmodify, arith, ◌==◌, Option-cases,
}
use mandate_razorpay_control.Core.Enums.{OperationStatus}
use mandate_razorpay_control.Core.Models.{
  Mandate, FinancialOperation, Transaction, Message, mandate_key, operation_key, transaction_key,
}
use mandate_razorpay_control.Core.Database.{
  Db, Result, ok, err, ◌>>=◌, scalar_one_or_none, with_error,
}
use mandate_razorpay_control.Core.Concurrency.{release, commit}
use mandate_razorpay_control.Api.Gateway.{RazorpayClient}
use mandate_razorpay_control.Worker.{undispatched, captured_tx, expire, reconcile_of}
use mandate_razorpay_control.Worker.Outcomes.{Outcome, left, expired, paid}

-- The transactions of an operation.
abbrev pub of_operation : ℕ → List Transaction → List Transaction
of_operation i txs = filter (λ t. t.operation_id == i) txs

-- No operation has two transactions.
abbrev pub SingleTransactions : Db → Type 0
SingleTransactions db =
    (i : ℕ)
    → (tx : Option Transaction) × (scalar_one_or_none (of_operation i db.transactions) ≡ ok tx)

abbrev unsent : Transaction → Bool
unsent t = undispatched (some t)

-- Capturing a transaction keeps what it says of the gateway's calls.
sent-modify :
    (i j : ℕ) (txs : List Transaction)
    → map unsent (of_operation j (modify i captured_tx txs)) ≡ map unsent (of_operation j txs)
unfolding modify
sent-modify i j [] = refl
sent-modify i j (t ∷ txs) = ground (arith, sent-modify i j txs)

ok-injective : (a b : Option Transaction) → ok a ≡ ok b → a ≡ b
ok-injective a b e = cc

unsent_head : (y x : Transaction) → map unsent (y ∷ []) ≡ map unsent (x ∷ []) → unsent y ≡ unsent x
unsent_head y x e = cc

scalar-map :
    (xs ys : List Transaction) (a : Option Transaction)
    → map unsent ys ≡ map unsent xs
    → scalar_one_or_none xs ≡ ok a
    → (b : Option Transaction) × (scalar_one_or_none ys ≡ ok b) × (undispatched b ≡ undispatched a)
scalar-map [] [] a e h = (none, refl, ap undispatched (ok-injective none a h))
scalar-map [] (y ∷ ys) a e h = absurd (cc)
scalar-map (x ∷ []) [] a e h = absurd (cc)
scalar-map (x ∷ []) (y ∷ []) a e h =
    (some y, refl, unsent_head y x e ∙ ap undispatched (ok-injective (some x) a h))
scalar-map (x ∷ []) (y ∷ z ∷ ys) a e h = absurd (cc)
scalar-map (x ∷ x' ∷ xs) ys a e h = absurd (cc)

-- What the operations that are still to come rely on.
pub record Stays (db db' : Db) : Type 0 where
  pub mandates :
      (k : ℕ) (m : Mandate)
      → find k db.mandates ≡ some m
      → (m' : Mandate) × (find k db'.mandates ≡ some m')
  pub transactions :
      (i : ℕ)
      → map unsent (of_operation i db'.transactions) ≡ map unsent (of_operation i db.transactions)

modify_present :
    (i k : ℕ) (f : Mandate → Mandate) (m : Mandate) (ms : List Mandate)
    → ((x : Mandate) → (f x).id ≡ x.id)
    → find k ms ≡ some m
    → (m' : Mandate) × (find k (modify i f ms) ≡ some m')
modify_present i k f m ms key e = elim (Option-cases (find k (modify i f ms))) [
  | inl gone ↦ absurd (cc (e, find-unmodify i k f ms key gone))
  | inr there ↦ there
]

pub Outcome-Stays :
    (db : Db) (op : FinancialOperation) (o : Option Mandate) (x : Db × ℕ)
    → Outcome db op o x
    → Stays db x.0
Outcome-Stays db op o x (left _) = record { mandates = λ k m e. (m, e); transactions = λ i. refl }
Outcome-Stays db op o x (expired m why) = record {
  mandates = λ k m' e. modify_present m.id k (release op.amount) m' db.mandates (λ y. refl) e;
  transactions = λ i. refl;
}
Outcome-Stays db op o x (paid m tx) = record {
  mandates = λ k m' e. modify_present m.id k (commit op.amount) m' db.mandates (λ y. refl) e;
  transactions = λ i. sent-modify tx.id i db.transactions;
}

pub Stays-Single : (db db' : Db) → Stays db db' → SingleTransactions db → SingleTransactions db'
Stays-Single db db' s single i =
    let (tx, e) = single i in
    let (tx', e', same) =
      scalar-map (of_operation i db.transactions) (of_operation i db'.transactions) tx
        (s.transactions i) e in
    (tx', e')

-- Nothing was sent for the operation, and its mandate is there.
pub record Crashed (db : Db) (op : FinancialOperation) : Type 0 where
  pub mandate : (m : Mandate) × (find op.mandate_id db.mandates ≡ some m)
  pub unsent_transaction :
      (tx : Option Transaction) × (scalar_one_or_none (of_operation op.id db.transactions) ≡ ok tx)
      × (undispatched tx ≡ true)

pub Stays-Crashed :
    (db db' : Db) (op : FinancialOperation) → Stays db db' → Crashed db op → Crashed db' op
Stays-Crashed db db' op s c =
    let (m, owned) = c.mandate in
    let (tx, one, fresh) = c.unsent_transaction in
    let (tx', one', same) =
      scalar-map (of_operation op.id db.transactions) (of_operation op.id db'.transactions) tx
        (s.transactions op.id) one in
    record {
      mandate = s.mandates op.mandate_id m owned;
      unsent_transaction = (tx', one', same ∙ fresh);
    }

bind-returns :
    {A B : Type 0} (r : Result A) (a : A) (f : A → B)
    → r ≡ ok a
    → (b : B) × ((r >>= λ x. ok (f x)) ≡ ok b)
bind-returns (ok b) a f e = (f b, refl)
bind-returns (err x) a f e = absurd (cc)

pub reconcile_of-returns :
    (g : RazorpayClient) (later : ℕ) (op : FinancialOperation) (o : Option Mandate) (db : Db)
    → SingleTransactions db
    → (x : Db × ℕ) × (reconcile_of g later op o db ≡ ok x)
unfolding reconcile_of
reconcile_of-returns g later op none db single = ((db, 0), refl)
reconcile_of-returns g later op (some m) db single =
    let (tx, e) = single op.id in
    bind-returns (scalar_one_or_none (of_operation op.id db.transactions)) tx _ e

-- The row of an operation whose reservation has expired.
abbrev pub expired_row : FinancialOperation → FinancialOperation
expired_row op = with_error OperationStatus.failed Message.reservation_expired op

pub reconcile_of-expires :
    (g : RazorpayClient) (later : ℕ) (op : FinancialOperation) (db : Db) (x : Db × ℕ)
    → Crashed db op
    → find op.id db.operations ≡ some op
    → reconcile_of g later op (find op.mandate_id db.mandates) db ≡ ok x
    → find op.id x.0.operations ≡ some (expired_row op)
unfolding reconcile_of
reconcile_of-expires g later op db x c own e =
    let (m, owned) = c.mandate in
    let (tx, one, fresh) = c.unsent_transaction in
    let start : reconcile_of g later op (find op.mandate_id db.mandates) db
        ≡ ok (expire Message.reservation_expired m op db, 1) =
      rw (owned, one, fresh) refl in
    let at : (expire Message.reservation_expired m op db, 1) ≡ x = cc (start, e) in
    subst (λ y. find op.id y.0.operations ≡ some (expired_row op)) at
      (find-modify_self op.id expired_row op db.operations refl own)
