-- ===== src/Worker/Report/Exact.antt =====
-- services/worker/reconciliation.py: the discrepancies of a report are those that there are.
use mandate_razorpay_control.Prelude.{
  ℕ, ◌+◌, ◌*◌, ◌≤◌, ◌≡◌, refl, sym, subst, ◌↔◌, ◌⊎◌, inl, inr, true, List, [], ◌∷◌, map, filter,
  arith,
}
use mandate_razorpay_control.Prelude.Members.{
  Member, Member-append, Member-filter, Member-map, map-Member,
}
use mandate_razorpay_control.Core.Models.{FinancialOperation, Transaction, Discrepancy}
use mandate_razorpay_control.Core.Database.{Db}
use mandate_razorpay_control.Api.Gateway.{RazorpayClient}
use mandate_razorpay_control.Worker.Report.{
  ReconciliationResult, with_order, with_order_id, check_record, check_records, joins, joined,
  blank, run_gateway_reconciliation,
}
use mandate_razorpay_control.Worker.Report.Found.{
  Found, found, order_id_sound, order_id_keeps, with_order_finds,
}

module _ (g : RazorpayClient) (d : Discrepancy) where
  check_record_iff :
      (tx : Transaction) (op : FinancialOperation) (r : ReconciliationResult)
      → Member d (check_record g (tx, op) r).discrepancies
        ↔ (Member d r.discrepancies ⊎ Found g tx op d)
  unfolding check_record
  check_record_iff tx op r =
      let r' = record r { total_checked = r.total_checked + 1 } in
      (
        order_id_sound g tx op d r' tx.gateway_order_id refl,
        λ h. elim h [
          | inl old ↦ order_id_keeps g tx op d r' tx.gateway_order_id old
          | inr new ↦ elim new [
            | found i order named fetched due ↦
                subst (λ o. Member d (with_order_id g o op r').discrepancies) (sym named)
                  (subst (λ o. Member d (with_order o i op r').discrepancies) (sym fetched)
                    (with_order_finds g tx op d r' i order due))
          ]
        ],
      )

  -- A discrepancy of some pair.
  abbrev FoundIn : List (Transaction × FinancialOperation) → Type 0
  FoundIn records = (p : Transaction × FinancialOperation) × Member p records × Found g p.0 p.1 d

  check_records_iff :
      (records : List (Transaction × FinancialOperation)) (r : ReconciliationResult)
      → Member d (check_records g records r).discrepancies
        ↔ (Member d r.discrepancies ⊎ FoundIn records)
  unfolding check_records
  check_records_iff [] r = (λ h. inl h, λ h. elim h [ inl old ↦ old | inr new ↦ absurd new.1 ])
  check_records_iff ((tx, op) ∷ records) r =
      let ih = check_records_iff records (check_record g (tx, op) r) in
      let one = check_record_iff tx op r in
      (
        λ h. elim (ih.0 h) [
          | inl before ↦ elim (one.0 before) [
            | inl old ↦ inl old
            | inr new ↦ inr ((tx, op), inl refl, new)
          ]
          | inr (p, there, new) ↦ inr (p, inr there, new)
        ],
        λ h. elim h [
          | inl old ↦ ih.1 (inl (one.1 (inl old)))
          | inr (p, there, new) ↦ elim there [
            | inl here ↦ ih.1 (inl (one.1 (inr (subst (λ x. Found g x.0 x.1 d) here new))))
            | inr later ↦ ih.1 (inr (p, later, new))
          ]
        ],
      )

module _ (now lookback_minutes : ℕ) (ops : List FinancialOperation) where
  joins_iff :
      (tx : Transaction) (op : FinancialOperation)
      → (joins now lookback_minutes tx op ≡ true)
        ↔ ((tx.operation_id ≡ op.id) × (now ≤ op.created_at + lookback_minutes * 60))
  joins_iff tx op = (λ h. (ground arith, ground arith), λ v. ground (arith, v.0, v.1))

  joined_sound :
      (txs : List Transaction) (p : Transaction × FinancialOperation)
      → Member p (joined now lookback_minutes txs ops)
      → Member p.0 txs × Member p.1 ops × (joins now lookback_minutes p.0 p.1 ≡ true)
  unfolding joined
  joined_sound [] p h = absurd h
  joined_sound (tx ∷ txs) p h =
      elim ((Member-append p (map (λ op. (tx, op)) (filter (joins now lookback_minutes tx) ops))
          (joined now lookback_minutes txs ops)).0
        h) [
          | inl first ↦
              let (op, there, same) =
                Member-map (λ op. (tx, op)) p (filter (joins now lookback_minutes tx) ops) first in
              let (listed, test) = (Member-filter (joins now lookback_minutes tx) op ops).0 there in
              subst
                (λ (x : Transaction × FinancialOperation).
                  Member x.0 (tx ∷ txs)
                  × Member x.1 ops
                  × (joins now lookback_minutes x.0 x.1 ≡ true))
                (sym same) (inl refl, listed, test)
          | inr later ↦ let (a, b, c) = joined_sound txs p later in (inr a, b, c)
        ]

  joined_complete :
      (txs : List Transaction) (tx : Transaction) (op : FinancialOperation)
      → Member tx txs
      → Member op ops
      → joins now lookback_minutes tx op ≡ true
      → Member (tx, op) (joined now lookback_minutes txs ops)
  unfolding joined
  joined_complete [] tx op a b c = absurd a
  joined_complete (x ∷ txs) tx op a b c =
      (Member-append (tx, op) (map (λ y. (x, y)) (filter (joins now lookback_minutes x) ops))
          (joined now lookback_minutes txs ops)).1
        (elim a [
          | inl here ↦ inl (
              subst
                (λ (z : Transaction).
                  Member {A = Transaction × FinancialOperation} (tx, op)
                    (map (λ y. (z, y)) (filter (joins now lookback_minutes z) ops)))
                here
                (map-Member (λ y. (tx, y)) op (filter (joins now lookback_minutes tx) ops)
                  ((Member-filter (joins now lookback_minutes tx) op ops).1 (b, c))))
          | inr later ↦ inr (joined_complete txs tx op later b c)
        ])

-- A difference between a transaction with its operation, both in the tables and recent, and the
-- order that the gateway has for it.
abbrev pub IsDiscrepancy : RazorpayClient → ℕ → ℕ → Db → Discrepancy → Type 0
IsDiscrepancy g now lookback_minutes db d =
    (tx : Transaction) × (op : FinancialOperation) × Member tx db.transactions
    × Member op db.operations
    × (tx.operation_id ≡ op.id)
    × (now ≤ op.created_at + lookback_minutes * 60)
    × Found g tx op d

-- The report lists just the discrepancies that there are.
pub run_gateway_reconciliation-exact :
    (g : RazorpayClient) (report_id now lookback_minutes : ℕ) (db : Db) (d : Discrepancy)
    → Member d (run_gateway_reconciliation g report_id now lookback_minutes db).1.discrepancies
      ↔ IsDiscrepancy g now lookback_minutes db d
unfolding run_gateway_reconciliation
run_gateway_reconciliation-exact g report_id now lookback_minutes db d =
    let pairs = joined now lookback_minutes db.transactions db.operations in
    let checked = check_records_iff g d pairs blank in
    (
      λ h. elim (checked.0 h) [
        | inl old ↦ absurd old
        | inr (p, there, new) ↦
            let (a, b, c) =
              joined_sound now lookback_minutes db.operations db.transactions p there in
            let (same, recent) = (joins_iff now lookback_minutes db.operations p.0 p.1).0 c in
            (p.0, p.1, a, b, same, recent, new)
      ],
      λ v.
          let (tx, op, a, b, same, recent, new) = v in
          checked.1 (
            inr (
              (tx, op),
              joined_complete now lookback_minutes db.operations db.transactions tx op a b
                  ((joins_iff now lookback_minutes db.operations tx op).1 (same, recent)),
              new,
            )),
    )
