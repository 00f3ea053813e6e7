-- ===== src/Core/Concurrency.antt =====
-- packages/core/concurrency.py: the conditional update that reserves a budget, and the other
-- updates of the two counters that the handlers write in place.
use mandate_razorpay_control.Prelude.{ℕ, ◌+◌, Bool, true, false, none, some, find, if◌then◌else◌}
use mandate_razorpay_control.Prelude.Int.{pos, ◌+ℤ◌, ◌-ℤ◌, leb_ℤ}
use mandate_razorpay_control.Core.Models.{Mandate, mandate_key}
use mandate_razorpay_control.Core.Database.{Db, update_mandate}

-- The `where` condition on the row.
abbrev pub has_budget : ℕ → Mandate → Bool
has_budget amount m =
    leb_ℤ (m.current_aggregate_spend +ℤ m.reserved_spend +ℤ pos amount)
      (pos m.aggregate_spend_limit)

abbrev pub reserve : ℕ → Mandate → Mandate
reserve amount m = record m {
  reserved_spend = m.reserved_spend +ℤ pos amount;
  version = m.version + 1;
}

-- The tables afterwards, and whether a row was updated.
unfoldable pub reserve_budget : Db → ℕ → ℕ → Db × Bool
reserve_budget db mandate_id amount = elim (find mandate_id db.mandates) [
  | none ↦ (db, false)
  | some m ↦
      if has_budget amount m
      then (update_mandate mandate_id (reserve amount) db, true)
      else (db, false)
]

-- `reserved_spend - amount`, with the version counted up.
abbrev pub release : ℕ → Mandate → Mandate
release amount m = record m {
  reserved_spend = m.reserved_spend -ℤ pos amount;
  version = m.version + 1;
}

-- `reserved_spend - amount` and `current_aggregate_spend + amount`.
abbrev pub commit : ℕ → Mandate → Mandate
commit amount m = record m {
  reserved_spend = m.reserved_spend -ℤ pos amount;
  current_aggregate_spend = m.current_aggregate_spend +ℤ pos amount;
  version = m.version + 1;
}
