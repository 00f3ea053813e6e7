-- ===== src/Api/Mandates/Cascade/Descendants.antt =====
-- apps/api/routes/mandates.py: which mandates `_cascade_mandate_status` changes.
use mandate_razorpay_control.Prelude.{
  ℕ, zero, suc, ◌≡◌, ◌≢◌, ◌⊎◌, refl, sym, ap, subst, ◌∙◌, inl, inr, true, Option, none, some, List,
  [], ◌∷◌, ◌++◌, length, find, UniqueKeys, find-modify_cases, find-modify_ne, arith, ==-eq, ==-ne,
  ◌==◌, Bool-cases,
}
use mandate_razorpay_control.Core.Enums.{MandateStatus}
use mandate_razorpay_control.Core.Models.{Mandate, SuspensionReason, mandate_key}
use mandate_razorpay_control.Core.Database.{Db}
use mandate_razorpay_control.Api.Mandates.{
  with_mandate_status, is_visited, children, cascade_found, cascade_row, cascade,
  cascade_mandate_status,
}
use mandate_razorpay_control.Api.Mandates.Cascade.{IsChild, unvisited, children-cascade_found}
use mandate_razorpay_control.Api.Mandates.Cascade.Members.{
  IsChild-visited, member_append_left, member_append_right, append_member, member_unvisited,
  unvisited_member, head_visited, tail_visited, cons_visited,
}
use mandate_razorpay_control.Api.Mandates.Cascade.Termination.{
  cascade_mandate_status_ends, visited-All, children-IsChild,
}

-- The mandates of the tree under `root`, which is one of them.
pub data Below (ms : List Mandate) (root : ℕ) : ℕ → Type 0 where
  itself : Below ms root root
  child : (p c : ℕ) → Below ms root p → IsChild ms p c → Below ms root c

some_inj : (a b : Db) → some a ≡ some b → a ≡ b
some_inj a b e = cc

module _ (t : MandateStatus) (r : SuspensionReason) (i : ℕ) (db : Db) where
  -- What is found after a turn: the row that it changed, or another as before.
  found_after :
      (o : Option Mandate) (x : Mandate) (j : ℕ)
      → find i db.mandates ≡ o
      → find j (cascade_found t r i o db).mandates ≡ some x
      → ((i ≡ j) × (x.status ≡ t)) ⊎ ((i ≢ j) × (find j db.mandates ≡ some x))
  found_after none x j e found = elim (Bool-cases (i == j)) [
    | inl same ↦
        let eq : i ≡ j = omega (arith, ==-eq i j same) in
        let gone : find j db.mandates ≡ none = subst (λ k. find k db.mandates ≡ none) eq e in cc
    | inr other ↦ inr (omega (arith, ==-ne i j other), found)
  ]
  found_after (some m) x j e found =
      elim (find-modify_cases i j (with_mandate_status t r) m x db.mandates (λ y. refl) e found) [
        | inl (same, changed) ↦ inl (same, ap (λ y. y.status) changed)
        | inr old ↦ inr old
      ]

  found_elsewhere :
      (o : Option Mandate) (j : ℕ)
      → i ≢ j
      → find j (cascade_found t r i o db).mandates ≡ find j db.mandates
  found_elsewhere none j ne = refl
  found_elsewhere (some m) j ne =
      find-modify_ne i j (with_mandate_status t r) db.mandates (λ y. refl) ne

module _ (db0 : Db) (u : UniqueKeys db0.mandates) (root : ℕ) (t : MandateStatus)
    (r : SuspensionReason) where
  abbrev IsBelow : ℕ → Type 0
  IsBelow = Below db0.mandates root

  -- What holds at each turn of the loop.
  record Walk (visited queue : List ℕ) (db : Db) : Type 0 where
    same : (k : ℕ) → children k db.mandates ≡ children k db0.mandates
    done :
        (i : ℕ) (m : Mandate)
        → is_visited i visited ≡ true
        → find i db.mandates ≡ some m
        → m.status ≡ t
    closed :
        (i c : ℕ)
        → is_visited i visited ≡ true
        → IsChild db0.mandates i c
        → (is_visited c visited ≡ true) ⊎ (is_visited c queue ≡ true)
    reached : (c : ℕ) → is_visited c queue ≡ true → IsBelow c
    rooted : (is_visited root visited ≡ true) ⊎ (is_visited root queue ≡ true)
    untouched : (i : ℕ) → ¬ (IsBelow i) → find i db.mandates ≡ find i db0.mandates

  abbrev Finished : Db → Type 0
  Finished db =
      ((i : ℕ) (m : Mandate) → IsBelow i → find i db.mandates ≡ some m → m.status ≡ t)
      × ((i : ℕ) → ¬ (IsBelow i) → find i db.mandates ≡ find i db0.mandates)

  module _ (visited : List ℕ) (db : Db) (w : Walk visited [] db) where
    no_queue :
        (c : ℕ)
        → (is_visited c visited ≡ true) ⊎ (is_visited c [] ≡ true)
        → is_visited c visited ≡ true
    no_queue c (inl h) = h
    no_queue c (inr h) = cc

    all_visited : (i : ℕ) → IsBelow i → is_visited i visited ≡ true
    all_visited _ itself = no_queue root w.rooted
    all_visited _ (child p c b h) = no_queue c (w.closed p c (all_visited p b) h)

    finished : Finished db
    finished = ((λ i m b e. w.done i m (all_visited i b) e), w.untouched)

  module _ (i : ℕ) (visited queue : List ℕ) (db : Db) (w : Walk visited (i ∷ queue) db) where
    abbrev row : Db
    row = cascade_row t r i db

    abbrev next : List ℕ
    next = queue ++ unvisited (i ∷ visited) (children i db0.mandates)

    head-IsBelow : IsBelow i
    head-IsBelow = w.reached i (head_visited i i queue refl)

    still_done :
        (j : ℕ) (m : Mandate)
        → is_visited j (i ∷ visited) ≡ true
        → find j row.mandates ≡ some m
        → m.status ≡ t
    still_done j m h found = elim (found_after t r i db (find i db.mandates) m j refl found) [
      | inl (same, changed) ↦ changed
      | inr (differs, old) ↦ elim (cons_visited j i visited h) [
        | inl same ↦ elim (differs same) [ ]
        | inr h' ↦ w.done j m h' old
      ]
    ]

    child_queued :
        (c : ℕ)
        → IsChild db0.mandates i c
        → (is_visited c (i ∷ visited) ≡ true) ⊎ (is_visited c next ≡ true)
    child_queued c (m, e, h) = elim (Bool-cases (is_visited c (i ∷ visited))) [
      | inl seen ↦ inl seen
      | inr fresh ↦ inr (
          member_append_right c queue _ (
            member_unvisited c (i ∷ visited) (children i db0.mandates)
              (IsChild-visited i c m db0.mandates e h) fresh))
    ]

    -- What was visited or in the queue still is.
    moves_on :
        (c : ℕ)
        → (is_visited c visited ≡ true) ⊎ (is_visited c (i ∷ queue) ≡ true)
        → (is_visited c (i ∷ visited) ≡ true) ⊎ (is_visited c next ≡ true)
    moves_on c (inl h) = inl (tail_visited c i visited h)
    moves_on c (inr h) = elim (cons_visited c i queue h) [
      | inl same ↦ inl (head_visited i c visited same)
      | inr h' ↦ inr (member_append_left c queue _ h')
    ]

    still_closed :
        (j c : ℕ)
        → is_visited j (i ∷ visited) ≡ true
        → IsChild db0.mandates j c
        → (is_visited c (i ∷ visited) ≡ true) ⊎ (is_visited c next ≡ true)
    still_closed j c h below = elim (cons_visited j i visited h) [
      | inl same ↦ child_queued c (subst (λ k. IsChild db0.mandates k c) (sym same) below)
      | inr h' ↦ moves_on c (w.closed j c h' below)
    ]

    still_reached : (c : ℕ) → is_visited c next ≡ true → IsBelow c
    still_reached c h = elim (append_member c queue _ h) [
      | inl h' ↦ w.reached c (tail_visited c i queue h')
      | inr h' ↦ child i c head-IsBelow (
          visited-All (IsChild db0.mandates i) c (children i db0.mandates)
            (children-IsChild db0.mandates u i) (unvisited_member c (i ∷ visited) _ h'))
    ]

    turn : Walk (i ∷ visited) next row
    turn = record {
      same = λ k. children-cascade_found t r i k (find i db.mandates) db ∙ w.same k;
      done = still_done;
      closed = still_closed;
      reached = still_reached;
      rooted = moves_on root w.rooted;
      untouched = λ j nb.
          found_elsewhere t r i db (find i db.mandates) j
            (λ same. nb (subst IsBelow same head-IsBelow))
          ∙ w.untouched j nb;
    }

  start : Walk [] (root ∷ []) db0
  start = record {
    same = λ k. refl;
    done = λ i m h e. cc;
    closed = λ i c h below. cc;
    reached = only_root;
    rooted = inr (head_visited root root [] refl);
    untouched = λ i nb. refl;
  }
    where
      only_root : (c : ℕ) → is_visited c (root ∷ []) ≡ true → IsBelow c
      only_root c h = elim (cons_visited c root [] h) [
        | inl same ↦ subst IsBelow same itself
        | inr h' ↦ cc
      ]

  walked :
      (fuel : ℕ) (visited queue : List ℕ) (db db' : Db)
      → Walk visited queue db
      → cascade fuel t r visited queue db ≡ some db'
      → Finished db'
  unfolding cascade
  walked fuel visited [] db db' w e = subst Finished (some_inj db db' e) (finished visited db w)
  walked zero visited (i ∷ queue) db db' w e = cc
  walked (suc fuel) visited (i ∷ queue) db db' w e =
      let db1 = cascade_row t r i db in
      walked fuel (i ∷ visited) (next i visited queue db w) db1 db' (turn i visited queue db w) (
        subst
          (λ cs.
            cascade fuel t r (i ∷ visited) (queue ++ unvisited (i ∷ visited) cs) db1 ≡ some db')
          (children-cascade_found t r i i (find i db.mandates) db ∙ w.same i) e)

-- A cascade from a mandate comes to its end, and then every mandate below it, itself included, that
-- is in the table has the target status, while the row of every other mandate is as before.
pub cascade_mandate_status-descends :
    (root : ℕ) (target : MandateStatus) (reason : SuspensionReason) (db : Db)
    → UniqueKeys db.mandates
    → (db' : Db) × (cascade_mandate_status (suc (length db.mandates)) root target reason db
        ≡ some db')
      × ((i : ℕ) (m : Mandate)
          → Below db.mandates root i
          → find i db'.mandates ≡ some m
          → m.status ≡ target)
      × ((i : ℕ) → ¬ (Below db.mandates root i) → find i db'.mandates ≡ find i db.mandates)
unfolding cascade_mandate_status
cascade_mandate_status-descends root target reason db u =
    let (db', ends) = cascade_mandate_status_ends root target reason db u in
    let (below, others) =
      walked db u root target reason (suc (length db.mandates)) [] (root ∷ []) db db'
        (start db u root target reason) ends in
    (db', ends, below, others)
