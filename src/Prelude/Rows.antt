-- ===== src/Prelude/Rows.antt =====
-- A table as a list of rows with a primary key. `find` is `db.get`, `modify` an update of the row
-- with that key; at most one row has it.
use Prim.Native.Nat.{ℕ, ◌+◌, ◌≤◌}
use mathlib.Core.Path.{◌≡◌, refl, sym, subst, ◌∙◌}
use mathlib.Core.Logic.{◌≢◌, ◌⊎◌, inl, inr}
use mathlib.Core.Option.{Option, none, some}
use mathlib.Core.Bool.{Bool, true}
use mathlib.Core.List.{List, [], ◌∷◌}
use native.Mathlib.Omega.{arith}
use mandate_razorpay_control.Prelude.Lists.{filter, All}
use mandate_razorpay_control.Prelude.Tests.{Bool-cases, ==-eq, ==-ne, ◌==◌, if◌then◌else◌}

pub record Keyed {ℓ} (A : Type ℓ) : Type ℓ where
  pub key : A → ℕ

module _ {ℓ} {A : Type ℓ} ⦃k : Keyed A⦄ where
  unfoldable pub find : ℕ → List A → Option A
  find i [] = none
  find i (r ∷ rows) = if k.key r == i then some r else find i rows

  unfoldable pub modify : ℕ → (A → A) → List A → List A
  modify i f [] = []
  modify i f (r ∷ rows) = if k.key r == i then f r ∷ rows else r ∷ modify i f rows

  -- A measure summed over the table.
  unfoldable pub sum_of : (A → ℕ) → List A → ℕ
  sum_of w [] = 0
  sum_of w (r ∷ rows) = w r + sum_of w rows

  -- The row of a unique column: the first that passes a test.
  unfoldable pub first_where : (A → Bool) → List A → Option A
  first_where p [] = none
  first_where p (r ∷ rows) = if p r then some r else first_where p rows

  -- No two rows share a key.
  abbrev pub UniqueKeys : List A → Type ℓ
  UniqueKeys [] = Unit
  UniqueKeys (r ∷ rows) = (find (k.key r) rows ≡ none) × UniqueKeys rows

  pub find-first_where :
      (p : A → Bool) (r : A) (rows : List A)
      → UniqueKeys rows
      → first_where p rows ≡ some r
      → find (k.key r) rows ≡ some r
  unfolding find first_where
  find-first_where p r [] u e = cc
  find-first_where p r (x ∷ rows) u e = ground (arith, find-first_where p r rows u.1)

  pub first_where-holds :
      (p : A → Bool) (r : A) (rows : List A) → first_where p rows ≡ some r → p r ≡ true
  unfolding first_where
  first_where-holds p r [] e = cc
  first_where-holds p r (x ∷ rows) e = ground (arith, first_where-holds p r rows)

  -- A row that passes the test is there to be found.
  pub first_where_total :
      (p : A → Bool) (i : ℕ) (r : A) (rows : List A)
      → find i rows ≡ some r
      → p r ≡ true
      → (x : A) × (first_where p rows ≡ some x)
  unfolding find first_where
  first_where_total p i r [] e h = absurd (cc)
  first_where_total p i r (x ∷ rows) e h = elim (Bool-cases (p x)) [
    | inl passes ↦ (x, rw passes refl)
    | inr fails ↦
        let (y, found) = first_where_total p i r rows (ground arith) h in (y, rw fails found)
  ]

  pub find_key : (i : ℕ) (r : A) (rows : List A) → find i rows ≡ some r → k.key r ≡ i
  unfolding find
  find_key i r [] e = cc
  find_key i r (x ∷ rows) e = ground (arith, find_key i r rows)

  pub find-modify_self :
      (i : ℕ) (f : A → A) (r : A) (rows : List A)
      → k.key (f r) ≡ k.key r
      → find i rows ≡ some r
      → find i (modify i f rows) ≡ some (f r)
  unfolding find modify
  find-modify_self i f r [] h e = cc
  find-modify_self i f r (x ∷ rows) h e = ground (arith, find-modify_self i f r rows h)

  pub find-modify_ne :
      (i j : ℕ) (f : A → A) (rows : List A)
      → ((r : A) → k.key (f r) ≡ k.key r)
      → i ≢ j
      → find j (modify i f rows) ≡ find j rows
  unfolding find modify
  find-modify_ne i j f [] h ne = refl
  find-modify_ne i j f (x ∷ rows) h ne = ground (arith, h x, find-modify_ne i j f rows h ne)

  pub modify_head :
      (i : ℕ) (f : A → A) (r : A) (rows : List A) → k.key r ≡ i → modify i f (r ∷ rows) ≡ f r ∷ rows
  unfolding modify
  modify_head i f r rows e = ground arith

  pub find-modify-none :
      (i j : ℕ) (f : A → A) (rows : List A)
      → ((r : A) → k.key (f r) ≡ k.key r)
      → find j rows ≡ none
      → find j (modify i f rows) ≡ none
  unfolding find modify
  find-modify-none i j f [] h e = refl
  find-modify-none i j f (x ∷ rows) h e = ground (arith, h x, find-modify-none i j f rows h)

  -- What is found after an update: the row that was updated, or another that is as before.
  pub find-modify_cases :
      (i j : ℕ) (f : A → A) (r x : A) (rows : List A)
      → ((r : A) → k.key (f r) ≡ k.key r)
      → find i rows ≡ some r
      → find j (modify i f rows) ≡ some x
      → ((i ≡ j) × (x ≡ f r)) ⊎ ((i ≢ j) × (find j rows ≡ some x))
  find-modify_cases i j f r x rows h e found = elim (Bool-cases (i == j)) [
    | inl same ↦
        let eq : i ≡ j = omega (arith, ==-eq i j same) in
        inl (eq, cc (eq, find-modify_self i f r rows (h r) e))
    | inr other ↦
        let ne : i ≢ j = omega (arith, ==-ne i j other) in
        inr (ne, sym (find-modify_ne i j f rows h ne) ∙ found)
  ]

  pub find-cons_cases :
      (i : ℕ) (r x : A) (rows : List A)
      → find i (r ∷ rows) ≡ some x
      → ((k.key r ≡ i) × (x ≡ r)) ⊎ ((k.key r ≢ i) × (find i rows ≡ some x))
  unfolding find
  find-cons_cases i r x rows e = elim (Bool-cases (k.key r == i)) [
    | inl same ↦ inl (omega (arith, ==-eq (k.key r) i same), ground arith)
    | inr other ↦ inr (omega (arith, ==-ne (k.key r) i other), ground arith)
  ]

  pub find-cons_none :
      (i : ℕ) (r : A) (rows : List A)
      → find i (r ∷ rows) ≡ none
      → (k.key r ≢ i) × (find i rows ≡ none)
  unfolding find
  find-cons_none i r rows e = elim (Bool-cases (k.key r == i)) [
    | inl same ↦ ground arith
    | inr other ↦ (omega (arith, ==-ne (k.key r) i other), ground arith)
  ]

  -- What is missing after an update was missing before.
  pub find-unmodify :
      (i j : ℕ) (f : A → A) (rows : List A)
      → ((r : A) → k.key (f r) ≡ k.key r)
      → find j (modify i f rows) ≡ none
      → find j rows ≡ none
  unfolding find modify
  find-unmodify i j f [] h e = refl
  find-unmodify i j f (x ∷ rows) h e = ground (arith, h x, find-unmodify i j f rows h)

  pub modify_missing :
      (i : ℕ) (f : A → A) (rows : List A) → find i rows ≡ none → modify i f rows ≡ rows
  unfolding find modify
  modify_missing i f [] e = refl
  modify_missing i f (x ∷ rows) e = ground (arith, modify_missing i f rows)

  pub le-sum_of :
      (w : A → ℕ) (i : ℕ) (r : A) (rows : List A) → find i rows ≡ some r → w r ≤ sum_of w rows
  unfolding find sum_of
  le-sum_of w i r [] e = cc
  le-sum_of w i r (x ∷ rows) e = ground (arith, le-sum_of w i r rows)

  -- An update moves the sum by the change at the row it finds.
  pub sum_of-modify :
      (w : A → ℕ) (i : ℕ) (f : A → A) (r : A) (rows : List A)
      → find i rows ≡ some r
      → sum_of w (modify i f rows) + w r ≡ sum_of w rows + w (f r)
  unfolding find modify sum_of
  sum_of-modify w i f r [] e = cc
  sum_of-modify w i f r (x ∷ rows) e = ground (arith, sum_of-modify w i f r rows)

  pub modify-UniqueKeys :
      (i : ℕ) (f : A → A) (rows : List A)
      → ((r : A) → k.key (f r) ≡ k.key r)
      → UniqueKeys rows
      → UniqueKeys (modify i f rows)
  unfolding find modify
  modify-UniqueKeys i f [] h u = tt
  modify-UniqueKeys i f (x ∷ rows) h u =
      ground (arith, h x, modify-UniqueKeys i f rows h u.1, find-modify-none i (k.key x) f rows h)

  find-filter-none :
      (p : A → Bool) (i : ℕ) (rows : List A) → find i rows ≡ none → find i (filter p rows) ≡ none
  unfolding find
  find-filter-none p i [] e = refl
  find-filter-none p i (x ∷ rows) e = ground (arith, find-filter-none p i rows)

  pub filter-UniqueKeys :
      (p : A → Bool) (rows : List A) → UniqueKeys rows → UniqueKeys (filter p rows)
  unfolding find
  filter-UniqueKeys p [] u = tt
  filter-UniqueKeys p (x ∷ rows) u =
      ground (arith, filter-UniqueKeys p rows u.1, find-filter-none p (k.key x) rows u.0)

  find_head : (x : A) (rows : List A) → find (k.key x) (x ∷ rows) ≡ some x
  unfolding find
  find_head x rows = ground arith

  find_tail :
      (i : ℕ) (x y : A) (rows : List A)
      → find (k.key x) rows ≡ none
      → find i rows ≡ some y
      → find i (x ∷ rows) ≡ some y
  unfolding find
  find_tail i x y rows u e = elim (Bool-cases (k.key x == i)) [
    | inl same ↦
        let eq : k.key x ≡ i = omega (arith, ==-eq (k.key x) i same) in
        let gone : find i rows ≡ none = subst (λ j. find j rows ≡ none) eq u in cc
    | inr other ↦ rw other e
  ]

  -- A selection of rows of a table: each is found under its key and passes the test.
  pub filter-found :
      (p : A → Bool) (rows big : List A)
      → UniqueKeys rows
      → ((i : ℕ) (x : A) → find i rows ≡ some x → find i big ≡ some x)
      → All (λ x. (find (k.key x) big ≡ some x) × (p x ≡ true)) (filter p rows)
  filter-found p [] big u h = tt
  filter-found p (x ∷ rows) big u h =
      let rest = filter-found p rows big u.1 λ i y e. h i y (find_tail i x y rows u.0 e) in
      elim (Bool-cases (p x)) [
        | inl passes ↦ rw passes ((h (k.key x) x (find_head x rows), passes), rest)
        | inr fails ↦ rw fails rest
      ]
