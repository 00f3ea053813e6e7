-- ===== src/Prelude/Members.antt =====
-- Membership in a list, with the place kept.
use mathlib.Core.Path.{◌≡◌, refl, sym, ap, subst}
use mathlib.Core.Logic.{◌⊎◌, ◌↔◌, inl, inr}
use mathlib.Core.Bool.{Bool, true}
use mathlib.Core.List.{List, [], ◌∷◌, ◌++◌, map}
use native.Mathlib.Omega.{arith}
use mandate_razorpay_control.Prelude.Lists.{filter}
use mandate_razorpay_control.Prelude.Tests.{Bool-cases}

module _ {A : Type 0} where
  abbrev pub Member : A → List A → Type 0
  Member a [] = ⊥
  Member a (x ∷ xs) = (a ≡ x) ⊎ Member a xs

  pub Member-append : (a : A) (xs ys : List A) → Member a (xs ++ ys) ↔ (Member a xs ⊎ Member a ys)
  Member-append a [] ys =
      (λ h. inr h, λ h. elim h [ inl none_there ↦ absurd none_there | inr later ↦ later ])
  Member-append a (x ∷ xs) ys =
      let ih = Member-append a xs ys in
      (
        λ h. elim h [
          | inl here ↦ inl (inl here)
          | inr later ↦ elim (ih.0 later) [ inl first ↦ inl (inr first) | inr second ↦ inr second ]
        ],
        λ h. elim h [
          | inl first ↦ elim first [ inl here ↦ inl here | inr later ↦ inr (ih.1 (inl later)) ]
          | inr second ↦ inr (ih.1 (inr second))
        ],
      )

  pub Member-filter :
      (p : A → Bool) (a : A) (xs : List A) → Member a (filter p xs) ↔ (Member a xs × (p a ≡ true))
  Member-filter p a [] = (λ h. absurd h, λ h. h.0)
  Member-filter p a (x ∷ xs) =
      let ih = Member-filter p a xs in
      elim (Bool-cases (p x)) [
        | inl passes ↦ rw passes (
          λ h. elim h [
            | inl here ↦ (inl here, subst (λ y. p y ≡ true) (sym here) passes)
            | inr later ↦ (inr (ih.0 later).0, (ih.0 later).1)
          ],
          λ h. elim h.0 [ inl here ↦ inl here | inr later ↦ inr (ih.1 (later, h.1)) ],
        )
        | inr fails ↦ rw fails (
          λ h. (inr (ih.0 h).0, (ih.0 h).1),
          λ h. elim h.0 [
            | inl here ↦ absurd (ground (arith, subst (λ y. p y ≡ true) here h.1, fails))
            | inr later ↦ ih.1 (later, h.1)
          ],
        )
      ]

module _ {A B : Type 0} (f : A → B) where
  pub Member-map : (b : B) (xs : List A) → Member b (map f xs) → (a : A) × Member a xs × (b ≡ f a)
  Member-map b [] h = absurd h
  Member-map b (x ∷ xs) (inl here) = (x, inl refl, here)
  Member-map b (x ∷ xs) (inr later) =
      let (a, there, same) = Member-map b xs later in (a, inr there, same)

  pub map-Member : (a : A) (xs : List A) → Member a xs → Member (f a) (map f xs)
  map-Member a [] h = absurd h
  map-Member a (x ∷ xs) (inl here) = inl (ap f here)
  map-Member a (x ∷ xs) (inr later) = inr (map-Member a xs later)
