-- ===== src/Core/Outcomes.antt =====
-- What holds of a handler's answer where it does not raise, and the rules for chains of steps.
use mandate_razorpay_control.Prelude.{
  ◌≡◌, refl, subst, Bool, true, false, Option, none, some, if◌then◌else◌,
}
use mandate_razorpay_control.Core.Database.{
  Exception, Result, ok, err, ◌>>=◌, ◌>>◌, or_raise, raise_if,
}

module _ {ℓ κ} {B : Type ℓ} (P : B → Type κ) where
  abbrev pub OnOk : Result B → Type κ
  OnOk (ok b) = P b
  OnOk (err e) = Unit

module _ {ℓ κ ι} {A : Type ι} {B : Type ℓ} (P : B → Type κ) where
  pub bind-OnOk :
      (m : Result A) (f : A → Result B) → ((a : A) → m ≡ ok a → OnOk P (f a)) → OnOk P (m >>= f)
  bind-OnOk (ok a) f h = h a refl
  bind-OnOk (err e) f h = tt

  pub or_raise-OnOk :
      (o : Option A) (e : Exception) (f : A → Result B)
      → ((a : A) → o ≡ some a → OnOk P (f a))
      → OnOk P (or_raise o e >>= f)
  or_raise-OnOk none e f h = tt
  or_raise-OnOk (some a) e f h = h a refl

module _ {ℓ κ} {B : Type ℓ} (P : B → Type κ) where
  pub raise_if-OnOk :
      (b : Bool) (e : Exception) (r : Result B)
      → (b ≡ false → OnOk P r)
      → OnOk P (raise_if b e >> r)
  raise_if-OnOk true e r h = tt
  raise_if-OnOk false e r h = h refl

  pub if-OnOk : (b : Bool) (r s : Result B) → OnOk P r → OnOk P s → OnOk P (if b then r else s)
  if-OnOk true r s h k = h
  if-OnOk false r s h k = k

module _ {ℓ κ ι} {B : Type ℓ} {P : B → Type κ} (Q : B → Type ι) (h : (b : B) → P b → Q b) where
  pub implied-OnOk : (r : Result B) → OnOk P r → OnOk Q r
  implied-OnOk (ok b) p = h b p
  implied-OnOk (err e) p = tt

module _ {ℓ κ} {B : Type ℓ} (P : B → Type κ) (b : B) where
  pub OnOk-answer : (r : Result B) → OnOk P r → r ≡ ok b → P b
  OnOk-answer r h e = subst (OnOk P) e h
