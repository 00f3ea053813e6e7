-- ===== src/Prelude/Text.antt =====
-- Texts that the program walks, as lists of code points, and membership among names.
use Prim.Native.String.{String}
use text.Mathlib.Text.{◌==◌ as str_eq}
use text.Mathlib.TextEquality.{eq_iff}
use Prim.Native.Nat.{ℕ, ◌+◌, ◌-◌}
use mathlib.Core.Path.{◌≡◌, refl}
use mathlib.Core.Bool.{Bool, true, false, ◌&&◌, ◌||◌}
use mathlib.Core.List.{List, [], ◌∷◌, map}
use native.Mathlib.Omega.{arith}
use mandate_razorpay_control.Prelude.Tests.{leb, ◌==◌, if◌then◌else◌}

-- `str.upper`, on the letters of ASCII.
unfoldable pub to_upper : ℕ → ℕ
to_upper c = if leb b'a' c && leb c b'z' then c - 32 else c

unfoldable pub upper : List ℕ → List ℕ
unfolding to_upper
upper = map to_upper

-- `str.lower`, on the letters of ASCII.
unfoldable pub to_lower : ℕ → ℕ
to_lower c = if leb b'A' c && leb c b'Z' then c + 32 else c

unfoldable pub lower : List ℕ → List ℕ
unfolding to_lower
lower = map to_lower

abbrev begins : List ℕ → List ℕ → Bool
begins [] s = true
begins (c ∷ w) [] = false
begins (c ∷ w) (d ∷ s) = c == d && begins w s

-- `w in s`
unfoldable pub contains : List ℕ → List ℕ → Bool
contains w [] = begins w []
contains w (c ∷ s) = begins w (c ∷ s) || contains w s

unfoldable pub text_eq : List ℕ → List ℕ → Bool
text_eq [] [] = true
text_eq (c ∷ s) (d ∷ t) = c == d && text_eq s t
text_eq _ _ = false

pub text_eq-eq : (s t : List ℕ) → text_eq s t ≡ true → s ≡ t
unfolding text_eq
text_eq-eq [] [] h = refl
text_eq-eq [] (d ∷ t) h = cc
text_eq-eq (c ∷ s) [] h = cc
text_eq-eq (c ∷ s) (d ∷ t) h = ground (arith, text_eq-eq s t)

pub text_eq_refl : (s : List ℕ) → text_eq s s ≡ true
unfolding text_eq
text_eq_refl [] = refl
text_eq_refl (c ∷ s) = ground (arith, text_eq_refl s)

-- `name in names`
unfoldable pub elem : String → List String → Bool
elem name [] = false
elem name (n ∷ names) = str_eq name n || elem name names

-- `not names`
abbrev pub is_empty {ℓ} : {A : Type ℓ} → List A → Bool
is_empty [] = true
is_empty (_ ∷ _) = false

-- Every name of the first list is one of the second.
unfoldable pub all_in : List String → List String → Bool
all_in [] names = true
all_in (n ∷ rest) names = elem n names && all_in rest names

pub elem-all_in :
    (name : String) (xs ys : List String)
    → all_in xs ys ≡ true
    → elem name xs ≡ true
    → elem name ys ≡ true
unfolding elem all_in
elem-all_in name [] ys h e = cc
elem-all_in name (x ∷ xs) ys h e = ground (arith, eq_iff name x, elem-all_in name xs ys)
