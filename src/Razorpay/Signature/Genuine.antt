-- ===== src/Razorpay/Signature/Genuine.antt =====
-- packages/razorpay/client.py: which signatures pass.
use mandate_razorpay_control.Prelude.{
  ℕ, ◌≡◌, ◌≢◌, refl, ◌↔◌, true, false, Option, some, List, [], ◌∷◌, All, sym, ◌∙◌, arith,
}
use mandate_razorpay_control.Prelude.Text.{text_eq-eq, text_eq_refl, is_empty}
use mandate_razorpay_control.Razorpay.Signature.{
  Hmac, is_ascii, compare_digest, secret_or, payment_message, verify_message,
  verify_payment_signature,
}

-- A hexadecimal digest is a text of ASCII that is not empty.
abbrev pub IsHex : Hmac → Type 0
IsHex hmac =
    (secret message : List ℕ)
    → (is_ascii (hmac secret message) ≡ true) × (is_empty (hmac secret message) ≡ false)

module _ (hmac : Hmac) (hex : IsHex hmac) (secret message signature : List ℕ) where
  verify_message_iff :
      (verify_message hmac secret message signature ≡ some true)
      ↔ ((is_empty secret ≡ false) × (signature ≡ hmac secret message))
  unfolding verify_message compare_digest
  verify_message_iff = (
    λ h. (ground arith, sym (text_eq-eq (hmac secret message) signature (ground arith))),
    λ v.
        let (ascii, filled) = hex secret message in
        rw v.1 (ground (arith, v.0, ascii, filled, text_eq_refl (hmac secret message))),
  )

-- An identifier does not hold the separator.
abbrev pub HasNoBar : List ℕ → Type 0
HasNoBar = All (λ c. c ≢ b'|')

payment_message-injective :
    (order order' payment payment' : List ℕ)
    → HasNoBar order
    → HasNoBar order'
    → payment_message order payment ≡ payment_message order' payment'
    → (order ≡ order') × (payment ≡ payment')
payment_message-injective [] [] payment payment' n n' e = (refl, cc)
payment_message-injective [] (d ∷ order') payment payment' n n' e = absurd (ground arith)
payment_message-injective (c ∷ order) [] payment payment' n n' e = absurd (ground arith)
payment_message-injective (c ∷ order) (d ∷ order') payment payment' n n' e =
    let (same, rest) = payment_message-injective order order' payment payment' n.1 n'.1 (cc) in
    (cc (same, e), rest)

module _ (hmac : Hmac) (hex : IsHex hmac) (key_secret : List ℕ) (secret : Option (List ℕ)) where
  -- A payment's signature passes just if there is a secret and it is the digest of the two
  -- identifiers.
  pub verify_payment_signature_iff :
      (order payment signature : List ℕ)
      → (verify_payment_signature hmac key_secret secret order payment signature ≡ some true) ↔ (
          (is_empty (secret_or secret key_secret) ≡ false)
          × (signature ≡ hmac (secret_or secret key_secret) (payment_message order payment)))
  unfolding verify_payment_signature
  verify_payment_signature_iff order payment signature =
      verify_message_iff hmac hex (secret_or secret key_secret) (payment_message order payment)
        signature

  -- A signature that passes for two payments, whose orders hold no separator, passes for one: where
  -- the two messages do not collide, the orders are the same, and the payments.
  pub verify_payment_signature_unique :
      (order order' payment payment' signature : List ℕ)
      → HasNoBar order
      → HasNoBar order'
      → (hmac (secret_or secret key_secret) (payment_message order payment)
            ≡ hmac (secret_or secret key_secret) (payment_message order' payment')
          → payment_message order payment ≡ payment_message order' payment')
      → verify_payment_signature hmac key_secret secret order payment signature ≡ some true
      → verify_payment_signature hmac key_secret secret order' payment' signature ≡ some true
      → (order ≡ order') × (payment ≡ payment')
  verify_payment_signature_unique order order' payment payment' signature n n' collide h h' =
      payment_message-injective order order' payment payment' n n' (
        collide (
          sym ((verify_payment_signature_iff order payment signature).0 h).1
          ∙ ((verify_payment_signature_iff order' payment' signature).0 h').1))
