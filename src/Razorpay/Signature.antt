-- ===== src/Razorpay/Signature.antt =====
-- packages/razorpay/client.py: the checks of the signatures of payments and webhooks.
pub mod Genuine
use mandate_razorpay_control.Prelude.{
  ℕ, Bool, true, false, ◌&&◌, ◌||◌, Option, none, some, List, [], ◌∷◌, ◌++◌, ltb, if◌then◌else◌,
}
use mandate_razorpay_control.Prelude.Text.{text_eq, is_empty}

-- `hmac.new(key, message, sha256).hexdigest()` of the standard library, on the code points of the
-- texts.
abbrev pub Hmac : Type 0
Hmac = List ℕ → List ℕ → List ℕ

unfoldable pub is_ascii : List ℕ → Bool
is_ascii [] = true
is_ascii (c ∷ s) = ltb c 128 && is_ascii s

-- `hmac.compare_digest` on two texts; `none` is its TypeError where one is not ASCII.
unfoldable pub compare_digest : List ℕ → List ℕ → Option Bool
unfolding is_ascii text_eq
compare_digest a b = if is_ascii a && is_ascii b then some (text_eq a b) else none

-- `secret or default`
abbrev pub secret_or : Option (List ℕ) → List ℕ → List ℕ
secret_or none default = default
secret_or (some []) default = default
secret_or (some (c ∷ s)) default = c ∷ s

-- The body of both checks, on a message.
unfoldable pub verify_message : Hmac → List ℕ → List ℕ → List ℕ → Option Bool
unfolding compare_digest
verify_message hmac active_secret message signature =
    if is_empty active_secret || is_empty signature
    then some false
    else compare_digest (hmac active_secret message) signature

abbrev pub payment_message : List ℕ → List ℕ → List ℕ
payment_message order_id payment_id = order_id ++ (b'|' ∷ payment_id)

-- The key of the client stands in for a secret that is not given.
unfoldable pub verify_payment_signature :
    Hmac → List ℕ → Option (List ℕ) → List ℕ → List ℕ → List ℕ → Option Bool
unfolding verify_message
verify_payment_signature hmac key_secret secret order_id payment_id signature =
    verify_message hmac (secret_or secret key_secret) (payment_message order_id payment_id)
      signature

unfoldable pub verify_webhook_signature :
    Hmac → List ℕ → Option (List ℕ) → List ℕ → List ℕ → Option Bool
unfolding verify_message
verify_webhook_signature hmac webhook_secret secret content signature =
    verify_message hmac (secret_or secret webhook_secret) content signature
