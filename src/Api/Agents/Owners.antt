-- ===== src/Api/Agents/Owners.antt =====
-- apps/api/routes/agents.py: the owner that a registration makes.
use text.Mathlib.TextPositions.{eq_refl}
use mandate_razorpay_control.Prelude.{ℕ, ◌≡◌, ◌≢◌, none, some, List, ◌∷◌, find, arith}
use mandate_razorpay_control.Core.Models.{Agent, principal_key}
use mandate_razorpay_control.Core.Database.{Db, Exception, ok, err}
use mandate_razorpay_control.Shared.Auth.{Environment}
use mandate_razorpay_control.Api.Agents.{
  Draws, demo_email, has_email, insert_principal, new_principal, resolve_owner, register_agent,
}

-- No principal stands under the owner of a registration, nor under the demo merchant.
abbrev IsUnknown : ℕ → ℕ → Db → Type 0
IsUnknown demo_owner owner db =
    (find owner db.principals ≡ none) × (find demo_owner db.principals ≡ none)

module _ (e : Environment) (demo_owner owner : ℕ) (draws : Draws) (name kind : List ℕ) (db db' : Db)
    (a : Agent) (unknown : IsUnknown demo_owner owner db)
    (registered : register_agent e demo_owner draws
        (record { name = name; owner_id = some owner; agent_type = kind })
        db
      ≡ ok (db', a)) where
  owner_made : db'.principals ≡ new_principal demo_owner (some owner) ∷ db.principals
  unfolding register_agent resolve_owner insert_principal
  owner_made = ground (arith, unknown.0, unknown.1)

  -- After a registration made the principal of an owner that was unknown, the registration under
  -- another unknown owner fails on the unique address, as long as there is no demo merchant.
  pub second_owner_fails :
      (other : ℕ) (draws' : Draws) (name' kind' : List ℕ)
      → other ≢ owner
      → demo_owner ≢ owner
      → find other db.principals ≡ none
      → register_agent e demo_owner draws'
          (record { name = name'; owner_id = some other; agent_type = kind' })
          db'
        ≡ err Exception.integrity_error
  unfolding register_agent resolve_owner insert_principal has_email find
  second_owner_fails other draws' name' kind' ne ne_demo missing =
      ground (arith, owner_made, unknown.1, missing, eq_refl demo_email)
