-- ===== src/Shared/Auth/Authentic.antt =====
-- packages/shared/auth.py: who is authenticated.
use mandate_razorpay_control.Prelude.{
  ℕ, ◌≡◌, ◌≢◌, refl, ◌↔◌, ◌⊎◌, inl, inr, sym, subst, Bool, true, false, not, Option, none, some,
  List, ◌++◌, find, first_where, UniqueKeys, find-first_where, first_where-holds, first_where_total,
  find_key, Bool-cases, arith,
}
use mandate_razorpay_control.Prelude.Text.{text_eq, text_eq-eq, text_eq_refl}
use mandate_razorpay_control.Core.Enums.{AgentStatus, is_active_agent}
use mandate_razorpay_control.Core.Models.{Agent, agent_key}
use mandate_razorpay_control.Core.Database.{Db, ok}
use mandate_razorpay_control.Shared.Auth.{
  Environment, Headers, hash_prefix, resolves, is_mismatch, active_key, by_key, by_id, without_key,
  authenticate_by, authenticate_agent_caller,
}

-- The four ways in which a key belongs to an agent.
abbrev pub Proves : Environment → List ℕ → Agent → Type 0
Proves e key a =
    (a.api_key_hash ≡ key)
    ⊎ ((a.api_key_hash ≡ hash_prefix ++ key)
        ⊎ ((a.api_key_hash ≡ e.sha256 key) ⊎ (e.id_text a.id ≡ key)))

text_eq_iff : (s t : List ℕ) → (text_eq s t ≡ true) ↔ (s ≡ t)
text_eq_iff s t = (text_eq-eq s t, λ e. subst (λ x. text_eq s x ≡ true) e (text_eq_refl s))

resolves_iff :
    (e : Environment) (key : List ℕ) (a : Agent) → (resolves e key a ≡ true) ↔ Proves e key a
unfolding resolves
resolves_iff e key a = (
  λ h. ground (
    arith,
    text_eq_iff a.api_key_hash key,
    text_eq_iff a.api_key_hash (hash_prefix ++ key),
    text_eq_iff a.api_key_hash (e.sha256 key),
    text_eq_iff (e.id_text a.id) key,
  ),
  λ h. ground (
    arith,
    text_eq_iff a.api_key_hash key,
    text_eq_iff a.api_key_hash (hash_prefix ++ key),
    text_eq_iff a.api_key_hash (e.sha256 key),
    text_eq_iff (e.id_text a.id) key,
  ),
)

-- The agent that a caller may act as.
pub record IsAuthentic (e : Environment) (headers : Headers) (db : Db) (a : Agent) : Type 0 where
  pub known : find a.id db.agents ≡ some a
  pub active : a.status ≡ AgentStatus.active
  pub asked : (i : ℕ) → headers.x_agent_id ≡ some i → a.id ≡ i
  pub proven :
      ((key : List ℕ) × (active_key headers ≡ some key) × Proves e key a)
      ⊎ ((active_key headers ≡ none) × (headers.x_agent_id ≡ some a.id) × (e.is_production ≡ false))

is_active_eq : (s : AgentStatus) → not (is_active_agent s) ≡ false → s ≡ AgentStatus.active
is_active_eq s h = ground arith

mismatch-eq : (o : Option ℕ) (a : Agent) (i : ℕ) → is_mismatch o a ≡ false → o ≡ some i → a.id ≡ i
mismatch-eq o a i h e = ground arith

by_key_inv :
    (e : Environment) (key : List ℕ) (i : Option ℕ) (db : Db) (a : Agent)
    → by_key e key i db ≡ ok (some a)
    → (first_where (resolves e key) db.agents ≡ some a)
      × (a.status ≡ AgentStatus.active)
      × (is_mismatch i a ≡ false)
unfolding by_key
by_key_inv e key i db a h = ground arith

by_id_inv :
    (i : ℕ) (db : Db) (a : Agent)
    → by_id i db ≡ ok (some a)
    → (find i db.agents ≡ some a) × (a.status ≡ AgentStatus.active)
unfolding by_id
by_id_inv i db a h = ground arith

without_key_inv : (required : Bool) (a : Agent) → without_key required ≢ ok (some a)
unfolding without_key
without_key_inv required a h = ground arith

module _ (e : Environment) (db : Db) (a : Agent) where
  -- What a success says of the agent, by the key and the identifier that were given.
  abbrev Sound : Option (List ℕ) → Option ℕ → Type 0
  Sound key i =
      (find a.id db.agents ≡ some a)
      × (a.status ≡ AgentStatus.active)
      × (is_mismatch i a ≡ false)
      × (((k : List ℕ) × (key ≡ some k) × Proves e k a)
          ⊎ ((key ≡ none) × (i ≡ some a.id) × (e.is_production ≡ false)))

  module _ (unique : UniqueKeys db.agents) where
    by_key-Sound :
        (key : List ℕ) (i : Option ℕ) → by_key e key i db ≡ ok (some a) → Sound (some key) i
    by_key-Sound key i h =
        let (first, active, same) = by_key_inv e key i db a h in
        (
          find-first_where _ a db.agents unique first,
          active,
          same,
          inl (key, refl, (resolves_iff e key a).0 (first_where-holds _ a db.agents first)),
        )

    by_id-Sound : (i : ℕ) → e.is_production ≡ false → by_id i db ≡ ok (some a) → Sound none (some i)
    by_id-Sound i open_path h =
        let (found, active) = by_id_inv i db a h in
        let same : a.id ≡ i = find_key i a db.agents found in
        (
          subst (λ j. find j db.agents ≡ some a) (sym same) found,
          active,
          ground arith,
          inr (refl, ground arith, open_path),
        )

    authenticate_by-Sound :
        (key : Option (List ℕ)) (i : Option ℕ) (required : Bool)
        → authenticate_by e key i required db ≡ ok (some a)
        → Sound key i
    unfolding authenticate_by
    authenticate_by-Sound (some key) i required h = by_key-Sound key i h
    authenticate_by-Sound none none required h = absurd (without_key_inv required a h)
    authenticate_by-Sound none (some i) required h = elim (Bool-cases e.is_production) [
      | inl closed ↦ absurd (without_key_inv required a (rw closed at h))
      | inr open_path ↦ by_id-Sound i open_path (rw open_path at h)
    ]

-- No key belongs to two agents of the table.
abbrev pub KeysIdentify : Environment → Db → Type 0
KeysIdentify e db =
    (key : List ℕ) (a b : Agent)
    → find a.id db.agents ≡ some a
    → find b.id db.agents ≡ some b
    → Proves e key a
    → Proves e key b
    → a ≡ b

module _ (e : Environment) (headers : Headers) (required : Bool) (db : Db) (a : Agent)
    (unique : UniqueKeys db.agents) where
  -- Where the caller is authenticated as an agent, it may act as that agent.
  pub authenticate-IsAuthentic :
      authenticate_agent_caller e headers required db ≡ ok (some a) → IsAuthentic e headers db a
  unfolding authenticate_agent_caller
  authenticate-IsAuthentic h =
      let (known, active, same, proven) =
        authenticate_by-Sound e db a unique (active_key headers) headers.x_agent_id required h in
      record {
        known = known;
        active = active;
        asked = λ i given. mismatch-eq headers.x_agent_id a i same given;
        proven = proven;
      }

  module _ (identify : KeysIdentify e db) (v : IsAuthentic e headers db a) where
    resolved : (key : List ℕ) → Proves e key a → first_where (resolves e key) db.agents ≡ some a
    resolved key p =
        let (b, first) =
          first_where_total (resolves e key) a.id a db.agents v.known
            ((resolves_iff e key a).1 p) in
        let same : b ≡ a =
          identify key b a (find-first_where _ b db.agents unique first) v.known
            ((resolves_iff e key b).0 (first_where-holds _ b db.agents first)) p in
        subst (λ x. first_where (resolves e key) db.agents ≡ some x) same first

    same_agent : (i : Option ℕ) → headers.x_agent_id ≡ i → is_mismatch i a ≡ false
    same_agent none given = refl
    same_agent (some i) given = ground (arith, v.asked i given)

    accepted : authenticate_agent_caller e headers required db ≡ ok (some a)
    unfolding authenticate_agent_caller authenticate_by by_key by_id
    accepted = elim v.proven [
      | inl (key, given, p) ↦
          ground (arith, given, resolved key p, v.active, same_agent headers.x_agent_id refl)
      | inr (absent, named, development) ↦
          ground (arith, absent, named, development, v.known, v.active)
    ]

  -- exactly when
  pub authenticate_iff :
      KeysIdentify e db
      → (authenticate_agent_caller e headers required db ≡ ok (some a)) ↔ IsAuthentic e headers db a
  authenticate_iff identify = (authenticate-IsAuthentic, accepted identify)
