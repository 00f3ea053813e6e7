-- ===== src/Shared/Auth.antt =====
-- packages/shared/auth.py: which agent a caller is. A header that is absent or empty is `none`, and
-- an empty text counts as absent, as in the code's tests.
pub mod Authentic
use mandate_razorpay_control.Prelude.{
  ℕ, zero, suc, Bool, true, false, not, ◌&&◌, ◌||◌, Option, none, some, List, [], ◌∷◌, ◌++◌, find,
  first_where, ◌==◌, leb, if◌then◌else◌,
}
use mandate_razorpay_control.Prelude.Text.{text_eq}
use mandate_razorpay_control.Core.Enums.{is_active_agent}
use mandate_razorpay_control.Core.Models.{Agent, agent_key}
use mandate_razorpay_control.Core.Database.{
  Db, Exception, Detail, Result, ok, err, ◌>>=◌, ◌>>◌, raise_if, or_raise,
}

-- What the standard library computes from a text, the identifiers as texts, and whether the
-- settings name the production environment.
pub record Environment : Type 0 where
  -- `hashlib.sha256(text.encode("utf-8")).hexdigest()`
  pub sha256 : List ℕ → List ℕ
  pub id_text : ℕ → List ℕ
  pub is_production : Bool

pub record Headers : Type 0 where
  pub x_agent_key : Option (List ℕ)
  pub authorization : Option (List ℕ)
  pub x_agent_id : Option ℕ

-- `text if text else None`
unfoldable pub present : Option (List ℕ) → Option (List ℕ)
present none = none
present (some []) = none
present (some (c ∷ s)) = some (c ∷ s)

-- The white space that `str.strip` takes off.
abbrev is_space : ℕ → Bool
is_space c =
    (leb 9 c && leb c 13)
    || (leb 28 c && leb c 32)
    || c == 133
    || c == 160
    || c == 5760
    || (leb 8192 c && leb c 8202)
    || (leb 8232 c && leb c 8233)
    || c == 8239
    || c == 8287
    || c == 12288

unfoldable pub lstrip : List ℕ → List ℕ
lstrip [] = []
lstrip (c ∷ s) = if is_space c then lstrip s else c ∷ s

unfoldable pub rstrip : List ℕ → List ℕ
rstrip [] = []
rstrip (c ∷ s) = elim (rstrip s) [ [] ↦ if is_space c then [] else c ∷ [] | d ∷ t ↦ c ∷ d ∷ t ]

-- "Bearer "
abbrev pub bearer_prefix : List ℕ
bearer_prefix = b'B' ∷ b'e' ∷ b'a' ∷ b'r' ∷ b'e' ∷ b'r' ∷ b' ' ∷ []

-- What follows a prefix that the text starts with.
unfoldable pub after_prefix : List ℕ → List ℕ → Option (List ℕ)
after_prefix [] s = some s
after_prefix (p ∷ prefix) [] = none
after_prefix (p ∷ prefix) (c ∷ s) =
    let rest = after_prefix prefix s in if p == c then rest else none

abbrev token_or : Option (List ℕ) → List ℕ → List ℕ
token_or (some rest) auth = rstrip (lstrip rest)
token_or none auth = auth

unfoldable pub bearer_token : Option (List ℕ) → Option (List ℕ)
unfolding present after_prefix lstrip rstrip
bearer_token none = none
bearer_token (some auth) = some (token_or (after_prefix bearer_prefix auth) auth)

abbrev or_else : Option (List ℕ) → Option (List ℕ) → Option (List ℕ)
or_else (some key) other = some key
or_else none other = other

-- `raw_key or bearer_token`, where it is not empty.
unfoldable pub active_key : Headers → Option (List ℕ)
unfolding present bearer_token
active_key headers =
    or_else (present headers.x_agent_key) (present (bearer_token (present headers.authorization)))

-- "hash_"
abbrev pub hash_prefix : List ℕ
hash_prefix = b'h' ∷ b'a' ∷ b's' ∷ b'h' ∷ b'_' ∷ []

-- The condition of the query.
unfoldable pub resolves : Environment → List ℕ → Agent → Bool
unfolding text_eq
resolves e key a =
    text_eq a.api_key_hash key
    || text_eq a.api_key_hash (hash_prefix ++ key)
    || text_eq a.api_key_hash (e.sha256 key)
    || text_eq (e.id_text a.id) key

-- `active_agent_id and agent.id != active_agent_id`
abbrev pub is_mismatch : Option ℕ → Agent → Bool
is_mismatch none a = false
is_mismatch (some i) a = not (a.id == i)

-- The query has no order, so the row is the first in whatever order the table has: which agent a key
-- stands for is settled only where the key belongs to one agent.
unfoldable pub by_key : Environment → List ℕ → Option ℕ → Db → Result (Option Agent)
unfolding resolves
by_key e key agent_id db = do
  agent ←
      or_raise (first_where (resolves e key) db.agents) (Exception.unauthorized Detail.invalid_key)
  raise_if (not (is_active_agent agent.status)) (Exception.forbidden Detail.inactive_agent)
  raise_if (is_mismatch agent_id agent) (Exception.forbidden Detail.identity_mismatch)
  ok (some agent)

unfoldable pub by_id : ℕ → Db → Result (Option Agent)
by_id i db = do
  agent ← or_raise (find i db.agents) (Exception.unauthorized Detail.agent_not_found)
  raise_if (not (is_active_agent agent.status)) (Exception.forbidden Detail.inactive_agent)
  ok (some agent)

unfoldable pub without_key : Bool → Result (Option Agent)
without_key required = do
  raise_if required (Exception.unauthorized Detail.missing_credential)
  ok none

-- The path by identifier alone is open outside production.
unfoldable pub authenticate_by :
    Environment → Option (List ℕ) → Option ℕ → Bool → Db → Result (Option Agent)
unfolding by_key by_id without_key
authenticate_by e (some key) agent_id required db = by_key e key agent_id db
authenticate_by e none (some i) required db =
    if not e.is_production then by_id i db else without_key required
authenticate_by e none none required db = without_key required

unfoldable pub authenticate_agent_caller : Environment → Headers → Bool → Db → Result (Option Agent)
unfolding authenticate_by active_key
authenticate_agent_caller e headers required db =
    authenticate_by e (active_key headers) headers.x_agent_id required db

-- The dependency of a route that needs an agent.
unfoldable pub get_authenticated_agent : Environment → Headers → Db → Result Agent
unfolding authenticate_agent_caller
get_authenticated_agent e headers db = do
  agent ← authenticate_agent_caller e headers true db
  or_raise agent (Exception.unauthorized Detail.not_authenticated)
