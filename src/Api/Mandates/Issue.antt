-- ===== src/Api/Mandates/Issue.antt =====
-- apps/api/routes/mandates.py: `create_mandate`, which issues a root mandate.
use Prim.Native.String.{String}
use mandate_razorpay_control.Prelude.{
  ℕ, Bool, ◌&&◌, ◌||◌, Option, none, some, List, [], ◌∷◌, ◌++◌, first_where, filter, leb, ◌==◌,
  if◌then◌else◌,
}
use mandate_razorpay_control.Prelude.Int.{ℤ, pos}
use mandate_razorpay_control.Prelude.Text.{upper, text_eq}
use mandate_razorpay_control.Core.Enums.{MandateStatus, AuditAction}
use mandate_razorpay_control.Core.Models.{Agent, Mandate, ResourceType, agent_key}
use mandate_razorpay_control.Core.Database.{
  Db, Exception, Detail, Result, ok, ◌>>=◌, or_raise, scalar_one_or_none, add_audit, audit,
}
use mandate_razorpay_control.Shared.Auth.{Environment, lstrip, rstrip, after_prefix}
use mandate_razorpay_control.Api.Mandates.{add_mandate}

pub record MandateCreate : Type 0 where
  pub agent_id : List ℕ
  pub granted_by_id : ℕ
  pub currency : List ℕ
  pub max_amount_per_op : ℕ
  pub aggregate_spend_limit : ℕ
  pub review_threshold_amount : Option ℤ
  pub allowed_operations : List String
  pub valid_until : ℕ

-- [a-zA-Z0-9_]
abbrev is_word : ℕ → Bool
is_word c =
    (leb b'a' c && leb c b'z')
    || (leb b'A' c && leb c b'Z')
    || (leb b'0' c && leb c b'9')
    || c == b'_'

unfoldable pub word_run : List ℕ → List ℕ
word_run [] = []
word_run (c ∷ s) = let rest = word_run s in if is_word c then c ∷ rest else []

-- "agt_"
abbrev agt_prefix : List ℕ
agt_prefix = b'a' ∷ b'g' ∷ b't' ∷ b'_' ∷ []

abbrev word_of : List ℕ → Option (List ℕ)
word_of [] = none
word_of (c ∷ s) = some (agt_prefix ++ (c ∷ s))

abbrev match_rest : Option (List ℕ) → Option (List ℕ)
match_rest none = none
match_rest (some rest) = word_of (word_run rest)

abbrev first_of : Option (List ℕ) → Option (List ℕ) → Option (List ℕ)
first_of (some m) later = some m
first_of none later = later

-- `re.search(r"(agt_[a-zA-Z0-9_]+)", text)`
unfoldable pub search_id : List ℕ → Option (List ℕ)
unfolding word_run after_prefix
search_id [] = none
search_id (c ∷ s) = first_of (match_rest (after_prefix agt_prefix (c ∷ s))) (search_id s)

abbrev or_cleaned : Option (List ℕ) → List ℕ → List ℕ
or_cleaned (some found) cleaned = found
or_cleaned none cleaned = cleaned

unfoldable pub target_lookup : List ℕ → List ℕ
unfolding search_id lstrip rstrip
target_lookup agent_id =
    let cleaned = rstrip (lstrip agent_id) in or_cleaned (search_id cleaned) cleaned

-- The agent by its identifier, or the one row that the pattern fits; `ilike` is the comparison of the
-- database, of a text with a pattern between two wildcards.
abbrev fits : Environment → (List ℕ → List ℕ → Bool) → List ℕ → Agent → Bool
fits e ilike target a =
    ilike a.name target || ilike (e.id_text a.id) target || ilike a.agent_type target

abbrev pub agent_or_search :
    Environment → (List ℕ → List ℕ → Bool) → List ℕ → Option Agent → Db → Result (Option Agent)
agent_or_search e ilike target (some a) db = ok (some a)
agent_or_search e ilike target none db = scalar_one_or_none (filter (fits e ilike target) db.agents)

unfoldable pub resolve_agent :
    Environment → (List ℕ → List ℕ → Bool) → List ℕ → Db → Result (Option Agent)
unfolding text_eq
resolve_agent e ilike target db =
    agent_or_search e ilike target (first_where (λ a. text_eq (e.id_text a.id) target) db.agents) db

-- The row, with the defaults of its columns.
abbrev pub root_mandate : ℕ → ℕ → Agent → MandateCreate → Mandate
root_mandate new_id now agent payload = record {
  id = new_id;
  agent_id = agent.id;
  granted_by_id = payload.granted_by_id;
  parent_mandate_id = none;
  delegation_depth = 0;
  max_delegation_depth = 2;
  status = MandateStatus.active;
  currency = upper payload.currency;
  max_amount_per_op = payload.max_amount_per_op;
  aggregate_spend_limit = payload.aggregate_spend_limit;
  current_aggregate_spend = pos 0;
  reserved_spend = pos 0;
  delegated_child_budget_allocated = 0;
  review_threshold_amount = payload.review_threshold_amount;
  allowed_operations = payload.allowed_operations;
  suspension_reason = none;
  version = 1;
  valid_from = now;
  valid_until = payload.valid_until;
  created_at = now;
}

-- The tables afterwards and the new mandate.
unfoldable pub create_mandate :
    Environment → (List ℕ → List ℕ → Bool) → ℕ → ℕ → MandateCreate → Db → Result (Db × Mandate)
unfolding target_lookup resolve_agent
create_mandate e ilike new_id now payload db = do
  found ← resolve_agent e ilike (target_lookup payload.agent_id) db
  agent ← or_raise found (Exception.not_found Detail.agent_not_found)
  let mandate = root_mandate new_id now agent payload
  ok (
    add_audit
        (audit AuditAction.mandate_created ResourceType.mandate mandate.id
          (some mandate.aggregate_spend_limit))
        (add_mandate mandate db),
    mandate,
  )
