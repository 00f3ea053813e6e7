-- ===== src/Policy/Engine/Decision.antt =====
-- packages/policy/engine.py: the loop of `PolicyEngine.evaluate` against the severest decision of
-- its rules.
use mathlib.Core.List.{Perm, Permᴰ}
use mathlib.Core.Logic.{∥∥₁_elim}
use mandate_razorpay_control.Prelude.{
  ℕ, ◌≡◌, refl, sym, ap, ap₂, ◌∙◌, inl, inr, Option, none, some, List, [], ◌∷◌, arith, Option-cases,
}
use mandate_razorpay_control.Core.Enums.{PolicyDecisionType}
use mandate_razorpay_control.Policy.Rules.{Rule, Diagnostic, Inputs}
use mandate_razorpay_control.Policy.Engine.{
  EvaluationResult, Tally, engine_rules, evaluate_rule, start, tally, run_rules, evaluate,
}
use PolicyDecisionType.{allow, deny, require_human_review}

-- The severer of two decisions: a denial beats a review, a review beats an approval.
abbrev pub join : PolicyDecisionType → PolicyDecisionType → PolicyDecisionType
join deny e = deny
join allow e = e
join require_human_review deny = deny
join require_human_review _ = require_human_review

abbrev pub join? : Option PolicyDecisionType → Option PolicyDecisionType → Option PolicyDecisionType
join? none b = none
join? (some d) none = none
join? (some d) (some e) = some (join d e)

abbrev pub decision_of : Option Diagnostic → Option PolicyDecisionType
decision_of none = none
decision_of (some d) = some d.decision

-- The severest decision of a list of rules, `none` if one of them does not finish.
unfoldable pub severest : ℕ → Inputs → List Rule → Option PolicyDecisionType
severest fuel i [] = some allow
severest fuel i (r ∷ rules) = join? (decision_of (evaluate_rule fuel i r)) (severest fuel i rules)

abbrev final_of : Option Tally → Option PolicyDecisionType
final_of none = none
final_of (some t) = some t.final_decision

abbrev pub decision_in : Option EvaluationResult → Option PolicyDecisionType
decision_in none = none
decision_in (some r) = some r.decision

join?_assoc : (a b c : Option PolicyDecisionType) → join? (join? a b) c ≡ join? a (join? b c)
join?_assoc a b c = ground arith

join?_left_comm : (a b c : Option PolicyDecisionType) → join? a (join? b c) ≡ join? b (join? a c)
join?_left_comm a b c = ground arith

join?_allow : (a : Option PolicyDecisionType) → join? (some allow) a ≡ a
join?_allow a = ground arith

tally-join :
    (d : Diagnostic) (t : Tally) → (tally d t).final_decision ≡ join t.final_decision d.decision
unfolding tally
tally-join d t = ground arith

run_rules-severest :
    (fuel : ℕ) (i : Inputs) (rules : List Rule) (t : Tally)
    → final_of (run_rules fuel i rules t) ≡ join? (some t.final_decision) (severest fuel i rules)
unfolding run_rules severest
run_rules-severest fuel i [] t = ground arith
run_rules-severest fuel i (r ∷ rules) t = elim (Option-cases (evaluate_rule fuel i r)) [
  | inl e ↦ rw (e, run_rules) refl
  | inr (d, e) ↦
      rw (e, run_rules)
        (run_rules-severest fuel i rules (tally d t)
          ∙ ap (λ x. join? (some x) (severest fuel i rules)) (tally-join d t)
          ∙ join?_assoc (some t.final_decision) (some d.decision) (severest fuel i rules))
]

-- The engine's decision is the severest of its rules' decisions: it denies if a rule denies, asks
-- for a review if none denies and one asks for it, and approves if all approve. It has no result
-- just if a rule's walk does not finish.
pub evaluate-severest :
    (fuel : ℕ) (rules : List Rule) (i : Inputs)
    → decision_in (evaluate fuel rules i) ≡ severest fuel i (engine_rules rules)
unfolding evaluate
evaluate-severest fuel rules i = elim (Option-cases (run_rules fuel i (engine_rules rules) start)) [
  | inl e ↦ rw (e, evaluate) (ap final_of (sym e) ∙ loop)
  | inr (t, e) ↦ rw (e, evaluate) (ap final_of (sym e) ∙ loop)
]
  where
    loop :
        final_of (run_rules fuel i (engine_rules rules) start)
        ≡ severest fuel i (engine_rules rules)
    loop = run_rules-severest fuel i (engine_rules rules) start ∙ join?_allow _

severest-Permᴰ :
    (fuel : ℕ) (i : Inputs) {rs ss : List Rule}
    → Permᴰ rs ss
    → severest fuel i rs ≡ severest fuel i ss
unfolding severest
severest-Permᴰ fuel i Permᴰ.nil = refl
severest-Permᴰ fuel i (Permᴰ.cons e p) = cc (e, severest-Permᴰ fuel i p)
severest-Permᴰ fuel i (Permᴰ.swap {a = a} {b = b} {a' = a'} {b' = b'} {l = l} e f) =
    join?_left_comm (answer a) (answer b) (severest fuel i l)
    ∙ ap₂ (λ x y. join? (answer x) (join? (answer y) (severest fuel i l))) f e
  where
    answer : Rule → Option PolicyDecisionType
    answer r = decision_of (evaluate_rule fuel i r)
severest-Permᴰ fuel i (Permᴰ.trans p q) = severest-Permᴰ fuel i p ∙ severest-Permᴰ fuel i q

decision-set : IsSet (Option PolicyDecisionType)
decision-set = hlevel

-- The order in which an engine is given its rules does not change its decision.
pub evaluate-perm :
    (fuel : ℕ) (rs ss : List Rule) (i : Inputs)
    → Perm (engine_rules rs) (engine_rules ss)
    → decision_in (evaluate fuel rs i) ≡ decision_in (evaluate fuel ss i)
evaluate-perm fuel rs ss i p =
    evaluate-severest fuel rs i
    ∙ ∥∥₁_elim p (decision-set _ _) (severest-Permᴰ fuel i)
    ∙ sym (evaluate-severest fuel ss i)
