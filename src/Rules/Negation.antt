-- ===== src/Rules/Negation.antt =====
-- Negation in the conditions of pkg/rules/sql.go, errors included.
use emqx_go.Base.{◌≡◌, refl, sym, ap, ◌∙◌, true, false, ok, err, panic}
use emqx_go.Rules.Values.{
  RuleContext, Libraries, and_condition, or_condition, not_condition, Conditions, end, next,
}
use emqx_go.Rules.Conditions.{
  Evaluated, negated, and_then, or_then, evaluate, evaluate_all, evaluate_any,
}

abbrev pub negate_all : Conditions → Conditions
negate_all end = end
negate_all (next c cs) = next (not_condition c) (negate_all cs)

or_then-negated : (a b : Evaluated) → or_then (negated a) (negated b) ≡ negated (and_then a b)
or_then-negated (ok true) b = refl
or_then-negated (ok false) b = refl
or_then-negated (err x) b = refl
or_then-negated panic b = refl

and_then-negated : (a b : Evaluated) → and_then (negated a) (negated b) ≡ negated (or_then a b)
and_then-negated (ok true) b = refl
and_then-negated (ok false) b = refl
and_then-negated (err x) b = refl
and_then-negated panic b = refl

module _ (lib : Libraries) (ctx : RuleContext) where
  evaluate_any-negate_all :
      (cs : Conditions) → evaluate_any lib ctx (negate_all cs) ≡ negated (evaluate_all lib ctx cs)
  unfolding evaluate
  evaluate_any-negate_all end = refl
  evaluate_any-negate_all (next c cs) =
      ap (or_then (negated (evaluate lib ctx c))) (evaluate_any-negate_all cs)
      ∙ or_then-negated (evaluate lib ctx c) (evaluate_all lib ctx cs)

  evaluate_all-negate_all :
      (cs : Conditions) → evaluate_all lib ctx (negate_all cs) ≡ negated (evaluate_any lib ctx cs)
  unfolding evaluate
  evaluate_all-negate_all end = refl
  evaluate_all-negate_all (next c cs) =
      ap (and_then (negated (evaluate lib ctx c))) (evaluate_all-negate_all cs)
      ∙ and_then-negated (evaluate lib ctx c) (evaluate_any lib ctx cs)

-- NOT of a conjunction evaluates as the disjunction of the negations, and NOT of a disjunction as their
-- conjunction, on every message: to the same truth value, or to the same error.
pub evaluate-not :
    (lib : Libraries) (ctx : RuleContext) (cs : Conditions)
    → (evaluate lib ctx (not_condition (and_condition cs))
        ≡ evaluate lib ctx (or_condition (negate_all cs)))
      × (evaluate lib ctx (not_condition (or_condition cs))
          ≡ evaluate lib ctx (and_condition (negate_all cs)))
unfolding evaluate
evaluate-not lib ctx cs =
    (sym (evaluate_any-negate_all lib ctx cs), sym (evaluate_all-negate_all lib ctx cs))
