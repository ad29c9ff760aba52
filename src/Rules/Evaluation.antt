-- ===== src/Rules/Evaluation.antt =====
-- No condition of pkg/rules/sql.go makes its evaluation panic.
use emqx_go.Base.{
  ◌≢◌, refl, Bool, true, false, Option, none, some, if◌then◌else◌, Text, codes, text_eq, drop,
  has_prefix, not, ◌||◌, Outcome, ok, err, panic, ◌>>=◌,
}
use emqx_go.Base.Map.{lookup, text_has_eq}
use emqx_go.Rules.Values.{
  unknown_field, unsupported_operator, Value, string, int, RuleContext, Libraries, EvaluationError,
  Operand, value, field_reference, SqlCondition, true_condition, and_condition, or_condition,
  not_condition, comparison, Conditions, end, next, Json, object, other,
}
use emqx_go.Rules.Conditions.{
  or_null, is_null, equals, less_than, greater_than, path_value, Evaluated, get_field_value,
  json_field, operand_value, compare_values, like_pattern, like, or_invalid, negated,
  evaluate_comparison, and_then, or_then, evaluate, evaluate_all, evaluate_any,
}

if-ne :
    {A : Type 0} (b : Bool) (x rest : Outcome EvaluationError A)
    → x ≢ panic
    → rest ≢ panic
    → (if b then x else rest) ≢ panic
if-ne true x rest n k = n
if-ne false x rest n k = k

if_ok-ne :
    {A : Type 0} (b : Bool) (v : A) (rest : Outcome EvaluationError A)
    → rest ≢ panic
    → (if b then ok v else rest) ≢ panic
if_ok-ne true v rest n = λ h. cc
if_ok-ne false v rest n = n

bind-ne {ℓ κ μ} :
    {E : Type κ} {A : Type ℓ} {B : Type μ} (m : Outcome E A) (f : A → Outcome E B)
    → m ≢ panic
    → ((a : A) → f a ≢ panic)
    → (m >>= f) ≢ panic
bind-ne (ok a) f n k = k a
bind-ne (err e) f n k = λ h. cc
bind-ne panic f n k = absurd (n refl)

json_field-ne : (path : Text) (j : Option Json) → json_field path j ≢ panic
json_field-ne path none = λ h. cc
json_field-ne path (some (object m)) = λ h. cc
json_field-ne path (some other) = λ h. cc

or_invalid-ne : (b : Option Bool) → or_invalid b ≢ panic
or_invalid-ne none = λ h. cc
or_invalid-ne (some b) = λ h. cc

path_value-ne :
    (lib : Libraries) (ctx : RuleContext) (field : Text) → path_value lib ctx field ≢ panic
unfolding path_value
path_value-ne lib ctx field =
    if-ne (has_prefix field (codes "payload."))
      (json_field (drop 8 field) (lib.unmarshal ctx.payload)) _
      (json_field-ne (drop 8 field) (lib.unmarshal ctx.payload))
      (if_ok-ne (has_prefix field (codes "headers."))
        (or_null string (lookup (drop 8 field) ctx.headers)) _
        (if_ok-ne (has_prefix field (codes "metadata."))
          (or_null (λ v. v) (lookup (drop 9 field) ctx.metadata)) (err unknown_field) (λ h. cc)))

get_field_value-ne :
    (lib : Libraries) (ctx : RuleContext) (field : Text) → get_field_value lib ctx field ≢ panic
unfolding get_field_value
get_field_value-ne lib ctx field = if_ok-ne (text_eq field (codes "topic")) (string ctx.topic) _ (
    if_ok-ne (text_eq field (codes "qos")) (int ctx.qos) _ (
      if_ok-ne (text_eq field (codes "payload")) (string ctx.payload) _ (
        if_ok-ne (text_eq field (codes "clientid")) (string ctx.client_id) _ (
          if_ok-ne (text_eq field (codes "username")) (string ctx.username) _ (
            if_ok-ne (text_eq field (codes "timestamp")) (int ctx.seconds)
              (path_value lib ctx field) (path_value-ne lib ctx field))))))

negated-ne : (r : Evaluated) → r ≢ panic → negated r ≢ panic
negated-ne r n = bind-ne r _ n (λ b h. cc)

like-ne : (lib : Libraries) (a b : Value) → like lib a b ≢ panic
unfolding like
like-ne lib a b = or_invalid-ne (lib.match_string (like_pattern lib (lib.format b)) (lib.format a))

compare_values-ne :
    (lib : Libraries) (operator : Text) (a b : Value) → compare_values lib operator a b ≢ panic
unfolding compare_values
compare_values-ne lib operator a b =
    let same = equals lib a b in
    if_ok-ne (text_eq operator (codes "=")) same _ (
      if_ok-ne (text_eq operator (codes "!=") || text_eq operator (codes "<>")) (not same) _ (
        if_ok-ne (text_eq operator (codes "<")) (less_than lib a b) _ (
          if_ok-ne (text_eq operator (codes "<=")) (less_than lib a b || same) _ (
            if_ok-ne (text_eq operator (codes ">")) (greater_than lib a b) _ (
              if_ok-ne (text_eq operator (codes ">=")) (greater_than lib a b || same) _ (
                if-ne (text_eq operator (codes "LIKE")) (like lib a b) _ (like-ne lib a b) (
                  if-ne (text_eq operator (codes "NOT LIKE")) (negated (like lib a b)) _
                    (negated-ne (like lib a b) (like-ne lib a b))
                    (if_ok-ne (text_eq operator (codes "IS NULL")) (is_null a) _ (
                      if_ok-ne (text_eq operator (codes "IS NOT NULL")) (not (is_null a))
                        (err unsupported_operator) (λ h. cc))))))))))

operand_value-ne :
    (lib : Libraries) (ctx : RuleContext) (o : Operand) → operand_value lib ctx o ≢ panic
operand_value-ne lib ctx (value v) = λ h. cc
operand_value-ne lib ctx (field_reference f) = get_field_value-ne lib ctx f

evaluate_comparison-ne :
    (lib : Libraries) (ctx : RuleContext) (field operator : Text) (operand : Operand)
    → evaluate_comparison lib ctx field operator operand ≢ panic
unfolding evaluate_comparison
evaluate_comparison-ne lib ctx field operator operand =
    bind-ne (get_field_value lib ctx field) _ (get_field_value-ne lib ctx field) (λ a.
      bind-ne (operand_value lib ctx operand) _ (operand_value-ne lib ctx operand)
        (λ b. compare_values-ne lib operator a b))

and_then-ne : (a b : Evaluated) → a ≢ panic → b ≢ panic → and_then a b ≢ panic
and_then-ne (ok true) b p q = q
and_then-ne (ok false) b p q = p
and_then-ne (err x) b p q = p
and_then-ne panic b p q = p

or_then-ne : (a b : Evaluated) → a ≢ panic → b ≢ panic → or_then a b ≢ panic
or_then-ne (ok true) b p q = p
or_then-ne (ok false) b p q = q
or_then-ne (err x) b p q = p
or_then-ne panic b p q = p

-- The evaluation of a condition does not panic.
mutual
  unfolding evaluate

  pub evaluate-ne :
      (lib : Libraries) (ctx : RuleContext) (c : SqlCondition) → evaluate lib ctx c ≢ panic
  evaluate-ne lib ctx true_condition = λ h. cc
  evaluate-ne lib ctx (and_condition cs) = evaluate_all-ne lib ctx cs
  evaluate-ne lib ctx (or_condition cs) = evaluate_any-ne lib ctx cs
  evaluate-ne lib ctx (not_condition c) = negated-ne (evaluate lib ctx c) (evaluate-ne lib ctx c)
  evaluate-ne lib ctx (comparison field operator operand) =
      evaluate_comparison-ne lib ctx field operator operand

  evaluate_all-ne :
      (lib : Libraries) (ctx : RuleContext) (cs : Conditions) → evaluate_all lib ctx cs ≢ panic
  evaluate_all-ne lib ctx end = λ h. cc
  evaluate_all-ne lib ctx (next c cs) =
      and_then-ne (evaluate lib ctx c) (evaluate_all lib ctx cs) (evaluate-ne lib ctx c)
        (evaluate_all-ne lib ctx cs)

  evaluate_any-ne :
      (lib : Libraries) (ctx : RuleContext) (cs : Conditions) → evaluate_any lib ctx cs ≢ panic
  evaluate_any-ne lib ctx end = λ h. cc
  evaluate_any-ne lib ctx (next c cs) =
      or_then-ne (evaluate lib ctx c) (evaluate_any lib ctx cs) (evaluate-ne lib ctx c)
        (evaluate_any-ne lib ctx cs)
