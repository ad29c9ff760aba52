-- ===== src/Rules/Conditions.antt =====
-- The conditions of pkg/rules/sql.go: what they evaluate to.
use emqx_go.Base.{
  ℕ, Bool, true, false, not, ◌&&◌, ◌||◌, ◌++◌, Option, none, some, if◌then◌else◌, Text, codes,
  text_eq, has_prefix, drop, Outcome, ok, err, ◌>>=◌,
}
use emqx_go.Base.Map.{lookup, text_has_eq}
use emqx_go.Rules.Values.{
  Value, null, string, int, float, RuleContext, Json, object, other, Libraries, EvaluationError,
  unknown_field, unsupported_operator, invalid_json, invalid_regexp, Operand, value,
  field_reference, SqlCondition, true_condition, and_condition, or_condition, not_condition,
  comparison, Conditions, end, next,
}

abbrev pub Evaluated : Type 0
Evaluated = Outcome EvaluationError Bool

abbrev pub or_null : {A : Type 0} → (A → Value) → Option A → Value
or_null f none = null
or_null f (some x) = f x

abbrev pub json_field : Text → Option Json → Outcome EvaluationError Value
json_field path none = err invalid_json
json_field path (some (object m)) = ok (or_null (λ v. v) (lookup path m))
json_field path (some other) = ok null

-- The default case of the switch over the fields.
unfoldable pub path_value : Libraries → RuleContext → Text → Outcome EvaluationError Value
unfolding lookup has_prefix
path_value lib ctx field =
    if has_prefix field (codes "payload.")
    then json_field (drop 8 field) (lib.unmarshal ctx.payload)
    else if has_prefix field (codes "headers.")
    then ok (or_null string (lookup (drop 8 field) ctx.headers))
    else if has_prefix field (codes "metadata.")
    then ok (or_null (λ v. v) (lookup (drop 9 field) ctx.metadata))
    else err unknown_field

unfoldable pub get_field_value : Libraries → RuleContext → Text → Outcome EvaluationError Value
unfolding path_value
get_field_value lib ctx field =
    if text_eq field (codes "topic")
    then ok (string ctx.topic)
    else if text_eq field (codes "qos")
    then ok (int ctx.qos)
    else if text_eq field (codes "payload")
    then ok (string ctx.payload)
    else if text_eq field (codes "clientid")
    then ok (string ctx.client_id)
    else if text_eq field (codes "username")
    then ok (string ctx.username)
    else if text_eq field (codes "timestamp")
    then ok (int ctx.seconds)
    else path_value lib ctx field

abbrev pub is_null : Value → Bool
is_null null = true
is_null _ = false

unfoldable pub equals : Libraries → Value → Value → Bool
equals lib a b =
    if is_null a && is_null b
    then true
    else if is_null a || is_null b
    then false
    else text_eq (lib.format a) (lib.format b)

unfoldable pub to_float64 : Libraries → Value → Option ℕ
to_float64 lib (float x) = some x
to_float64 lib (int n) = some (lib.float_of_int n)
to_float64 lib (string s) = lib.parse_float s
to_float64 lib _ = none

abbrev pub less_than_of : Libraries → Value → Value → Option ℕ → Option ℕ → Bool
less_than_of lib a b (some x) (some y) = lib.float_ltb x y
less_than_of lib a b _ _ = lib.text_ltb (lib.format a) (lib.format b)

unfoldable pub less_than : Libraries → Value → Value → Bool
unfolding to_float64
less_than lib a b = less_than_of lib a b (to_float64 lib a) (to_float64 lib b)

-- greaterThan: a > b on floats and on strings is b < a.
unfoldable pub greater_than : Libraries → Value → Value → Bool
unfolding to_float64
greater_than lib a b = less_than_of lib b a (to_float64 lib b) (to_float64 lib a)

abbrev pub like_pattern : Libraries → Text → Text
like_pattern lib s =
    codes "^"
    ++ (lib.replace_all (lib.replace_all s (codes "%") (codes ".*")) (codes "_") (codes ".")
        ++ codes "$")

abbrev pub or_invalid : Option Bool → Evaluated
or_invalid none = err invalid_regexp
or_invalid (some b) = ok b

unfoldable pub like : Libraries → Value → Value → Evaluated
like lib a b = or_invalid (lib.match_string (like_pattern lib (lib.format b)) (lib.format a))

abbrev pub negated : Evaluated → Evaluated
negated r = do b ← r; ok (not b)

unfoldable pub compare_values : Libraries → Text → Value → Value → Evaluated
unfolding equals less_than greater_than like
compare_values lib operator a b =
    if text_eq operator (codes "=")
    then ok (equals lib a b)
    else if text_eq operator (codes "!=") || text_eq operator (codes "<>")
    then ok (not (equals lib a b))
    else if text_eq operator (codes "<")
    then ok (less_than lib a b)
    else if text_eq operator (codes "<=")
    then ok (less_than lib a b || equals lib a b)
    else if text_eq operator (codes ">")
    then ok (greater_than lib a b)
    else if text_eq operator (codes ">=")
    then ok (greater_than lib a b || equals lib a b)
    else if text_eq operator (codes "LIKE")
    then like lib a b
    else if text_eq operator (codes "NOT LIKE")
    then negated (like lib a b)
    else if text_eq operator (codes "IS NULL")
    then ok (is_null a)
    else if text_eq operator (codes "IS NOT NULL")
    then ok (not (is_null a))
    else err unsupported_operator

abbrev pub operand_value : Libraries → RuleContext → Operand → Outcome EvaluationError Value
operand_value lib ctx (value v) = ok v
operand_value lib ctx (field_reference f) = get_field_value lib ctx f

unfoldable pub evaluate_comparison : Libraries → RuleContext → Text → Text → Operand → Evaluated
unfolding get_field_value compare_values
evaluate_comparison lib ctx field operator operand = do
  a ← get_field_value lib ctx field
  b ← operand_value lib ctx operand
  compare_values lib operator a b

abbrev pub and_then : Evaluated → Evaluated → Evaluated
and_then (ok true) rest = rest
and_then r rest = r

abbrev pub or_then : Evaluated → Evaluated → Evaluated
or_then (ok false) rest = rest
or_then r rest = r

unfoldable mutual
  unfolding evaluate_comparison

  pub evaluate : Libraries → RuleContext → SqlCondition → Evaluated
  evaluate lib ctx true_condition = ok true
  evaluate lib ctx (and_condition cs) = evaluate_all lib ctx cs
  evaluate lib ctx (or_condition cs) = evaluate_any lib ctx cs
  evaluate lib ctx (not_condition c) = negated (evaluate lib ctx c)
  evaluate lib ctx (comparison field operator operand) =
      evaluate_comparison lib ctx field operator operand

  pub evaluate_all : Libraries → RuleContext → Conditions → Evaluated
  evaluate_all lib ctx end = ok true
  evaluate_all lib ctx (next c cs) = and_then (evaluate lib ctx c) (evaluate_all lib ctx cs)

  pub evaluate_any : Libraries → RuleContext → Conditions → Evaluated
  evaluate_any lib ctx end = ok false
  evaluate_any lib ctx (next c cs) = or_then (evaluate lib ctx c) (evaluate_any lib ctx cs)
