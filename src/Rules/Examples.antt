-- ===== src/Rules/Examples.antt =====
-- The theorems on pkg/rules at small rules. The libraries stand for any that do what they document:
-- here only blanks are trimmed, at the front, and a comparison is `qos = v`.
use emqx_go.Base.{
  ◌≡◌, ◌≢◌, ◌⊎◌, inl, inr, refl, true, false, ap, List, [], ◌∷◌, ◌++◌, none, some, append-nil,
  if◌then◌else◌, ◌==◌, Bool-cases, drop, Text, codes, has_prefix, has_suffix, ok, err, panic,
}
use emqx_go.Base.Map.{IsUnique, lookup, insert, text_has_eq}
use mathlib.Core.List.{Perm}
use emqx_go.Rules.Values.{
  ℤ, pos, int, string, RuleContext, Libraries, value, SqlCondition, true_condition, comparison,
  and_condition, or_condition, not_condition, Conditions, end, next,
}
use emqx_go.Rules.Conditions.{
  evaluate, evaluate_comparison, get_field_value, compare_values, equals,
}
use emqx_go.Rules.Parse.{
  parse, parse_expression, parse_comparison, parse_value, index, shape, split_by_operator,
  split_loop, is_operator, is_alpha_numeric, out_of_fuel,
}
use emqx_go.Rules.Splitting.{IsTrim}
use emqx_go.Rules.Terminates.{parse-ne-out_of_fuel}
use emqx_go.Rules.Negation.{negate_all, evaluate-not}
use emqx_go.Rules.Actions.{
  parameter, replace_variables, printed, execute_republish, Environment, Effect, execute_console,
  validate_console,
}
use emqx_go.Rules.Accepted.{IsComplete, validate-IsComplete}
use emqx_go.Rules.Engine.{
  Rule, ActionExecutor, RuleEngine, RuleStatus, enabled, disabled, Entry, no_metrics,
  new_rule_engine, sort_by_priority, process_rule, process_message, process_enabled, republishes,
  Processing, called_back, finished, is_enabled, validate_actions, sort_loop, process_loop,
  run_actions, average,
}
use emqx_go.Rules.Priority.{IsOrdered, sort_by_priority-IsOrdered}
use emqx_go.Rules.Stored.{AreChecked}
use emqx_go.Rules.Processing.{process_message-Goes}
use emqx_go.Rules.Each.{process_message-each}

abbrev trim_front : Text → Text
trim_front [] = []
trim_front (c ∷ s) = let rest = trim_front s in if c == 32 then rest else c ∷ s

abbrev libraries : Libraries
libraries = record {
  trim_space = trim_front;
  to_upper = λ s. s;
  match_comparison = λ s. some (codes "qos", (codes "=", drop 6 s));
  parse_int = λ s. some (pos 1);
  parse_float = λ s. none;
  float_of_int = λ n. 0;
  int_of_float = λ x. pos 0;
  float_ltb = λ x y. false;
  format = λ v. codes "1";
  text_ltb = λ s t. false;
  replace_all = λ s old new. s;
  match_string = λ p s. some true;
  unmarshal = λ s. none;
}

trim_front-piece : (s : Text) → (before : Text) × (s ≡ before ++ trim_front s)
trim_front-piece [] = ([], refl)
trim_front-piece (c ∷ s) = elim (Bool-cases (c == 32)) [
  | inl e ↦ let (before, q) = trim_front-piece s in rw e (c ∷ before, ap (◌∷◌ c) q)
  | inr e ↦ rw e ([], refl)
]

trims : IsTrim libraries
trims s = let (before, q) = trim_front-piece s in (before, [], rw append-nil q)

abbrev outside : Environment
outside = record {
  new_request = λ method url. true;
  do_request = λ method url body. some 200;
  get_connector = λ id. none;
  republish_callback = none;
}

abbrev message : RuleContext
message = record {
  topic = codes "a/b";
  qos = pos 1;
  payload = codes "x";
  headers = [];
  client_id = codes "d";
  username = [];
  seconds = pos 7;
  rfc3339 = [];
  metadata = [];
}

abbrev engine : RuleEngine
engine = new_rule_engine libraries outside

-- A rule that prints each message of QoS 1.
abbrev printing : Text → ℤ → RuleStatus → Rule
printing id priority status = record {
  id = id;
  sql = codes "SELECT * WHERE qos = 1";
  actions = record { type_name = codes "console"; parameters = [] } ∷ [];
  status = status;
  priority = priority;
  created_at = 1;
  updated_at = 1;
  metrics = no_metrics;
}

parse-ne-out_of_fuel_example :
    parse libraries (codes "SELECT * WHERE (qos = 1) OR qos = 2") ≢ err out_of_fuel
parse-ne-out_of_fuel_example =
    parse-ne-out_of_fuel libraries (codes "SELECT * WHERE (qos = 1) OR qos = 2") trims

abbrev two : Conditions
two = next (comparison (codes "qos") (codes "=") (value (int (pos 1)))) (next true_condition end)

evaluate-not_example :
    (evaluate libraries message (not_condition (and_condition two))
      ≡ evaluate libraries message (or_condition (negate_all two)))
    × (evaluate libraries message (not_condition (or_condition two))
        ≡ evaluate libraries message (and_condition (negate_all two)))
evaluate-not_example = evaluate-not libraries message two

abbrev unsorted : List Entry
unsorted =
    (codes "low", printing (codes "low") (pos 1) enabled)
    ∷ (codes "high", printing (codes "high") (pos 9) enabled)
    ∷ (codes "off", printing (codes "off") (pos 5) disabled)
    ∷ []

sort_by_priority-IsOrdered_example :
    IsOrdered (sort_by_priority unsorted) × Perm (sort_by_priority unsorted) unsorted
sort_by_priority-IsOrdered_example = sort_by_priority-IsOrdered unsorted

abbrev with_rule : RuleEngine
with_rule = record {
  rules = (codes "high", printing (codes "high") (pos 9) enabled) ∷ [];
  actions = engine.actions;
}

abbrev condition : SqlCondition
condition = comparison (codes "qos") (codes "=") (value (int (pos 1)))

parsed : parse libraries (codes "SELECT * WHERE qos = 1") ≡ ok condition
unfolding parse parse_expression parse_comparison parse_value index shape split_by_operator
    split_loop is_operator is_alpha_numeric has_prefix has_suffix
parsed = refl

accepted :
    validate_actions engine.actions (record { type_name = codes "console"; parameters = [] } ∷ [])
    ≡ ok true
unfolding validate_actions lookup new_rule_engine validate_console
accepted = refl

with_rule-AreChecked : AreChecked libraries with_rule.actions with_rule.rules
with_rule-AreChecked =
    (record { parses = (condition, parsed); accepted = accepted; counted = refl }, tt)

process_message-Goes_example :
    (process_message libraries 3 5 message with_rule ≡ called_back)
    ⊎ ((re' : RuleEngine) × (effects : List Effect) × (process_message libraries 3 5 message
            with_rule
          ≡ finished re' effects)
        × (republishes effects ≡ false)
        × (re'.actions ≡ with_rule.actions)
        × AreChecked libraries with_rule.actions re'.rules)
process_message-Goes_example =
    process_message-Goes libraries 3 5 message with_rule with_rule-AreChecked

abbrev engine_of : Processing → RuleEngine
engine_of (finished re effects) = re
engine_of _ = engine

abbrev processed : RuleEngine
processed = engine_of (process_message libraries 3 5 message with_rule)

abbrev line : List Effect
line = printed (codes "[info] ${topic}: ${payload}") ∷ []

goes : process_message libraries 3 5 message with_rule ≡ finished processed line
unfolding process_message process_enabled republishes sort_by_priority sort_loop process_loop
    process_rule parse parse_expression parse_comparison parse_value index shape split_by_operator
    split_loop is_operator is_alpha_numeric has_prefix has_suffix evaluate evaluate_comparison
    get_field_value compare_values equals run_actions lookup insert new_rule_engine execute_console
    parameter replace_variables average
goes = refl

keys : IsUnique with_rule.rules
unfolding lookup
keys = (refl, tt)

held : lookup (codes "high") with_rule.rules ≡ some (printing (codes "high") (pos 9) enabled)
unfolding lookup
held = refl

process_message-each_example :
    ((is_enabled enabled ≡ false)
      × (lookup (codes "high") processed.rules ≡ some (printing (codes "high") (pos 9) enabled)))
    ⊎ ((is_enabled enabled ≡ true)
        × ((r' : Rule) × (own : List Effect) × (process_rule libraries with_rule.actions 3 5 message
                (printing (codes "high") (pos 9) enabled)
              ≡ ok (r', own))
            × (lookup (codes "high") processed.rules ≡ some r')))
process_message-each_example =
    process_message-each libraries 3 5 message with_rule processed line (codes "high")
      (printing (codes "high") (pos 9) enabled) keys goes held

abbrev console : ActionExecutor
console = record { execute = execute_console libraries; validate = validate_console }

registered : lookup (codes "console") engine.actions ≡ some console
unfolding lookup new_rule_engine
registered = refl

console_accepts : validate_console [] ≡ true
unfolding validate_console lookup
console_accepts = refl

validate-IsComplete_example : IsComplete (execute_console libraries message []).0
validate-IsComplete_example =
    validate-IsComplete libraries outside message [] (codes "console") console registered
      console_accepts

-- A quote alone, where a value is expected, panics.
quoted : parse_value libraries (codes "'") ≡ panic
unfolding parse_value has_prefix has_suffix
quoted = refl

-- An operator inside a string is taken for one.
split_string :
    split_by_operator libraries (codes "a='b OR c'") (codes "OR") ≡ codes "a='b " ∷ codes "c'" ∷ []
unfolding split_by_operator split_loop is_operator is_alpha_numeric has_prefix
split_string = refl

-- Bytes that are not ASCII are doubled where a text is split, and only there.
doubled :
    (split_by_operator libraries (195 ∷ 169 ∷ codes " OR b") (codes "OR")
      ≡ (195 ∷ 131 ∷ 194 ∷ 169 ∷ 32 ∷ []) ∷ codes "b" ∷ [])
    × (split_by_operator libraries (195 ∷ 169 ∷ []) (codes "OR") ≡ (195 ∷ 169 ∷ []) ∷ [])
unfolding split_by_operator split_loop is_operator is_alpha_numeric has_prefix
doubled = (refl, refl)

-- A rule without WHERE that republishes each message, where a callback is set: the processing comes to
-- the callback.
abbrev republishing : Rule
republishing = record (printing (codes "again") (pos 1) enabled) {
  sql = codes "SELECT *";
  actions =
      record {
        type_name = codes "republish";
        parameters = (codes "topic", string (codes "b")) ∷ [];
      }
      ∷ [];
}

abbrev routed : RuleEngine
routed = record {
  rules = (codes "again", republishing) ∷ [];
  actions =
      (new_rule_engine libraries
        (record outside { republish_callback = some (λ topic qos payload. true) })).actions;
}

comes_to_callback : process_message libraries 3 5 message routed ≡ called_back
unfolding process_message process_enabled republishes sort_by_priority sort_loop process_loop
    process_rule parse parse_expression index shape evaluate run_actions lookup insert
    new_rule_engine execute_republish parameter replace_variables average
comes_to_callback = refl
