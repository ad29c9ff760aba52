-- ===== src/Rules/Engine.antt =====
-- RuleEngine of pkg/rules/engine.go. A method is one step and is handed the time; a rule is one step of
-- ProcessMessage, which is also handed how long it takes. A range over the rules visits them in the
-- order of the list. Counters are unbounded, Name, Description and Metadata are left out.
use emqx_go.Base.{
  ◌||◌, ℕ, zero, suc, ◌+◌, ◌*◌, ◌/◌, ◌-◌, Bool, true, false, List, [], ◌∷◌, ◌++◌, Option, none,
  some, if◌then◌else◌, ◌==◌, filter, Text, codes, Outcome, ok, err, panic, ◌>>=◌,
}
use emqx_go.Base.Map.{Map, lookup, insert, delete, text_has_eq}
use emqx_go.Rules.Values.{ℤ, int_ltb, RuleContext, Libraries, EvaluationError}
use emqx_go.Rules.Conditions.{evaluate}
use emqx_go.Rules.Parse.{ParseError, Parsed, parse}
use emqx_go.Rules.Actions.{
  republished, Params, Effect, ActionError, Executed, Environment, execute_console,
  validate_console, execute_http, validate_http, execute_connector, validate_connector,
  execute_republish, validate_republish, execute_discard, validate_discard,
}

pub data RuleStatus : Type 0 where
  enabled disabled stopped failed : RuleStatus

pub record Action : Type 0 where
  pub type_name : Text
  pub parameters : Params

pub data RuleError : Type 0 where
  of_parse : ParseError → RuleError
  of_evaluation : EvaluationError → RuleError
  unknown_action_type : RuleError
  of_action : ActionError → RuleError

pub record RuleMetrics : Type 0 where
  pub matched_count : ℕ
  pub executed_count : ℕ
  pub failed_count : ℕ
  pub avg_latency : ℕ
  pub last_execution : Option ℕ
  pub last_error : Option RuleError
  pub last_error_time : Option ℕ

pub record Rule : Type 0 where
  pub id : Text
  pub sql : Text
  pub actions : List Action
  pub status : RuleStatus
  pub priority : ℤ
  pub created_at : ℕ
  pub updated_at : ℕ
  pub metrics : RuleMetrics

pub record ActionExecutor : Type 0 where
  pub execute : RuleContext → Params → Executed
  pub validate : Params → Bool

pub record RuleEngine : Type 0 where
  pub rules : Map Text Rule
  pub actions : Map Text ActionExecutor

unfoldable pub new_rule_engine : Libraries → Environment → RuleEngine
unfolding execute_console validate_console execute_http validate_http execute_connector
    validate_connector execute_republish validate_republish execute_discard validate_discard
new_rule_engine lib env = record {
  rules = [];
  actions =
      (codes "console", record { execute = execute_console lib; validate = validate_console })
      ∷ (codes "http", record { execute = execute_http lib env; validate = validate_http lib })
      ∷ (
        codes "connector",
        record { execute = execute_connector lib env; validate = validate_connector },
      )
      ∷ (
        codes "republish",
        record { execute = execute_republish lib env; validate = validate_republish lib },
      )
      ∷ (codes "discard", record { execute = execute_discard; validate = validate_discard })
      ∷ [];
}

unfoldable pub register_action : Text → ActionExecutor → RuleEngine → RuleEngine
unfolding insert
register_action name executor re = record re { actions = insert name executor re.actions }

pub data EngineError : Type 0 where
  already_exists rule_not_found action_type_unknown invalid_action : EngineError
  invalid_sql : ParseError → EngineError

abbrev pub no_metrics : RuleMetrics
no_metrics = record {
  matched_count = 0;
  executed_count = 0;
  failed_count = 0;
  avg_latency = 0;
  last_execution = none;
  last_error = none;
  last_error_time = none;
}

-- sqlParser.Validate
abbrev pub validated : Parsed → Outcome EngineError Bool
validated (ok c) = ok true
validated (err e) = err (invalid_sql e)
validated panic = panic

abbrev pub validate_with : Params → Option ActionExecutor → Outcome EngineError Bool
validate_with params none = err action_type_unknown
validate_with params (some executor) =
    if executor.validate params then ok true else err invalid_action

-- The loop over the actions of CreateRule and UpdateRule.
unfoldable pub validate_actions : Map Text ActionExecutor → List Action → Outcome EngineError Bool
unfolding lookup
validate_actions executors [] = ok true
validate_actions executors (a ∷ actions) = do
  _ ← validate_with a.parameters (lookup a.type_name executors)
  validate_actions executors actions

abbrev pub unless_known : Option Rule → Outcome EngineError Bool
unless_known none = ok true
unless_known (some r) = err already_exists

abbrev pub put : Text → Rule → RuleEngine → RuleEngine
put id rule re = record re { rules = insert id rule re.rules }

unfoldable pub create_rule : Libraries → ℕ → Rule → RuleEngine → Outcome EngineError RuleEngine
unfolding parse validate_actions lookup
create_rule lib now rule re = do
  _ ← unless_known (lookup rule.id re.rules)
  _ ← validated (parse lib rule.sql)
  _ ← validate_actions re.actions rule.actions
  ok (put rule.id (record rule { created_at = now; updated_at = now; metrics = no_metrics }) re)

abbrev pub or_not_found : Option Rule → Outcome EngineError Rule
or_not_found none = err rule_not_found
or_not_found (some r) = ok r

unfoldable pub get_rule : Text → RuleEngine → Outcome EngineError Rule
unfolding lookup
get_rule id re = or_not_found (lookup id re.rules)

-- The rule is stored under the id that is asked for, whatever its own.
unfoldable pub update_rule :
    Libraries → ℕ → Text → Rule → RuleEngine → Outcome EngineError RuleEngine
unfolding parse validate_actions lookup
update_rule lib now id rule re = do
  old ← or_not_found (lookup id re.rules)
  _ ← validated (parse lib rule.sql)
  _ ← validate_actions re.actions rule.actions
  ok (
      put id (record rule { created_at = old.created_at; updated_at = now; metrics = old.metrics })
        re)

unfoldable pub delete_rule : Text → RuleEngine → Outcome EngineError RuleEngine
unfolding lookup
delete_rule id re = do
  _ ← or_not_found (lookup id re.rules)
  ok (record re { rules = delete id re.rules })

-- EnableRule and DisableRule.
unfoldable pub set_status : RuleStatus → ℕ → Text → RuleEngine → Outcome EngineError RuleEngine
unfolding lookup
set_status status now id re = do
  rule ← or_not_found (lookup id re.rules)
  ok (put id (record rule { status = status; updated_at = now }) re)

abbrev pub record_rule_match : Rule → Rule
record_rule_match r = record r {
  metrics = record r.metrics { matched_count = r.metrics.matched_count + 1 };
}

unfoldable pub average : ℕ → ℕ → ℕ → ℕ
average old count latency = if count == 1 then latency else (old * (count - 1) + latency) / count

abbrev pub record_rule_execution : ℕ → ℕ → Rule → Rule
record_rule_execution now latency r =
    let count = r.metrics.executed_count + 1 in
    record r {
      metrics = record r.metrics {
        executed_count = count;
        last_execution = some now;
        avg_latency = average r.metrics.avg_latency count latency;
      };
    }

abbrev pub record_rule_error : ℕ → RuleError → Rule → Rule
record_rule_error now e r = record r {
  metrics = record r.metrics {
    failed_count = r.metrics.failed_count + 1;
    last_error = some e;
    last_error_time = some now;
  };
}

abbrev pub after_action : ℕ → Option ActionError → Rule → Rule
after_action now none r = r
after_action now (some e) r = record_rule_error now (of_action e) r

abbrev pub execute_with :
    ℕ → RuleContext → Params → Option ActionExecutor → Rule → Rule × List Effect
execute_with now ctx params none r = (record_rule_error now unknown_action_type r, [])
execute_with now ctx params (some executor) r =
    let (e, effects) = executor.execute ctx params in (after_action now e r, effects)

-- The loop over the actions of processRule.
unfoldable pub run_actions :
    Map Text ActionExecutor → ℕ → RuleContext → List Action → Rule → Rule × List Effect
unfolding lookup
run_actions executors now ctx [] r = (r, [])
run_actions executors now ctx (a ∷ actions) r =
    let (r1, here) = execute_with now ctx a.parameters (lookup a.type_name executors) r in
    let (r2, later) = run_actions executors now ctx actions r1 in (r2, here ++ later)

abbrev pub Processed : Type 0
Processed = Outcome EngineError (Rule × List Effect)

abbrev pub finish : ℕ → ℕ → Rule × List Effect → Processed
finish now latency (r, effects) = ok (record_rule_execution now latency r, effects)

abbrev pub if_matched :
    Map Text ActionExecutor → ℕ → ℕ → RuleContext → Rule → Outcome EvaluationError Bool → Processed
if_matched executors now latency ctx r (err e) = ok (record_rule_error now (of_evaluation e) r, [])
if_matched executors now latency ctx r panic = panic
if_matched executors now latency ctx r (ok false) = ok (r, [])
if_matched executors now latency ctx r (ok true) =
    finish now latency (run_actions executors now ctx r.actions (record_rule_match r))

abbrev pub if_parsed :
    Libraries → Map Text ActionExecutor → ℕ → ℕ → RuleContext → Rule → Parsed → Processed
if_parsed lib executors now latency ctx r (err e) = ok (record_rule_error now (of_parse e) r, [])
if_parsed lib executors now latency ctx r panic = panic
if_parsed lib executors now latency ctx r (ok c) =
    if_matched executors now latency ctx r (evaluate lib ctx c)

unfoldable pub process_rule :
    Libraries → Map Text ActionExecutor → ℕ → ℕ → RuleContext → Rule → Processed
unfolding parse evaluate run_actions average
process_rule lib executors now latency ctx r =
    if_parsed lib executors now latency ctx r (parse lib r.sql)

abbrev pub Entry : Type 0
Entry = Text × Rule

-- enabledRules[i].Priority < enabledRules[j].Priority
abbrev pub is_lower : Entry → Entry → Bool
is_lower x y = int_ltb x.1.priority y.1.priority

-- The inner loop of the sort: what stands at i in the end, and what stands after it.
unfoldable pub exchange : Entry → List Entry → Entry × List Entry
exchange x [] = (x, [])
exchange x (y ∷ ys) =
    let swapped = exchange y ys in
    let kept = exchange x ys in
    if is_lower x y then (swapped.0, x ∷ swapped.1) else (kept.0, y ∷ kept.1)

-- The outer loop.
unfoldable pub sort_loop : ℕ → List Entry → List Entry
unfolding exchange
sort_loop zero rules = rules
sort_loop (suc n) [] = []
sort_loop (suc n) (x ∷ rules) = let (first, rest) = exchange x rules in first ∷ sort_loop n rest

abbrev pub count_of : List Entry → ℕ
count_of [] = 0
count_of (x ∷ xs) = count_of xs + 1

unfoldable pub sort_by_priority : List Entry → List Entry
unfolding sort_loop
sort_by_priority rules = sort_loop (count_of rules - 1) rules

abbrev pub is_enabled : RuleStatus → Bool
is_enabled enabled = true
is_enabled _ = false

-- The loop over the sorted rules, which goes on after an error.
unfoldable pub process_loop :
    Libraries
    → ℕ
    → ℕ
    → RuleContext
    → List Entry
    → RuleEngine
    → Outcome EngineError (RuleEngine × List Effect)
unfolding process_rule insert
process_loop lib now latency ctx [] re = ok (re, [])
process_loop lib now latency ctx ((id, r) ∷ rules) re = do
  here ← process_rule lib re.actions now latency ctx r
  later ← process_loop lib now latency ctx rules (put id here.0 re)
  ok (later.0, here.1 ++ later.1)

-- The loop of ProcessMessage over the enabled rules, where the callback of a republish returns without
-- calling the engine again, and no other call of the engine comes between: ProcessMessage holds its
-- lock only while it collects the rules.
unfoldable pub process_enabled :
    Libraries → ℕ → ℕ → RuleContext → RuleEngine → Outcome EngineError (RuleEngine × List Effect)
unfolding process_loop sort_by_priority
process_enabled lib now latency ctx re =
    process_loop lib now latency ctx
      (sort_by_priority (filter (λ (entry : Entry). is_enabled entry.1.status) re.rules)) re

abbrev pub is_republished : Effect → Bool
is_republished (republished topic qos payload) = true
is_republished _ = false

unfoldable pub republishes : List Effect → Bool
republishes [] = false
republishes (x ∷ effects) = is_republished x || republishes effects

-- What ProcessMessage comes to: it returns; or an action calls the callback of a republish, which may
-- call ProcessMessage again before it returns, as the callback of the broker does, so that what follows
-- is not known here; or it panics.
pub data Processing : Type 0 where
  finished : RuleEngine → List Effect → Processing
  called_back crashed : Processing

abbrev pub after_loop : Outcome EngineError (RuleEngine × List Effect) → Processing
after_loop (ok (re, effects)) = if republishes effects then called_back else finished re effects
after_loop _ = crashed

-- The loop returns no error.
unfoldable pub process_message : Libraries → ℕ → ℕ → RuleContext → RuleEngine → Processing
unfolding process_enabled republishes
process_message lib now latency ctx re = after_loop (process_enabled lib now latency ctx re)

unfoldable pub get_rule_metrics : Text → RuleEngine → Outcome EngineError RuleMetrics
unfolding lookup
get_rule_metrics id re = do r ← or_not_found (lookup id re.rules); ok r.metrics

unfoldable pub get_action_executor : Text → RuleEngine → Outcome EngineError ActionExecutor
unfolding lookup
get_action_executor name re = elim (lookup name re.actions) [
  | none ↦ err action_type_unknown
  | some executor ↦ ok executor
]
