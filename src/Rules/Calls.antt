-- ===== src/Rules/Calls.antt =====
-- Sequences of calls of pkg/rules/engine.go, one after the other; the callback of a republish returns
-- without a call of the engine.
use emqx_go.Base.{ℕ, ◌≡◌, List, [], ◌∷◌, Text, Outcome, ok}
use emqx_go.Base.Map.{Map, text_has_eq}
use emqx_go.Rules.Values.{RuleContext, Libraries}
use emqx_go.Rules.Actions.{Effect}
use emqx_go.Rules.Engine.{
  Rule, RuleStatus, RuleEngine, ActionExecutor, EngineError, create_rule, update_rule, delete_rule,
  set_status, process_enabled,
}
use emqx_go.Rules.Stored.{AreChecked}

pub data Call : Type 0 where
  create : ℕ → Rule → Call
  update : ℕ → Text → Rule → Call
  delete_one : Text → Call
  set : RuleStatus → ℕ → Text → Call
  process : ℕ → ℕ → RuleContext → Call

abbrev pub or_unchanged : RuleEngine → Outcome EngineError RuleEngine → RuleEngine
or_unchanged re (ok re') = re'
or_unchanged re _ = re

abbrev pub or_left : RuleEngine → Outcome EngineError (RuleEngine × List Effect) → RuleEngine
or_left re (ok (re', effects)) = re'
or_left re _ = re

-- A call that returns an error, or panics, changes nothing.
unfoldable pub step : Libraries → Call → RuleEngine → RuleEngine
unfolding create_rule update_rule delete_rule set_status process_enabled
step lib (create now r) re = or_unchanged re (create_rule lib now r re)
step lib (update now id r) re = or_unchanged re (update_rule lib now id r re)
step lib (delete_one id) re = or_unchanged re (delete_rule id re)
step lib (set status now id) re = or_unchanged re (set_status status now id re)
step lib (process now latency ctx) re = or_left re (process_enabled lib now latency ctx re)

unfoldable pub calls : Libraries → List Call → RuleEngine → RuleEngine
unfolding step
calls lib [] re = re
calls lib (c ∷ cs) re = calls lib cs (step lib c re)

-- The engine still has the executors, and its rules are checked by them.
record IsSound (lib : Libraries) (executors : Map Text ActionExecutor) (re : RuleEngine)
    : Type 0 where
  same : re.actions ≡ executors
  checked : AreChecked lib executors re.rules
