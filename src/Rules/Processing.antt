-- ===== src/Rules/Processing.antt =====
-- ProcessMessage of pkg/rules/engine.go on rules that were checked.
use emqx_go.Base.{
  inr, inl, Bool-cases, ◌⊎◌, ℕ, ◌≡◌, ◌≢◌, refl, ◌∙◌, Bool, true, false, List, [], ◌∷◌, ◌++◌, Option,
  none, some, arith, All-filter, filter, Text, Outcome, ok, err, panic,
}
use emqx_go.Base.Map.{Map, lookup, text_has_eq}
use emqx_go.Rules.Values.{RuleContext, Libraries, EvaluationError}
use emqx_go.Rules.Conditions.{evaluate}
use emqx_go.Rules.Evaluation.{evaluate-ne}
use emqx_go.Rules.Parse.{Parsed, parse}
use emqx_go.Rules.Actions.{Effect, Params, ActionError}
use emqx_go.Rules.Engine.{
  Rule, RuleEngine, Action, ActionExecutor, Entry, EngineError, put, after_action, execute_with,
  run_actions, record_rule_match, Processed, if_matched, if_parsed, process_rule, is_enabled,
  sort_by_priority, process_loop, process_enabled, process_message, republishes, called_back,
  finished,
}
use emqx_go.Rules.Priority.{sort_by_priority-Rearranged, All-Rearranged}
use emqx_go.Rules.Stored.{IsChecked, AreChecked, insert-AreChecked, kept-IsChecked}

-- What the actions leave of a rule: all but the errors.
record IsKept (r r' : Rule) : Type 0 where
  sql_same : r'.sql ≡ r.sql
  actions_same : r'.actions ≡ r.actions
  matched_same : r'.metrics.matched_count ≡ r.metrics.matched_count
  executed_same : r'.metrics.executed_count ≡ r.metrics.executed_count

itself : (r : Rule) → IsKept r r
itself r = record {
  sql_same = refl;
  actions_same = refl;
  matched_same = refl;
  executed_same = refl;
}

IsKept-trans : {r r' r'' : Rule} → IsKept r r' → IsKept r' r'' → IsKept r r''
IsKept-trans h k = record {
  sql_same = k.sql_same ∙ h.sql_same;
  actions_same = k.actions_same ∙ h.actions_same;
  matched_same = k.matched_same ∙ h.matched_same;
  executed_same = k.executed_same ∙ h.executed_same;
}

after_action-IsKept :
    (now : ℕ) (e : Option ActionError) (r : Rule) → IsKept r (after_action now e r)
after_action-IsKept now none r = itself r
after_action-IsKept now (some e) r = record {
  sql_same = refl;
  actions_same = refl;
  matched_same = refl;
  executed_same = refl;
}

execute_with-IsKept :
    (now : ℕ) (ctx : RuleContext) (params : Params) (x : Option ActionExecutor) (r : Rule)
    → IsKept r (execute_with now ctx params x r).0
execute_with-IsKept now ctx params none r = record {
  sql_same = refl;
  actions_same = refl;
  matched_same = refl;
  executed_same = refl;
}
execute_with-IsKept now ctx params (some x) r = after_action-IsKept now (x.execute ctx params).0 r

run_actions-IsKept :
    (executors : Map Text ActionExecutor) (now : ℕ) (ctx : RuleContext) (actions : List Action)
    (r : Rule)
    → IsKept r (run_actions executors now ctx actions r).0
unfolding run_actions
run_actions-IsKept executors now ctx [] r = itself r
run_actions-IsKept executors now ctx (a ∷ actions) r =
    let first = execute_with now ctx a.parameters (lookup a.type_name executors) r in
    IsKept-trans (execute_with-IsKept now ctx a.parameters (lookup a.type_name executors) r)
      (run_actions-IsKept executors now ctx actions first.0)

abbrev Returns : Libraries → Map Text ActionExecutor → Processed → Type 0
Returns lib executors p =
    (r' : Rule) × (effects : List Effect) × (p ≡ ok (r', effects)) × IsChecked lib executors r'

module _ (lib : Libraries) (executors : Map Text ActionExecutor) (now latency : ℕ)
    (ctx : RuleContext) where
  if_matched-Returns :
      (r : Rule) (b : Outcome EvaluationError Bool)
      → b ≢ panic
      → IsChecked lib executors r
      → Returns lib executors (if_matched executors now latency ctx r b)
  if_matched-Returns r (err e) n h =
      (_, [], refl, kept-IsChecked lib executors r _ h refl refl h.counted)
  if_matched-Returns r panic n h = absurd (n refl)
  if_matched-Returns r (ok false) n h = (r, [], refl, h)
  if_matched-Returns r (ok true) n h =
      let done = run_actions executors now ctx r.actions (record_rule_match r) in
      let kept = run_actions-IsKept executors now ctx r.actions (record_rule_match r) in
      (
        _,
        done.1,
        refl,
        kept-IsChecked lib executors r _ h kept.sql_same kept.actions_same
            (omega (arith, kept.matched_same, kept.executed_same, h.counted)),
      )

  if_parsed-Returns :
      (r : Rule) (p : Parsed)
      → parse lib r.sql ≡ p
      → IsChecked lib executors r
      → Returns lib executors (if_parsed lib executors now latency ctx r p)
  if_parsed-Returns r (ok c) q h =
      if_matched-Returns r (evaluate lib ctx c) (evaluate-ne lib ctx c) h
  if_parsed-Returns r (err e) q h = absurd (let k = h.parses.1 in cc)
  if_parsed-Returns r panic q h = absurd (let k = h.parses.1 in cc)

  process_rule-Returns :
      (r : Rule)
      → IsChecked lib executors r
      → Returns lib executors (process_rule lib executors now latency ctx r)
  unfolding process_rule
  process_rule-Returns r h = if_parsed-Returns r (parse lib r.sql) refl h

abbrev Goes : Libraries → RuleEngine → Outcome EngineError (RuleEngine × List Effect) → Type 0
Goes lib re p =
    (re' : RuleEngine) × (effects : List Effect) × (p ≡ ok (re', effects))
    × (re'.actions ≡ re.actions)
    × AreChecked lib re.actions re'.rules

process_loop-Goes :
    (lib : Libraries) (now latency : ℕ) (ctx : RuleContext) (rules : List Entry) (re : RuleEngine)
    → AreChecked lib re.actions rules
    → AreChecked lib re.actions re.rules
    → Goes lib re (process_loop lib now latency ctx rules re)
unfolding process_loop
process_loop-Goes lib now latency ctx [] re hs h = (re, [], refl, refl, h)
process_loop-Goes lib now latency ctx ((id, r) ∷ rules) re hs h =
    let (r', here, e, checked) = process_rule-Returns lib re.actions now latency ctx r hs.0 in
    let (re', later, e', same, checked') =
      process_loop-Goes lib now latency ctx rules (put id r' re) hs.1
        (insert-AreChecked lib re.actions id r' re.rules checked h) in
    (re', here ++ later, rw (e, e') refl, same, checked')

pub process_enabled-Goes :
    (lib : Libraries) (now latency : ℕ) (ctx : RuleContext) (re : RuleEngine)
    → AreChecked lib re.actions re.rules
    → Goes lib re (process_enabled lib now latency ctx re)
unfolding process_enabled
process_enabled-Goes lib now latency ctx re h =
    let chosen = filter (λ (entry : Entry). is_enabled entry.1.status) re.rules in
    process_loop-Goes lib now latency ctx (sort_by_priority chosen) re
      (All-Rearranged (λ entry. IsChecked lib re.actions entry.1)
        (sort_by_priority-Rearranged chosen)
        (All-filter (λ (entry : Entry). IsChecked lib re.actions entry.1)
          (λ (entry : Entry). is_enabled entry.1.status) re.rules h))
      h

-- With rules that were checked, and no other call of the engine meanwhile, the processing of a message
-- does not panic: either an action calls the callback of a republish, or it returns after the last
-- rule, the executors are the same, and each rule remains checked, executed as often as it matched.
pub process_message-Goes :
    (lib : Libraries) (now latency : ℕ) (ctx : RuleContext) (re : RuleEngine)
    → AreChecked lib re.actions re.rules
    → (process_message lib now latency ctx re ≡ called_back)
      ⊎ ((re' : RuleEngine) × (effects : List Effect) × (process_message lib now latency ctx re
            ≡ finished re' effects)
          × (republishes effects ≡ false)
          × (re'.actions ≡ re.actions)
          × AreChecked lib re.actions re'.rules)
unfolding process_message
process_message-Goes lib now latency ctx re h =
    let (re', effects, e, same, checked) = process_enabled-Goes lib now latency ctx re h in
    elim (Bool-cases (republishes effects)) [
      | inl calls ↦ inl (rw (process_message, e, calls) refl)
      | inr none_called ↦
          inr (re', effects, rw (process_message, e, none_called) refl, none_called, same, checked)
    ]
