-- ===== src/Rules/Stored.antt =====
-- The rules that pkg/rules/engine.go holds are ones that it has checked, and processing them does not
-- panic.
use mathlib.Core.Path.{subst}
use emqx_go.Base.{
  bind-ok, ◌≡◌, inl, inr, refl, ap, ◌∙◌, Bool, true, List, [], ◌∷◌, Option, none, some, arith,
  Bool-cases, All, Text, text_eq, ok, err, panic,
}
use emqx_go.Base.Map.{Map, lookup, insert, delete, text_has_eq}
use emqx_go.Rules.Values.{Libraries, SqlCondition}
use emqx_go.Rules.Parse.{Parsed, parse}
use emqx_go.Rules.Actions.{Params}
use emqx_go.Rules.Engine.{
  Rule, Action, ActionExecutor, Entry, validated, validate_with, validate_actions,
}

-- The rule's text parses, its actions are known to the executors and accepted by them, and it was
-- executed as often as it matched.
pub record IsChecked (lib : Libraries) (executors : Map Text ActionExecutor) (r : Rule)
    : Type 0 where
  pub parses : (c : SqlCondition) × (parse lib r.sql ≡ ok c)
  pub accepted : validate_actions executors r.actions ≡ ok true
  pub counted : r.metrics.matched_count ≡ r.metrics.executed_count

-- So is every rule that is stored.
abbrev pub AreChecked : Libraries → Map Text ActionExecutor → Map Text Rule → Type 0
AreChecked lib executors = All (λ (entry : Entry). IsChecked lib executors entry.1)

module _ (lib : Libraries) (executors : Map Text ActionExecutor) where
  pub insert-AreChecked :
      (id : Text) (r : Rule) (m : Map Text Rule)
      → IsChecked lib executors r
      → AreChecked lib executors m
      → AreChecked lib executors (insert id r m)
  unfolding insert
  insert-AreChecked id r [] h hs = (h, tt)
  insert-AreChecked id r ((k, r') ∷ m) h hs = elim (Bool-cases (text_eq k id)) [
    | inl e ↦ rw e (h, hs.1)
    | inr e ↦ rw e (hs.0, insert-AreChecked id r m h hs.1)
  ]

  pub delete-AreChecked :
      (id : Text) (m : Map Text Rule)
      → AreChecked lib executors m
      → AreChecked lib executors (delete id m)
  unfolding delete
  delete-AreChecked id [] hs = tt
  delete-AreChecked id ((k, r) ∷ m) hs = elim (Bool-cases (text_eq k id)) [
    | inl e ↦ rw e (delete-AreChecked id m hs.1)
    | inr e ↦ rw e (hs.0, delete-AreChecked id m hs.1)
  ]

  pub lookup-IsChecked :
      (id : Text) (r : Rule) (m : Map Text Rule)
      → AreChecked lib executors m
      → lookup id m ≡ some r
      → IsChecked lib executors r
  unfolding lookup
  lookup-IsChecked id r [] hs h = absurd cc
  lookup-IsChecked id r ((k, r') ∷ m) hs h = elim (Bool-cases (text_eq k id)) [
    | inl e ↦ let q : r' ≡ r = ground arith in subst (IsChecked lib executors) q hs.0
    | inr e ↦ lookup-IsChecked id r m hs.1 (ground arith)
  ]

  validated-parses : (p : Parsed) (b : Bool) → validated p ≡ ok b → (c : SqlCondition) × (p ≡ ok c)
  validated-parses (ok c) b h = (c, refl)
  validated-parses (err e) b h = absurd cc
  validated-parses panic b h = absurd cc

  validate_with-true :
      (params : Params) (e : Option ActionExecutor) (b : Bool)
      → validate_with params e ≡ ok b
      → b ≡ true
  validate_with-true params none b h = absurd cc
  validate_with-true params (some e) b h = ground arith

  validate_actions-true :
      (actions : List Action) (b : Bool) → validate_actions executors actions ≡ ok b → b ≡ true
  unfolding validate_actions
  validate_actions-true [] b h = cc
  validate_actions-true (a ∷ actions) b h =
      let (b', first, rest) =
        bind-ok (validate_with a.parameters (lookup a.type_name executors)) _ b h in
      validate_actions-true actions b rest

  -- What a rule is when its text and its actions have passed.
  pub passed-IsChecked :
      (r r' : Rule) (b b' : Bool)
      → validated (parse lib r.sql) ≡ ok b
      → validate_actions executors r.actions ≡ ok b'
      → r'.sql ≡ r.sql
      → r'.actions ≡ r.actions
      → r'.metrics.matched_count ≡ r'.metrics.executed_count
      → IsChecked lib executors r'
  passed-IsChecked r r' b b' parsed accepted same_sql same_actions counted =
      let (c, parses) = validated-parses (parse lib r.sql) b parsed in
      record {
        parses = (c, ap (parse lib) same_sql ∙ parses);
        accepted =
            ap (validate_actions executors) same_actions
            ∙ (accepted ∙ ap ok (validate_actions-true r.actions b' accepted));
        counted = counted;
      }

  -- What processing leaves of a rule.
  pub kept-IsChecked :
      (r r' : Rule)
      → IsChecked lib executors r
      → r'.sql ≡ r.sql
      → r'.actions ≡ r.actions
      → r'.metrics.matched_count ≡ r'.metrics.executed_count
      → IsChecked lib executors r'
  kept-IsChecked r r' h same_sql same_actions counted = record {
    parses = (h.parses.0, ap (parse lib) same_sql ∙ h.parses.1);
    accepted = ap (validate_actions executors) same_actions ∙ h.accepted;
    counted = counted;
  }
