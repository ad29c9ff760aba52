-- ===== src/Rules/Each.antt =====
-- What ProcessMessage of pkg/rules/engine.go does to each rule.
use mathlib.Core.Path.{subst}
use emqx_go.Base.{
  ok_inj, bind-ok, ℕ, ◌≡◌, ◌⊎◌, inl, inr, refl, sym, ap, ◌∙◌, Bool, true, false, List, [], ◌∷◌,
  Option, none, some, arith, if◌then◌else◌, Bool-cases, filter, Text, text_eq, text_eq_iff, ok,
  Outcome, err, panic,
}
use emqx_go.Base.Map.{Map, IsUnique, lookup, lookup-insert, text_has_eq}
use emqx_go.Rules.Values.{RuleContext, Libraries}
use emqx_go.Rules.Actions.{Effect}
use emqx_go.Rules.Engine.{
  Rule, RuleEngine, ActionExecutor, Entry, put, process_rule, is_enabled, sort_by_priority,
  process_loop, process_enabled, process_message, after_loop, finished, called_back, republishes,
  EngineError,
}
use emqx_go.Rules.Priority.{Rearranged, same, under, swap, both, sort_by_priority-Rearranged}

lookup-swap :
    (k : Text) (x y : Entry) (xs : List Entry)
    → IsUnique (y ∷ x ∷ xs)
    → lookup k (x ∷ y ∷ xs) ≡ lookup k (y ∷ x ∷ xs)
unfolding lookup
lookup-swap k (i, r) (j, s) xs u = ground (arith, text_eq_iff i k, text_eq_iff j k, text_eq_iff i j)

IsUnique-swap : (x y : Entry) (xs : List Entry) → IsUnique (y ∷ x ∷ xs) → IsUnique (x ∷ y ∷ xs)
unfolding lookup
IsUnique-swap (i, r) (j, s) xs u = ground (arith, text_eq_iff i j, text_eq_iff j i)

-- Where keys are unique, the order of the entries does not matter.
lookup-Rearranged :
    {xs ys : List Entry}
    → Rearranged xs ys
    → IsUnique ys
    → IsUnique xs × ((k : Text) → lookup k xs ≡ lookup k ys)
unfolding lookup
lookup-Rearranged (same xs) u = (u, λ k. refl)
lookup-Rearranged (under (i, r) h) u =
    let (u', looks) = lookup-Rearranged h u.1 in
    ((looks i ∙ u.0, u'), λ k. ap (λ o. if text_eq i k then some r else o) (looks k))
lookup-Rearranged (swap x y xs) u = (IsUnique-swap x y xs u, λ k. lookup-swap k x y xs u)
lookup-Rearranged (both h h') u =
    let (u', looks') = lookup-Rearranged h' u in
    let (u'', looks) = lookup-Rearranged h u' in (u'', λ k. looks k ∙ looks' k)

module _ (p : Rule → Bool) where
  lookup-filter_none :
      (k : Text) (m : Map Text Rule)
      → lookup k m ≡ none
      → lookup k (filter (λ (e : Entry). p e.1) m) ≡ none
  unfolding lookup
  lookup-filter_none k [] h = refl
  lookup-filter_none k ((i, r) ∷ m) h = ground (arith, lookup-filter_none k m)

  lookup-filter :
      (k : Text) (r : Rule) (m : Map Text Rule)
      → IsUnique m
      → lookup k m ≡ some r
      → lookup k (filter (λ (e : Entry). p e.1) m) ≡ (if p r then some r else none)
  unfolding lookup
  lookup-filter k r [] u h = absurd cc
  lookup-filter k r ((i, s) ∷ m) u h =
      ground (arith, lookup-filter k r m, lookup-filter_none k m, text_eq_iff i k)

  filter-IsUnique : (m : Map Text Rule) → IsUnique m → IsUnique (filter (λ (e : Entry). p e.1) m)
  filter-IsUnique [] u = tt
  filter-IsUnique ((i, r) ∷ m) u = elim (Bool-cases (p r)) [
    | inl e ↦ rw e (lookup-filter_none i m u.0, filter-IsUnique m u.1)
    | inr e ↦ rw e (filter-IsUnique m u.1)
  ]

module _ (lib : Libraries) (executors : Map Text ActionExecutor) (now latency : ℕ)
    (ctx : RuleContext) where
  -- What the loop does to the rule under a key, which the list may hold or not.
  abbrev IsDone : Option Rule → Option Rule → Option Rule → Type 0
  IsDone none before after = after ≡ before
  IsDone (some r) before after =
      (r' : Rule) × (effects : List Effect) × (process_rule lib executors now latency ctx r
        ≡ ok (r', effects))
      × (after ≡ some r')

  process_loop-IsDone :
      (k : Text) (rules : List Entry) (re re' : RuleEngine) (effects : List Effect)
      → re.actions ≡ executors
      → IsUnique rules
      → process_loop lib now latency ctx rules re ≡ ok (re', effects)
      → IsDone (lookup k rules) (lookup k re.rules) (lookup k re'.rules)
  unfolding process_loop lookup
  process_loop-IsDone k [] re re' effects e u h =
      let q : re ≡ re' = ap (λ (x : RuleEngine × List Effect). x.0) (ok_inj h) in
      ap (λ (x : RuleEngine). lookup k x.rules) (sym q)
  process_loop-IsDone k ((id, r) ∷ rules) re re' effects e u h =
      let (here, first, h1) =
        bind-ok (process_rule lib re.actions now latency ctx r) _ (re', effects) h in
      let (later, rest, h2) =
        bind-ok (process_loop lib now latency ctx rules (put id here.0 re)) _ (re', effects) h1 in
      let q : later.0 ≡ re' = ap (λ (x : RuleEngine × List Effect). x.0) (ok_inj h2) in
      let ih = process_loop-IsDone k rules (put id here.0 re) later.0 later.1 e u.1 rest in
      let ih' =
        subst (λ x. IsDone (lookup k rules) (lookup k (put id here.0 re).rules) (lookup k x.rules))
          q ih in
      elim (Bool-cases (text_eq id k)) [
        | inl at_key ↦
            let absent : lookup k rules ≡ none =
              subst (λ x. lookup x rules ≡ none) ((text_eq_iff id k).0 at_key) u.0 in
            let put_there : lookup k (put id here.0 re).rules ≡ some here.0 =
              ground (arith, lookup-insert id k here.0 re.rules) in
            let kept : lookup k re'.rules ≡ lookup k (put id here.0 re).rules =
              subst (λ o. IsDone o (lookup k (put id here.0 re).rules) (lookup k re'.rules)) absent
                ih' in
            rw at_key (
              here.0,
              here.1,
              subst (λ x. process_rule lib x now latency ctx r ≡ ok here) e first,
              kept ∙ put_there,
            )
        | inr elsewhere ↦
            let untouched : lookup k (put id here.0 re).rules ≡ lookup k re.rules =
              ground (arith, lookup-insert id k here.0 re.rules) in
            rw elsewhere (subst (λ o. IsDone (lookup k rules) o (lookup k re'.rules)) untouched ih')
      ]

finish_each :
    (lib : Libraries) (executors : Map Text ActionExecutor) (now latency : ℕ) (ctx : RuleContext)
    (r : Rule) (b : Bool) (before after : Option Rule)
    → before ≡ some r
    → IsDone lib executors now latency ctx (if b then some r else none) before after
    → ((b ≡ false) × (after ≡ some r))
      ⊎ ((b ≡ true)
          × ((r' : Rule) × (own : List Effect) × (process_rule lib executors now latency ctx r
                ≡ ok (r', own))
              × (after ≡ some r')))
finish_each lib executors now latency ctx r true before after found done = inr (refl, done)
finish_each lib executors now latency ctx r false before after found done = inl (refl, done ∙ found)

after_loop-finished :
    (o : Outcome EngineError (RuleEngine × List Effect)) (re' : RuleEngine) (effects : List Effect)
    → after_loop o ≡ finished re' effects
    → o ≡ ok (re', effects)
after_loop-finished (ok (re, own)) re' effects h = elim (Bool-cases (republishes own)) [
  | inl calls ↦ absurd (let q : after_loop (ok (re, own)) ≡ called_back = rw calls refl in cc)
  | inr none_called ↦
      let q : after_loop (ok (re, own)) ≡ finished re own = rw none_called refl in
      let q' : finished re own ≡ finished re' effects = sym q ∙ h in
      let e : re ≡ re' = cc in let e' : own ≡ effects = cc in rw (e, e') refl
]
after_loop-finished (err e) re' effects h = absurd cc
after_loop-finished panic re' effects h = absurd cc

-- Where ProcessMessage returns without having called the callback of a republish, and no other call of
-- the engine comes between, each rule that the engine holds was processed by itself, once, if it is
-- enabled, whatever the other rules do and in whatever order they come, and what is left of it is
-- stored; a rule that is not enabled stays as it is. Keys are supposed to be unique.
pub process_message-each :
    (lib : Libraries) (now latency : ℕ) (ctx : RuleContext) (re re' : RuleEngine)
    (effects : List Effect) (k : Text) (r : Rule)
    → IsUnique re.rules
    → process_message lib now latency ctx re ≡ finished re' effects
    → lookup k re.rules ≡ some r
    → ((is_enabled r.status ≡ false) × (lookup k re'.rules ≡ some r))
      ⊎ ((is_enabled r.status ≡ true)
          × ((r' : Rule) × (own : List Effect) × (process_rule lib re.actions now latency ctx r
                ≡ ok (r', own))
              × (lookup k re'.rules ≡ some r')))
unfolding process_message process_enabled
process_message-each lib now latency ctx re re' effects k r u h found =
    let p : Rule → Bool = λ x. is_enabled x.status in
    let chosen = filter (λ (entry : Entry). is_enabled entry.1.status) re.rules in
    let (u', looks) =
      lookup-Rearranged (sort_by_priority-Rearranged chosen) (filter-IsUnique p re.rules u) in
    let done =
      process_loop-IsDone lib re.actions now latency ctx k (sort_by_priority chosen) re re' effects
        refl u' (after_loop-finished (process_enabled lib now latency ctx re) re' effects h) in
    let chosen_k = looks k ∙ lookup-filter p k r re.rules u found in
    let done' =
      subst (λ o. IsDone lib re.actions now latency ctx o (lookup k re.rules) (lookup k re'.rules))
        chosen_k done in
    finish_each lib re.actions now latency ctx r (is_enabled r.status) (lookup k re.rules)
      (lookup k re'.rules) found done'
