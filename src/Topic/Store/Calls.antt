-- ===== src/Topic/Store/Calls.antt =====
-- Any sequence of calls of the Store of pkg/topic/store.go, from the empty store.
use emqx_go.Base.{arith, ℕ, ◌≡◌, refl, List, [], ◌∷◌, Option, none, some, Text}
use emqx_go.Topic.Store.{
  Store, new_store, subscribe, unsubscribe, remove_all_subscriptions, get_subscribers,
}
use emqx_go.Topic.Store.Groups.{
  IsValid, subscribe-IsValid, unsubscribe-IsValid, remove_all_subscriptions-IsValid,
}
use emqx_go.Topic.Store.Turns.{turn, turn-InRange, get_subscribers-turn}

-- What the broker can ask of the store.
pub data Call : Type 0 where
  subscribe_to : Text → ℕ → ℕ → Call
  unsubscribe_from : Text → ℕ → Call
  remove_all : Option ℕ → Call
  publish : Text → Call

unfoldable pub call : Call → Store → Option Store
call (subscribe_to topic mb qos) s = some (subscribe topic mb qos s)
call (unsubscribe_from topic mb) s = some (unsubscribe topic mb s)
call (remove_all mb) s = some (remove_all_subscriptions mb s).1
call (publish topic) s = elim (get_subscribers topic s) [ none ↦ none | some (_, s') ↦ some s' ]

unfoldable pub run : List Call → Store → Option Store
unfolding call
run [] s = some s
run (c ∷ cs) s = elim (call c s) [ none ↦ none | some s' ↦ run cs s' ]

call-IsValid : (c : Call) (s : Store) → IsValid s → (s' : Store) × (call c s ≡ some s') × IsValid s'
unfolding call
call-IsValid (subscribe_to topic mb qos) s v =
    (subscribe topic mb qos s, refl, subscribe-IsValid topic mb qos s v)
call-IsValid (unsubscribe_from topic mb) s v =
    (unsubscribe topic mb s, refl, unsubscribe-IsValid topic mb s v)
call-IsValid (remove_all mb) s v =
    ((remove_all_subscriptions mb s).1, refl, remove_all_subscriptions-IsValid mb s v)
call-IsValid (publish topic) s v =
    let (subs, eq, _) = get_subscribers-turn topic s v in
    (
      record s { shared_subscriptions = turn topic s.shared_subscriptions },
      ground arith,
      turn-InRange topic s.shared_subscriptions v,
    )

run_from-IsValid :
    (cs : List Call) (s : Store) → IsValid s → (s' : Store) × (run cs s ≡ some s') × IsValid s'
unfolding run
run_from-IsValid [] s v = (s, refl, v)
run_from-IsValid (c ∷ cs) s v =
    let (s', eq, v') = call-IsValid c s v in
    let (s'', eq', v'') = run_from-IsValid cs s' v' in (s'', ground arith, v'')

-- No sequence of calls on a new store panics by a round-robin index out of range, and in the store
-- that it leaves every group has a member at its index.
pub run-IsValid : (cs : List Call) → (s : Store) × (run cs new_store ≡ some s) × IsValid s
run-IsValid cs = run_from-IsValid cs new_store tt
