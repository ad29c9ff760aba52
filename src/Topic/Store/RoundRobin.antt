-- ===== src/Topic/Store/RoundRobin.antt =====
-- Round robin over the members of a group of pkg/topic/store.go.
use native.Mathlib.Nat.{add-mod_right, mod-add-mod, mod-eq_of_lt}
use emqx_go.Base.{
  get_elem?-some, ℕ, zero, suc, ◌+◌, ◌-◌, ◌%◌, ◌<◌, ◌≡◌, refl, inl, inr, true, List, ◌++◌, Option,
  none, some, arith, length, get_elem?, In, In-append_right, Text, Bool-cases, leb,
}
use emqx_go.Base.Map.{lookup, text_has_eq}
use emqx_go.Topic.Filter.{matches_topic_filter}
use emqx_go.Topic.Store.{
  Subscription, SharedSubscription, Store, advance, plain_subscribers, get_subscribers,
}
use emqx_go.Topic.Store.Groups.{IsValid, lookup-InRange}
use emqx_go.Topic.Store.Turns.{turn, turn-InRange, lookup-turn, get_subscribers-turn}

-- The subscribers that the publication after `n` others to the same topic goes to.
unfoldable pub nth_publication : ℕ → Text → Store → Option (List Subscription)
nth_publication zero topic s = elim (get_subscribers topic s) [
  | none ↦ none
  | some (subs, _) ↦ some subs
]
nth_publication (suc n) topic s = elim (get_subscribers topic s) [
  | none ↦ none
  | some (_, s') ↦ nth_publication n topic s'
]

step_mod : (i n l : ℕ) → ((i + 1) % l + n) % l ≡ (i + suc n) % l
step_mod i n l = let e : i + 1 + n ≡ i + suc n = omega arith in rw (mod-add-mod, e) refl

-- In a store whose groups are in range, the publication after `n` others to a topic that the filter
-- of a group matches goes, among others, to the member `n` places after the group's index, around the end.
pub round_robin :
    (n : ℕ) (topic key : Text) (s : Store) (sh : SharedSubscription)
    → IsValid s
    → lookup key s.shared_subscriptions ≡ some sh
    → matches_topic_filter topic sh.topic ≡ true
    → (subs : List Subscription) × (sub : Subscription) × (nth_publication n topic s ≡ some subs)
      × (get_elem? sh.mailboxes ((sh.next_index + n) % length sh.mailboxes) ≡ some sub)
      × In sub subs
unfolding nth_publication
round_robin zero topic key s sh v h m =
    let (subs, eq, served) = get_subscribers-turn topic s v in
    let r = lookup-InRange key s.shared_subscriptions sh v h in
    let (sub, pick) = get_elem?-some sh.mailboxes sh.next_index r in
    let here : (sh.next_index + 0) % length sh.mailboxes ≡ sh.next_index =
      grind (arith, mod-eq_of_lt) in
    (
      plain_subscribers topic s.subscriptions ++ subs,
      sub,
      ground arith,
      rw here pick,
      In-append_right sub (plain_subscribers topic s.subscriptions) subs
          (served key sh sub h m pick),
    )
round_robin (suc n) topic key s sh v h m =
    let (subs, eq, _) = get_subscribers-turn topic s v in
    let s' : Store = record s { shared_subscriptions = turn topic s.shared_subscriptions } in
    let (subs', sub, e, pick, served) =
      round_robin n topic key s' (advance sh) (turn-InRange topic s.shared_subscriptions v)
        (lookup-turn topic key sh s.shared_subscriptions h m) m in
    let there : ((sh.next_index + 1) % length sh.mailboxes + n) % length sh.mailboxes
        ≡ (sh.next_index + suc n) % length sh.mailboxes =
      step_mod sh.next_index n (length sh.mailboxes) in
    (subs', sub, ground arith, rw (← there) pick, served)

-- The turn at which member `j` is reached from index `i`.
offset_mod : (i j l : ℕ) → i < l → j < l → (n : ℕ) × (n < l) × ((i + n) % l ≡ j)
offset_mod i j l hi hj = elim (Bool-cases (leb i j)) [
  | inl le ↦ let e : i + (j - i) ≡ j = ground arith in (j - i, ground arith, rw e (mod-eq_of_lt hj))
  | inr gt ↦
      let e : i + (j + l - i) ≡ j + l = ground arith in
      (j + l - i, ground arith, rw (e, add-mod_right) (mod-eq_of_lt hj))
]

-- In a store whose groups are in range, each member of a group whose filter a topic matches is reached
-- by one of the next publications to that topic, as many as the group has members.
round_robin_fair :
    (j : ℕ) (topic key : Text) (s : Store) (sh : SharedSubscription)
    → IsValid s
    → lookup key s.shared_subscriptions ≡ some sh
    → matches_topic_filter topic sh.topic ≡ true
    → j < length sh.mailboxes
    → (n : ℕ) × (n < length sh.mailboxes)
      × (subs : List Subscription) × (sub : Subscription) × (nth_publication n topic s ≡ some subs)
      × (get_elem? sh.mailboxes j ≡ some sub)
      × In sub subs
round_robin_fair j topic key s sh v h m lt =
    let (n, small, e) =
      offset_mod sh.next_index j (length sh.mailboxes)
        (lookup-InRange key s.shared_subscriptions sh v h) lt in
    let (subs, sub, published, pick, served) = round_robin n topic key s sh v h m in
    (n, small, subs, sub, published, rw e at pick, served)
