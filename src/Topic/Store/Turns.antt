-- ===== src/Topic/Store/Turns.antt =====
-- One publication to the shared subscriptions of pkg/topic/store.go: it never panics on groups whose
-- index is in range, and moves every matching group on by one member.
use emqx_go.Base.{
  get_elem?-some, ◌++◌, ◌≡◌, refl, inl, inr, Bool, true, false, List, [], ◌∷◌, some, arith,
  if◌then◌else◌, Bool-cases, get_elem?, All, In, Text, text_eq,
}
use emqx_go.Base.Map.{Map, lookup, text_has_eq}
use emqx_go.Topic.Filter.{matches_topic_filter}
use emqx_go.Topic.Store.Groups.{InRange, IsValid}
use emqx_go.Topic.Store.{
  plain_subscribers, get_subscribers, Subscription, SharedSubscription, Store, advance,
  shared_subscribers,
}

advance-InRange : (k : Text) (sh : SharedSubscription) → InRange (k, sh) → InRange (k, advance sh)
advance-InRange k sh h = ground arith

-- Whether a publication moves the group on.
abbrev pub takes_part : Text → SharedSubscription → Bool
takes_part topic sh = matches_topic_filter topic sh.topic

-- The groups after a publication.
pub turn : Text → Map Text SharedSubscription → Map Text SharedSubscription
turn topic [] = []
turn topic ((k, sh) ∷ m) = (k, if takes_part topic sh then advance sh else sh) ∷ turn topic m

pub turn-InRange :
    (topic : Text) (m : Map Text SharedSubscription) → All InRange m → All InRange (turn topic m)
unfolding turn
turn-InRange topic [] v = tt
turn-InRange topic ((k, sh) ∷ m) v = ground (arith, turn-InRange topic m)

pub lookup-turn :
    (topic k : Text) (sh : SharedSubscription) (m : Map Text SharedSubscription)
    → lookup k m ≡ some sh
    → takes_part topic sh ≡ true
    → lookup k (turn topic m) ≡ some (advance sh)
unfolding turn lookup
lookup-turn topic k sh [] h t = absurd (ground arith)
lookup-turn topic k sh ((j, w) ∷ m) h t = ground (arith, lookup-turn topic k sh m)

-- The member whose turn it is in the group `k`, if there is such a group, is among `subs`.
abbrev pub Serves : Text → Map Text SharedSubscription → List Subscription → Type 0
Serves topic m subs =
    (k : Text) (sh : SharedSubscription) (sub : Subscription)
    → lookup k m ≡ some sh
    → takes_part topic sh ≡ true
    → get_elem? sh.mailboxes sh.next_index ≡ some sub
    → In sub subs

Serves-cons :
    (topic j : Text) (w : SharedSubscription) (x : Subscription) (m : Map Text SharedSubscription)
    (subs : List Subscription)
    → get_elem? w.mailboxes w.next_index ≡ some x
    → Serves topic m subs
    → Serves topic ((j, w) ∷ m) (x ∷ subs)
unfolding lookup
Serves-cons topic j w x m subs e rest k sh sub h t g = elim (Bool-cases (text_eq j k)) [
  | inl here ↦ inl (ground arith)
  | inr there ↦ inr (rest k sh sub (ground arith) t g)
]

Serves-skip :
    (topic j : Text) (w : SharedSubscription) (m : Map Text SharedSubscription)
    (subs : List Subscription)
    → takes_part topic w ≡ false
    → Serves topic m subs
    → Serves topic ((j, w) ∷ m) subs
unfolding lookup
Serves-skip topic j w m subs e rest k sh sub h t g =
    let there : text_eq j k ≡ false = ground arith in rest k sh sub (ground arith) t g

pub shared_subscribers-turn :
    (topic : Text) (m : Map Text SharedSubscription)
    → All InRange m
    → (subs : List Subscription) × (shared_subscribers topic m ≡ some (subs, turn topic m))
      × Serves topic m subs
unfolding shared_subscribers turn
shared_subscribers-turn topic [] v =
    ([], refl, λ k sh sub h t g. absurd (unfold lookup in ground arith))
shared_subscribers-turn topic ((k, sh) ∷ m) v =
    let (subs, eq, served) = shared_subscribers-turn topic m v.1 in
    let (sub, pick) = get_elem?-some sh.mailboxes sh.next_index v.0 in
    elim (Bool-cases (takes_part topic sh)) [
      | inl e ↦ (sub ∷ subs, ground arith, Serves-cons topic k sh sub m subs pick served)
      | inr e ↦ (subs, ground arith, Serves-skip topic k sh m subs e served)
    ]

-- A publication does not panic; it moves the matching groups on, and serves one member of each.
pub get_subscribers-turn :
    (topic : Text) (s : Store)
    → IsValid s
    → (subs : List Subscription) × (get_subscribers topic s
        ≡ some (
          plain_subscribers topic s.subscriptions ++ subs,
          record s { shared_subscriptions = turn topic s.shared_subscriptions },
        ))
      × Serves topic s.shared_subscriptions subs
unfolding get_subscribers
get_subscribers-turn topic s v =
    let (subs, eq, served) = shared_subscribers-turn topic s.shared_subscriptions v in
    (subs, ground arith, served)
