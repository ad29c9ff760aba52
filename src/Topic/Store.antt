-- ===== src/Topic/Store.antt =====
-- Store of pkg/topic/store.go. A mailbox is a pointer, and stands as the number that identifies it.
-- A method is one step: the lock makes it one, but for GetSubscribers, which holds the lock for reading
-- only and may run at the same time as another GetSubscribers. The proofs are in the modules below.
pub mod Groups
pub mod Turns
pub mod RoundRobin
pub mod Calls
pub mod Delivery
pub mod View
use emqx_go.Base.{
  ℕ, suc, ◌+◌, ◌%◌, Bool, true, false, not, List, [], ◌∷◌, ◌++◌, Option, none, some, leb,
  if◌then◌else◌, ◌==◌, length, get_elem?, filter, Text, codes, split_n, has_prefix,
}
use emqx_go.Base.Map.{Map, lookup, insert, delete, text_has_eq}
use emqx_go.Topic.Filter.{slash, matches_topic_filter}

pub record Subscription : Type 0 where
  pub mailbox : ℕ
  pub qos : ℕ

pub record SharedSubscription : Type 0 where
  pub group : Text
  pub topic : Text
  pub mailboxes : List Subscription
  pub next_index : ℕ

pub record Store : Type 0 where
  pub subscriptions : Map Text (List Subscription)
  pub shared_subscriptions : Map Text SharedSubscription

abbrev pub new_store : Store
new_store = record { subscriptions = []; shared_subscriptions = [] }

-- What indexing a Go map yields on a missing key, for slices.
abbrev pub or_nil {ℓ} : {A : Type ℓ} → Option (List A) → List A
or_nil none = []
or_nil (some xs) = xs

unfoldable pub add_or_update : List Subscription → ℕ → ℕ → List Subscription
add_or_update [] mb qos = record { mailbox = mb; qos = qos } ∷ []
add_or_update (x ∷ subs) mb qos =
    let rest = add_or_update subs mb qos in
    if x.mailbox == mb then record x { qos = qos } ∷ subs else x ∷ rest

abbrev pub share_prefix : Text
share_prefix = codes "$share/"

abbrev pub group_key : Text → Text → Text
group_key group actual = group ++ slash ∷ actual

-- sharedSub, as created or as found.
abbrev pub shared_or_new : Text → Text → Option SharedSubscription → SharedSubscription
shared_or_new group actual none = record {
  group = group;
  topic = actual;
  mailboxes = [];
  next_index = 0;
}
shared_or_new group actual (some sh) = sh

unfoldable pub join_group : Text → Text → ℕ → ℕ → Store → Store
unfolding add_or_update
join_group group actual mb qos s =
    let key = group_key group actual in
    let sh = shared_or_new group actual (lookup key s.shared_subscriptions) in
    let sh' : SharedSubscription = record sh { mailboxes = add_or_update sh.mailboxes mb qos } in
    record s { shared_subscriptions = insert key sh' s.shared_subscriptions }

-- An invalid shared format: the subscription is appended without a search.
unfoldable pub append_plain : Text → ℕ → ℕ → Store → Store
append_plain topic mb qos s =
    let sub : Subscription = record { mailbox = mb; qos = qos } in
    record s {
      subscriptions =
          insert topic (or_nil (lookup topic s.subscriptions) ++ sub ∷ []) s.subscriptions;
    }

-- subscribeShared, on the parts of the split topic.
unfoldable pub subscribe_shared : List Text → Text → ℕ → ℕ → Store → Store
unfolding join_group append_plain
subscribe_shared (_ ∷ group ∷ actual ∷ []) topic mb qos s = join_group group actual mb qos s
subscribe_shared _ topic mb qos s = append_plain topic mb qos s

unfoldable pub subscribe : Text → ℕ → ℕ → Store → Store
unfolding subscribe_shared add_or_update
subscribe topic mb qos s =
    if has_prefix topic share_prefix
    then subscribe_shared (split_n slash 3 topic) topic mb qos s
    else record s {
      subscriptions =
          insert topic (add_or_update (or_nil (lookup topic s.subscriptions)) mb qos)
            s.subscriptions;
    }

abbrev pub without : ℕ → List Subscription → List Subscription
without mb = filter (λ sub. not (sub.mailbox == mb))

-- The entry with the new subscribers, or no entry when none is left.
abbrev pub put_or_delete : Text → List Subscription → Store → Store
put_or_delete topic [] s = record s { subscriptions = delete topic s.subscriptions }
put_or_delete topic (x ∷ subs) s = record s {
  subscriptions = insert topic (x ∷ subs) s.subscriptions;
}

unfoldable pub unsubscribe_plain : Text → ℕ → Store → Store
unsubscribe_plain topic mb s = elim (lookup topic s.subscriptions) [
  | none ↦ s
  | some subs ↦ put_or_delete topic (without mb subs) s
]

-- The group with the new mailboxes, the index reset if it is out of bounds.
abbrev pub shrink : List Subscription → SharedSubscription → SharedSubscription
shrink subs sh = record sh {
  mailboxes = subs;
  next_index = if leb (length subs) sh.next_index then 0 else sh.next_index;
}

abbrev pub put_or_delete_group :
    Text
    → List Subscription
    → SharedSubscription
    → Map Text SharedSubscription
    → Map Text SharedSubscription
put_or_delete_group key [] sh m = delete key m
put_or_delete_group key (x ∷ subs) sh m = insert key (shrink (x ∷ subs) sh) m

unfoldable pub leave_group : Text → Text → ℕ → Store → Store
leave_group group actual mb s =
    let key = group_key group actual in
    elim (lookup key s.shared_subscriptions) [
      | none ↦ s
      | some sh ↦ record s {
        shared_subscriptions =
            put_or_delete_group key (without mb sh.mailboxes) sh s.shared_subscriptions;
      }
    ]

unfoldable pub unsubscribe_shared : List Text → Text → ℕ → Store → Store
unfolding leave_group unsubscribe_plain
unsubscribe_shared (_ ∷ group ∷ actual ∷ []) topic mb s = leave_group group actual mb s
unsubscribe_shared _ topic mb s = unsubscribe_plain topic mb s

unfoldable pub unsubscribe : Text → ℕ → Store → Store
unfolding unsubscribe_shared unsubscribe_plain
unsubscribe topic mb s =
    if has_prefix topic share_prefix
    then unsubscribe_shared (split_n slash 3 topic) topic mb s
    else unsubscribe_plain topic mb s

-- The range over the plain subscriptions.
unfoldable pub plain_subscribers : Text → Map Text (List Subscription) → List Subscription
plain_subscribers topic [] = []
plain_subscribers topic ((filter, subs) ∷ m) =
    let rest = plain_subscribers topic m in
    if matches_topic_filter topic filter then subs ++ rest else rest

-- The range over the groups: one member of each that matches, and the index moved on. `none` is the
-- panic of an index out of range.
abbrev pub advance : SharedSubscription → SharedSubscription
advance sh = record sh { next_index = (sh.next_index + 1) % length sh.mailboxes }

abbrev pub Picked : Type 0
Picked = List Subscription × Map Text SharedSubscription

abbrev pub picked_cons :
    Text → SharedSubscription → Option Subscription → Option Picked → Option Picked
picked_cons key sh none rest = none
picked_cons key sh (some sub) none = none
picked_cons key sh (some sub) (some (subs, m)) = some (sub ∷ subs, (key, advance sh) ∷ m)

abbrev pub keep_cons : Text → SharedSubscription → Option Picked → Option Picked
keep_cons key sh none = none
keep_cons key sh (some (subs, m)) = some (subs, (key, sh) ∷ m)

abbrev pub not_empty {ℓ} : {A : Type ℓ} → List A → Bool
not_empty [] = false
not_empty (x ∷ xs) = true

unfoldable pub shared_subscribers : Text → Map Text SharedSubscription → Option Picked
shared_subscribers topic [] = some ([], [])
shared_subscribers topic ((key, sh) ∷ m) =
    let rest = shared_subscribers topic m in
    if matches_topic_filter topic sh.topic
    then (if not_empty sh.mailboxes
        then picked_cons key sh (get_elem? sh.mailboxes sh.next_index) rest
        else keep_cons key sh rest)
    else keep_cons key sh rest

-- GetSubscribers, where no other call of it runs at the same time and moves the index of a group.
unfoldable pub get_subscribers : Text → Store → Option (List Subscription × Store)
get_subscribers topic s = elim (shared_subscribers topic s.shared_subscriptions) [
  | none ↦ none
  | some (subs, m) ↦
      some (plain_subscribers topic s.subscriptions ++ subs, record s { shared_subscriptions = m })
]

abbrev pub has_mailbox : ℕ → List Subscription → Bool
has_mailbox mb [] = false
has_mailbox mb (x ∷ subs) = if x.mailbox == mb then true else has_mailbox mb subs

-- The first loop of RemoveAllSubscriptions: the removed filters, and the entries that are left.
abbrev pub keep_entry :
    Text → List Subscription → Map Text (List Subscription) → Map Text (List Subscription)
keep_entry topic [] m = m
keep_entry topic (x ∷ subs) m = (topic, x ∷ subs) ∷ m

unfoldable pub remove_plain :
    ℕ → Map Text (List Subscription) → List Text × Map Text (List Subscription)
remove_plain mb [] = ([], [])
remove_plain mb ((topic, subs) ∷ m) =
    let rest = remove_plain mb m in
    if has_mailbox mb subs
    then (topic ∷ rest.0, keep_entry topic (without mb subs) rest.1)
    else (rest.0, (topic, subs) ∷ rest.1)

abbrev pub keep_group :
    Text
    → List Subscription
    → SharedSubscription
    → Map Text SharedSubscription
    → Map Text SharedSubscription
keep_group key [] sh m = m
keep_group key (x ∷ subs) sh m = (key, shrink (x ∷ subs) sh) ∷ m

-- The second loop, over the groups.
unfoldable pub remove_shared : ℕ → Map Text SharedSubscription → Map Text SharedSubscription
remove_shared mb [] = []
remove_shared mb ((key, sh) ∷ m) =
    let rest = remove_shared mb m in
    if has_mailbox mb sh.mailboxes
    then keep_group key (without mb sh.mailboxes) sh rest
    else (key, sh) ∷ rest

-- RemoveAllSubscriptions; a nil mailbox removes nothing.
unfoldable pub remove_all_subscriptions : Option ℕ → Store → List Text × Store
unfolding remove_plain remove_shared
remove_all_subscriptions none s = ([], s)
remove_all_subscriptions (some mb) s =
    let (removed, m) = remove_plain mb s.subscriptions in
    (
      removed,
      record { subscriptions = m; shared_subscriptions = remove_shared mb s.shared_subscriptions },
    )
