-- ===== src/Topic/Examples.antt =====
-- The theorems on pkg/topic/store.go and on the wildcard matchers at concrete inputs, and tests.
use emqx_go.Base.{
  ◌≡◌, refl, ◌↔◌, ◌⊎◌, true, false, List, [], ◌∷◌, some, codes, arith, In, get_elem?, split,
  has_prefix, text_eq_iff,
}
use emqx_go.Base.Map.{lookup, text_has_eq}
use emqx_go.Topic.Filter.{
  MqttMatches, IsExcluded, filter_loop, levels, hash, matches_topic_filter,
  matches_topic_filter_iff,
}
use emqx_go.Topic.Wildcards.{IsValidFilter, basic_topic_match}
use emqx_go.Topic.Store.{
  Store, Subscription, SharedSubscription, new_store, subscribe, get_subscribers,
  remove_all_subscriptions, has_mailbox,
}
use emqx_go.Topic.Store.Groups.{IsValid}
use emqx_go.Topic.Store.RoundRobin.{nth_publication, round_robin}
use emqx_go.Topic.Store.Calls.{Call, subscribe_to, publish, remove_all, run, run-IsValid}
use emqx_go.Topic.Store.Delivery.{subscribe-get_subscribers, remove_all-get_subscribers}
use emqx_go.Topic.Store.View.{view, view-subscribe}

store_matches :
    (matches_topic_filter (codes "a/b/c") (codes "a/+/c") ≡ true)
    × (matches_topic_filter (codes "a") (codes "a/#") ≡ true)
    × (matches_topic_filter (codes "a/b") (codes "#/b") ≡ false)
    × (matches_topic_filter (codes "a/b") (codes "+") ≡ false)
unfolding matches_topic_filter filter_loop split
store_matches = (refl, refl, refl, refl)

-- The persistent matcher misses what the topic store delivers.
gap :
    (matches_topic_filter (codes "a/b") (codes "a/+") ≡ true)
    × (basic_topic_match (codes "a/b") (codes "a/+") ≡ false)
unfolding matches_topic_filter filter_loop split basic_topic_match
gap = (refl, refl)

valid_filter : IsValidFilter (levels (codes "a/#"))
unfolding split
valid_filter = ((λ e. ground (arith, text_eq_iff (codes "a") hash)), tt)

matches_topic_filter_iff_example :
    (matches_topic_filter (codes "a/b") (codes "a/#") ≡ true)
    ↔ (MqttMatches (codes "a/b") (codes "a/#") ⊎ IsExcluded (codes "a/b") (codes "a/#"))
matches_topic_filter_iff_example = matches_topic_filter_iff (codes "a/b") (codes "a/#")

-- Two members of the group g on a/+, the index at the second.
abbrev members : List Subscription
members = record { mailbox = 1; qos = 0 } ∷ record { mailbox = 2; qos = 1 } ∷ []

abbrev group_of_two : SharedSubscription
group_of_two = record {
  group = codes "g";
  topic = codes "a/+";
  mailboxes = members;
  next_index = 1;
}

abbrev shared_store : Store
shared_store = record {
  subscriptions = (codes "a/b", record { mailbox = 3; qos = 2 } ∷ []) ∷ [];
  shared_subscriptions = (codes "g/a/+", group_of_two) ∷ [];
}

shared_store-IsValid : IsValid shared_store
shared_store-IsValid = omega arith

group_matches : matches_topic_filter (codes "a/b") (codes "a/+") ≡ true
unfolding matches_topic_filter filter_loop split
group_matches = refl

group_there : lookup (codes "g/a/+") shared_store.shared_subscriptions ≡ some group_of_two
unfolding lookup
group_there = refl

round_robin_example :
    (subs : List Subscription) × (sub : Subscription) × (nth_publication 3
        (codes "a/b")
        shared_store
      ≡ some subs)
    × (get_elem? members 0 ≡ some sub)
    × In sub subs
round_robin_example =
    round_robin 3 (codes "a/b") (codes "g/a/+") shared_store group_of_two shared_store-IsValid
      group_there group_matches

abbrev calls : List Call
calls =
    subscribe_to (codes "$share/g/a/+") 1 1
    ∷ subscribe_to (codes "$share/g/a/+") 2 1
    ∷ publish (codes "a/b")
    ∷ remove_all (some 2)
    ∷ publish (codes "a/b")
    ∷ []

run-IsValid_example : (s : Store) × (run calls new_store ≡ some s) × IsValid s
run-IsValid_example = run-IsValid calls

subscribe-get_subscribers_example :
    (subs : List Subscription) × (s' : Store) × (get_subscribers
        (codes "a/b")
        (subscribe (codes "a/+") 7 1 shared_store)
      ≡ some (subs, s'))
    × In (record { mailbox = 7; qos = 1 }) subs
unfolding has_prefix
subscribe-get_subscribers_example =
    subscribe-get_subscribers (codes "a/b") (codes "a/+") 7 1 shared_store shared_store-IsValid refl
      group_matches

remove_all-get_subscribers_example :
    (subs : List Subscription) × (s' : Store) × (get_subscribers
        (codes "a/b")
        (remove_all_subscriptions (some 2) shared_store).1
      ≡ some (subs, s'))
    × (has_mailbox 2 subs ≡ false)
remove_all-get_subscribers_example =
    remove_all-get_subscribers 2 (codes "a/b") shared_store shared_store-IsValid

view-subscribe_example : view (subscribe (codes "a/b") 3 0 shared_store) (codes "a/b") 3 ≡ some 0
unfolding has_prefix
view-subscribe_example = view-subscribe (codes "a/b") (codes "a/b") 3 0 3 shared_store refl
