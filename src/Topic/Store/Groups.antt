-- ===== src/Topic/Store/Groups.antt =====
-- Shared subscriptions of pkg/topic/store.go: the index stays in range, and round robin is fair.
use emqx_go.Base.{
  ℕ, zero, suc, ◌<◌, ◌≡◌, refl, inl, inr, List, [], ◌∷◌, Option, none, some, arith, Bool-cases,
  Option-cases, length, All, Text, split_n, has_prefix,
}
use emqx_go.Base.Map.{Map, lookup, insert, delete, text_has_eq}
use emqx_go.Topic.Filter.{slash}
use emqx_go.Topic.Store.{
  Subscription, SharedSubscription, Store, add_or_update, join_group, subscribe_shared, subscribe,
  without, shrink, put_or_delete_group, leave_group, unsubscribe_shared, unsubscribe, has_mailbox,
  keep_group, remove_shared, remove_all_subscriptions, group_key, shared_or_new, share_prefix,
  unsubscribe_plain, put_or_delete,
}

-- The next index of a group names a mailbox, so the group is not empty either.
abbrev pub InRange : Text × SharedSubscription → Type 0
InRange e = e.1.next_index < length e.1.mailboxes

abbrev pub IsValid : Store → Type 0
IsValid s = All InRange s.shared_subscriptions

length-add_or_update-pos :
    (subs : List Subscription) (mb qos : ℕ) → 0 < length (add_or_update subs mb qos)
unfolding add_or_update
length-add_or_update-pos [] mb qos = omega arith
length-add_or_update-pos (x ∷ subs) mb qos = ground arith

length-add_or_update-le :
    (subs : List Subscription) (mb qos : ℕ) (n : ℕ)
    → n < length subs
    → n < length (add_or_update subs mb qos)
unfolding add_or_update
length-add_or_update-le [] mb qos n h = absurd (omega arith)
length-add_or_update-le (x ∷ subs) mb qos zero h = ground arith
length-add_or_update-le (x ∷ subs) mb qos (suc n) h =
    ground (arith, length-add_or_update-le subs mb qos n)

All-insert :
    (k : Text) (sh : SharedSubscription) (m : Map Text SharedSubscription)
    → InRange (k, sh)
    → All InRange m
    → All InRange (insert k sh m)
unfolding insert
All-insert k sh [] h v = (h, tt)
All-insert k sh ((j, w) ∷ m) h v = ground (arith, All-insert k sh m h)

All-delete : (k : Text) (m : Map Text SharedSubscription) → All InRange m → All InRange (delete k m)
unfolding delete
All-delete k [] v = tt
All-delete k ((j, w) ∷ m) v = ground (arith, All-delete k m)

pub lookup-InRange :
    (k : Text) (m : Map Text SharedSubscription) (sh : SharedSubscription)
    → All InRange m
    → lookup k m ≡ some sh
    → InRange (k, sh)
unfolding lookup
lookup-InRange k [] sh v e = absurd (ground arith)
lookup-InRange k ((j, w) ∷ m) sh v e = ground (arith, lookup-InRange k m sh)

joined-InRange :
    (group actual key : Text) (mb qos : ℕ) (o : Option SharedSubscription)
    → ((sh : SharedSubscription) → o ≡ some sh → InRange (key, sh))
    → (shared_or_new group actual o).next_index
      < length (add_or_update (shared_or_new group actual o).mailboxes mb qos)
joined-InRange group actual key mb qos none h = length-add_or_update-pos [] mb qos
joined-InRange group actual key mb qos (some sh) h =
    length-add_or_update-le sh.mailboxes mb qos sh.next_index (h sh refl)

join_group-IsValid :
    (group actual : Text) (mb qos : ℕ) (s : Store)
    → IsValid s
    → IsValid (join_group group actual mb qos s)
unfolding join_group
join_group-IsValid group actual mb qos s v =
    All-insert (group_key group actual) _ s.shared_subscriptions
      (joined-InRange group actual (group_key group actual) mb qos _
        (λ sh. lookup-InRange (group_key group actual) s.shared_subscriptions sh v))
      v

put_or_delete_group-InRange :
    (k : Text) (subs : List Subscription) (sh : SharedSubscription)
    (m : Map Text SharedSubscription)
    → All InRange m
    → All InRange (put_or_delete_group k subs sh m)
put_or_delete_group-InRange k [] sh m v = All-delete k m v
put_or_delete_group-InRange k (x ∷ subs) sh m v =
    All-insert k (shrink (x ∷ subs) sh) m (ground arith) v

leave_group-IsValid :
    (group actual : Text) (mb : ℕ) (s : Store) → IsValid s → IsValid (leave_group group actual mb s)
unfolding leave_group
leave_group-IsValid group actual mb s v =
    elim (Option-cases (lookup (group_key group actual) s.shared_subscriptions)) [
      | inl e ↦ rw (e, leave_group) v
      | inr (sh, e) ↦
          rw (e, leave_group) (put_or_delete_group-InRange _ (without mb sh.mailboxes) sh _ v)
    ]

put_or_delete-shared :
    (topic : Text) (subs : List Subscription) (s : Store)
    → (put_or_delete topic subs s).shared_subscriptions ≡ s.shared_subscriptions
put_or_delete-shared topic [] s = refl
put_or_delete-shared topic (x ∷ subs) s = refl

unsubscribe_plain-shared :
    (topic : Text) (mb : ℕ) (s : Store)
    → (unsubscribe_plain topic mb s).shared_subscriptions ≡ s.shared_subscriptions
unfolding unsubscribe_plain
unsubscribe_plain-shared topic mb s = elim (Option-cases (lookup topic s.subscriptions)) [
  | inl e ↦ rw (e, unsubscribe_plain) refl
  | inr (subs, e) ↦ rw (e, unsubscribe_plain) (put_or_delete-shared topic (without mb subs) s)
]

keep_group-InRange :
    (k : Text) (subs : List Subscription) (sh : SharedSubscription)
    (m : Map Text SharedSubscription)
    → All InRange m
    → All InRange (keep_group k subs sh m)
keep_group-InRange k [] sh m v = v
keep_group-InRange k (x ∷ subs) sh m v = (ground arith, v)

remove_shared-InRange :
    (mb : ℕ) (m : Map Text SharedSubscription) → All InRange m → All InRange (remove_shared mb m)
unfolding remove_shared
remove_shared-InRange mb [] v = tt
remove_shared-InRange mb ((k, sh) ∷ m) v = elim (Bool-cases (has_mailbox mb sh.mailboxes)) [
  | inl e ↦
      rw e (keep_group-InRange k (without mb sh.mailboxes) sh _ (remove_shared-InRange mb m v.1))
  | inr e ↦ rw e (v.0, remove_shared-InRange mb m v.1)
]

subscribe_shared-IsValid :
    (parts : List Text) (topic : Text) (mb qos : ℕ) (s : Store)
    → IsValid s
    → IsValid (subscribe_shared parts topic mb qos s)
unfolding subscribe_shared
subscribe_shared-IsValid (_ ∷ group ∷ actual ∷ []) topic mb qos s v =
    join_group-IsValid group actual mb qos s v
subscribe_shared-IsValid _ topic mb qos s v = v

pub subscribe-IsValid :
    (topic : Text) (mb qos : ℕ) (s : Store) → IsValid s → IsValid (subscribe topic mb qos s)
unfolding subscribe
subscribe-IsValid topic mb qos s v = elim (Bool-cases (has_prefix topic share_prefix)) [
  | inl e ↦ rw e (subscribe_shared-IsValid (split_n slash 3 topic) topic mb qos s v)
  | inr e ↦ rw e v
]

unsubscribe_shared-IsValid :
    (parts : List Text) (topic : Text) (mb : ℕ) (s : Store)
    → IsValid s
    → IsValid (unsubscribe_shared parts topic mb s)
unfolding unsubscribe_shared
unsubscribe_shared-IsValid (_ ∷ group ∷ actual ∷ []) topic mb s v =
    leave_group-IsValid group actual mb s v
unsubscribe_shared-IsValid _ topic mb s v = rw (unsubscribe_plain-shared topic mb s) v

pub unsubscribe-IsValid :
    (topic : Text) (mb : ℕ) (s : Store) → IsValid s → IsValid (unsubscribe topic mb s)
unfolding unsubscribe
unsubscribe-IsValid topic mb s v = elim (Bool-cases (has_prefix topic share_prefix)) [
  | inl e ↦ rw e (unsubscribe_shared-IsValid (split_n slash 3 topic) topic mb s v)
  | inr e ↦ rw (e, unsubscribe_plain-shared topic mb s) v
]

pub remove_all_subscriptions-IsValid :
    (mb : Option ℕ) (s : Store) → IsValid s → IsValid (remove_all_subscriptions mb s).1
unfolding remove_all_subscriptions
remove_all_subscriptions-IsValid none s v = v
remove_all_subscriptions-IsValid (some mb) s v = remove_shared-InRange mb s.shared_subscriptions v
