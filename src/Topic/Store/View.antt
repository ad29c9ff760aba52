-- ===== src/Topic/Store/View.antt =====
-- The plain subscriptions of pkg/topic/store.go as a finite map from filter and mailbox to QoS.
use emqx_go.Base.{
  ℕ, ◌≡◌, refl, inl, inr, true, false, ◌&&◌, List, [], ◌∷◌, Option, none, some, arith,
  if◌then◌else◌, Bool-cases, Option-cases, ◌==◌, Text, text_eq, text_eq_iff, has_prefix,
}
use emqx_go.Base.Map.{Map, lookup, lookup-insert, lookup-delete, IsUnique, text_has_eq}
use emqx_go.Topic.Store.{
  Subscription, Store, add_or_update, subscribe, unsubscribe, unsubscribe_plain, or_nil,
  share_prefix, without, put_or_delete, has_mailbox, remove_plain, keep_entry,
  remove_all_subscriptions,
}

-- The QoS at which a mailbox is subscribed in a list.
unfoldable pub find_qos : ℕ → List Subscription → Option ℕ
find_qos mb [] = none
find_qos mb (x ∷ subs) = if x.mailbox == mb then some x.qos else find_qos mb subs

unfoldable pub view : Store → Text → ℕ → Option ℕ
view s filter mb = find_qos mb (or_nil (lookup filter s.subscriptions))

find_qos-add_or_update :
    (mb qos j : ℕ) (subs : List Subscription)
    → find_qos j (add_or_update subs mb qos) ≡ (if mb == j then some qos else find_qos j subs)
unfolding find_qos add_or_update
find_qos-add_or_update mb qos j [] = ground arith
find_qos-add_or_update mb qos j (x ∷ subs) = ground (arith, find_qos-add_or_update mb qos j subs)

find_qos-without :
    (mb j : ℕ) (subs : List Subscription)
    → find_qos j (without mb subs) ≡ (if mb == j then none else find_qos j subs)
unfolding find_qos
find_qos-without mb j [] = ground arith
find_qos-without mb j (x ∷ subs) = ground (arith, find_qos-without mb j subs)

-- Subscribing to a plain filter sets the QoS of that filter and mailbox, and no other.
pub view-subscribe :
    (filter g : Text) (mb qos j : ℕ) (s : Store)
    → has_prefix filter share_prefix ≡ false
    → view (subscribe filter mb qos s) g j
      ≡ (if text_eq filter g && (mb == j) then some qos else view s g j)
unfolding view subscribe
view-subscribe filter g mb qos j s plain = ground (
  arith,
  text_eq_iff filter g,
  lookup-insert filter g (add_or_update (or_nil (lookup filter s.subscriptions)) mb qos)
      s.subscriptions,
  find_qos-add_or_update mb qos j (or_nil (lookup filter s.subscriptions)),
)

lookup-put_or_delete :
    (topic g : Text) (subs : List Subscription) (s : Store)
    → or_nil (lookup g (put_or_delete topic subs s).subscriptions)
      ≡ (if text_eq topic g then subs else or_nil (lookup g s.subscriptions))
lookup-put_or_delete topic g [] s = rw (lookup-delete topic g s.subscriptions) (ground arith)
lookup-put_or_delete topic g (x ∷ subs) s =
    rw (lookup-insert topic g (x ∷ subs) s.subscriptions) (ground arith)

lookup-unsubscribe_plain :
    (topic g : Text) (mb : ℕ) (s : Store)
    → or_nil (lookup g (unsubscribe_plain topic mb s).subscriptions) ≡ (
        if text_eq topic g
        then without mb (or_nil (lookup g s.subscriptions))
        else or_nil (lookup g s.subscriptions))
unfolding unsubscribe_plain
lookup-unsubscribe_plain topic g mb s = elim (Option-cases (lookup topic s.subscriptions)) [
  | inl e ↦ ground (arith, text_eq_iff topic g)
  | inr (subs, e) ↦
      ground (arith, text_eq_iff topic g, lookup-put_or_delete topic g (without mb subs) s)
]

-- Unsubscribing from a plain filter removes that filter and mailbox, and nothing else.
view-unsubscribe :
    (filter g : Text) (mb j : ℕ) (s : Store)
    → has_prefix filter share_prefix ≡ false
    → view (unsubscribe filter mb s) g j
      ≡ (if text_eq filter g && (mb == j) then none else view s g j)
unfolding view unsubscribe
view-unsubscribe filter g mb j s plain = ground (
  arith,
  lookup-unsubscribe_plain filter g mb s,
  find_qos-without mb j (or_nil (lookup g s.subscriptions)),
)

find_qos-absent :
    (mb : ℕ) (subs : List Subscription) → has_mailbox mb subs ≡ false → find_qos mb subs ≡ none
unfolding find_qos
find_qos-absent mb [] h = refl
find_qos-absent mb (x ∷ subs) h = ground (arith, find_qos-absent mb subs)

lookup-keep_entry :
    (topic g : Text) (subs : List Subscription) (m : Map Text (List Subscription))
    → (text_eq topic g ≡ true → lookup g m ≡ none)
    → or_nil (lookup g (keep_entry topic subs m))
      ≡ (if text_eq topic g then subs else or_nil (lookup g m))
unfolding lookup
lookup-keep_entry topic g [] m h = ground arith
lookup-keep_entry topic g (x ∷ subs) m h = ground arith

lookup-keep_entry_ne :
    (topic g : Text) (subs : List Subscription) (m : Map Text (List Subscription))
    → text_eq topic g ≡ false
    → lookup g (keep_entry topic subs m) ≡ lookup g m
unfolding lookup
lookup-keep_entry_ne topic g [] m h = refl
lookup-keep_entry_ne topic g (x ∷ subs) m h = rw h refl

lookup-remove_plain-none :
    (mb : ℕ) (g : Text) (m : Map Text (List Subscription))
    → lookup g m ≡ none
    → lookup g (remove_plain mb m).1 ≡ none
unfolding remove_plain lookup
lookup-remove_plain-none mb g [] h = refl
lookup-remove_plain-none mb g ((k, subs) ∷ m) h =
    let other : text_eq k g ≡ false = ground arith in
    ground (
      arith,
      lookup-remove_plain-none mb g m,
      lookup-keep_entry_ne k g (without mb subs) (remove_plain mb m).1 other,
    )

lookup_cons :
    (g k : Text) (subs : List Subscription) (m : Map Text (List Subscription))
    → lookup g ((k, subs) ∷ m) ≡ (if text_eq k g then some subs else lookup g m)
unfolding lookup
lookup_cons g k subs m = refl

find-remove_plain :
    (mb j : ℕ) (g : Text) (m : Map Text (List Subscription))
    → IsUnique m
    → find_qos j (or_nil (lookup g (remove_plain mb m).1))
      ≡ (if mb == j then none else find_qos j (or_nil (lookup g m)))
unfolding remove_plain
find-remove_plain mb j g [] u = unfold find_qos lookup in ground arith
find-remove_plain mb j g ((k, subs) ∷ m) u =
    let rest = (remove_plain mb m).1 in
    let fresh : text_eq k g ≡ true → lookup g rest ≡ none =
      λ e. lookup-remove_plain-none mb g m (rw (← (text_eq_iff k g).0 e) u.0) in
    elim (Bool-cases (has_mailbox mb subs)) [
      | inl e ↦ rw e (
          ground (
            arith,
            lookup-keep_entry k g (without mb subs) rest fresh,
            find_qos-without mb j subs,
            find-remove_plain mb j g m u.1,
            lookup_cons g k subs m,
          ))
      | inr e ↦ rw e (
          ground (
            arith,
            lookup_cons g k subs m,
            lookup_cons g k subs rest,
            find_qos-absent mb subs e,
            find-remove_plain mb j g m u.1,
          ))
    ]

-- With no filter twice in the store, removing a mailbox removes it under every filter, and changes no
-- other mailbox.
view-remove_all :
    (mb j : ℕ) (g : Text) (s : Store)
    → IsUnique s.subscriptions
    → view (remove_all_subscriptions (some mb) s).1 g j ≡ (if mb == j then none else view s g j)
unfolding view remove_all_subscriptions
view-remove_all mb j g s u = find-remove_plain mb j g s.subscriptions u
