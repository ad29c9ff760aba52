-- ===== src/Topic/Store/Delivery.antt =====
-- Whom a publication to pkg/topic/store.go reaches, and what unsubscribing undoes.
use emqx_go.Base.{
  ℕ, ◌≡◌, refl, inl, inr, true, false, List, [], ◌∷◌, ◌++◌, some, arith, Bool-cases, Option-cases,
  ◌==◌, get_elem?, All, In, In-append_left, In-append_right, filter, Text, text_eq, text_eq_iff,
  has_prefix,
}
use emqx_go.Base.Map.{Map, lookup, lookup-insert_self, text_has_eq}
use emqx_go.Topic.Filter.{matches_topic_filter}
use emqx_go.Topic.Store.{
  Subscription, SharedSubscription, Store, add_or_update, subscribe, or_nil, share_prefix, without,
  plain_subscribers, shared_subscribers, get_subscribers, has_mailbox, remove_plain, remove_shared,
  keep_entry, keep_group, remove_all_subscriptions, Picked,
}
use emqx_go.Topic.Store.Groups.{remove_all_subscriptions-IsValid, subscribe-IsValid, IsValid}
use emqx_go.Topic.Store.Turns.{turn, shared_subscribers-turn, get_subscribers-turn}

In-plain_subscribers :
    (topic filter : Text) (subs : List Subscription) (sub : Subscription)
    (m : Map Text (List Subscription))
    → lookup filter m ≡ some subs
    → matches_topic_filter topic filter ≡ true
    → In sub subs
    → In sub (plain_subscribers topic m)
unfolding lookup plain_subscribers
In-plain_subscribers topic filter subs sub [] h t i = absurd (ground arith)
In-plain_subscribers topic filter subs sub ((f, xs) ∷ m) h t i =
    elim (Bool-cases (text_eq f filter)) [
      | inl here ↦
          let same : f ≡ filter = (text_eq_iff f filter).0 here in
          let all : xs ≡ subs = ground arith in
          rw (same, t, all) (In-append_left sub subs (plain_subscribers topic m) i)
      | inr there ↦
          let deeper : In sub (plain_subscribers topic m) =
            In-plain_subscribers topic filter subs sub m (ground arith) t i in
          elim (Bool-cases (matches_topic_filter topic f)) [
            | inl e ↦ rw e (In-append_right sub xs (plain_subscribers topic m) deeper)
            | inr e ↦ rw e deeper
          ]
    ]

In-add_or_update :
    (subs : List Subscription) (mb qos : ℕ)
    → In (record { mailbox = mb; qos = qos }) (add_or_update subs mb qos)
unfolding add_or_update
In-add_or_update [] mb qos = inl refl
In-add_or_update (x ∷ subs) mb qos = ground (arith, In-add_or_update subs mb qos)

lookup-subscribe :
    (filter : Text) (mb qos : ℕ) (s : Store)
    → has_prefix filter share_prefix ≡ false
    → lookup filter (subscribe filter mb qos s).subscriptions
      ≡ some (add_or_update (or_nil (lookup filter s.subscriptions)) mb qos)
unfolding subscribe
lookup-subscribe filter mb qos s plain = rw (plain, subscribe, lookup-insert_self) refl

-- In a store whose groups are in range, after a subscription to a plain filter a publication to a topic
-- that the filter matches reaches the subscriber, with the QoS that it asked for.
pub subscribe-get_subscribers :
    (topic filter : Text) (mb qos : ℕ) (s : Store)
    → IsValid s
    → has_prefix filter share_prefix ≡ false
    → matches_topic_filter topic filter ≡ true
    → (subs : List Subscription) × (s' : Store) × (get_subscribers topic (subscribe filter mb qos s)
        ≡ some (subs, s'))
      × In (record { mailbox = mb; qos = qos }) subs
subscribe-get_subscribers topic filter mb qos s v plain t =
    let s' = subscribe filter mb qos s in
    let sub : Subscription = record { mailbox = mb; qos = qos } in
    let (subs, eq, _) = get_subscribers-turn topic s' (subscribe-IsValid filter mb qos s v) in
    (
      plain_subscribers topic s'.subscriptions ++ subs,
      _,
      eq,
      In-append_left sub (plain_subscribers topic s'.subscriptions) subs (
          In-plain_subscribers topic filter _ sub s'.subscriptions
            (lookup-subscribe filter mb qos s plain) t
            (In-add_or_update (or_nil (lookup filter s.subscriptions)) mb qos)),
    )

-- No subscriber in a list has the mailbox.
has_mailbox-append :
    (mb : ℕ) (xs ys : List Subscription)
    → has_mailbox mb xs ≡ false
    → has_mailbox mb ys ≡ false
    → has_mailbox mb (xs ++ ys) ≡ false
has_mailbox-append mb [] ys h k = k
has_mailbox-append mb (x ∷ xs) ys h k = ground (arith, has_mailbox-append mb xs ys)

has_mailbox-without : (mb : ℕ) (xs : List Subscription) → has_mailbox mb (without mb xs) ≡ false
has_mailbox-without mb [] = refl
has_mailbox-without mb (x ∷ xs) = ground (arith, has_mailbox-without mb xs)

abbrev IsGone : ℕ → Text × List Subscription → Type 0
IsGone mb e = has_mailbox mb e.1 ≡ false

abbrev IsGoneGroup : ℕ → Text × SharedSubscription → Type 0
IsGoneGroup mb e = has_mailbox mb e.1.mailboxes ≡ false

keep_entry-IsGone :
    (mb : ℕ) (topic : Text) (subs : List Subscription) (m : Map Text (List Subscription))
    → has_mailbox mb subs ≡ false
    → All (IsGone mb) m
    → All (IsGone mb) (keep_entry topic subs m)
keep_entry-IsGone mb topic [] m h v = v
keep_entry-IsGone mb topic (x ∷ subs) m h v = (h, v)

keep_group-IsGone :
    (mb : ℕ) (k : Text) (subs : List Subscription) (sh : SharedSubscription)
    (m : Map Text SharedSubscription)
    → has_mailbox mb subs ≡ false
    → All (IsGoneGroup mb) m
    → All (IsGoneGroup mb) (keep_group k subs sh m)
keep_group-IsGone mb k [] sh m h v = v
keep_group-IsGone mb k (x ∷ subs) sh m h v = (h, v)

remove_plain-IsGone :
    (mb : ℕ) (m : Map Text (List Subscription)) → All (IsGone mb) (remove_plain mb m).1
unfolding remove_plain
remove_plain-IsGone mb [] = tt
remove_plain-IsGone mb ((topic, subs) ∷ m) = elim (Bool-cases (has_mailbox mb subs)) [
  | inl e ↦ rw e (
      keep_entry-IsGone mb topic (without mb subs) _ (has_mailbox-without mb subs)
        (remove_plain-IsGone mb m))
  | inr e ↦ rw e (e, remove_plain-IsGone mb m)
]

remove_shared-IsGone :
    (mb : ℕ) (m : Map Text SharedSubscription) → All (IsGoneGroup mb) (remove_shared mb m)
unfolding remove_shared
remove_shared-IsGone mb [] = tt
remove_shared-IsGone mb ((k, sh) ∷ m) = elim (Bool-cases (has_mailbox mb sh.mailboxes)) [
  | inl e ↦ rw e (
      keep_group-IsGone mb k (without mb sh.mailboxes) sh _ (has_mailbox-without mb sh.mailboxes)
        (remove_shared-IsGone mb m))
  | inr e ↦ rw e (e, remove_shared-IsGone mb m)
]

plain_subscribers-IsGone :
    (mb : ℕ) (topic : Text) (m : Map Text (List Subscription))
    → All (IsGone mb) m
    → has_mailbox mb (plain_subscribers topic m) ≡ false
unfolding plain_subscribers
plain_subscribers-IsGone mb topic [] v = refl
plain_subscribers-IsGone mb topic ((f, subs) ∷ m) v = ground (
  arith,
  plain_subscribers-IsGone mb topic m v.1,
  has_mailbox-append mb subs (plain_subscribers topic m),
)

has_mailbox-get_elem? :
    (mb : ℕ) (xs : List Subscription) (i : ℕ) (x : Subscription)
    → has_mailbox mb xs ≡ false
    → get_elem? xs i ≡ some x
    → (x.mailbox == mb) ≡ false
has_mailbox-get_elem? mb [] i x h e = cc
has_mailbox-get_elem? mb (y ∷ xs) ℕ.zero x h e = ground arith
has_mailbox-get_elem? mb (y ∷ xs) (ℕ.suc i) x h e = has_mailbox-get_elem? mb xs i x (ground arith) e

shared_subscribers-IsGone :
    (mb : ℕ) (topic : Text) (m : Map Text SharedSubscription) (p : Picked)
    → All (IsGoneGroup mb) m
    → shared_subscribers topic m ≡ some p
    → has_mailbox mb p.0 ≡ false
unfolding shared_subscribers
shared_subscribers-IsGone mb topic [] p v e = ground arith
shared_subscribers-IsGone mb topic ((k, sh) ∷ m) p v e =
    elim (Option-cases (shared_subscribers topic m)) [
      | inl er ↦ absurd (ground arith)
      | inr (q, er) ↦
          let ih = shared_subscribers-IsGone mb topic m q v.1 er in
          elim (Option-cases (get_elem? sh.mailboxes sh.next_index)) [
            | inl eg ↦ ground arith
            | inr (x, eg) ↦
                ground (arith, has_mailbox-get_elem? mb sh.mailboxes sh.next_index x v.0 eg)
          ]
    ]

-- In a store whose groups are in range, after RemoveAllSubscriptions a publication, on any topic,
-- returns its subscribers, and the mailbox is not among them, neither directly nor through a group.
pub remove_all-get_subscribers :
    (mb : ℕ) (topic : Text) (s : Store)
    → IsValid s
    → (subs : List Subscription) × (s' : Store) × (get_subscribers topic
          (remove_all_subscriptions (some mb) s).1
        ≡ some (subs, s'))
      × (has_mailbox mb subs ≡ false)
unfolding remove_all_subscriptions
remove_all-get_subscribers mb topic s v =
    let m' = (remove_plain mb s.subscriptions).1 in
    let sh' = remove_shared mb s.shared_subscriptions in
    let (subs, eq, _) =
      shared_subscribers-turn topic sh' (remove_all_subscriptions-IsValid (some mb) s v) in
    (
      plain_subscribers topic m' ++ subs,
      record { subscriptions = m'; shared_subscriptions = turn topic sh' },
      unfold get_subscribers in ground arith,
      has_mailbox-append mb (plain_subscribers topic m') subs
          (plain_subscribers-IsGone mb topic m' (remove_plain-IsGone mb s.subscriptions))
          (shared_subscribers-IsGone mb topic sh' _ (remove_shared-IsGone mb s.shared_subscriptions)
            eq),
    )
