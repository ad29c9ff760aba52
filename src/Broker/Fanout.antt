-- ===== src/Broker/Fanout.antt =====
-- Who gets a publication that pkg/broker/broker.go routes, how often, and at which QoS.
use emqx_go.Base.{
  ℕ, ◌≡◌, ◌≢◌, refl, sym, ap, ◌∙◌, Bool, true, false, List, [], ◌∷◌, ◌++◌, Option, none, some,
  arith, if◌then◌else◌, ltb, ◌==◌, ==_iff, Bool-cases, inl, inr,
}
use emqx_go.Base.Map.{Map, IsUnique, lookup, insert, lookup-insert, insert-IsUnique, nat_has_eq}
use emqx_go.Topic.Store.{Subscription, Store, get_subscribers, has_mailbox, plain_subscribers}
use emqx_go.Topic.Store.Groups.{IsValid}
use emqx_go.Topic.Store.Turns.{turn, get_subscribers-turn}
use emqx_go.Session.Actor.{Message}
use emqx_go.Broker.State.{Broker, send_all}
use emqx_go.Broker.Route.{
  effective_qos, raises, unique_subs, Routed, message_at, deliveries, with_topics,
  route_with_request_response,
}
use emqx_go.Broker.Mailboxes.{
  Mailboxes, has_room, send_each, sent_to, grown, send_each-deliveries, send_each-full,
}

-- The highest QoS at which a mailbox is subscribed in a list.
pub highest : ℕ → List Subscription → ℕ
highest mb [] = 0
highest mb (sub ∷ subs) =
    let rest = highest mb subs in
    if sub.mailbox == mb then (if ltb rest sub.qos then sub.qos else rest) else rest

-- The higher of two optional numbers.
abbrev join : Option ℕ → Option ℕ → Option ℕ
join none o = o
join (some a) none = some a
join (some a) (some b) = some (if ltb a b then b else a)

join_assoc : (a b c : Option ℕ) → join (join a b) c ≡ join a (join b c)
join_assoc none b c = refl
join_assoc (some a) none c = refl
join_assoc (some a) (some b) none = refl
join_assoc (some a) (some b) (some c) = ground arith

best : ℕ → ℕ → List Subscription → Option ℕ
best publish_qos mb [] = none
best publish_qos mb (sub ∷ subs) =
    let rest = best publish_qos mb subs in
    if sub.mailbox == mb then join (some (effective_qos publish_qos sub.qos)) rest else rest

highest_none :
    (mb : ℕ) (subs : List Subscription) → has_mailbox mb subs ≡ false → highest mb subs ≡ 0
unfolding highest
highest_none mb [] h = refl
highest_none mb (sub ∷ subs) h = ground (arith, highest_none mb subs)

best-highest :
    (publish_qos mb : ℕ) (subs : List Subscription)
    → best publish_qos mb subs
      ≡ (if has_mailbox mb subs then some (effective_qos publish_qos (highest mb subs)) else none)
unfolding best highest effective_qos
best-highest publish_qos mb [] = refl
best-highest publish_qos mb (sub ∷ subs) =
    ground (arith, best-highest publish_qos mb subs, highest_none mb subs)

-- One round of the loop, read at a mailbox.
lookup-round :
    (mb qos : ℕ) (sub : Subscription) (m : Map ℕ ℕ)
    → lookup mb (if raises qos (lookup sub.mailbox m) then insert sub.mailbox qos m else m)
      ≡ (if sub.mailbox == mb then join (lookup mb m) (some qos) else lookup mb m)
lookup-round mb qos sub m =
    ground (arith, lookup-insert sub.mailbox mb qos m, ==_iff sub.mailbox mb)

join_if :
    (b : Bool) (l o r : Option ℕ)
    → join (if b then join l o else l) r ≡ join l (if b then join o r else r)
join_if true l o r = join_assoc l o r
join_if false l o r = refl

lookup-unique_subs :
    (publish_qos mb : ℕ) (subs : List Subscription) (m : Map ℕ ℕ)
    → lookup mb (unique_subs publish_qos subs m) ≡ join (lookup mb m) (best publish_qos mb subs)
unfolding unique_subs best
lookup-unique_subs publish_qos mb [] m = ground arith
lookup-unique_subs publish_qos mb (sub ∷ subs) m =
    let qos = effective_qos publish_qos sub.qos in
    lookup-unique_subs publish_qos mb subs
      (if raises qos (lookup sub.mailbox m) then insert sub.mailbox qos m else m)
    ∙ ap (λ o. join o (best publish_qos mb subs)) (lookup-round mb qos sub m)
    ∙ join_if (sub.mailbox == mb) (lookup mb m) (some qos) (best publish_qos mb subs)

round-IsUnique :
    (b : Bool) (mb qos : ℕ) (m : Map ℕ ℕ) → IsUnique m → IsUnique (if b then insert mb qos m else m)
round-IsUnique true mb qos m u = insert-IsUnique mb qos m u
round-IsUnique false mb qos m u = u

unique_subs-IsUnique :
    (publish_qos : ℕ) (subs : List Subscription) (m : Map ℕ ℕ)
    → IsUnique m
    → IsUnique (unique_subs publish_qos subs m)
unfolding unique_subs
unique_subs-IsUnique publish_qos [] m u = u
unique_subs-IsUnique publish_qos (sub ∷ subs) m u = unique_subs-IsUnique publish_qos subs _ (
    round-IsUnique (raises (effective_qos publish_qos sub.qos) (lookup sub.mailbox m)) sub.mailbox
      (effective_qos publish_qos sub.qos) m u)

abbrev one_or_none : Routed → Option ℕ → List Message
one_or_none p none = []
one_or_none p (some qos) = message_at p qos ∷ []

sent_to-deliveries :
    (mb : ℕ) (p : Routed) (m : Map ℕ ℕ)
    → IsUnique m
    → sent_to mb (deliveries p m) ≡ one_or_none p (lookup mb m)
unfolding lookup sent_to
sent_to-deliveries mb p [] u = refl
sent_to-deliveries mb p ((k, qos) ∷ m) u = elim (Bool-cases (k == mb)) [
  | inl same ↦
      let e : k ≡ mb = (==_iff k mb).0 same in
      let none_left : lookup mb m ≡ none = rw (← e) u.0 in
      let nothing : sent_to mb (deliveries p m) ≡ [] =
        sent_to-deliveries mb p m u.1 ∙ ap (one_or_none p) none_left in
      rw (same, nothing) refl
  | inr other ↦ rw other (sent_to-deliveries mb p m u.1)
]

one_if :
    (b : Bool) (p : Routed) (qos : ℕ)
    → one_or_none p (if b then some qos else none) ≡ (if b then message_at p qos ∷ [] else [])
one_if true p qos = refl
one_if false p qos = refl

some_if : (b : Bool) (qos : ℕ) → (if b then some qos else none) ≢ none → b ≡ true
some_if true qos n = refl
some_if false qos n = absurd (n refl)

lookup-round_of :
    (p : Routed) (k : ℕ) (subs : List Subscription)
    → lookup k (unique_subs p.qos subs [])
      ≡ (if has_mailbox k subs then some (effective_qos p.qos (highest k subs)) else none)
lookup-round_of p k subs =
    lookup-unique_subs p.qos k subs [] ∙ (unfold lookup in best-highest p.qos k subs)

-- With the groups of the topic store in range, a publication is routed without a panic. If the mailbox
-- of every subscriber of the topic has room, and while no actor takes a message out and nobody else
-- sends, no Send waits, and behind what it held a mailbox with a subscription among the subscribers
-- has exactly one message, with the content of the publication and the lower of its QoS and the highest
-- QoS of the mailbox; any other mailbox holds what it held.
pub route-sent_to :
    (p : Routed) (mb : ℕ) (b : Broker) (mbs : Mailboxes)
    → IsValid b.topics
    → ((subs : List Subscription) (s : Store) (k : ℕ)
        → get_subscribers p.topic b.topics ≡ some (subs, s)
        → has_mailbox k subs ≡ true
        → has_room (mbs k) ≡ true)
    → (subs : List Subscription) × (b' : Broker) × (new : List (ℕ × Message)) × (mbs' : Mailboxes)
      × (get_subscribers p.topic b.topics ≡ some (subs, b'.topics))
      × (route_with_request_response p b ≡ some b')
      × (b'.sent ≡ b.sent ++ new)
      × (send_each new mbs ≡ some mbs')
      × (mbs' mb
          ≡ grown
              (if has_mailbox mb subs
                then message_at p (effective_qos p.qos (highest mb subs)) ∷ []
                else [])
              (mbs mb))
unfolding route_with_request_response
route-sent_to p mb b mbs v room =
    let (group, eq, _) = get_subscribers-turn p.topic b.topics v in
    let subs = plain_subscribers p.topic b.topics.subscriptions ++ group in
    let s : Store = record b.topics {
      shared_subscriptions = turn p.topic b.topics.shared_subscriptions;
    } in
    let m = unique_subs p.qos subs [] in
    let u = unique_subs-IsUnique p.qos subs [] tt in
    let (mbs', ran, held) = send_each-deliveries p m mbs u (λ k reached. room subs s k eq (
      some_if (has_mailbox k subs) (effective_qos p.qos (highest k subs))
        (λ q. reached (lookup-round_of p k subs ∙ q)))) in
    let own =
      sent_to-deliveries mb p m u
      ∙ ap (one_or_none p) (lookup-round_of p mb subs)
      ∙ one_if (has_mailbox mb subs) p (effective_qos p.qos (highest mb subs)) in
    (
      subs,
      send_all (deliveries p m) (with_topics b s),
      deliveries p m,
      mbs',
      eq,
      rw (route_with_request_response, eq) refl,
      refl,
      ran,
      held mb ∙ ap (λ ms. grown ms (mbs mb)) own,
    )

if_some : (b : Bool) (qos : ℕ) → b ≡ true → (if b then some qos else none) ≢ none
if_some true qos h q = cc
if_some false qos h q = cc

-- If the mailbox of a subscriber of the topic is full, and while no actor takes a message out, one of the
-- Send calls of the routing waits: it does not return.
pub route-waits :
    (p : Routed) (mb : ℕ) (subs : List Subscription) (s : Store) (b : Broker) (mbs : Mailboxes)
    → get_subscribers p.topic b.topics ≡ some (subs, s)
    → has_mailbox mb subs ≡ true
    → has_room (mbs mb) ≡ false
    → (b' : Broker) × (new : List (ℕ × Message)) × (route_with_request_response p b ≡ some b')
      × (b'.sent ≡ b.sent ++ new)
      × (send_each new mbs ≡ none)
unfolding route_with_request_response
route-waits p mb subs s b mbs eq reached full =
    let m = unique_subs p.qos subs [] in
    (
      send_all (deliveries p m) (with_topics b s),
      deliveries p m,
      rw (route_with_request_response, eq) refl,
      refl,
      send_each-full p mb m mbs
          (λ q.
            if_some (has_mailbox mb subs) (effective_qos p.qos (highest mb subs)) reached
              (sym (lookup-round_of p mb subs) ∙ q))
          full,
    )
