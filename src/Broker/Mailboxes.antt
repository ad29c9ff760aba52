-- ===== src/Broker/Mailboxes.antt =====
-- The mailboxes of pkg/actor/actor.go, and what becomes of the messages that pkg/broker/broker.go sends
-- to them one after the other. A mailbox is a channel with room for a fixed number of messages.
use mathlib.Core.Path.{subst}
use emqx_go.Base.{
  false, ℕ, ◌≡◌, ◌≢◌, refl, sym, ap, ◌∙◌, Bool, true, List, [], ◌∷◌, ◌++◌, Option, none, some,
  arith, if◌then◌else◌, ltb, length, ◌==◌, ==_iff, Bool-cases, inl, inr, append_assoc, append-nil,
}
use emqx_go.Base.Map.{Map, IsUnique, lookup, nat_has_eq}
use emqx_go.Session.Actor.{Message}
use emqx_go.Broker.Route.{Routed, message_at, deliveries}

pub record Mailbox : Type 0 where
  pub size : ℕ
  pub messages : List Message

unfoldable pub new_mailbox : ℕ → Mailbox
new_mailbox size = record { size = size; messages = [] }

abbrev pub has_room : Mailbox → Bool
has_room mb = ltb (length mb.messages) mb.size

abbrev pub with_message : Message → Mailbox → Mailbox
with_message msg mb = record mb { messages = mb.messages ++ msg ∷ [] }

-- Send; `none` is a call that waits until its actor takes a message out.
unfoldable pub mailbox_send : Message → Mailbox → Option Mailbox
mailbox_send msg mb = if has_room mb then some (with_message msg mb) else none

-- The mailboxes by the numbers that stand for their pointers.
abbrev pub Mailboxes : Type 0
Mailboxes = ℕ → Mailbox

abbrev pub put_mailbox : ℕ → Mailbox → Mailboxes → Mailboxes
put_mailbox n mb mbs k = if n == k then mb else mbs k

abbrev after_send : Option Mailbox → (Mailbox → Option Mailboxes) → Option Mailboxes
after_send none rest = none
after_send (some mb) rest = rest mb

-- Messages sent one after the other, while no actor takes a message out and nobody else sends; `none`
-- is a Send that waits, behind which nothing is sent.
unfoldable pub send_each : List (ℕ × Message) → Mailboxes → Option Mailboxes
unfolding mailbox_send
send_each [] mbs = some mbs
send_each ((n, msg) ∷ ms) mbs =
    after_send (mailbox_send msg (mbs n)) (λ mb. send_each ms (put_mailbox n mb mbs))

-- The messages of a list that go to one mailbox.
unfoldable pub sent_to : ℕ → List (ℕ × Message) → List Message
sent_to k [] = []
sent_to k ((n, msg) ∷ ms) = let rest = sent_to k ms in if n == k then msg ∷ rest else rest

abbrev pub grown : List Message → Mailbox → Mailbox
grown ms mb = record mb { messages = mb.messages ++ ms }

grown-append :
    (msg : Message) (ms : List Message) (mb : Mailbox)
    → grown ms (with_message msg mb) ≡ grown (msg ∷ ms) mb
grown-append msg ms mb =
    ap (λ (xs : List Message). record mb { messages = xs }) (append_assoc mb.messages (msg ∷ []) ms)

grown-nil : (mb : Mailbox) → mb ≡ grown [] mb
grown-nil mb =
    ap (λ (xs : List Message). record mb { messages = xs }) (sym (append-nil mb.messages))

-- After a message to a mailbox that the deliveries which follow do not reach.
room_left :
    (n k : ℕ) (mb : Mailbox) (m : Map ℕ ℕ) (mbs : Mailboxes)
    → lookup n m ≡ none
    → lookup k m ≢ none
    → has_room (mbs k) ≡ true
    → has_room (put_mailbox n mb mbs k) ≡ true
room_left n k mb m mbs away reached room = elim (Bool-cases (n == k)) [
  | inl same ↦ absurd (reached (subst (λ x. lookup x m ≡ none) ((==_iff n k).0 same) away))
  | inr other ↦ rw other room
]

held_after :
    (n k : ℕ) (msg : Message) (ms : List (ℕ × Message)) (mbs : Mailboxes)
    → grown (sent_to k ms) (put_mailbox n (with_message msg (mbs n)) mbs k)
      ≡ grown (sent_to k ((n, msg) ∷ ms)) (mbs k)
unfolding sent_to
held_after n k msg ms mbs = elim (Bool-cases (n == k)) [
  | inl same ↦ rw same (
      subst
        (λ x. grown (sent_to k ms) (with_message msg (mbs x)) ≡ grown (msg ∷ sent_to k ms) (mbs k))
        (sym ((==_iff n k).0 same)) (grown-append msg (sent_to k ms) (mbs k)))
  | inr other ↦ rw other refl
]

sends_first :
    (n : ℕ) (msg : Message) (ms : List (ℕ × Message)) (mbs : Mailboxes)
    → has_room (mbs n) ≡ true
    → send_each ((n, msg) ∷ ms) mbs ≡ send_each ms (put_mailbox n (with_message msg (mbs n)) mbs)
unfolding send_each mailbox_send
sends_first n msg ms mbs room = rw room refl

-- Deliveries to mailboxes with room are all sent: each mailbox then holds what it held, and behind it
-- the messages for it.
pub send_each-deliveries :
    (p : Routed) (m : Map ℕ ℕ) (mbs : Mailboxes)
    → IsUnique m
    → ((k : ℕ) → lookup k m ≢ none → has_room (mbs k) ≡ true)
    → (mbs' : Mailboxes) × (send_each (deliveries p m) mbs ≡ some mbs')
      × ((k : ℕ) → mbs' k ≡ grown (sent_to k (deliveries p m)) (mbs k))
unfolding send_each lookup sent_to
send_each-deliveries p [] mbs u room = (mbs, refl, λ k. grown-nil (mbs k))
send_each-deliveries p ((n, qos) ∷ m) mbs u room =
    let msg = message_at p qos in
    let rest = put_mailbox n (with_message msg (mbs n)) mbs in
    let listed : lookup n ((n, qos) ∷ m) ≢ none = λ q. ground (arith, ==_iff n n) in
    let (mbs', ran, held) = send_each-deliveries p m rest u.1 (λ k reached.
      room_left n k (with_message msg (mbs n)) m mbs u.0 reached
        (room k (λ q. ground (arith, reached)))) in
    (
      mbs',
      sends_first n msg (deliveries p m) mbs (room n listed) ∙ ran,
      λ k. held k ∙ held_after n k msg (deliveries p m) mbs,
    )

waits_at_full :
    (n : ℕ) (msg : Message) (ms : List (ℕ × Message)) (mbs : Mailboxes)
    → has_room (mbs n) ≡ false
    → send_each ((n, msg) ∷ ms) mbs ≡ none
unfolding send_each mailbox_send
waits_at_full n msg ms mbs full = rw full refl

-- Deliveries of which one goes to a full mailbox wait.
pub send_each-full :
    (p : Routed) (k : ℕ) (m : Map ℕ ℕ) (mbs : Mailboxes)
    → lookup k m ≢ none
    → has_room (mbs k) ≡ false
    → send_each (deliveries p m) mbs ≡ none
unfolding lookup
send_each-full p k [] mbs reached full = absurd (reached refl)
send_each-full p k ((n, qos) ∷ m) mbs reached full =
    let msg = message_at p qos in
    let ms = deliveries p m in
    let rest = put_mailbox n (with_message msg (mbs n)) mbs in
    elim (Bool-cases (has_room (mbs n))) [
      | inr no_room ↦ waits_at_full n msg ms mbs no_room
      | inl room ↦ elim (Bool-cases (n == k)) [
        | inl same ↦ absurd (
            let q = subst (λ x. has_room (mbs x) ≡ true) ((==_iff n k).0 same) room in
            let q' : true ≡ false = sym q ∙ full in cc)
        | inr other ↦
            let full' : has_room (rest k) ≡ false = rw other full in
            sends_first n msg ms mbs room
            ∙ send_each-full p k m rest (λ q. reached (ground (arith, q, ==_iff n k))) full'
      ]
    ]
