-- ===== src/Retainer/Limit.antt =====
-- The limits of pkg/retainer/retainer.go: how many messages are retained, and what a full retainer does.
use emqx_go.Base.{
  ℕ, ◌+◌, ◌<◌, ◌≤◌, ◌≡◌, refl, ap, Bool, true, false, ◌&&◌, List, [], ◌∷◌, arith, if◌then◌else◌,
  ltb, length, Text, Outcome, ok, err, panic,
}
use emqx_go.Base.Map.{length-insert-le, length-delete-le, text_has_eq}
use emqx_go.Messages.Backend
use emqx_go.Messages.Backend.{Message, MemoryBackend, is_nil}
use emqx_go.Retainer.{
  Retainer, RetainerError, limit_reached, retained_message, store_retained, is_expired,
  delete_retained, cleanup_loop, cleanup_expired_messages,
}

-- What the broker asks of the retainer.
pub data Call : Type 0 where
  store : ℕ → Text → Text → List ℕ → ℕ → Text → Call
  remove : Text → Call
  cleanup : ℕ → Call

-- A call that is refused leaves the retainer as it is.
abbrev kept : Retainer → Outcome RetainerError Retainer → Retainer
kept r (ok r') = r'
kept r (err e) = r
kept r panic = r

unfoldable pub call : Call → Retainer → Retainer
unfolding store_retained delete_retained cleanup_expired_messages
call (store now id topic payload qos client) r =
    kept r (store_retained now id topic payload qos client r)
call (remove topic) r = delete_retained topic r
call (cleanup now) r = cleanup_expired_messages now r

unfoldable pub calls : List Call → Retainer → Retainer
unfolding call
calls [] r = r
calls (c ∷ cs) r = calls cs (call c r)

abbrev pub count : Retainer → ℕ
count r = length r.storage.retained

length-store-le :
    (topic : Text) (msg : Message) (mb : MemoryBackend)
    → length (Backend.store_retained topic msg mb).retained ≤ length mb.retained + 1
unfolding Backend.store_retained
length-store-le topic msg mb = ground (
  arith,
  length-insert-le topic (record msg { retained = true }) mb.retained,
  length-delete-le topic mb.retained,
)

store-bound :
    (limit now : ℕ) (id topic : Text) (payload : List ℕ) (qos : ℕ) (client : Text) (r : Retainer)
    → 0 < limit
    → r.config.max_retained_messages ≡ limit
    → count r ≤ limit
    → ((kept r (store_retained now id topic payload qos client r)).config ≡ r.config)
      × (count (kept r (store_retained now id topic payload qos client r)) ≤ limit)
unfolding store_retained Backend.stats Backend.delete_retained
store-bound limit now id topic payload qos client r pos set h = ground (
  arith,
  length-delete-le topic r.storage.retained,
  length-store-le topic (retained_message now id r.config topic payload qos client) r.storage,
)

length-round-le :
    (b : Bool) (topic : Text) (mb : MemoryBackend)
    → length (if b then Backend.delete_retained topic mb else mb).retained ≤ length mb.retained
unfolding Backend.delete_retained
length-round-le true topic mb = length-delete-le topic mb.retained
length-round-le false topic mb = omega arith

length-cleanup_loop-le :
    (now : ℕ) (msgs : List Message) (mb : MemoryBackend)
    → length (cleanup_loop now msgs mb).retained ≤ length mb.retained
unfolding cleanup_loop
length-cleanup_loop-le now [] mb = omega arith
length-cleanup_loop-le now (msg ∷ msgs) mb =
    let b = is_expired now msg.expiry_time in
    let mb' = if b then Backend.delete_retained msg.topic mb else mb in
    omega (arith, length-cleanup_loop-le now msgs mb', length-round-le b msg.topic mb)

call-bound :
    (limit : ℕ) (c : Call) (r : Retainer)
    → 0 < limit
    → r.config.max_retained_messages ≡ limit
    → count r ≤ limit
    → ((call c r).config ≡ r.config) × (count (call c r) ≤ limit)
unfolding call delete_retained cleanup_expired_messages Backend.delete_retained
call-bound limit (store now id topic payload qos client) r pos set h =
    store-bound limit now id topic payload qos client r pos set h
call-bound limit (remove topic) r pos set h =
    (refl, omega (arith, length-delete-le topic r.storage.retained))
call-bound limit (cleanup now) r pos set h =
    (refl, omega (arith, length-cleanup_loop-le now _ r.storage))

-- With a positive maximum, a retainer that starts within it stays within it under any sequence of
-- calls: it never holds more messages than the configuration allows.
pub calls-bound :
    (cs : List Call) (r : Retainer)
    → 0 < r.config.max_retained_messages
    → count r ≤ r.config.max_retained_messages
    → count (calls cs r) ≤ r.config.max_retained_messages
unfolding calls
calls-bound [] r pos h = h
calls-bound (c ∷ cs) r pos h =
    let (same, le) = call-bound r.config.max_retained_messages c r pos refl h in
    let e : (call c r).config.max_retained_messages ≡ r.config.max_retained_messages =
      ap (λ c'. c'.max_retained_messages) same in
    omega (arith, calls-bound cs (call c r) (omega arith) (omega arith))

-- A full retainer refuses any message with a payload, also one that would replace the message of its
-- topic, which then stays.
store_retained-full :
    (now : ℕ) (id topic : Text) (payload : List ℕ) (qos : ℕ) (client : Text) (r : Retainer)
    → 0 < length payload
    → ltb 0 r.config.max_payload_size && ltb r.config.max_payload_size (length payload) ≡ false
    → 0 < r.config.max_retained_messages
    → count r ≡ r.config.max_retained_messages
    → store_retained now id topic payload qos client r ≡ err limit_reached
unfolding store_retained Backend.stats
store_retained-full now id topic payload qos client r some_bytes small pos full = ground arith
