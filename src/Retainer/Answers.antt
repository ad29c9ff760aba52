-- ===== src/Retainer/Answers.antt =====
-- What a subscriber is answered from pkg/retainer/retainer.go after a message was stored.
use emqx_go.Base.{
  ℕ, ◌+◌, ◌<◌, ◌≤◌, ◌≡◌, refl, ◌∙◌, ◌⊎◌, inl, inr, true, false, ◌&&◌, List, [], ◌∷◌, none, some,
  arith, if◌then◌else◌, ltb, leb, Bool-cases, length, Text, text_eq, text_eq_refl, In, ok,
}
use emqx_go.Base.Map.{IsUnique, lookup, text_has_eq}
use emqx_go.Topic.Wildcards.{topic_matches}
use emqx_go.Messages.Backend
use emqx_go.Messages.Backend.{Message, MemoryBackend, is_nil}
use emqx_go.Messages.Retained.{
  Found, lookup-store_retained, store_retained-IsUnique, get_retained_iff,
}
use emqx_go.Retainer.{
  Retainer, with_storage, retained_message, store_retained, is_expired, to_retained, unexpired,
  get_retained_messages,
}

unexpired-In :
    (now : ℕ) (msg : Message) (msgs : List Message)
    → In msg msgs
    → is_expired now msg.expiry_time ≡ false
    → In (to_retained msg) (unexpired now msgs)
unfolding unexpired
unexpired-In now msg [] h e = absurd h
unexpired-In now msg (x ∷ msgs) (inl same) e = rw (← same, e) (inl refl)
unexpired-In now msg (x ∷ msgs) (inr h) e = elim (Bool-cases (is_expired now x.expiry_time)) [
  | inl old ↦ rw old (unexpired-In now msg msgs h e)
  | inr fresh ↦ rw fresh (inr (unexpired-In now msg msgs h e))
]

-- Within the limits a message is stored.
store_retained-ok :
    (now : ℕ) (id topic : Text) (payload : List ℕ) (qos : ℕ) (client : Text) (r : Retainer)
    → 0 < length payload
    → ltb 0 r.config.max_payload_size && ltb r.config.max_payload_size (length payload) ≡ false
    → ltb 0 r.config.max_retained_messages
        && leb r.config.max_retained_messages (length r.storage.retained)
      ≡ false
    → store_retained now id topic payload qos client r
      ≡ ok (
          with_storage r (
            Backend.store_retained topic
              (retained_message now id r.config topic payload qos client)
              r.storage))
unfolding store_retained Backend.stats
store_retained-ok now id topic payload qos client r some_bytes small room =
    let e : leb (length payload) 0 ≡ false = ground arith in rw (small, e, room) refl

nonempty : (payload : List ℕ) → 0 < length payload → is_nil payload ≡ false
nonempty [] h = absurd (omega arith)
nonempty (x ∷ xs) h = refl

fresh :
    (now later interval : ℕ)
    → (interval ≡ 0) ⊎ (later ≤ now + interval)
    → is_expired later (if ltb 0 interval then some (now + interval) else none) ≡ false
unfolding is_expired
fresh now later interval (inl never) = rw never refl
fresh now later interval (inr soon) = ground arith

-- A message with a payload, within the limits on size and number, is stored, and is then among the
-- answers to every filter that matches its topic, until its expiry time; the messages retained for
-- other topics stay as they are.
pub store_retained-get_retained_messages :
    (now later : ℕ) (id topic topic_filter other : Text) (payload : List ℕ) (qos : ℕ)
    (client : Text) (r : Retainer)
    → IsUnique r.storage.retained
    → 0 < length payload
    → ltb 0 r.config.max_payload_size && ltb r.config.max_payload_size (length payload) ≡ false
    → ltb 0 r.config.max_retained_messages
        && leb r.config.max_retained_messages (length r.storage.retained)
      ≡ false
    → (r.config.message_expiry_interval ≡ 0) ⊎ (later ≤ now + r.config.message_expiry_interval)
    → topic_matches topic topic_filter ≡ true
    → (r' : Retainer) × (store_retained now id topic payload qos client r ≡ ok r')
      × In
          (to_retained (retained_message now id r.config topic payload qos client))
          (get_retained_messages later topic_filter r')
      × (lookup other r'.storage.retained ≡ (
          if text_eq topic other
          then some (retained_message now id r.config topic payload qos client)
          else lookup other r.storage.retained))
unfolding get_retained_messages retained_message
store_retained-get_retained_messages now later id topic topic_filter other payload qos client r u
      some_bytes small room live matched =
    let msg = retained_message now id r.config topic payload qos client in
    let mb = Backend.store_retained topic msg r.storage in
    let at : (t : Text)
        → lookup t mb.retained
          ≡ (if text_eq topic t then some msg else lookup t r.storage.retained) =
      λ t.
        lookup-store_retained topic t msg r.storage
        ∙ unfold retained_message in rw (nonempty payload some_bytes) refl in
    (
      with_storage r mb,
      store_retained-ok now id topic payload qos client r some_bytes small room,
      unexpired-In later msg (Backend.get_retained topic_filter mb)
          ((get_retained_iff topic_filter msg mb (store_retained-IsUnique topic msg r.storage u)).1
            (unfold Found in (topic, at topic ∙ rw (text_eq_refl topic) refl, matched)))
          (fresh now later r.config.message_expiry_interval live),
      at other,
    )
