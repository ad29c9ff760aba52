-- ===== src/Broker/WillLock.antt =====
-- A connection that is lost with a will, in pkg/broker/broker.go.
use mathlib.Core.Path.{subst}
use emqx_go.Base.{
  map, text_eq_iff, Option-cases, ℕ, ◌≡◌, refl, sym, ap, ◌≢◌, Bool, true, false, List, [], ◌∷◌,
  Option, none, some, arith, if◌then◌else◌, ltb, Bool-cases, inl, inr, Text, text_eq, Outcome, ok,
  err, panic,
}
use emqx_go.Base.Map.{Map, lookup, lookup-insert_self, text_has_eq}
use emqx_go.Topic.Store.{Subscription, get_subscribers}
use emqx_go.Topic.Wildcards.{basic_topic_match}
use emqx_go.Persistent.Types.{WillMessage, PersistentSession, SessionError}
use emqx_go.Persistent.Manager.{SessionManager, queue_message}
use emqx_go.Persistent.Offline.{wants}
use emqx_go.Broker.State.{send_all, Broker, Run, done, blocked, crashed}
use emqx_go.Broker.Route.{
  with_topics, effective_qos, message_at, Routed, plain, queue_range, after_queue, queue_after,
  with_sessions, retain_if, route_with_qos, publish_will_message,
}
use emqx_go.Broker.Sessions.{
  set_offline, then_disconnect, disconnect_with_will, disconnect_session, then_clean_up,
  connection_lost,
}

-- The call does not return.
pub Hangs : Run Broker → Type 0
Hangs r = (b : Broker) → r ≢ done b

after_queue-ne-done :
    (o : Outcome SessionError SessionManager) (m m' : SessionManager)
    (rest : SessionManager → Run SessionManager)
    → ((n : SessionManager) → rest n ≢ done m')
    → after_queue o m rest ≢ done m'
after_queue-ne-done (ok n) m m' rest h = h n
after_queue-ne-done (err e) m m' rest h = h m
after_queue-ne-done panic m m' rest h = λ e. cc

round-ne-done :
    (b : Bool) (o : Outcome SessionError SessionManager) (m m' : SessionManager)
    (rest : SessionManager → Run SessionManager)
    → ((n : SessionManager) → rest n ≢ done m')
    → (if b then after_queue o m rest else rest m) ≢ done m'
round-ne-done true o m m' rest h = after_queue-ne-done o m m' rest h
round-ne-done false o m m' rest h = h m

with_sessions-ne-done :
    (b b' : Broker) (r : Run SessionManager)
    → ((m : SessionManager) → r ≢ done m)
    → with_sessions b r ≢ done b'
with_sessions-ne-done b b' (done m) h = absurd (h m refl)
with_sessions-ne-done b b' (blocked m) h = λ e. cc
with_sessions-ne-done b b' crashed h = λ e. cc

-- A range that meets the session whose lock is held does not return.
queue_range-held :
    (client : Text) (now : ℕ) (p : Routed) (retain : Bool) (entries : Map Text PersistentSession)
    (s : PersistentSession) (m m' : SessionManager)
    → lookup client entries ≡ some s
    → queue_range (some client) now p retain entries m ≢ done m'
unfolding queue_range lookup
queue_range-held client now p retain [] s m m' h = absurd cc
queue_range-held client now p retain ((c, t) ∷ entries) s m m' h =
    elim (Bool-cases (text_eq client c)) [
      | inl same ↦ rw same (λ e. cc)
      | inr other ↦
          let rest = queue_range (some client) now p retain entries in
          let found : lookup client entries ≡ some s =
            ground (arith, text_eq_iff c client, text_eq_iff client c) in
          let later =
            λ (n : SessionManager). queue_range-held client now p retain entries s n m' found in
          rw other (
            round-ne-done (wants basic_topic_match p.topic t)
              (queue_message now c p.topic p.payload p.qos retain m) m m' rest later)
    ]

module _ (client id : Text) (now : ℕ) (will : WillMessage) (s : PersistentSession) where
  queue_after-Hangs :
      (p : Routed) (o : Option Broker)
      → ((b : Broker) → o ≡ some b → lookup client b.persistent_sessions.active_sessions ≡ some s)
      → Hangs (queue_after (some client) now p will.retain o)
  unfolding Hangs
  queue_after-Hangs p none h b' = λ e. cc
  queue_after-Hangs p (some b) h b' =
      let m = b.persistent_sessions in
      let never = λ (m' : SessionManager).
        queue_range-held client now p will.retain m.active_sessions s m m' (h b refl) in
      with_sessions-ne-done b b' (queue_range (some client) now p will.retain m.active_sessions m)
        never

  route-sessions :
      (topic : Text) (payload : List ℕ) (qos : ℕ) (b b' : Broker)
      → route_with_qos topic payload qos b ≡ some b'
      → b'.persistent_sessions ≡ b.persistent_sessions
  unfolding route_with_qos
  route-sessions topic payload qos b b' h = elim (Option-cases (get_subscribers topic b.topics)) [
    | inl bad ↦ absurd (
        let stopped : route_with_qos topic payload qos b ≡ none = rw (route_with_qos, bad) refl in
        cc)
    | inr ((subs, st), found) ↦
        let p = plain topic payload qos in
        let sent =
          map (λ (sub : Subscription). (sub.mailbox, message_at p (effective_qos qos sub.qos)))
            subs in
        let went : route_with_qos topic payload qos b ≡ some (send_all sent (with_topics b st)) =
          rw (route_with_qos, found) refl in
        let same : send_all sent (with_topics b st) ≡ b' = cc in
        ap (λ (n : Broker). n.persistent_sessions) (sym same)
  ]

  retain_if-sessions :
      (retain : Bool) (b : Broker)
      → (retain_if retain now id will.topic will.payload will.qos client b).persistent_sessions
        ≡ b.persistent_sessions
  unfolding retain_if
  retain_if-sessions true b = refl
  retain_if-sessions false b = refl

  publish_will_message-Hangs :
      (b : Broker)
      → lookup client b.persistent_sessions.active_sessions ≡ some s
      → Hangs (publish_will_message (some client) now id will client b)
  unfolding publish_will_message
  publish_will_message-Hangs b h =
      let b' = retain_if will.retain now id will.topic will.payload will.qos client b in
      queue_after-Hangs (plain will.topic will.payload will.qos)
        (route_with_qos will.topic will.payload will.qos b')
        (λ n e.
          rw
            (
              route-sessions will.topic will.payload will.qos b' n e,
              retain_if-sessions will.retain b,
            )
            h)

then_disconnect-Hangs :
    (now : ℕ) (client : Text) (r : Run Broker) → Hangs r → Hangs (then_disconnect now client r)
unfolding Hangs
then_disconnect-Hangs now client (done b) h = absurd (h b refl)
then_disconnect-Hangs now client (blocked b) h = λ b' e. cc
then_disconnect-Hangs now client crashed h = λ b' e. cc

then_clean_up-Hangs : (client : Text) (r : Run Broker) → Hangs r → Hangs (then_clean_up client r)
unfolding Hangs
then_clean_up-Hangs client (done b) h = absurd (h b refl)
then_clean_up-Hangs client (blocked b) h = λ b' e. cc
then_clean_up-Hangs client crashed h = λ b' e. cc

with_will-Hangs :
    (now : ℕ) (id client : Text) (s : PersistentSession) (will : WillMessage) (b : Broker)
    → will.delay_interval ≡ 0
    → Hangs (disconnect_with_will now id client s (some will) b)
with_will-Hangs now id client s will b no_delay =
    let s' = record s { connected = false; last_activity = now } in
    let found = lookup-insert_self client s' b.persistent_sessions.active_sessions in
    let published =
      publish_will_message (some client) now id will client (set_offline now client s b) in
    let hangs =
      publish_will_message-Hangs client id now will s' (set_offline now client s b) found in
    let at_once : ltb 0 will.delay_interval ≡ false = ground arith in
    rw at_once (then_disconnect-Hangs now client published hangs)

-- When the connection of an active client with a will is lost, and the will has no delay, the clean-up
-- does not return.
pub connection_lost-Hangs :
    (now : ℕ) (id client : Text) (s : PersistentSession) (will : WillMessage) (b : Broker)
    → lookup client b.persistent_sessions.active_sessions ≡ some s
    → s.will_message ≡ some will
    → will.delay_interval ≡ 0
    → (b' : Broker) → connection_lost now id client b ≢ done b'
unfolding connection_lost disconnect_session Hangs
connection_lost-Hangs now id client s will b h has_will no_delay =
    let hangs =
      subst (λ (w : Option WillMessage). Hangs (disconnect_with_will now id client s w b))
        (sym has_will) (with_will-Hangs now id client s will b no_delay) in
    rw h (then_clean_up-Hangs client (disconnect_with_will now id client s s.will_message b) hangs)
