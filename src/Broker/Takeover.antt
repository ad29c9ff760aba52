-- ===== src/Broker/Takeover.antt =====
-- The clean-up behind the loop of a connection, in pkg/broker/broker.go: it goes by the client id.
use emqx_go.Base.{
  ap, ◌∙◌, ℕ, ◌≡◌, refl, sym, false, Option, none, some, if◌then◌else◌, Text, Bool-cases, inl, inr,
  List, ok,
}
use emqx_go.Base.Map.{lookup, text_has_eq, lookup-insert_self, lookup-delete_self}
use emqx_go.Topic.Store.{has_mailbox, Subscription, Store, get_subscribers}
use emqx_go.Topic.Store.Groups.{IsValid}
use emqx_go.Persistent.Types.{PersistentSession}
use emqx_go.Persistent.Manager.{SessionManager, disconnect, save_session, delete_session}
use emqx_go.Persistent.Lifecycle.{left_behind, disconnect-keep, disconnect-clean}
use emqx_go.Topic.Store.Delivery.{remove_all-get_subscribers}
use emqx_go.Broker.State.{Broker, done}
use emqx_go.Broker.Sessions.{connection_lost, disconnect_session, clean_up, unregister_session}

-- What the disconnection leaves of the session.
abbrev pub remains : ℕ → PersistentSession → Option PersistentSession
remains now s = if s.clean_session then none else some (left_behind now s)

disconnect-done :
    (now : ℕ) (client : Text) (m : SessionManager) (s : PersistentSession)
    → lookup client m.active_sessions ≡ some s
    → (m' : SessionManager) × (disconnect now client false m ≡ ok m')
      × (lookup client m'.active_sessions ≡ remains now s)
unfolding save_session delete_session
disconnect-done now client m s h = elim (Bool-cases s.clean_session) [
  | inl clean ↦ (
    _,
    disconnect-clean now client false m s h clean,
    rw clean (lookup-delete_self client m.active_sessions),
  )
  | inr keep ↦ (
    _,
    disconnect-keep now client false m s h keep,
    lookup-insert_self client (left_behind now s) m.active_sessions
        ∙ sym (ap (λ c. if c then none else some (left_behind now s)) keep),
  )
]

disconnect_session-done :
    (now : ℕ) (id client : Text) (s : PersistentSession) (b : Broker)
    → lookup client b.persistent_sessions.active_sessions ≡ some s
    → s.will_message ≡ none
    → (m' : SessionManager) × (disconnect_session now id client false b
        ≡ done (record b { persistent_sessions = m' }))
      × (lookup client m'.active_sessions ≡ remains now s)
unfolding disconnect_session
disconnect_session-done now id client s b h no_will =
    let (m', ended, left) = disconnect-done now client b.persistent_sessions s h in
    (m', rw (h, no_will, ended) refl, left)

clean_up-get_subscribers :
    (client topic : Text) (mb : ℕ) (b : Broker)
    → IsValid b.topics
    → lookup client b.sessions ≡ some mb
    → (subs : List Subscription) × (t : Store) × (get_subscribers topic (clean_up client b).topics
        ≡ some (subs, t))
      × (has_mailbox mb subs ≡ false)
unfolding clean_up unregister_session
clean_up-get_subscribers client topic mb b v h =
    rw h (remove_all-get_subscribers mb topic b.topics v)

clean_up-sessions : (client : Text) (b : Broker) → lookup client (clean_up client b).sessions ≡ none
unfolding clean_up unregister_session
clean_up-sessions client b = lookup-delete_self client b.sessions

-- When the connection of an active client without a will is lost, and the groups of the topic store are
-- valid, the clean-up ends: no session is registered under the client's id, no topic reaches the
-- mailbox that was registered under it, and the persistent session is gone if it was clean and
-- disconnected otherwise.
pub connection_lost-done :
    (now : ℕ) (id client : Text) (s : PersistentSession) (mb : ℕ) (topic : Text) (b : Broker)
    → IsValid b.topics
    → lookup client b.sessions ≡ some mb
    → lookup client b.persistent_sessions.active_sessions ≡ some s
    → s.will_message ≡ none
    → (b' : Broker) × (connection_lost now id client b ≡ done b')
      × (lookup client b'.sessions ≡ none)
      × (lookup client b'.persistent_sessions.active_sessions ≡ remains now s)
      × ((subs : List Subscription) × (t : Store) × (get_subscribers topic b'.topics
            ≡ some (subs, t))
          × (has_mailbox mb subs ≡ false))
unfolding connection_lost clean_up unregister_session
connection_lost-done now id client s mb topic b v registered h no_will =
    let (m', ended, left) = disconnect_session-done now id client s b h no_will in
    let b1 = record b { persistent_sessions = m' } in
    (
      clean_up client b1,
      rw ended refl,
      clean_up-sessions client b1,
      left,
      clean_up-get_subscribers client topic mb b1 v registered,
    )
