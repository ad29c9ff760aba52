-- ===== src/Broker/Sessions.antt =====
-- Registering a session of a client and ending it, in pkg/broker/broker.go. The supervisor starts an
-- actor on each new mailbox.
use emqx_go.Base.{
  ℕ, ◌+◌, Bool, true, false, not, [], ◌∷◌, Option, none, some, if◌then◌else◌, ltb, filter, Text,
  text_eq, Outcome, ok, err, panic,
}
use emqx_go.Base.Map.{lookup, insert, delete, text_has_eq}
use emqx_go.Topic.Store
use emqx_go.Session.Actor.{stop}
use emqx_go.Persistent.Types.{WillMessage, PersistentSession, SessionError}
use emqx_go.Persistent.Manager.{SessionManager, disconnect, put_active}
use emqx_go.Broker.State.{Broker, Run, done, blocked, crashed, send_all}
use emqx_go.Broker.Route.{publish_will_message}

-- The session takeover: the old actor is told to stop, and its subscriptions go.
abbrev pub take_over : Text → Option ℕ → Broker → Broker
take_over client none b = b
take_over client (some old) b = record (send_all ((old, stop) ∷ []) b) {
  topics = (Store.remove_all_subscriptions (some old) b.topics).1;
  sessions = delete client b.sessions;
}

unfoldable pub register_session : Text → Broker → ℕ × Broker
register_session client b =
    let b' = take_over client (lookup client b.sessions) b in
    (
      b'.next_mailbox,
      record b' {
        next_mailbox = b'.next_mailbox + 1;
        sessions = insert client b'.next_mailbox b'.sessions;
      },
    )

abbrev pub drop_subscriptions : Option ℕ → Broker → Broker
drop_subscriptions mb b = record b { topics = (Store.remove_all_subscriptions mb b.topics).1 }

unfoldable pub unregister_session : Text → Broker → Broker
unregister_session client b =
    let b' = drop_subscriptions (lookup client b.sessions) b in
    record b' {
      sessions = delete client b'.sessions;
      processed_qos1 = delete client b'.processed_qos1;
    }

-- RemoveDeliveryCallback, the topic alias manager, and the session.
unfoldable pub clean_up : Text → Broker → Broker
unfolding unregister_session
clean_up client b = unregister_session client (record b {
  delivery_callbacks = filter (λ c. not (text_eq c client)) b.delivery_callbacks;
  topic_alias_managers = delete client b.topic_alias_managers;
})

-- An error of DisconnectSession is logged.
abbrev pub or_logged : Broker → Outcome SessionError SessionManager → Run Broker
or_logged b (ok m) = done (record b { persistent_sessions = m })
or_logged b (err e) = done b
or_logged b panic = crashed

abbrev pub with_manager : Broker → SessionManager → Broker
with_manager b m = record b { persistent_sessions = m }

-- The fields that DisconnectSession has set when it comes to the will.
abbrev pub set_offline : ℕ → Text → PersistentSession → Broker → Broker
set_offline now client s b =
    with_manager b (
      put_active client (record s { connected = false; last_activity = now }) b.persistent_sessions)

abbrev pub then_disconnect : ℕ → Text → Run Broker → Run Broker
then_disconnect now client (done b) =
    or_logged b (disconnect now client false b.persistent_sessions)
then_disconnect now client (blocked b) = blocked b
then_disconnect now client crashed = crashed

abbrev pub disconnect_with_will :
    ℕ → Text → Text → PersistentSession → Option WillMessage → Broker → Run Broker
disconnect_with_will now id client s none b =
    or_logged b (disconnect now client false b.persistent_sessions)
disconnect_with_will now id client s (some will) b =
    if ltb 0 will.delay_interval
    then or_logged b (disconnect now client false b.persistent_sessions)
    else then_disconnect now client
        (publish_will_message (some client) now id will client (set_offline now client s b))

abbrev pub disconnect_active : ℕ → Text → Text → Option PersistentSession → Broker → Run Broker
disconnect_active now id client none b = done b
disconnect_active now id client (some s) b = disconnect_with_will now id client s s.will_message b

-- DisconnectSession with the broker as the publisher of the will, which is handed over while the lock of
-- the session is held.
unfoldable pub disconnect_session : ℕ → Text → Text → Bool → Broker → Run Broker
unfolding publish_will_message
disconnect_session now id client graceful b =
    if graceful
    then or_logged b (disconnect now client true b.persistent_sessions)
    else disconnect_active now id client (lookup client b.persistent_sessions.active_sessions) b

abbrev pub then_clean_up : Text → Run Broker → Run Broker
then_clean_up client (done b) = done (clean_up client b)
then_clean_up client (blocked b) = blocked b
then_clean_up client crashed = crashed

-- The DISCONNECT packet.
unfoldable pub handle_disconnect : ℕ → Text → Broker → Run Broker
unfolding disconnect_session clean_up
handle_disconnect now client b = then_clean_up client (disconnect_session now [] client true b)

-- What follows the loop when reading fails; `id` is the id that a retained will gets.
unfoldable pub connection_lost : ℕ → Text → Text → Broker → Run Broker
unfolding disconnect_session clean_up
connection_lost now id client b = then_clean_up client (disconnect_session now id client false b)
