-- ===== src/Broker/Tasks.antt =====
-- The goroutines that the handlers of pkg/broker/broker.go start, and deliverOfflineMessage, the callback
-- for what is queued for a client.
use emqx_go.Base.{
  ℕ, Bool, true, false, List, [], ◌∷◌, Option, none, some, if◌then◌else◌, map, Text, text_eq,
  Outcome, ok, err, panic,
}
use emqx_go.Base.Map.{Map, lookup, text_has_eq}
use emqx_go.Session.Actor.{Message, publish}
use emqx_go.Persistent.Types.{QueuedMessage, SessionError}
use emqx_go.Persistent.Manager.{SessionManager}
use emqx_go.Persistent.Offline.{Callback, deliver_offline}
use emqx_go.Broker.State.{Broker, Run, done, crashed, send_all}
use emqx_go.Broker.Route.{process_publish_post_ack}
use emqx_go.Broker.Connection.{Task, post_ack, send_retained}
use emqx_go.Broker.Connection
use emqx_go.Broker.Subscribe.{send_retained_messages}

abbrev pub offline_publish : QueuedMessage → Message
offline_publish msg = publish (record {
  topic = msg.topic;
  payload = msg.payload;
  qos = msg.qos;
  retain = msg.retain;
  user_properties = [];
  topic_alias = 0;
  response_topic = [];
  correlation_data = [];
})

-- What deliverOfflineMessage sends of the messages that it is handed: nothing for a client without a
-- session, for which it returns an error. Each Send is taken to return.
unfoldable pub deliver_offline_messages : Option ℕ → List QueuedMessage → List (ℕ × Message)
deliver_offline_messages none handed = []
deliver_offline_messages (some mb) handed = map (λ msg. (mb, offline_publish msg)) handed

abbrev pub is_registered : Option ℕ → Bool
is_registered none = false
is_registered (some mb) = true

abbrev pub has_callback : Text → List Text → Bool
has_callback client [] = false
has_callback client (c ∷ cs) =
    let rest = has_callback client cs in if text_eq c client then true else rest

-- The callback that is set for a client.
abbrev pub callbacks_for : Text → Broker → Map Text Callback
callbacks_for client b =
    if has_callback client b.delivery_callbacks
    then (client, λ msg. is_registered (lookup client b.sessions)) ∷ []
    else []

-- An error of DeliverOfflineMessages is logged.
abbrev pub after_delivery :
    Broker → List QueuedMessage × Outcome SessionError SessionManager → Text → Run Broker
after_delivery b (handed, ok m) client = done (
    send_all (deliver_offline_messages (lookup client b.sessions) handed)
      (record b { persistent_sessions = m }))
after_delivery b (handed, err e) client =
    done (send_all (deliver_offline_messages (lookup client b.sessions) handed) b)
after_delivery b (handed, panic) client = crashed

unfoldable pub run_delivery : ℕ → Text → Broker → Run Broker
unfolding deliver_offline deliver_offline_messages
run_delivery now client b =
    after_delivery b (deliver_offline now (callbacks_for client b) client b.persistent_sessions)
      client

-- A task at a time; `id` and the client are those of a message that is retained.
unfoldable pub run_task : ℕ → Text → Task → Broker → Run Broker
unfolding run_delivery process_publish_post_ack send_retained_messages
run_task now id (post_ack client p retain) b = process_publish_post_ack now id client p retain b
run_task now id (send_retained mb filters) b = done (send_retained_messages now mb filters b)
run_task now id (Connection.deliver_offline client) b = run_delivery now client b
