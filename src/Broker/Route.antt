-- ===== src/Broker/Route.antt =====
-- The routing of pkg/broker/broker.go: from a publication to the mailboxes of its local subscribers.
use emqx_go.Base.{
  text_eq, ℕ, Bool, true, false, List, [], ◌∷◌, Option, none, some, if◌then◌else◌, ltb, map, Text,
  Outcome, ok, err, panic,
}
use emqx_go.Base.Map.{Map, lookup, insert, nat_has_eq, text_has_eq}
use emqx_go.Topic.Store.{Subscription, Store, get_subscribers}
use emqx_go.Session.Actor.{Message, publish}
use emqx_go.Retainer.{Retainer, RetainerError, store_retained}
use emqx_go.Persistent.Types.{PersistentSession, SessionError, WillMessage}
use emqx_go.Persistent.Manager.{SessionManager, queue_message}
use emqx_go.Persistent.Offline.{wants}
use emqx_go.Topic.Wildcards.{basic_topic_match}
use emqx_go.Broker.State.{Broker, Run, done, blocked, crashed, send_all}

-- min(publish QoS, subscription QoS)
unfoldable pub effective_qos : ℕ → ℕ → ℕ
effective_qos publish_qos sub_qos = if ltb sub_qos publish_qos then sub_qos else publish_qos

-- !exists || effectiveQoS > current
abbrev pub raises : ℕ → Option ℕ → Bool
raises qos none = true
raises qos (some current) = ltb current qos

-- The loop that keeps the highest QoS of each mailbox.
unfoldable pub unique_subs : ℕ → List Subscription → Map ℕ ℕ → Map ℕ ℕ
unfolding effective_qos
unique_subs publish_qos [] m = m
unique_subs publish_qos (sub ∷ subs) m =
    let qos = effective_qos publish_qos sub.qos in
    unique_subs publish_qos subs
      (if raises qos (lookup sub.mailbox m) then insert sub.mailbox qos m else m)

-- A publication as it is routed, and what is sent for it at a QoS.
pub record Routed : Type 0 where
  pub topic : Text
  pub payload : List ℕ
  pub qos : ℕ
  pub user_properties : List (Text × Text)
  pub response_topic : Text
  pub correlation_data : List ℕ

abbrev pub message_at : Routed → ℕ → Message
message_at p qos = publish (record {
  topic = p.topic;
  payload = p.payload;
  qos = qos;
  retain = false;
  user_properties = p.user_properties;
  topic_alias = 0;
  response_topic = p.response_topic;
  correlation_data = p.correlation_data;
})

abbrev pub deliveries : Routed → Map ℕ ℕ → List (ℕ × Message)
deliveries p [] = []
deliveries p ((mb, qos) ∷ m) = (mb, message_at p qos) ∷ deliveries p m

abbrev pub with_topics : Broker → Store → Broker
with_topics b s = record b { topics = s }

-- RouteToLocalSubscribersWithRequestResponse, with its Send calls in order, each taken to return (see
-- Broker/Mailboxes); `none` is a panic of the topic store.
unfoldable pub route_with_request_response : Routed → Broker → Option Broker
unfolding unique_subs
route_with_request_response p b = elim (get_subscribers p.topic b.topics) [
  | none ↦ none
  | some (subs, s) ↦ some (send_all (deliveries p (unique_subs p.qos subs [])) (with_topics b s))
]

-- A publication without the properties of MQTT 5.
abbrev pub plain : Text → List ℕ → ℕ → Routed
plain topic payload qos = record {
  topic = topic;
  payload = payload;
  qos = qos;
  user_properties = [];
  response_topic = [];
  correlation_data = [];
}

-- RouteToLocalSubscribersWithQoS: one message for each subscription.
unfoldable pub route_with_qos : Text → List ℕ → ℕ → Broker → Option Broker
unfolding effective_qos
route_with_qos topic payload qos b = elim (get_subscribers topic b.topics) [
  | none ↦ none
  | some (subs, s) ↦
      let p = plain topic payload qos in
      some (
        send_all (map (λ sub. (sub.mailbox, message_at p (effective_qos qos sub.qos))) subs)
          (with_topics b s))
]

-- Whether a session's lock is the one that the call holds.
abbrev pub is_held : Option Text → Text → Bool
is_held none client = false
is_held (some held) client = text_eq held client

abbrev pub after_queue :
    Outcome SessionError SessionManager
    → SessionManager
    → (SessionManager → Run SessionManager)
    → Run SessionManager
after_queue (ok m') m rest = rest m'
after_queue (err e) m rest = rest m
after_queue panic m rest = crashed

-- The range of QueueMessageForOfflineClients, in a call that holds the lock of one session or of none:
-- it takes the lock of every session that it meets.
unfoldable pub queue_range :
    Option Text
    → ℕ
    → Routed
    → Bool
    → Map Text PersistentSession
    → SessionManager
    → Run SessionManager
queue_range held now p retain [] m = done m
queue_range held now p retain ((client, s) ∷ entries) m =
    let rest = queue_range held now p retain entries in
    if is_held held client
    then blocked m
    else if wants basic_topic_match p.topic s
    then after_queue (queue_message now client p.topic p.payload p.qos retain m) m rest
    else rest m

abbrev pub with_sessions : Broker → Run SessionManager → Run Broker
with_sessions b (done m) = done (record b { persistent_sessions = m })
with_sessions b (blocked m) = blocked (record b { persistent_sessions = m })
with_sessions b crashed = crashed

-- An error of StoreRetained is logged.
abbrev pub or_same : Retainer → Outcome RetainerError Retainer → Retainer
or_same r (ok r') = r'
or_same r _ = r

unfoldable pub retain_if : Bool → ℕ → Text → Text → List ℕ → ℕ → Text → Broker → Broker
retain_if false now id topic payload qos client b = b
retain_if true now id topic payload qos client b = record b {
  retainer = or_same b.retainer (store_retained now id topic payload qos client b.retainer);
}

abbrev pub queue_after : Option Text → ℕ → Routed → Bool → Option Broker → Run Broker
queue_after held now p retain none = crashed
queue_after held now p retain (some b) =
    with_sessions b
      (queue_range held now p retain b.persistent_sessions.active_sessions b.persistent_sessions)

-- processPublishPostAck: the part of a publication that comes after its acknowledgement. It is a
-- goroutine of its own, and holds no lock.
unfoldable pub process_publish_post_ack : ℕ → Text → Text → Routed → Bool → Broker → Run Broker
unfolding retain_if route_with_request_response queue_range
process_publish_post_ack now id client p retain b =
    queue_after none now p retain
      (route_with_request_response p (retain_if retain now id p.topic p.payload p.qos client b))

-- PublishWillMessage of the broker, called with the lock of a session held, or by a timer with none.
unfoldable pub publish_will_message :
    Option Text → ℕ → Text → WillMessage → Text → Broker → Run Broker
unfolding retain_if route_with_qos queue_range
publish_will_message held now id will client b =
    queue_after held now (plain will.topic will.payload will.qos) will.retain (
      route_with_qos will.topic will.payload will.qos
        (retain_if will.retain now id will.topic will.payload will.qos client b))
