-- ===== src/Broker/Subscribe.antt =====
-- The handling of a SUBSCRIBE packet in handleConnection of pkg/broker/broker.go, on a connection that
-- has a session, and sendRetainedMessages. No route is announced without a cluster manager.
use emqx_go.Base.{
  ℕ, is_empty, Bool, true, false, not, ◌&&◌, ◌||◌, List, [], ◌∷◌, Option, none, some, if◌then◌else◌,
  ltb, ◌==◌, length, map, Text, codes, text_eq, contains, has_suffix, split, Outcome, ok,
}
use emqx_go.Topic.Store
use emqx_go.Session.Actor.{Message, publish}
use emqx_go.Persistent.Types.{SessionError}
use emqx_go.Persistent.Manager.{SessionManager, add_subscription}
use emqx_go.Retainer.{RetainedMessage, get_retained_messages}
use emqx_go.Broker.State.{Broker, send_all}
use emqx_go.Broker.Route.{effective_qos}
use emqx_go.Broker.Connection.{
  suback, Reply, reply_codes, write_packet, Filter, Task, send_retained, Handled, closed, Verdict,
  allowed, denied, failed, AccessControl,
}
use emqx_go.Broker.Publish.{is_malicious}

-- Every level that has a `+` is a `+`.
unfoldable pub plus_levels : List Text → Bool
plus_levels [] = true
plus_levels (part ∷ parts) =
    let rest = plus_levels parts in
    if contains part (codes "+") && not (text_eq part (codes "+")) then false else rest

abbrev pub misplaced_hash : Text → Bool
misplaced_hash f =
    contains f (codes "#")
    && (not (has_suffix f (codes "#")) || (ltb 1 (length f) && not (has_suffix f (codes "/#"))))

abbrev pub misplaced_plus : Text → Bool
misplaced_plus f = contains f (codes "+") && not (plus_levels (split b'/' f))

abbrev pub access_code : Verdict → Option ℕ
access_code allowed = none
access_code denied = some 0x87
access_code failed = some 0x80

-- The code with which a filter is refused, or none.
unfoldable pub refusal : AccessControl → Text → Text → Filter → Option ℕ
unfolding plus_levels
refusal ac ip client f =
    if is_empty f.filter
    then some 0x83
    else if ltb 2 f.qos
    then some 0x80
    else if misplaced_hash f.filter
    then some 0x83
    else if misplaced_plus f.filter
    then some 0x83
    else if is_malicious f.filter
    then some 0x87
    else access_code (ac.subscribe_access client [] ip f.filter)

-- An error of AddSubscription is logged.
abbrev pub or_kept : SessionManager → Outcome SessionError SessionManager → SessionManager
or_kept m (ok m') = m'
or_kept m _ = m

unfoldable pub store_subscription : ℕ → ℕ → Text → Filter → Broker → Broker
store_subscription now mb client f b = record b {
  topics = Store.subscribe f.filter mb f.qos b.topics;
  persistent_sessions =
      or_kept b.persistent_sessions
        (add_subscription now client f.filter f.qos b.persistent_sessions);
}

abbrev pub one_round :
    Option ℕ → ℕ → ℕ → Text → Filter → (Broker → List ℕ × Broker) → Broker → List ℕ × Broker
one_round (some code) now mb client f rest b = let (cs, b') = rest b in (code ∷ cs, b')
one_round none now mb client f rest b =
    let (cs, b') = rest (store_subscription now mb client f b) in (f.qos ∷ cs, b')

-- The loop over the filters: the reason codes, and the broker.
unfoldable pub filter_codes :
    AccessControl → Text → ℕ → ℕ → Text → List Filter → Broker → List ℕ × Broker
unfolding refusal store_subscription
filter_codes ac ip now mb client [] b = ([], b)
filter_codes ac ip now mb client (f ∷ fs) b =
    one_round (refusal ac ip client f) now mb client f (filter_codes ac ip now mb client fs) b

abbrev pub answered : Broker → List Task → Bool × List Reply → Handled
answered b tasks (true, written) = record {
  broker = b;
  written = written;
  is_open = true;
  tasks = tasks;
}
answered b tasks (false, written) = closed b written

-- `invalid_qos` is the mark that readPacket leaves when a QoS cannot be parsed.
unfoldable pub handle_subscribe :
    AccessControl → Text → ℕ → Bool → ℕ → Text → ℕ → List Filter → Bool → Broker → Handled
unfolding filter_codes
handle_subscribe ac ip now up mb client id [] invalid_qos b =
    if id == 0
    then closed b (write_packet up (reply_codes suback 1 (0x80 ∷ []))).1
    else if invalid_qos
    then record {
      broker = b;
      written = (write_packet up (reply_codes suback id (0x80 ∷ []))).1;
      is_open = true;
      tasks = [];
    }
    else closed b (write_packet up (reply_codes suback id (0x83 ∷ []))).1
handle_subscribe ac ip now up mb client id (f ∷ fs) invalid_qos b =
    let (cs, b') = filter_codes ac ip now mb client (f ∷ fs) b in
    if id == 0
    then closed b (write_packet up (reply_codes suback 1 (0x80 ∷ []))).1
    else answered b' (send_retained mb (f ∷ fs) ∷ []) (write_packet up (reply_codes suback id cs))

-- What sendRetainedMessages sends for a filter of a QoS.
abbrev pub retained_publish : ℕ → RetainedMessage → Message
retained_publish filter_qos msg = publish (record {
  topic = msg.topic;
  payload = msg.payload;
  qos = effective_qos msg.qos filter_qos;
  retain = true;
  user_properties = [];
  topic_alias = 0;
  response_topic = [];
  correlation_data = [];
})

abbrev pub retained_delivery : ℕ → ℕ → RetainedMessage → ℕ × Message
retained_delivery mb filter_qos msg = (mb, retained_publish filter_qos msg)

abbrev pub retained_for : ℕ → ℕ → Filter → Broker → List (ℕ × Message)
retained_for now mb f b =
    map (retained_delivery mb f.qos) (get_retained_messages now f.filter b.retainer)

unfoldable pub send_retained_messages : ℕ → ℕ → List Filter → Broker → Broker
unfolding effective_qos
send_retained_messages now mb [] b = b
send_retained_messages now mb (f ∷ fs) b =
    send_retained_messages now mb fs (send_all (retained_for now mb f b) b)
