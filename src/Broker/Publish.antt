-- ===== src/Broker/Publish.antt =====
-- The handling of a PUBLISH packet in handleConnection of pkg/broker/broker.go, on a connection that
-- has a session.
use emqx_go.Base.{
  ℕ, is_empty, Bool, true, false, ◌&&◌, ◌||◌, List, [], ◌∷◌, ◌++◌, Option, none, some,
  if◌then◌else◌, ltb, leb, ◌==◌, length, Text, codes, contains, contains_any, Outcome, ok, err,
  panic,
}
use emqx_go.Base.Map.{Map, lookup, insert, text_has_eq}
use emqx_go.Broker.State.{Broker}
use emqx_go.Broker.Alias.{ClientTopicAliasManager, AliasError, Resolved, resolve_topic_alias}
use emqx_go.Broker.Duplicate.{mark_and_check_duplicate}
use emqx_go.Broker.Route.{Routed}
use emqx_go.Broker.Connection.{
  ReplyType, puback, pubrec, disconnect, Reply, reply, write_packet, Task, post_ack, Handled,
  closed, Verdict, allowed, denied, failed, AccessControl,
}

pub record PublishIn : Type 0 where
  pub topic_name : Text
  pub payload : List ℕ
  pub qos : ℕ
  pub dup : Bool
  pub retain : Bool
  pub packet_id : ℕ
  pub topic_alias_flag : Bool
  pub topic_alias : ℕ
  pub user : List (Text × Text)
  pub response_topic : Text
  pub correlation_data : List ℕ

-- Puback, or Pubrec for QoS 2
abbrev pub ack_type : ℕ → ReplyType
ack_type qos = if qos == 2 then pubrec else puback

abbrev pub ack_if : PublishIn → ℕ → Option Reply
ack_if pk code = if ltb 0 pk.qos then some (reply (ack_type pk.qos) pk.packet_id code) else none

-- The patterns that the injection protection looks for.
unfoldable pub is_malicious : Text → Bool
is_malicious s =
    contains s (codes "../")
    || (contains s (codes ".." ++ 92 ∷ [])
        || (contains s (codes "$(")
            || (contains s (codes "';")
                || (contains s (codes "<script") || contains_any s (λ c. leb c 5)))))

abbrev pub max_message_size : ℕ
max_message_size = 1048576

-- The guards before the packet is processed, in order: none if it passes, else the reply before the
-- connection is closed, if there is one.
unfoldable pub violation : PublishIn → Option (Option Reply)
unfolding is_malicious
violation pk =
    if is_empty pk.topic_name
    then some (ack_if pk 0x82)
    else if ltb 2 pk.qos
    then some (some (reply disconnect 0 0x81))
    else if ltb 0 pk.qos && pk.packet_id == 0
    then some (some (reply (ack_type pk.qos) 1 0x82))
    else if pk.dup && pk.qos == 0
    then some none
    else if contains pk.topic_name (codes "#") || contains pk.topic_name (codes "+")
    then some (ack_if pk 0x82)
    else if is_malicious pk.topic_name
    then some (ack_if pk 0x87)
    else if ltb max_message_size (length pk.payload)
    then some (ack_if pk 0x97)
    else none

abbrev pub write_if : Bool → Option Reply → List Reply
write_if up none = []
write_if up (some r) = (write_packet up r).1

unfoldable pub check_duplicate : ℕ → Text → PublishIn → Broker → Bool × Broker
unfolding mark_and_check_duplicate
check_duplicate now client pk b =
    if pk.qos == 1 then mark_and_check_duplicate now client pk.packet_id b else (false, b)

abbrev pub put_manager : Text → ClientTopicAliasManager → Broker → Broker
put_manager client tam b = record b {
  topic_alias_managers = insert client tam b.topic_alias_managers;
}

abbrev pub resolved_in : Text → Broker → Resolved → Outcome AliasError (Text × Broker)
resolved_in client b (ok (topic, tam)) = ok (topic, put_manager client tam b)
resolved_in client b (err e) = err e
resolved_in client b panic = panic

abbrev pub resolve_with :
    Text → PublishIn → Broker → Option ClientTopicAliasManager → Outcome AliasError (Text × Broker)
resolve_with client pk b none = ok (pk.topic_name, b)
resolve_with client pk b (some tam) =
    resolved_in client b (resolve_topic_alias pk.topic_name pk.topic_alias tam)

unfoldable pub resolve_topic : Text → PublishIn → Broker → Outcome AliasError (Text × Broker)
unfolding resolve_topic_alias
resolve_topic client pk b =
    if pk.topic_alias_flag && ltb 0 pk.topic_alias
    then resolve_with client pk b (lookup client b.topic_alias_managers)
    else ok (pk.topic_name, b)

-- The map of the user properties; a later one replaces an earlier one with its key.
abbrev pub user_map : List (Text × Text) → Map Text Text → Map Text Text
user_map [] m = m
user_map ((key, val) ∷ user) m = user_map user (insert key val m)

abbrev pub routed_of : PublishIn → Text → Routed
routed_of pk topic = record {
  topic = topic;
  payload = pk.payload;
  qos = pk.qos;
  user_properties = user_map pk.user [];
  response_topic = pk.response_topic;
  correlation_data = pk.correlation_data;
}

abbrev pub process_unless : Bool → Text → PublishIn → Text → List Task
process_unless true client pk topic = []
process_unless false client pk topic = post_ack client (routed_of pk topic) pk.retain ∷ []

abbrev pub if_sent : Broker → List Task → Bool × List Reply → Handled
if_sent b tasks (true, written) = record {
  broker = b;
  written = written;
  is_open = true;
  tasks = tasks;
}
if_sent b tasks (false, written) = closed b written

-- The acknowledgement, and the goroutine that processes the publication unless it is a duplicate.
unfoldable pub acknowledge : Bool → Text → PublishIn → Text → Bool → Broker → Handled
acknowledge up client pk topic duplicate b =
    let tasks = process_unless duplicate client pk topic in
    let ack = reply (ack_type pk.qos) pk.packet_id 0 in
    if pk.qos == 0
    then record { broker = b; written = []; is_open = true; tasks = tasks }
    else if_sent b tasks (write_packet up ack)

-- An error of the blacklist is logged, and the packet is processed.
unfoldable pub admit : Verdict → Bool → Text → PublishIn → Text → Bool → Broker → Handled
unfolding acknowledge
admit denied up client pk topic duplicate b = closed b (write_if up (ack_if pk 0x87))
admit allowed up client pk topic duplicate b = acknowledge up client pk topic duplicate b
admit failed up client pk topic duplicate b = acknowledge up client pk topic duplicate b

abbrev pub after_resolve :
    AccessControl
    → Text
    → Bool
    → Text
    → PublishIn
    → Bool
    → Broker
    → Outcome AliasError (Text × Broker)
    → Handled
after_resolve ac ip up client pk duplicate b (ok (topic, b')) =
    admit (ac.publish_access client [] ip topic) up client pk topic duplicate b'
after_resolve ac ip up client pk duplicate b _ =
    closed b (write_if up (some (reply disconnect 0 0x82)))

abbrev pub after_check : AccessControl → Text → Bool → Text → PublishIn → Bool × Broker → Handled
after_check ac ip up client pk (duplicate, b) =
    after_resolve ac ip up client pk duplicate b (resolve_topic client pk b)

abbrev pub unless_violation : Option (Option Reply) → Bool → Broker → Handled → Handled
unless_violation none up b h = h
unless_violation (some r) up b h = closed b (write_if up r)

unfoldable pub handle_publish :
    AccessControl → Text → ℕ → Bool → Text → PublishIn → Broker → Handled
unfolding violation check_duplicate resolve_topic admit
handle_publish ac ip now up client pk b =
    unless_violation (violation pk) up b
      (after_check ac ip up client pk (check_duplicate now client pk b))
