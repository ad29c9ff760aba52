-- ===== src/Session/Actor.antt =====
-- The actor of pkg/session/session.go: what it writes for each message, and when it ends. The writes
-- of the connection are a parameter: the answers, in order, to whether each succeeds.
use emqx_go.Base.{ℕ, Bool, true, false, List, [], ◌∷◌, if◌then◌else◌, ltb, ◌==◌, Text}
use emqx_go.Session.Packet.{Packet, encode_publish_packet}

-- The message `Publish`. UserProperties is a map, in the order of the range over it.
pub record Publish : Type 0 where
  pub topic : Text
  pub payload : List ℕ
  pub qos : ℕ
  pub retain : Bool
  pub user_properties : List (Text × Text)
  pub topic_alias : ℕ
  pub response_topic : Text
  pub correlation_data : List ℕ

pub data Message : Type 0 where
  publish : Publish → Message
  stop : Message
  unknown : Message

unfoldable pub get_protocol_version : ℕ → ℕ
get_protocol_version v = if v == 0 then 4 else v

-- The packet that the actor makes of a message.
unfoldable pub packet_of : ℕ → Publish → Packet
unfolding get_protocol_version
packet_of version m = record {
  topic_name = m.topic;
  payload = m.payload;
  retain = m.retain;
  protocol_version = get_protocol_version version;
  packet_id = if ltb 0 m.qos then 1 else 0;
  topic_alias = if ltb 0 m.topic_alias then m.topic_alias else 0;
  topic_alias_flag = ltb 0 m.topic_alias;
  response_topic = m.response_topic;
  correlation_data = m.correlation_data;
  user = m.user_properties;
}

-- Why the loop ended: the mailbox gave an error, a write failed, or it was stopped.
pub data Exit : Type 0 where
  mailbox_closed write_failed stopped : Exit

-- The loop of Start over the messages that arrive: the byte strings handed to the connection, and
-- the exit. With no answer left a write fails.
unfoldable pub start : ℕ → List Bool → List Message → List (List ℕ) × Exit
unfolding packet_of encode_publish_packet
start version writes [] = ([], mailbox_closed)
start version writes (stop ∷ ms) = ([], stopped)
start version writes (unknown ∷ ms) = start version writes ms
start version [] (publish m ∷ ms) =
    (encode_publish_packet (packet_of version m) m.qos ∷ [], write_failed)
start version (false ∷ writes) (publish m ∷ ms) =
    (encode_publish_packet (packet_of version m) m.qos ∷ [], write_failed)
start version (true ∷ writes) (publish m ∷ ms) =
    let rest = start version writes ms in
    (encode_publish_packet (packet_of version m) m.qos ∷ rest.0, rest.1)
