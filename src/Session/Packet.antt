-- ===== src/Session/Packet.antt =====
-- encodePublishPacket of pkg/session/session.go, as the bytes that it writes to its buffer, which
-- never fails. The packet type is that of the MQTT library, reduced to the fields that are read.
use emqx_go.Base.{
  ℕ, ◌+◌, Bool, true, false, ◌&&◌, List, [], ◌∷◌, ◌++◌, if◌then◌else◌, ltb, ◌==◌, length, Text,
}
use emqx_go.Protocol.Encode.{be16, prefixed, qos_flags}
use emqx_go.Session.Length.{encode_length}

pub record Packet : Type 0 where
  pub topic_name : Text
  pub payload : List ℕ
  pub retain : Bool
  pub protocol_version : ℕ
  pub packet_id : ℕ
  pub topic_alias : ℕ
  pub topic_alias_flag : Bool
  pub response_topic : Text
  pub correlation_data : List ℕ
  pub user : List (Text × Text)

abbrev pub is_empty : List ℕ → Bool
is_empty [] = true
is_empty (x ∷ xs) = false

unfoldable pub user_properties : List (Text × Text) → List ℕ
user_properties [] = []
user_properties ((key, value) ∷ user) =
    0x26 ∷ (prefixed key ++ (prefixed value ++ user_properties user))

-- propsBuf
unfoldable pub properties : Packet → List ℕ
unfolding user_properties
properties pk =
    (if pk.topic_alias_flag && ltb 0 pk.topic_alias then 0x23 ∷ be16 pk.topic_alias else [])
    ++ ((if is_empty pk.response_topic then [] else 0x08 ∷ prefixed pk.response_topic)
        ++ ((if is_empty pk.correlation_data then [] else 0x09 ∷ prefixed pk.correlation_data)
            ++ user_properties pk.user))

-- vh
unfoldable pub variable_header : Packet → ℕ → List ℕ
unfolding properties encode_length
variable_header pk qos =
    prefixed pk.topic_name
    ++ ((if ltb 0 qos then be16 pk.packet_id else [])
        ++ (if pk.protocol_version == 5
            then encode_length (length (properties pk)) ++ properties pk
            else []))

unfoldable pub fixed_header_byte : Packet → ℕ → ℕ
fixed_header_byte pk qos = 48 + qos_flags qos + (if pk.retain then 1 else 0)

unfoldable pub encode_publish_packet : Packet → ℕ → List ℕ
unfolding variable_header fixed_header_byte encode_length
encode_publish_packet pk qos =
    let vh = variable_header pk qos in
    fixed_header_byte pk qos ∷ (encode_length (length vh + length pk.payload) ++ (vh ++ pk.payload))
