-- ===== src/Protocol/Encode.antt =====
-- The encoders of pkg/protocol/mqtt/parser.go, as the bytes that they write.
use emqx_go.Base.{ℕ, ◌+◌, ◌*◌, ◌/◌, ◌%◌, Bool, List, [], ◌∷◌, ◌++◌, if◌then◌else◌, ltb, length}
use emqx_go.Protocol.Decode.{Bytes, PublishPacket, type_connack, type_publish, type_suback}

pub record ConnackPacket : Type 0 where
  pub session_present : Bool
  pub return_code : ℕ

pub record SubackPacket : Type 0 where
  pub message_id : ℕ
  pub return_codes : List ℕ

-- byte(n >> 8), byte(n & 0xFF)
abbrev pub be16 : ℕ → Bytes
be16 n = (n / 256 % 256) ∷ (n % 256) ∷ []

-- a string or a byte slice behind its length in two bytes
abbrev pub prefixed : Bytes → Bytes
prefixed s = be16 (length s) ++ s

-- (qos << 1) & 0x06 on a byte: the two low bits of qos, moved up by one
abbrev pub qos_flags : ℕ → ℕ
qos_flags qos = qos % 4 * 2

unfoldable pub encode_connack : ConnackPacket → Bytes
encode_connack p =
    (type_connack * 16) ∷ 2 ∷ (if p.session_present then 1 else 0) ∷ p.return_code ∷ []

unfoldable pub encode_suback : SubackPacket → Bytes
encode_suback p =
    (type_suback * 16) ∷ ((2 + length p.return_codes) % 256) ∷ (be16 p.message_id ++ p.return_codes)

-- The variable header of EncodePublish.
unfoldable pub publish_header : PublishPacket → ℕ → ℕ → Bytes
publish_header p qos packet_id = prefixed p.topic_name ++ (if ltb 0 qos then be16 packet_id else [])

unfoldable pub encode_publish : PublishPacket → ℕ → ℕ → Bytes
unfolding publish_header
encode_publish p qos packet_id =
    let vh = publish_header p qos packet_id in
    (type_publish * 16 + qos_flags qos) ∷ ((length vh + length p.payload) % 256) ∷ (vh ++ p.payload)
