-- ===== src/Protocol/Decode.antt =====
-- pkg/protocol/mqtt/types.go and the decoders of parser.go. A reader is the bytes that it has left; a
-- slice or an index out of range is a panic.
use emqx_go.Base.{
  ℕ, zero, suc, ◌+◌, ◌*◌, ◌/◌, ◌%◌, Bool, not, List, [], ◌∷◌, ◌++◌, Option, none, some,
  if◌then◌else◌, ◌==◌, ltb, length, get_elem?, take, drop, Text, codes, text_eq, Outcome, ok, err,
  panic, ◌>>=◌,
}

abbrev pub Bytes : Type 0
Bytes = List ℕ

pub record FixedHeader : Type 0 where
  pub packet_type : ℕ
  pub flags : ℕ
  pub rem_length : ℕ

pub record ConnectPacket : Type 0 where
  pub protocol_name : Text
  pub protocol_version : ℕ
  pub clean_session : Bool
  pub keep_alive : ℕ
  pub client_id : Text

pub record PublishPacket : Type 0 where
  pub topic_name : Text
  pub payload : Bytes

pub record SubscribePacket : Type 0 where
  pub message_id : ℕ
  pub topics : List Text
  pub qoss : List ℕ

-- `out_of_fuel` belongs to the model only.
pub data DecodeError : Type 0 where
  read_failed no_remaining_length not_connect short_packet invalid_protocol_name : DecodeError
  no_client_id short_string_length short_string_content short_packet_id out_of_fuel : DecodeError

abbrev pub type_connect : ℕ
type_connect = 1

abbrev pub type_connack : ℕ
type_connack = 2

abbrev pub type_publish : ℕ
type_publish = 3

abbrev pub type_suback : ℕ
type_suback = 9

abbrev pub Decoded : Type 0 → Type 0
Decoded A = Outcome DecodeError A

-- io.ReadFull into a buffer of n bytes
unfoldable pub read_full : DecodeError → ℕ → Bytes → Decoded (Bytes × Bytes)
read_full e n r = if ltb (length r) n then err e else ok (take n r, drop n r)

-- b[i]
abbrev pub index_of : Option ℕ → Decoded ℕ
index_of none = panic
index_of (some x) = ok x

abbrev pub index : Bytes → ℕ → Decoded ℕ
index b i = index_of (get_elem? b i)

-- binary.BigEndian.Uint16(b[offset : offset+2])
unfoldable pub uint16_at : Bytes → ℕ → Decoded ℕ
uint16_at b offset = do hi ← index b offset; lo ← index b (offset + 1); ok (hi * 256 + lo)

unfoldable pub read_string : Bytes → ℕ → Decoded (Text × ℕ)
unfolding uint16_at
read_string b offset = if ltb (length b) (offset + 2) then err short_string_length else do
  n ← uint16_at b offset
  if ltb (length b) (offset + 2 + n)
      then err short_string_content
      else ok (take n (drop (offset + 2) b), offset + 2 + n)

unfoldable pub decode_fixed_header : Bytes → Decoded (FixedHeader × Bytes)
unfolding read_full
decode_fixed_header r = do
  (header, r) ← read_full read_failed 1 r
  b ← index header 0
  (len, r) ← read_full no_remaining_length 1 r
  n ← index len 0
  ok (record { packet_type = b / 16; flags = b % 16; rem_length = n }, r)

-- What `err != nil || protocolName != "MQTT"` makes of the result of readString.
abbrev pub protocol_name_of : Decoded (Text × ℕ) → Decoded (Text × ℕ)
protocol_name_of (ok (name, offset)) =
    if not (text_eq name (codes "MQTT")) then err invalid_protocol_name else ok (name, offset)
protocol_name_of (err e) = err invalid_protocol_name
protocol_name_of panic = panic

abbrev pub client_id_of : Decoded (Text × ℕ) → Decoded Text
client_id_of (ok (id, offset)) = ok id
client_id_of (err e) = err no_client_id
client_id_of panic = panic

-- The body of DecodeConnect, on the buffer.
unfoldable pub decode_connect_body : Bytes → Decoded ConnectPacket
unfolding read_string uint16_at
decode_connect_body buf = do
  (name, offset) ← protocol_name_of (read_string buf 0)
  version ← index buf offset
  connect_flags ← index buf (offset + 1)
  keep_alive ← uint16_at buf (offset + 2)
  id ← client_id_of (read_string buf (offset + 4))
  ok (record {
    protocol_name = name;
    protocol_version = version;
    clean_session = connect_flags / 2 % 2 == 1;
    keep_alive = keep_alive;
    client_id = id;
  })

unfoldable pub decode_connect : Bytes → Decoded (ConnectPacket × Bytes)
unfolding decode_fixed_header read_full decode_connect_body
decode_connect r = do
  (fh, r) ← decode_fixed_header r
  if not (fh.packet_type == type_connect) then err not_connect else do
    (buf, r) ← read_full short_packet fh.rem_length r
    packet ← decode_connect_body buf
    ok (packet, r)

-- The loop of DecodeSubscribe.
unfoldable pub subscribe_loop : ℕ → Bytes → ℕ → SubscribePacket → Decoded SubscribePacket
unfolding read_string uint16_at
subscribe_loop zero buf offset packet = err out_of_fuel
subscribe_loop (suc f) buf offset packet =
    if ltb offset (length buf)
    then (do
      (topic, offset') ← read_string buf offset
      qos ← index buf offset'
      subscribe_loop f buf (offset' + 1)
          (record packet { topics = packet.topics ++ topic ∷ []; qoss = packet.qoss ++ qos ∷ [] }))
    else ok packet

unfoldable pub decode_subscribe : FixedHeader → Bytes → Decoded (SubscribePacket × Bytes)
unfolding subscribe_loop read_full uint16_at
decode_subscribe fh r = do
  (buf, r) ← read_full read_failed fh.rem_length r
  id ← uint16_at buf 0
  packet ←
      subscribe_loop (length buf + 1) buf 2 (record { message_id = id; topics = []; qoss = [] })
  ok (packet, r)

unfoldable pub decode_publish : FixedHeader → Bytes → Decoded (PublishPacket × Bytes)
unfolding read_string read_full uint16_at
decode_publish fh r = do
  (buf, r) ← read_full read_failed fh.rem_length r
  (topic, offset) ← read_string buf 0
  let qos_level = fh.flags / 2 % 4
  if ltb 0 qos_level
      then (if ltb (length buf) (offset + 2)
          then err short_packet_id
          else ok (record { topic_name = topic; payload = drop (offset + 2) buf }, r))
      else ok (record { topic_name = topic; payload = drop offset buf }, r)
