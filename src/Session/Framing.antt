-- ===== src/Session/Framing.antt =====
-- The packets of encodePublishPacket as a reader of the stream sees them.
use emqx_go.Base.{
  ℕ, ◌+◌, ◌%◌, ◌<◌, ◌≡◌, ◌≢◌, Bool, false, List, [], ◌∷◌, ◌++◌, Option, none, some, arith,
  if◌then◌else◌, leb, ltb, ◌==◌, ==_iff, ◌∙◌, ap, append-nil, length, take, drop,
}
use emqx_go.Protocol.Encode.{be16, prefixed, qos_flags, publish_header, encode_publish}
use emqx_go.Session.Length.{decode_length, encode_length}
use emqx_go.Session.Packet.{Packet, variable_header, fixed_header_byte, encode_publish_packet}

-- The rule of MQTT for one packet: a first byte, a variable byte integer, and as many bytes as it says.
cut : ℕ → ℕ × List ℕ → Option (ℕ × (List ℕ × List ℕ))
cut b (n, bs) = if leb n (length bs) then some (b, (take n bs, drop n bs)) else none

cut_at : ℕ → Option (ℕ × List ℕ) → Option (ℕ × (List ℕ × List ℕ))
cut_at b none = none
cut_at b (some framed) = cut b framed

pub read_frame : List ℕ → Option (ℕ × (List ℕ × List ℕ))
read_frame [] = none
read_frame (b ∷ bs) = cut_at b (decode_length bs)

not_five : (n : ℕ) → n ≢ 5 → (n == 5) ≡ false
not_five n h = ground (arith, ==_iff n 5)

variable_header_old :
    (pk : Packet) (qos : ℕ)
    → pk.protocol_version ≢ 5
    → variable_header pk qos
      ≡ publish_header
          (record { topic_name = pk.topic_name; payload = pk.payload })
          qos
          pk.packet_id
unfolding variable_header publish_header
variable_header_old pk qos old = rw (not_five pk.protocol_version old) (
    ap (λ t. prefixed pk.topic_name ++ t)
      (append-nil (if ltb 0 qos then be16 pk.packet_id else [])))

short_frame :
    (flags : ℕ) (retain : Bool) (vh payload : List ℕ)
    → length vh + length payload < 128
    → retain ≡ false
    → (48 + flags + (if retain then 1 else 0))
        ∷ (encode_length (length vh + length payload) ++ (vh ++ payload))
      ≡ (48 + flags) ∷ ((length vh + length payload) % 256) ∷ (vh ++ payload)
unfolding encode_length
short_frame flags retain vh payload short plain = ground arith

-- Before MQTT 5, for a packet that is not retained and has fewer than 128 bytes behind its fixed
-- header, the encoder of the session writes what the encoder of package mqtt writes.
encode_publish_packet-encode_publish :
    (pk : Packet) (qos : ℕ)
    → pk.protocol_version ≢ 5
    → pk.retain ≡ false
    → length (variable_header pk qos) + length pk.payload < 128
    → encode_publish_packet pk qos
      ≡ encode_publish
          (record { topic_name = pk.topic_name; payload = pk.payload })
          qos
          pk.packet_id
unfolding encode_publish_packet encode_publish fixed_header_byte
encode_publish_packet-encode_publish pk qos old plain short =
    short_frame (qos_flags qos) pk.retain (variable_header pk qos) pk.payload short plain
    ∙ ap (λ vh. (48 + qos_flags qos) ∷ ((length vh + length pk.payload) % 256) ∷ (vh ++ pk.payload))
        (variable_header_old pk qos old)
