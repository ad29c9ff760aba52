-- ===== src/Protocol/Examples.antt =====
-- The theorems on pkg/protocol/mqtt at concrete packets.
use emqx_go.Base.{ℕ, ◌≡◌, refl, List, [], ◌∷◌, ◌++◌, Text, codes, arith, ok}
use emqx_go.Protocol.Decode.{FixedHeader, PublishPacket, decode_subscribe}
use emqx_go.Protocol.Encode.{be16, publish_header, encode_publish}
use emqx_go.Protocol.RoundTrip.{read_publish, publish_roundtrip}
use emqx_go.Protocol.Subscribe.{
  topic_filters, topics_of, qoss_of, filters_fit, decode_subscribe-topic_filters,
}

abbrev hello : PublishPacket
hello = record { topic_name = codes "a/b"; payload = codes "hi" }

publish_roundtrip_example :
    read_publish (encode_publish hello 1 513 ++ 192 ∷ 0 ∷ []) ≡ ok (hello, 192 ∷ 0 ∷ [])
unfolding publish_header
publish_roundtrip_example = publish_roundtrip hello 1 513 (192 ∷ 0 ∷ []) (omega arith) (omega arith)

abbrev filters : List (Text × ℕ)
filters = (codes "a/#", 1) ∷ (codes "b", 0) ∷ []

abbrev subscribe_header : FixedHeader
subscribe_header = record { packet_type = 8; flags = 2; rem_length = 12 }

decode_subscribe-topic_filters_example :
    decode_subscribe subscribe_header ((be16 10 ++ topic_filters filters) ++ 192 ∷ [])
    ≡ ok (record { message_id = 10; topics = topics_of filters; qoss = qoss_of filters }, 192 ∷ [])
unfolding topic_filters filters_fit
decode_subscribe-topic_filters_example =
    decode_subscribe-topic_filters subscribe_header 10 filters (192 ∷ []) (omega arith) refl refl
