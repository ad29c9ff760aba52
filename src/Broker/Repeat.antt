-- ===== src/Broker/Repeat.antt =====
-- What becomes of a packet id that a client uses twice, in pkg/broker/broker.go.
use emqx_go.Base.{ℕ, Bool, true, [], ◌∷◌, Text}
use emqx_go.Base.Map.{Map, lookup, text_has_eq, nat_has_eq}
use emqx_go.Broker.State.{Broker}
use emqx_go.Broker.Duplicate.{or_empty_map}
use emqx_go.Broker.Connection.{reply, puback, Handled, AccessControl}
use emqx_go.Broker.Publish.{PublishIn, process_unless}

processed_of : Text → Broker → Map ℕ ℕ
processed_of client b = or_empty_map (lookup client b.processed_qos1)

module _ (ac : AccessControl) (ip : Text) (now : ℕ) (client : Text) (pk : PublishIn) where
  -- What an acknowledged publication leaves.
  abbrev accepted : Bool × Broker → Handled
  accepted (duplicate, b) = record {
    broker = b;
    written = reply puback pk.packet_id 0 ∷ [];
    is_open = true;
    tasks = process_unless duplicate client pk pk.topic_name;
  }
