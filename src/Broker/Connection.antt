-- ===== src/Broker/Connection.antt =====
-- One connection of pkg/broker/broker.go: what a packet makes the handler write, and whether the loop
-- goes on. The checks of the blacklist are an interface.
use emqx_go.Base.{ℕ, Bool, true, false, List, [], ◌∷◌, Text}
use emqx_go.Broker.State.{Broker}
use emqx_go.Broker.Route.{Routed}

pub data ReplyType : Type 0 where
  connack puback pubrec pubrel pubcomp suback unsuback pingresp disconnect : ReplyType

pub record Reply : Type 0 where
  pub type : ReplyType
  pub packet_id : ℕ
  pub reason_code : ℕ
  pub reason_codes : List ℕ

-- Whether writePacket can encode the type; for a DISCONNECT it has no case.
abbrev pub is_supported : ReplyType → Bool
is_supported disconnect = false
is_supported connack = true
is_supported puback = true
is_supported pubrec = true
is_supported pubrel = true
is_supported pubcomp = true
is_supported suback = true
is_supported unsuback = true
is_supported pingresp = true

-- Whether the call returns without an error, and what it wrote; `up` says whether the connection takes
-- the bytes.
unfoldable pub write_packet : Bool → Reply → Bool × List Reply
write_packet up r = elim (is_supported r.type) [
  | false ↦ (false, [])
  | true ↦ elim up [ true ↦ (true, r ∷ []) | false ↦ (false, []) ]
]

abbrev pub reply : ReplyType → ℕ → ℕ → Reply
reply type id code = record { type = type; packet_id = id; reason_code = code; reason_codes = [] }

abbrev pub reply_codes : ReplyType → ℕ → List ℕ → Reply
reply_codes type id codes = record {
  type = type;
  packet_id = id;
  reason_code = 0;
  reason_codes = codes;
}

pub record Filter : Type 0 where
  pub filter : Text
  pub qos : ℕ

-- The goroutines that a handler starts.
pub data Task : Type 0 where
  post_ack : Text → Routed → Bool → Task
  send_retained : ℕ → List Filter → Task
  deliver_offline : Text → Task

-- What the handling of one packet leaves: an open connection reads on, a closed one has returned
-- without the clean-up behind the loop.
pub record Handled : Type 0 where
  pub broker : Broker
  pub written : List Reply
  pub is_open : Bool
  pub tasks : List Task

abbrev pub closed : Broker → List Reply → Handled
closed b written = record { broker = b; written = written; is_open = false; tasks = [] }

pub data Verdict : Type 0 where
  allowed denied failed : Verdict

-- The blacklist middleware: client id, username, address, and the topic where there is one.
pub record AccessControl : Type 0 where
  pub client_connection : Text → Text → Text → Verdict
  pub publish_access : Text → Text → Text → Text → Verdict
  pub subscribe_access : Text → Text → Text → Text → Verdict
