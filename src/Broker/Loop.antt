-- ===== src/Broker/Loop.antt =====
-- The loop of handleConnection in pkg/broker/broker.go: what is read decides which handler runs, and the
-- loop goes on or returns. The packets are given as they are read; decoding them is another package's.
use emqx_go.Base.{
  ℕ, Bool, true, false, List, [], ◌∷◌, ◌++◌, Option, none, some, if◌then◌else◌, ◌==◌, Text,
}
use emqx_go.Auth.{AuthChain}
use emqx_go.Broker.State.{Broker, Run, done, blocked, crashed}
use emqx_go.Broker.Connection.{
  ReplyType, pubrel, pubcomp, pingresp, Reply, reply, write_packet, Filter, Task, Handled, closed,
  AccessControl,
}
use emqx_go.Broker.Publish.{PublishIn, handle_publish}
use emqx_go.Broker.Subscribe.{handle_subscribe, answered}
use emqx_go.Broker.Unsubscribe.{handle_unsubscribe}
use emqx_go.Broker.Sessions.{handle_disconnect, connection_lost}
use emqx_go.Broker.Connect.{ConnectIn, Client, Connecting, refused, connected, handle_connect}

-- The packets that a client sends; `invalid_qos` is the mark of a SUBSCRIBE whose QoS cannot be parsed.
pub data Packet : Type 0 where
  connect : ConnectIn → Packet
  subscribe : (id : ℕ) (filters : List Filter) (invalid_qos : Bool) → Packet
  publish : PublishIn → Packet
  puback pubrec pubrel_in pubcomp_in : (id : ℕ) → Packet
  pingreq : Packet
  unsubscribe : (id : ℕ) (filters : List Text) → Packet
  disconnect : Packet
  unknown : Packet

-- What readPacket returns: a packet, a timeout, or another error.
pub data Read : Type 0 where
  packet : Packet → Read
  timeout failure : Read

-- What is the same for all packets of a connection; the ids are what generateClientID makes and the id
-- that a retained will gets.
pub record Setting : Type 0 where
  pub access : AccessControl
  pub auth_chain : AuthChain
  pub ip : Text
  pub generated_id : Text
  pub message_id : Text

-- The end of one round: the loop reads on, the call has returned, it waits for ever, or it panics.
pub data Round : Type 0 where
  reads : Option Client → Broker → List Reply → List Task → Round
  returned : Broker → List Reply → Round
  hangs : Broker → Round
  panics : Round

abbrev pub of_handled : Client → Handled → Round
of_handled client h =
    if h.is_open
    then reads (some client) h.broker h.written h.tasks
    else returned h.broker h.written

abbrev pub of_connecting : Broker → Connecting → Round
of_connecting b (refused written) = returned b written
of_connecting b (connected client b' written tasks) = reads (some client) b' written tasks

abbrev pub of_run : Run Broker → Round
of_run (done b) = returned b []
of_run (blocked b) = hangs b
of_run crashed = panics

-- PUBACK and PUBCOMP, which are logged.
unfoldable pub handle_ack : ℕ → Broker → Handled
handle_ack id b = if id == 0 then closed b [] else answered b [] (true, [])

-- PUBREC and PUBREL, which are answered.
unfoldable pub handle_answered_ack : ReplyType → Bool → ℕ → Broker → Handled
handle_answered_ack type up id b =
    if id == 0 then closed b [] else answered b [] (write_packet up (reply type id 0))

unfoldable pub handle_pingreq : Bool → Broker → Handled
handle_pingreq up b = answered b [] (write_packet up (reply pingresp 0 0))

-- The switch, for a connection that has a client.
unfoldable pub handle_packet : Setting → ℕ → Bool → Client → Packet → Broker → Round
unfolding handle_ack handle_answered_ack handle_pingreq
handle_packet s now up c (connect pk) b = returned b []
handle_packet s now up c (subscribe id filters invalid_qos) b =
    of_handled c
      (handle_subscribe s.access s.ip now up c.mailbox c.client_id id filters invalid_qos b)
handle_packet s now up c (publish pk) b =
    of_handled c (handle_publish s.access s.ip now up c.client_id pk b)
handle_packet s now up c (puback id) b = of_handled c (handle_ack id b)
handle_packet s now up c (pubrec id) b = of_handled c (handle_answered_ack pubrel up id b)
handle_packet s now up c (pubrel_in id) b = of_handled c (handle_answered_ack pubcomp up id b)
handle_packet s now up c (pubcomp_in id) b = of_handled c (handle_ack id b)
handle_packet s now up c pingreq b = of_handled c (handle_pingreq up b)
handle_packet s now up c (unsubscribe id filters) b =
    of_handled c (handle_unsubscribe now up c.mailbox c.client_id id filters b)
handle_packet s now up c disconnect b = of_run (handle_disconnect now c.client_id b)
handle_packet s now up c unknown b = reads (some c) b [] []

-- One round of the loop. A timeout returns at once; another error leads to the clean-up behind the
-- loop, which a connection without a client skips.
unfoldable pub one_round : Setting → ℕ → Bool → Option Client → Read → Broker → Round
unfolding handle_packet
one_round s now up c timeout b = returned b []
one_round s now up none failure b = returned b []
one_round s now up (some c) failure b = of_run (connection_lost now s.message_id c.client_id b)
one_round s now up none (packet (connect pk)) b =
    of_connecting b (handle_connect s.access s.auth_chain s.ip s.generated_id now up pk b)
one_round s now up none (packet p) b = returned b []
one_round s now up (some c) (packet p) b = handle_packet s now up c p b

-- What a connection has done when all that is read is handled, or the call is over before.
pub record Connection : Type 0 where
  pub broker : Broker
  pub client : Option Client
  pub written : List Reply
  pub tasks : List Task
  pub is_over : Bool

abbrev pub over : Broker → List Reply → Connection
over b written = record { broker = b; client = none; written = written; tasks = []; is_over = true }

abbrev pub before : List Reply → List Task → Connection → Connection
before written tasks r = record r { written = written ++ r.written; tasks = tasks ++ r.tasks }

-- The rounds after a first one. A call that waits for ever or panics does nothing more.
abbrev pub go_on : (Option Client → Broker → Connection) → Broker → Round → Connection
go_on rest b0 (reads c b written tasks) = before written tasks (rest c b)
go_on rest b0 (returned b written) = over b written
go_on rest b0 (hangs b) = over b []
go_on rest b0 panics = over b0 []

-- The loop over what is read; for each read its time, and whether the connection takes bytes.
unfoldable pub handle_connection :
    Setting → List (ℕ × (Bool × Read)) → Option Client → Broker → Connection
unfolding one_round
handle_connection s [] c b = record {
  broker = b;
  client = c;
  written = [];
  tasks = [];
  is_over = false;
}
handle_connection s ((now, (up, r)) ∷ rs) c b =
    go_on (handle_connection s rs) b (one_round s now up c r b)
