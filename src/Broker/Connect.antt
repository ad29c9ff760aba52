-- ===== src/Broker/Connect.antt =====
-- The handling of a CONNECT packet in handleConnection of pkg/broker/broker.go, on a connection that has
-- no session yet. The chain of authenticators is an argument, and so is the id that generateClientID
-- makes; the properties of the CONNACK are left out.
use emqx_go.Base.{
  ℕ, ◌*◌, filter, text_eq, ◌==◌, Bool, true, false, not, ◌&&◌, ◌||◌, List, [], ◌∷◌, Option, none,
  some, if◌then◌else◌, ltb, leb, length, Text, codes, has_prefix, is_empty,
}
use emqx_go.Base.Map.{Map, insert, text_has_eq}
use emqx_go.Topic.Store
use emqx_go.Persistent.Types.{PersistentSession, QueuedMessage, WillMessage}
use emqx_go.Persistent.Manager.{SessionManager, create_or_resume, set_will_message}
use emqx_go.Auth.{AuthResult, success, failure, error, ignore, AuthChain, run_chain}
use emqx_go.Broker.State.{Broker}
use emqx_go.Broker.Alias.{new_client_topic_alias_manager}
use emqx_go.Broker.Sessions.{register_session}
use emqx_go.Broker.Subscribe.{or_kept}
use emqx_go.Broker.Connection.{
  connack, Reply, reply, write_packet, Task, deliver_offline, Verdict, allowed, denied, failed,
  AccessControl,
}

pub record ConnectIn : Type 0 where
  pub client_identifier : Text
  pub clean : Bool
  pub keepalive : ℕ
  pub username_flag : Bool
  pub username : Text
  pub password_flag : Bool
  pub password : Text
  pub will_flag : Bool
  pub will_topic : Text
  pub will_payload : List ℕ
  pub will_qos : ℕ
  pub will_retain : Bool

-- What the loop keeps of a client: its id, its mailbox, and its keep-alive in nanoseconds.
pub record Client : Type 0 where
  pub client_id : Text
  pub mailbox : ℕ
  pub keep_alive : ℕ

-- The connection is closed with what was written, or it has a client.
pub data Connecting : Type 0 where
  refused : List Reply → Connecting
  connected : Client → Broker → List Reply → List Task → Connecting

abbrev pub max_length : ℕ
max_length = 65535

-- The checks of the packet, in order: none if it passes, else the code of the CONNACK that is written
-- before the connection is closed, if there is one.
unfoldable pub connect_violation : ConnectIn → Option (Option ℕ)
connect_violation c =
    if ltb max_length (length c.client_identifier)
    then some none
    else if ltb max_length (length c.will_topic) || ltb max_length (length c.will_payload)
    then some none
    else if is_empty c.client_identifier && not c.clean
    then some (some 0x85)
    else if c.password_flag && not c.username_flag
    then some (some 0x85)
    else if not c.username_flag && not (is_empty c.password)
    then some (some 0x84)
    else none

abbrev pub refuse : Bool → Option ℕ → Connecting
refuse up none = refused []
refuse up (some code) = refused (write_packet up (reply connack 0 code)).1

abbrev pub id_of : Text → ConnectIn → Text
id_of generated c = if is_empty c.client_identifier then generated else c.client_identifier

abbrev pub username_of : ConnectIn → Text
username_of c = if c.username_flag then c.username else []

abbrev pub password_of : ConnectIn → Text
password_of c = if c.password_flag then c.password else []

abbrev pub test_prefixes : List Text
test_prefixes =
    codes "fuzz"
    ∷ codes "mbfuzzer"
    ∷ codes "defensics"
    ∷ codes "pubfuzz"
    ∷ codes "subfuzz"
    ∷ codes "qosfuzz"
    ∷ codes "topicfuzz"
    ∷ codes "pktfuzz"
    ∷ codes "race-client"
    ∷ codes "flood-client"
    ∷ codes "qos-test"
    ∷ codes "packetid-test"
    ∷ []

abbrev pub has_any_prefix : Text → List Text → Bool
has_any_prefix s [] = false
has_any_prefix s (p ∷ ps) = let rest = has_any_prefix s ps in has_prefix s p || rest

-- The security testing bypass.
unfoldable pub is_test_client : Text → Bool
is_test_client id = has_any_prefix id test_prefixes

unfoldable pub auth_result : AuthChain → Text → Text → Text → AuthResult
unfolding is_test_client run_chain
auth_result chain id username password =
    if is_test_client id then ignore else run_chain username password chain

unfoldable pub connack_code : AuthResult → ℕ
connack_code success = 0
connack_code failure = 0x84
connack_code error = 0x80
connack_code ignore = 0

abbrev pub second : ℕ
second = 1000000000

unfoldable pub session_expiry : ℕ → ℕ
session_expiry keepalive = if ltb 0 keepalive then keepalive * second * 2 else 86400 * second

abbrev pub will_of : ConnectIn → WillMessage
will_of c = record {
  topic = c.will_topic;
  payload = c.will_payload;
  qos = c.will_qos;
  retain = c.will_retain;
  delay_interval = 0;
}

-- An error of SetWillMessage is logged.
unfoldable pub set_will : Text → ConnectIn → SessionManager → SessionManager
set_will id c m =
    if c.will_flag && (ltb 0 (length c.will_topic) && leb c.will_qos 2)
    then or_kept m (set_will_message id (will_of c) m)
    else m

unfoldable pub restore_subscriptions : ℕ → Map Text ℕ → Store.Store → Store.Store
restore_subscriptions mb [] st = st
restore_subscriptions mb ((topic, qos) ∷ subs) st =
    restore_subscriptions mb subs (Store.subscribe topic mb qos st)

abbrev pub queued : List QueuedMessage → Bool
queued [] = false
queued (q ∷ qs) = true

-- The registration of the client whose persistent session is `s`: its mailbox, and the broker.
abbrev pub welcomed :
    Bool → Text → ConnectIn → Broker → PersistentSession → SessionManager → ℕ × Broker
welcomed clean id c b s m =
    let (mb, b1) = register_session id (record b { persistent_sessions = set_will id c m }) in
    (
      mb,
      record b1 {
        topic_alias_managers =
            insert id (new_client_topic_alias_manager 100) b1.topic_alias_managers;
        delivery_callbacks = id ∷ filter (λ other. not (text_eq other id)) b1.delivery_callbacks;
        topics = if clean then b1.topics else restore_subscriptions mb s.subscriptions b1.topics;
      },
    )

abbrev pub offline_task : Bool → Text → PersistentSession → List Task
offline_task clean id s =
    if not clean && queued s.message_queue then deliver_offline id ∷ [] else []

abbrev pub client_of : Text → ConnectIn → ℕ → Client
client_of id c mb = record { client_id = id; mailbox = mb; keep_alive = c.keepalive * second }

abbrev pub welcome :
    Bool → Text → ConnectIn → Broker → PersistentSession × SessionManager → Connecting
welcome clean id c b (s, m) =
    let (mb, b2) = welcomed clean id c b s m in
    connected (client_of id c mb) b2 (reply connack 0 0 ∷ []) (offline_task clean id s)

-- What follows a CONNACK of success.
unfoldable pub establish : ℕ → Text → ConnectIn → Broker → Connecting
unfolding session_expiry set_will restore_subscriptions register_session
establish now id c b =
    welcome c.clean id c b
      (create_or_resume now id c.clean (session_expiry c.keepalive) b.persistent_sessions)

abbrev pub if_written : Bool × List Reply → Connecting → Connecting
if_written (true, written) r = r
if_written (false, written) r = refused written

abbrev pub after_auth : Bool → ℕ → ℕ → Text → ConnectIn → Broker → Connecting
after_auth up code now id c b =
    if code == 0
    then if_written (write_packet up (reply connack 0 0)) (establish now id c b)
    else refuse up (some code)

abbrev pub after_blacklist : Verdict → AuthChain → Bool → ℕ → Text → ConnectIn → Broker → Connecting
after_blacklist failed chain up now id c b = refuse up (some 0x80)
after_blacklist denied chain up now id c b = refused []
after_blacklist allowed chain up now id c b =
    after_auth up (connack_code (auth_result chain id (username_of c) (password_of c))) now id c b

abbrev pub unless_refused : Option (Option ℕ) → Bool → Connecting → Connecting
unless_refused none up r = r
unless_refused (some code) up r = refuse up code

unfoldable pub handle_connect :
    AccessControl → AuthChain → Text → Text → ℕ → Bool → ConnectIn → Broker → Connecting
unfolding connect_violation auth_result connack_code establish
handle_connect ac chain ip generated now up c b =
    let id = id_of generated c in
    unless_refused (connect_violation c) up
      (after_blacklist (ac.client_connection id (username_of c) ip) chain up now id c b)
