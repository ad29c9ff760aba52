-- ===== src/Persistent/Examples.antt =====
-- The theorems on pkg/persistent at concrete sessions.
use emqx_go.Base.{
  ℕ, ◌≡◌, refl, ◌≢◌, ◌<◌, Bool, true, false, List, [], ◌∷◌, ◌++◌, Option, none, some, codes, arith,
  Text, text_eq, ok,
}
use emqx_go.Base.Map.{lookup, text_has_eq}
use emqx_go.Persistent.Types.{QueuedMessage, WillMessage, PersistentSession, Config}
use emqx_go.Persistent.Will.{scheduled}
use emqx_go.Persistent.Manager.{
  SessionManager, disconnect, load_session, queue_message, queued_message, next_packet_id,
}
use emqx_go.Persistent.Queue.{newest, queue_message-newest}
use emqx_go.Persistent.Lifecycle.{next_packet_id_bounds}
use emqx_go.Persistent.Wills.{graceful_disconnect}
use emqx_go.Persistent.Requests.{Request, connect, leave, add, queue, next_id}

abbrev defaults : ℕ → Config
defaults maximum = record {
  max_offline_messages = maximum;
  message_expiry_interval = 100;
  default_session_expiry = 1000;
  retry_interval = 10;
  max_retry_attempts = 3;
  cleanup_interval = 60;
  max_inflight_messages = 5;
}

abbrev note : ℕ → Option ℕ → QueuedMessage
note n expiry = record {
  topic = codes "a/b";
  payload = n ∷ [];
  qos = 1;
  retain = false;
  timestamp = 1;
  expiry_time = expiry;
}

abbrev will_after : ℕ → WillMessage
will_after delay = record {
  topic = codes "gone";
  payload = 7 ∷ [];
  qos = 0;
  retain = false;
  delay_interval = delay;
}

abbrev session : Bool → Bool → List QueuedMessage → Option WillMessage → PersistentSession
session clean connected messages will = record {
  client_id = codes "c";
  clean_session = clean;
  connected = connected;
  created_at = 1;
  last_activity = 1;
  expiry_interval = 1000;
  subscriptions = (codes "a/#", 1) ∷ [];
  packet_id_counter = 65535;
  inflight_qos1 = [];
  inflight_qos2 = [];
  message_queue = messages;
  will_message = will;
}

abbrev other_session : PersistentSession
other_session = record (session false true [] none) { client_id = codes "d" }

abbrev manager : ℕ → PersistentSession → SessionManager
manager maximum s = record {
  store = record { entries = [] };
  config = defaults maximum;
  active_sessions = (codes "d", other_session) ∷ (codes "c", s) ∷ [];
  will_manager = record { timers = []; published = [] };
  closed = false;
}

lookup-manager :
    (maximum : ℕ) (s : PersistentSession)
    → lookup (codes "c") (manager maximum s).active_sessions ≡ some s
unfolding lookup
lookup-manager maximum s = refl

abbrev offline : PersistentSession
offline = session false false (note 1 none ∷ note 2 none ∷ []) none

abbrev online : Option WillMessage → PersistentSession
online will = session false true (note 1 none ∷ note 2 (some 5) ∷ note 3 none ∷ []) will

queue_message-newest_example :
    (m' : SessionManager) × (s' : PersistentSession) × (queue_message 9
        (codes "c")
        (codes "a/b")
        (3 ∷ [])
        1
        false
        (manager 2 offline)
      ≡ ok m')
    × (s' ≡ record offline {
      message_queue = newest 2 (
          offline.message_queue
          ++ queued_message 9 (defaults 2) (codes "a/b") (3 ∷ []) 1 false ∷ []);
    })
    × (lookup (codes "c") m'.active_sessions ≡ some s')
    × (load_session (codes "c") m' ≡ some s')
    × ((other : Text)
        → text_eq (codes "c") other ≡ false
        → lookup other m'.active_sessions ≡ lookup other (manager 2 offline).active_sessions)
queue_message-newest_example =
    queue_message-newest 9 (codes "c") (codes "a/b") (3 ∷ []) 1 false (manager 2 offline) offline
      (lookup-manager 2 offline) refl refl refl (omega arith) (omega arith)

next_packet_id_bounds_example :
    (id : ℕ) × (m' : SessionManager) × (next_packet_id (codes "c") (manager 2 offline)
      ≡ ok (id, m'))
    × (0 < id)
    × (id < 65536)
    × (id ≢ 65535)
    × (lookup (codes "c") m'.active_sessions ≡ some (record offline { packet_id_counter = id }))
next_packet_id_bounds_example =
    next_packet_id_bounds (codes "c") (manager 2 offline) offline (lookup-manager 2 offline)
      (omega arith)

graceful_disconnect_example :
    (m' : SessionManager) × (disconnect 9
        (codes "c")
        true
        (manager 2 (online (some (will_after 0))))
      ≡ ok m')
    × (m'.will_manager.published ≡ [])
    × (scheduled (codes "c") m'.will_manager.timers ≡ false)
graceful_disconnect_example =
    graceful_disconnect 9 (codes "c") (manager 2 (online (some (will_after 0))))
      (online (some (will_after 0))) (lookup-manager 2 (online (some (will_after 0))))

abbrev asked : List (ℕ × (Text × Request))
asked =
    (1, (codes "c", connect false 0))
    ∷ (2, (codes "c", add (codes "a/#") 1))
    ∷ (3, (codes "d", next_id))
    ∷ (4, (codes "c", leave false))
    ∷ (5, (codes "c", queue (codes "a/b") (1 ∷ []) 1 false))
    ∷ (6, (codes "c", queue (codes "a/b") (2 ∷ []) 1 false))
    ∷ []
