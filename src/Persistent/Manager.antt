-- ===== src/Persistent/Manager.antt =====
-- SessionManager of pkg/persistent/session.go. Each method is one step, and is handed the time. What
-- the store holds of a session is the session: what json.Marshal and json.Unmarshal make of it is not
-- modelled.
use emqx_go.Base.{
  ◌^◌, ℕ, ◌+◌, ◌-◌, ◌%◌, Bool, true, false, not, ◌&&◌, ◌||◌, List, [], ◌∷◌, ◌++◌, Option, none,
  some, if◌then◌else◌, ltb, leb, ◌==◌, length, filter, Text, codes, Outcome, ok, err, panic, ◌>>=◌,
}
use emqx_go.Base.Map.{Map, lookup, insert, delete, text_has_eq}
use emqx_go.Persistent.KeyValue
use emqx_go.Persistent.KeyValue.{MemStore}
use emqx_go.Persistent.Types.{
  QueuedMessage, WillMessage, PersistentSession, Config, SessionError, session_not_found,
}
use emqx_go.Persistent.Will.{WillMessageManager, publish_will, cancel_will, close_wills}

pub record SessionManager : Type 0 where
  pub store : MemStore PersistentSession
  pub config : Config
  pub active_sessions : Map Text PersistentSession
  pub will_manager : WillMessageManager
  pub closed : Bool

unfoldable pub new_session_manager : MemStore PersistentSession → Config → SessionManager
new_session_manager store config = record {
  store = store;
  config = config;
  active_sessions = [];
  will_manager = record { timers = []; published = [] };
  closed = false;
}

abbrev pub session_key : Text → Text
session_key client = codes "session:" ++ client

-- saveSession and loadSession, but for the JSON form.
unfoldable pub save_session : PersistentSession → SessionManager → SessionManager
unfolding KeyValue.set
save_session s m = record m { store = KeyValue.set (session_key s.client_id) s m.store }

unfoldable pub load_session : Text → SessionManager → Option PersistentSession
unfolding KeyValue.get
load_session client m = elim (KeyValue.get (session_key client) m.store) [
  | ok s ↦ some s
  | err _ ↦ none
  | panic ↦ none
]

unfoldable pub delete_session : Text → SessionManager → SessionManager
unfolding KeyValue.delete_key
delete_session client m = record m { store = KeyValue.delete_key (session_key client) m.store }

-- The pointer in activeSessions, written through.
abbrev pub put_active : Text → PersistentSession → SessionManager → SessionManager
put_active client s m = record m { active_sessions = insert client s m.active_sessions }

abbrev pub save_if : Bool → PersistentSession → SessionManager → SessionManager
save_if true s m = save_session s m
save_if false s m = m

-- A session that is active already.
unfoldable pub resume_active : ℕ → Bool → PersistentSession → PersistentSession
resume_active now clean s =
    if clean
    then record s {
      connected = true;
      last_activity = now;
      clean_session = true;
      subscriptions = [];
      message_queue = [];
      inflight_qos1 = [];
      inflight_qos2 = [];
      will_message = none;
    }
    else record s { connected = true; last_activity = now }

-- A session from the store.
unfoldable pub resume_stored : ℕ → ℕ → PersistentSession → PersistentSession
resume_stored now expiry s = record s {
  connected = true;
  last_activity = now;
  expiry_interval = if ltb 0 expiry then expiry else s.expiry_interval;
}

unfoldable pub fresh_session : ℕ → Text → Bool → ℕ → Config → PersistentSession
fresh_session now client clean expiry config = record {
  client_id = client;
  clean_session = clean;
  connected = true;
  created_at = now;
  last_activity = now;
  expiry_interval = if expiry == 0 then config.default_session_expiry else expiry;
  subscriptions = [];
  packet_id_counter = 1;
  inflight_qos1 = [];
  inflight_qos2 = [];
  message_queue = [];
  will_message = none;
}

unfoldable pub create_session :
    ℕ → Text → Bool → ℕ → SessionManager → PersistentSession × SessionManager
unfolding fresh_session save_session
create_session now client clean expiry m =
    let s = fresh_session now client clean expiry m.config in
    (s, save_if (not clean) s (put_active client s m))

-- The branch behind `if !cleanSession`, on what the store holds.
unfoldable pub resume_or_create :
    ℕ → Text → ℕ → Option PersistentSession → SessionManager → PersistentSession × SessionManager
unfolding resume_stored create_session
resume_or_create now client expiry none m = create_session now client false expiry m
resume_or_create now client expiry (some s) m =
    let s' = resume_stored now expiry s in (s', put_active client s' m)

unfoldable pub create_or_resume :
    ℕ → Text → Bool → ℕ → SessionManager → PersistentSession × SessionManager
unfolding resume_active resume_or_create create_session load_session
create_or_resume now client clean expiry m = elim (lookup client m.active_sessions) [
  | some s ↦ let s' = resume_active now clean s in (s', put_active client s' m)
  | none ↦
      if clean
      then create_session now client true expiry m
      else resume_or_create now client expiry (load_session client m) m
]

abbrev pub Managed : Type 0
Managed = Outcome SessionError SessionManager

abbrev found_active : Option PersistentSession → Outcome SessionError PersistentSession
found_active none = err session_not_found
found_active (some s) = ok s

-- activeSessions.Load, with the error of every method on a missing session.
abbrev pub load_active : Text → SessionManager → Outcome SessionError PersistentSession
load_active client m = found_active (lookup client m.active_sessions)

-- The will at a disconnection.
unfoldable pub end_will :
    ℕ → Text → Bool → Option WillMessage → WillMessageManager → WillMessageManager
unfolding publish_will cancel_will
end_will now client true will w = cancel_will client w
end_will now client false none w = w
end_will now client false (some will) w = publish_will now will client w

-- DisconnectSession, up to what the publisher of a will does while the lock of the session is held:
-- disconnect_session of Broker/Sessions is the call with the publisher of the broker.
unfoldable pub disconnect : ℕ → Text → Bool → SessionManager → Managed
unfolding end_will save_session delete_session
disconnect now client graceful m = do
  s ← load_active client m
  let w = end_will now client graceful s.will_message m.will_manager
  let s' = record s { connected = false; last_activity = now; will_message = none }
  let m' = record m { will_manager = w }
  ok (
      if s.clean_session
      then delete_session client (record m' { active_sessions = delete client m.active_sessions })
      else save_session s' (put_active client s' m'))

unfoldable pub add_subscription : ℕ → Text → Text → ℕ → SessionManager → Managed
unfolding save_session
add_subscription now client topic qos m = do
  s ← load_active client m
  let s' = record s { subscriptions = insert topic qos s.subscriptions; last_activity = now }
  ok (save_if (not s.clean_session) s' (put_active client s' m))

unfoldable pub remove_subscription : ℕ → Text → Text → SessionManager → Managed
unfolding save_session
remove_subscription now client topic m = do
  s ← load_active client m
  let s' = record s { subscriptions = delete topic s.subscriptions; last_activity = now }
  ok (save_if (not s.clean_session) s' (put_active client s' m))

unfoldable pub set_will_message : Text → WillMessage → SessionManager → Managed
set_will_message client will m = do
  s ← load_active client m
  ok (put_active client (record s { will_message = some will }) m)

-- session.MessageQueue[1:], which panics on an empty slice
abbrev pub drop_oldest : List QueuedMessage → Outcome SessionError (List QueuedMessage)
drop_oldest [] = panic
drop_oldest (x ∷ q) = ok q

abbrev pub make_room : ℕ → List QueuedMessage → Outcome SessionError (List QueuedMessage)
make_room limit q = if leb limit (length q) then drop_oldest q else ok q

unfoldable pub queued_message : ℕ → Config → Text → List ℕ → ℕ → Bool → QueuedMessage
queued_message now config topic payload qos retain = record {
  topic = topic;
  payload = payload;
  qos = qos;
  retain = retain;
  timestamp = now;
  expiry_time =
      if ltb 0 config.message_expiry_interval
      then some (now + config.message_expiry_interval)
      else none;
}

unfoldable pub queue_message : ℕ → Text → Text → List ℕ → ℕ → Bool → SessionManager → Managed
unfolding queued_message save_session
queue_message now client topic payload qos retain m = do
  s ← load_active client m
  if s.connected || s.clean_session then ok m else do
    q ← make_room m.config.max_offline_messages s.message_queue
    let msg = queued_message now m.config topic payload qos retain
    let s' = record s { message_queue = q ++ msg ∷ [] }
    ok (save_session s' (put_active client s' m))

-- PacketIDCounter++ on a uint16, with 0 skipped
unfoldable pub next_counter : ℕ → ℕ
next_counter c = let c' = (c + 1) % 2 ^ 16 in if c' == 0 then 1 else c'

unfoldable pub next_packet_id : Text → SessionManager → Outcome SessionError (ℕ × SessionManager)
unfolding next_counter
next_packet_id client m = do
  s ← load_active client m
  let c = next_counter s.packet_id_counter
  ok (c, put_active client (record s { packet_id_counter = c }) m)

-- The range of Close over the active sessions.
unfoldable pub save_all : Map Text PersistentSession → SessionManager → SessionManager
unfolding save_session
save_all [] m = m
save_all ((client, s) ∷ rest) m = save_all rest (save_if (not s.clean_session) s m)

unfoldable pub close : SessionManager → SessionManager
unfolding save_all close_wills
close m =
    if m.closed
    then m
    else save_all m.active_sessions
        (record m { closed = true; will_manager = close_wills m.will_manager })

-- !session.Connected && now.Sub(session.LastActivity) > session.ExpiryInterval
unfoldable pub expired : ℕ → PersistentSession → Bool
expired now s = not s.connected && ltb s.expiry_interval (now - s.last_activity)

-- msg.ExpiryTime == nil || now.Before(*msg.ExpiryTime)
unfoldable pub message_valid : ℕ → QueuedMessage → Bool
message_valid now msg = elim msg.expiry_time [ none ↦ true | some t ↦ ltb now t ]

-- One session of the first loop of cleanupExpiredSessions that is not expired.
unfoldable pub clean_queue : ℕ → Text → PersistentSession → SessionManager → SessionManager
unfolding message_valid save_session
clean_queue now client s m =
    let q = filter (message_valid now) s.message_queue in
    if length q == length s.message_queue
    then m
    else (let s' = record s { message_queue = q } in
        save_if (not s.clean_session) s' (put_active client s' m))

-- With nothing between the loops, the second finds expired what the first did, and removes it.
unfoldable pub cleanup_loop : ℕ → Map Text PersistentSession → SessionManager → SessionManager
unfolding expired clean_queue delete_session
cleanup_loop now [] m = m
cleanup_loop now ((client, s) ∷ rest) m =
    let m' =
      if expired now s
      then delete_session client (record m { active_sessions = delete client m.active_sessions })
      else clean_queue now client s m in
    cleanup_loop now rest m'

unfoldable pub cleanup_expired : ℕ → SessionManager → SessionManager
unfolding cleanup_loop
cleanup_expired now m = cleanup_loop now m.active_sessions m
