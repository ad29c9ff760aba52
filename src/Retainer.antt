-- ===== src/Retainer.antt =====
-- Retainer of pkg/retainer/retainer.go over the memory backend of pkg/storage/messages. Each method is
-- one step and is handed the time; the id of a new message is handed over too. Only positive limits of
-- the configuration count, so a negative number stands as 0.
pub mod Answers
pub mod Limit
mod Examples
use emqx_go.Base.{
  ℕ, ◌+◌, Bool, true, false, not, ◌&&◌, List, [], ◌∷◌, ◌++◌, Option, none, some, if◌then◌else◌, ltb,
  leb, length, Text, codes, Outcome, ok, err, panic,
}
use emqx_go.Base.Map.{Map}
use emqx_go.Messages.Backend
use emqx_go.Messages.Backend.{Message, MemoryBackend}

pub record RetainedMessage : Type 0 where
  pub topic : Text
  pub payload : List ℕ
  pub qos : ℕ
  pub timestamp : ℕ
  pub expiry_time : Option ℕ
  pub client_id : Text
  pub headers : Map Text Text

pub record Config : Type 0 where
  pub message_expiry_interval : ℕ
  pub max_payload_size : ℕ
  pub stop_publish_clear_msg : Bool
  pub max_retained_messages : ℕ
  pub cleanup_interval : ℕ

pub record Retainer : Type 0 where
  pub storage : MemoryBackend
  pub config : Config

pub data RetainerError : Type 0 where
  payload_too_large limit_reached : RetainerError

abbrev pub with_storage : Retainer → MemoryBackend → Retainer
with_storage r mb = record r { storage = mb }

unfoldable pub retained_message : ℕ → Text → Config → Text → List ℕ → ℕ → Text → Message
retained_message now id config topic payload qos client = record {
  id = id;
  topic = topic;
  payload = payload;
  qos = qos;
  retained = true;
  timestamp = now;
  headers = [];
  expiry_time =
      if ltb 0 config.message_expiry_interval
      then some (now + config.message_expiry_interval)
      else none;
  client_id = client;
  stream_id = [];
  sequence_no = 0;
}

unfoldable pub store_retained :
    ℕ → Text → Text → List ℕ → ℕ → Text → Retainer → Outcome RetainerError Retainer
unfolding Backend.store_retained Backend.delete_retained Backend.stats retained_message
store_retained now id topic payload qos client r =
    if ltb 0 r.config.max_payload_size && ltb r.config.max_payload_size (length payload)
    then err payload_too_large
    else if leb (length payload) 0
    then ok (with_storage r (Backend.delete_retained topic r.storage))
    else if ltb 0 r.config.max_retained_messages
        && leb r.config.max_retained_messages (Backend.stats r.storage).retained_messages
    then err limit_reached
    else ok (
        with_storage r (
          Backend.store_retained topic (retained_message now id r.config topic payload qos client)
            r.storage))

-- msg.ExpiryTime != nil && now.After(*msg.ExpiryTime)
unfoldable pub is_expired : ℕ → Option ℕ → Bool
is_expired now none = false
is_expired now (some t) = ltb t now

unfoldable pub to_retained : Message → RetainedMessage
to_retained msg = record {
  topic = msg.topic;
  payload = msg.payload;
  qos = msg.qos;
  timestamp = msg.timestamp;
  expiry_time = msg.expiry_time;
  client_id = msg.client_id;
  headers = msg.headers;
}

-- The loop of GetRetainedMessages.
unfoldable pub unexpired : ℕ → List Message → List RetainedMessage
unfolding is_expired to_retained
unexpired now [] = []
unexpired now (msg ∷ msgs) =
    let rest = unexpired now msgs in
    if is_expired now msg.expiry_time then rest else to_retained msg ∷ rest

unfoldable pub get_retained_messages : ℕ → Text → Retainer → List RetainedMessage
unfolding unexpired Backend.get_retained
get_retained_messages now topic_filter r =
    unexpired now (Backend.get_retained topic_filter r.storage)

unfoldable pub delete_retained : Text → Retainer → Retainer
unfolding Backend.delete_retained
delete_retained topic r = with_storage r (Backend.delete_retained topic r.storage)

-- The loop of cleanupExpiredMessages.
unfoldable pub cleanup_loop : ℕ → List Message → MemoryBackend → MemoryBackend
unfolding is_expired Backend.delete_retained
cleanup_loop now [] mb = mb
cleanup_loop now (msg ∷ msgs) mb =
    cleanup_loop now msgs
      (if is_expired now msg.expiry_time then Backend.delete_retained msg.topic mb else mb)

unfoldable pub cleanup_expired_messages : ℕ → Retainer → Retainer
unfolding cleanup_loop Backend.get_retained
cleanup_expired_messages now r =
    with_storage r (cleanup_loop now (Backend.get_retained (codes "#") r.storage) r.storage)
