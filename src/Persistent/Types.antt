-- ===== src/Persistent/Types.antt =====
-- The data of pkg/persistent. Times and durations are nanoseconds. The Headers of the messages are
-- never set by the package and are left out; so is the mutex.
use emqx_go.Base.{ℕ, Bool, List, Option, Text}
use emqx_go.Base.Map.{Map}

pub record InflightMessage : Type 0 where
  pub packet_id : ℕ
  pub topic : Text
  pub payload : List ℕ
  pub qos : ℕ
  pub retain : Bool
  pub timestamp : ℕ
  pub retry_count : ℕ

pub record QueuedMessage : Type 0 where
  pub topic : Text
  pub payload : List ℕ
  pub qos : ℕ
  pub retain : Bool
  pub timestamp : ℕ
  pub expiry_time : Option ℕ

pub record WillMessage : Type 0 where
  pub topic : Text
  pub payload : List ℕ
  pub qos : ℕ
  pub retain : Bool
  pub delay_interval : ℕ

pub record PersistentSession : Type 0 where
  pub client_id : Text
  pub clean_session : Bool
  pub connected : Bool
  pub created_at : ℕ
  pub last_activity : ℕ
  pub expiry_interval : ℕ
  pub subscriptions : Map Text ℕ
  pub packet_id_counter : ℕ
  pub inflight_qos1 : Map ℕ InflightMessage
  pub inflight_qos2 : Map ℕ InflightMessage
  pub message_queue : List QueuedMessage
  pub will_message : Option WillMessage

pub record Config : Type 0 where
  pub max_offline_messages : ℕ
  pub message_expiry_interval : ℕ
  pub default_session_expiry : ℕ
  pub retry_interval : ℕ
  pub max_retry_attempts : ℕ
  pub cleanup_interval : ℕ
  pub max_inflight_messages : ℕ

pub data SessionError : Type 0 where
  session_not_found no_delivery_callback not_connected callback_failed : SessionError
