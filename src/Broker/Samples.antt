-- ===== src/Broker/Samples.antt =====
-- A broker of pkg/broker with one client, which is subscribed to one topic, for the examples.
use emqx_go.Base.{true, false, [], ◌∷◌, Option, none, codes}
use emqx_go.Base.Map.{text_has_eq}
use emqx_go.Messages.Backend
use emqx_go.Persistent.Types.{PersistentSession, WillMessage}
use emqx_go.Broker.State.{Broker}
use emqx_go.Broker.Connection.{allowed, denied, AccessControl}

abbrev pub will : WillMessage
will = record {
  topic = codes "gone";
  payload = 7 ∷ [];
  qos = 0;
  retain = false;
  delay_interval = 0;
}

abbrev pub session : Option WillMessage → PersistentSession
session w = record {
  client_id = codes "c";
  clean_session = false;
  connected = true;
  created_at = 1;
  last_activity = 1;
  expiry_interval = 100;
  subscriptions = (codes "a/b", 1) ∷ [];
  packet_id_counter = 0;
  inflight_qos1 = [];
  inflight_qos2 = [];
  message_queue = [];
  will_message = w;
}

abbrev pub retained : Backend.Message
retained = record {
  id = codes "m";
  topic = codes "a/b";
  payload = 7 ∷ [];
  qos = 1;
  retained = true;
  timestamp = 3;
  headers = [];
  expiry_time = none;
  client_id = codes "d";
  stream_id = [];
  sequence_no = 0;
}

abbrev pub broker : Option WillMessage → Broker
broker w = record {
  topics = record {
    subscriptions = (codes "a/b", record { mailbox = 1; qos = 1 } ∷ []) ∷ [];
    shared_subscriptions = [];
  };
  sessions = (codes "c", 1) ∷ [];
  next_mailbox = 2;
  sent = [];
  retainer = record {
    storage = record {
      streams = [];
      stream_meta = [];
      retained = (codes "a/b", retained) ∷ [];
      subscriptions = [];
      sub_counter = 0;
      retention_days = 0;
    };
    config = record {
      message_expiry_interval = 0;
      max_payload_size = 0;
      stop_publish_clear_msg = true;
      max_retained_messages = 0;
      cleanup_interval = 60;
    };
  };
  persistent_sessions = record {
    store = record { entries = [] };
    config = record {
      max_offline_messages = 10;
      message_expiry_interval = 100;
      default_session_expiry = 1000;
      retry_interval = 10;
      max_retry_attempts = 3;
      cleanup_interval = 60;
      max_inflight_messages = 5;
    };
    active_sessions = (codes "c", session w) ∷ [];
    will_manager = record { timers = []; published = [] };
    closed = false;
  };
  delivery_callbacks = codes "c" ∷ [];
  topic_alias_managers = [];
  processed_qos1 = [];
}

abbrev pub no_subscribing : AccessControl
no_subscribing = record {
  client_connection = λ client user ip. allowed;
  publish_access = λ client user ip topic. allowed;
  subscribe_access = λ client user ip filter. denied;
}
