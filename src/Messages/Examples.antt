-- ===== src/Messages/Examples.antt =====
-- The theorems on pkg/storage/messages at a backend with one retained message and one stream.
use emqx_go.Base.{ℕ, true, [], ◌∷◌, none, codes}
use emqx_go.Base.Map.{text_has_eq}
use emqx_go.Messages.Backend.{Message, MemoryBackend}

abbrev message : ℕ → Message
message time = record {
  id = codes "m";
  topic = codes "a/b";
  payload = time ∷ [];
  qos = 1;
  retained = true;
  timestamp = time;
  headers = [];
  expiry_time = none;
  client_id = codes "c";
  stream_id = codes "s";
  sequence_no = 1;
}

abbrev backend : ℕ → MemoryBackend
backend days = record {
  streams = (codes "s", message 3 ∷ message 9 ∷ []) ∷ [];
  stream_meta = [];
  retained = (codes "a/b", message 3) ∷ (codes "a/c", message 4) ∷ [];
  subscriptions = [];
  sub_counter = 0;
  retention_days = days;
}
