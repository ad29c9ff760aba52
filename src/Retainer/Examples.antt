-- ===== src/Retainer/Examples.antt =====
-- The theorems on pkg/retainer at a retainer with one message and room for two.
use emqx_go.Base.{
  split, ℕ, ◌≡◌, ◌≤◌, refl, inr, In, true, List, [], ◌∷◌, none, some, if◌then◌else◌, text_eq, codes,
  arith, ok,
}
use emqx_go.Base.Map.{lookup, text_has_eq, IsUnique}
use emqx_go.Topic.Wildcards.{topic_matches}
use emqx_go.Messages.Backend.{Message}
use emqx_go.Retainer.{
  Retainer, Config, retained_message, store_retained, to_retained, get_retained_messages,
}
use emqx_go.Retainer.Answers.{store_retained-get_retained_messages}
use emqx_go.Retainer.Limit.{Call, store, cleanup, calls, count, calls-bound}

abbrev limited : ℕ → Config
limited n = record {
  message_expiry_interval = 100;
  max_payload_size = 10;
  stop_publish_clear_msg = true;
  max_retained_messages = n;
  cleanup_interval = 60;
}

abbrev kept_message : Message
kept_message = record {
  id = codes "m";
  topic = codes "a/b";
  payload = 7 ∷ [];
  qos = 1;
  retained = true;
  timestamp = 3;
  headers = [];
  expiry_time = none;
  client_id = codes "c";
  stream_id = [];
  sequence_no = 0;
}

abbrev retainer : ℕ → Retainer
retainer n = record {
  storage = record {
    streams = [];
    stream_meta = [];
    retained = (codes "a/b", kept_message) ∷ [];
    subscriptions = [];
    sub_counter = 0;
    retention_days = 0;
  };
  config = limited n;
}

topics-IsUnique : IsUnique (retainer 2).storage.retained
unfolding lookup
topics-IsUnique = (refl, tt)

x_matches : topic_matches (codes "x/y") (codes "x/+") ≡ true
unfolding topic_matches split
x_matches = refl

store_retained-get_retained_messages_example :
    (r' : Retainer) × (store_retained 10
        (codes "n")
        (codes "x/y")
        (8 ∷ [])
        1
        (codes "d")
        (retainer 2)
      ≡ ok r')
    × In
        (to_retained
          (retained_message 10 (codes "n") (limited 2) (codes "x/y") (8 ∷ []) 1 (codes "d")))
        (get_retained_messages 20 (codes "x/+") r')
    × (lookup (codes "a/b") r'.storage.retained ≡ (
        if text_eq (codes "x/y") (codes "a/b")
        then some (retained_message 10 (codes "n") (limited 2) (codes "x/y") (8 ∷ []) 1 (codes "d"))
        else lookup (codes "a/b") (retainer 2).storage.retained))
store_retained-get_retained_messages_example =
    store_retained-get_retained_messages 10 20 (codes "n") (codes "x/y") (codes "x/+") (codes "a/b")
      (8 ∷ []) 1 (codes "d") (retainer 2) topics-IsUnique (omega arith) refl refl
      (inr (omega arith)) x_matches

abbrev three_calls : List Call
three_calls =
    store 10 (codes "n") (codes "x/y") (8 ∷ []) 1 (codes "d")
    ∷ store 11 (codes "n") (codes "x/z") (9 ∷ []) 1 (codes "d")
    ∷ cleanup 12
    ∷ []

calls-bound_example : count (calls three_calls (retainer 2)) ≤ 2
calls-bound_example = calls-bound three_calls (retainer 2) (omega arith) (omega arith)
