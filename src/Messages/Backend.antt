-- ===== src/Messages/Backend.antt =====
-- MemoryBackend of pkg/storage/messages/memory_backend.go, over the types of storage.go. Each method is
-- one step. Times are nanoseconds and 0 is the zero time; the bytes of BackendConfig, the options of a
-- subscription and the log are left out.
use emqx_go.Base.{
  ◌-◌, ℕ, ◌+◌, ◌%◌, ◌^◌, Bool, true, false, not, ◌&&◌, List, [], ◌∷◌, ◌++◌, Option, none, some,
  if◌then◌else◌, ltb, leb, ◌==◌, length, drop, take, filter, Text, text_eq, Outcome, ok, err,
}
use emqx_go.Base.Map.{Map, lookup, insert, delete, text_has_eq, nat_has_eq}
use emqx_go.Topic.Wildcards.{topic_matches}

pub record Message : Type 0 where
  pub id : Text
  pub topic : Text
  pub payload : List ℕ
  pub qos : ℕ
  pub retained : Bool
  pub timestamp : ℕ
  pub headers : Map Text Text
  pub expiry_time : Option ℕ
  pub client_id : Text
  pub stream_id : Text
  pub sequence_no : ℕ

pub record StreamInfo : Type 0 where
  pub id : Text
  pub topic : Text
  pub start_time : ℕ
  pub end_time : ℕ
  pub message_count : ℕ
  pub size_bytes : ℕ

pub record StorageStats : Type 0 where
  pub total_messages : ℕ
  pub total_streams : ℕ
  pub retained_messages : ℕ
  pub storage_size : ℕ

-- The buffered channel of a subscription is the list of the batches that wait in it.
pub record MemorySubscription : Type 0 where
  pub stream_id : Text
  pub msg_chan : List (List Message)
  pub closed : Bool

-- A subscription id is the counter that its name ends in.
pub record MemoryBackend : Type 0 where
  pub streams : Map Text (List Message)
  pub stream_meta : Map Text StreamInfo
  pub retained : Map Text Message
  pub subscriptions : Map ℕ MemorySubscription
  pub sub_counter : ℕ
  pub retention_days : ℕ

unfoldable pub new_memory_backend : ℕ → MemoryBackend
new_memory_backend days = record {
  streams = [];
  stream_meta = [];
  retained = [];
  subscriptions = [];
  sub_counter = 0;
  retention_days = days;
}

abbrev pub is_nil {ℓ} : {A : Type ℓ} → List A → Bool
is_nil [] = true
is_nil (x ∷ xs) = false

-- One round of the loop of AppendMessages, on the stream so far and its metadata.
unfoldable pub stamp : ℕ → Text → ℕ → List Message → Message → Message
stamp now stream i so_far msg = record msg {
  stream_id = stream;
  sequence_no = length so_far + i + 1;
  timestamp = if msg.timestamp == 0 then now else msg.timestamp;
}

unfoldable pub count_in : StreamInfo → Message → StreamInfo
count_in meta msg = record meta {
  topic = if is_nil meta.topic then msg.topic else meta.topic;
  end_time = msg.timestamp;
  message_count = (meta.message_count + 1) % 2 ^ 64;
  size_bytes = (meta.size_bytes + length msg.payload) % 2 ^ 64;
}

unfoldable pub append_loop :
    ℕ → Text → ℕ → List Message → List Message → StreamInfo → List Message × StreamInfo
unfolding stamp count_in
append_loop now stream i [] so_far meta = (so_far, meta)
append_loop now stream i (msg ∷ msgs) so_far meta =
    let msg' = stamp now stream i so_far msg in
    append_loop now stream (i + 1) msgs (so_far ++ msg' ∷ []) (count_in meta msg')

-- The select of notifySubscriptions: a batch is dropped when the buffer of ten is full.
unfoldable pub notify : Text → List Message → Map ℕ MemorySubscription → Map ℕ MemorySubscription
notify stream batch [] = []
notify stream batch ((id, sub) ∷ subs) =
    let rest = notify stream batch subs in
    let room = text_eq sub.stream_id stream && (not sub.closed && ltb (length sub.msg_chan) 10) in
    (id, if room then record sub { msg_chan = sub.msg_chan ++ batch ∷ [] } else sub) ∷ rest

-- The loop that looks for the first message to keep; without one the index stays 0.
unfoldable pub first_after : ℕ → ℕ → List Message → ℕ
first_after cutoff i [] = 0
first_after cutoff i (msg ∷ msgs) =
    let rest = first_after cutoff (i + 1) msgs in if ltb cutoff msg.timestamp then i else rest

abbrev pub or_empty : Option (List Message) → List Message
or_empty none = []
or_empty (some msgs) = msgs

abbrev pub recount : Text → ℕ → Map Text StreamInfo → Map Text StreamInfo
recount stream n metas = elim (lookup stream metas) [
  | none ↦ metas
  | some meta ↦ insert stream (record meta { message_count = n }) metas
]

-- `cutoff` is the time that many days before now, which package time computes.
unfoldable pub apply_retention : ℕ → Text → MemoryBackend → MemoryBackend
unfolding first_after
apply_retention cutoff stream mb =
    let msgs = or_empty (lookup stream mb.streams) in
    let keep_from = first_after cutoff 0 msgs in
    if leb mb.retention_days 0
    then mb
    else if ltb 0 keep_from
    then record mb {
      streams = insert stream (drop keep_from msgs) mb.streams;
      stream_meta = recount stream (length (drop keep_from msgs)) mb.stream_meta;
    }
    else mb

-- The metadata: fresh if there is no such stream.
abbrev pub meta_for : ℕ → Text → Option (List Message) → Option StreamInfo → StreamInfo
meta_for now stream (some msgs) (some meta) = meta
meta_for now stream _ _ = record {
  id = stream;
  topic = [];
  start_time = now;
  end_time = 0;
  message_count = 0;
  size_bytes = 0;
}

unfoldable pub append_messages : ℕ → ℕ → Text → List Message → MemoryBackend → MemoryBackend
unfolding append_loop notify apply_retention
append_messages now cutoff stream msgs mb =
    let (stream', meta) =
      append_loop now stream 0 msgs (or_empty (lookup stream mb.streams))
        (meta_for now stream (lookup stream mb.streams) (lookup stream mb.stream_meta)) in
    apply_retention cutoff stream (record mb {
      streams = insert stream stream' mb.streams;
      stream_meta = insert stream meta mb.stream_meta;
      subscriptions = notify stream msgs mb.subscriptions;
    })

-- Subscribe, with the id of the new subscription.
unfoldable pub subscribe_stream : Text → MemoryBackend → ℕ × MemoryBackend
subscribe_stream stream mb =
    let n = (mb.sub_counter + 1) % 2 ^ 64 in
    (
      n,
      record mb {
        sub_counter = n;
        subscriptions =
            insert n (record { stream_id = stream; msg_chan = []; closed = false })
              mb.subscriptions;
      },
    )

abbrev close_all : Map ℕ MemorySubscription → Map ℕ MemorySubscription
close_all [] = []
close_all ((id, sub) ∷ subs) = (id, record sub { closed = true }) ∷ close_all subs

unfoldable pub close_backend : MemoryBackend → MemoryBackend
close_backend mb = record mb { subscriptions = close_all mb.subscriptions }

unfoldable pub store_retained : Text → Message → MemoryBackend → MemoryBackend
store_retained topic msg mb =
    if is_nil msg.payload
    then record mb { retained = delete topic mb.retained }
    else record mb { retained = insert topic (record msg { retained = true }) mb.retained }

-- The range of GetRetained.
unfoldable pub matching : Text → Map Text Message → List Message
matching topic_filter [] = []
matching topic_filter ((topic, msg) ∷ m) =
    let rest = matching topic_filter m in
    if topic_matches topic topic_filter then msg ∷ rest else rest

unfoldable pub get_retained : Text → MemoryBackend → List Message
unfolding matching
get_retained topic_filter mb = matching topic_filter mb.retained

unfoldable pub delete_retained : Text → MemoryBackend → MemoryBackend
delete_retained topic mb = record mb { retained = delete topic mb.retained }

abbrev pub total : (StreamInfo → ℕ) → Map Text StreamInfo → ℕ
total f [] = 0
total f ((stream, meta) ∷ m) = f meta + total f m

unfoldable pub stats : MemoryBackend → StorageStats
stats mb = record {
  total_messages = total (λ meta. meta.message_count) mb.stream_meta % 2 ^ 64;
  total_streams = length mb.streams;
  retained_messages = length mb.retained;
  storage_size = total (λ meta. meta.size_bytes) mb.stream_meta % 2 ^ 64;
}

-- The first range of a tick of cleanupRoutine.
unfoldable pub drop_expired : ℕ → Map Text Message → Map Text Message
drop_expired now [] = []
drop_expired now ((topic, msg) ∷ m) =
    let rest = drop_expired now m in
    elim msg.expiry_time [
      | none ↦ (topic, msg) ∷ rest
      | some t ↦ if ltb t now then rest else (topic, msg) ∷ rest
    ]

-- memoryIterator
pub record MemoryIterator : Type 0 where
  pub messages : List Message
  pub position : ℕ
  pub closed : Bool

unfoldable pub iterable : Text → ℕ → List Message → List Message
iterable topic_filter start msgs =
    filter (λ msg. topic_matches msg.topic topic_filter && ltb start msg.timestamp) msgs

unfoldable pub create_iterator : Text → Text → ℕ → MemoryBackend → MemoryIterator
unfolding iterable
create_iterator stream topic_filter start mb = record {
  messages = iterable topic_filter start (or_empty (lookup stream mb.streams));
  position = 0;
  closed = false;
}

pub data IteratorError : Type 0 where
  iterator_closed : IteratorError

abbrev pub min : ℕ → ℕ → ℕ
min a b = if ltb b a then b else a

-- Next with a limit of 0 or more.
unfoldable pub next : ℕ → MemoryIterator → Outcome IteratorError (List Message × MemoryIterator)
next limit mi =
    let stop = min (mi.position + limit) (length mi.messages) in
    if mi.closed
    then err iterator_closed
    else if leb (length mi.messages) mi.position
    then ok ([], mi)
    else ok
        (take (stop - mi.position) (drop mi.position mi.messages), record mi { position = stop })

unfoldable pub has_more : MemoryIterator → Bool
has_more mi = not mi.closed && ltb mi.position (length mi.messages)
