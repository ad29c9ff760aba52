-- ===== src/Broker/Examples.antt =====
-- The theorems on pkg/broker at a broker with one client, which is subscribed to one topic.
use emqx_go.Base.{
  sym, ◌∙◌, ap, has_prefix, contains, contains_any, split, ℕ, ◌≡◌, ◌≢◌, ◌++◌, refl, inl, In, Bool,
  true, false, List, [], ◌∷◌, Option, none, some, if◌then◌else◌, codes, arith,
}
use emqx_go.Base.Map.{lookup, text_has_eq}
use emqx_go.Topic.Filter.{matches_topic_filter, filter_loop}
use emqx_go.Topic.Store.{
  Subscription, Store, shared_subscribers, plain_subscribers, get_subscribers, has_mailbox,
}
use emqx_go.Topic.Wildcards.{topic_matches}
use emqx_go.Topic.Store.Groups.{IsValid}
use emqx_go.Session.Actor.{Message}
use emqx_go.Retainer.{RetainedMessage, get_retained_messages}
use emqx_go.Persistent.Types.{WillMessage}
use emqx_go.Broker.State.{Broker, done}
use emqx_go.Broker.Route.{Routed, plain, message_at, effective_qos, route_with_request_response}
use emqx_go.Broker.Mailboxes.{Mailboxes, new_mailbox, has_room, send_each, grown}
use emqx_go.Broker.Fanout.{highest, route-sent_to, route-waits}
use emqx_go.Broker.Connection.{
  write_packet, connack, suback, reply, reply_codes, Filter, post_ack, send_retained, Handled,
  denied,
}
use emqx_go.Broker.Publish.{PublishIn, is_malicious, violation, routed_of, handle_publish}
use emqx_go.Broker.Admitted.{IsPublishable, handle_publish-tasks}
use emqx_go.Broker.Subscribe.{refusal, handle_subscribe}
use emqx_go.Broker.Granted.{grant_all, codes_of, handle_subscribe-codes}
use emqx_go.Broker.Sessions.{connection_lost}
use emqx_go.Broker.Takeover.{remains, connection_lost-done}
use emqx_go.Broker.WillLock.{connection_lost-Hangs}
use emqx_go.Auth.{AuthChain}
use emqx_go.Broker.Connect.{ConnectIn, Client, Connecting, refused, connected, handle_connect}
use emqx_go.Broker.Connected.{Admitted, handle_connect-Admitted}
use emqx_go.Broker.Loop.{connect, publish, Read, packet, Setting, handle_connection}
use emqx_go.Broker.Protocol.{LetIn, handle_connection-LetIn}
use emqx_go.Broker.Samples.{will, session, broker, no_subscribing}

topics-IsValid : IsValid (broker none).topics
topics-IsValid = tt

abbrev note : Routed
note = plain (codes "a/b") (9 ∷ []) 2

-- Empty mailboxes of the size that the broker gives them.
abbrev empty_mailboxes : Mailboxes
empty_mailboxes k = new_mailbox 100

empty-has_room : (k : ℕ) → has_room (empty_mailboxes k) ≡ true
unfolding new_mailbox
empty-has_room k = refl

route-sent_to_example :
    (subs : List Subscription) × (b' : Broker) × (new : List (ℕ × Message)) × (mbs' : Mailboxes)
    × (get_subscribers (codes "a/b") (broker none).topics ≡ some (subs, b'.topics))
    × (route_with_request_response note (broker none) ≡ some b')
    × (b'.sent ≡ [] ++ new)
    × (send_each new empty_mailboxes ≡ some mbs')
    × (mbs' 1
        ≡ grown
            (if has_mailbox 1 subs
              then message_at note (effective_qos 2 (highest 1 subs)) ∷ []
              else [])
            (empty_mailboxes 1))
route-sent_to_example =
    route-sent_to note 1 (broker none) empty_mailboxes topics-IsValid
      (λ subs s k found reached. empty-has_room k)

abbrev full_mailboxes : Mailboxes
full_mailboxes k = record { size = 1; messages = message_at note 1 ∷ [] }

no_room : has_room (full_mailboxes 1) ≡ false
no_room = refl

abbrev reached : List Subscription
reached = record { mailbox = 1; qos = 1 } ∷ []

found : get_subscribers (codes "a/b") (broker none).topics ≡ some (reached, (broker none).topics)
unfolding get_subscribers shared_subscribers plain_subscribers matches_topic_filter filter_loop
    split
found = refl

route-waits_example :
    (b' : Broker) × (new : List (ℕ × Message)) × (route_with_request_response note (broker none)
      ≡ some b')
    × (b'.sent ≡ [] ++ new)
    × (send_each new full_mailboxes ≡ none)
route-waits_example =
    route-waits note 1 reached (broker none).topics (broker none) full_mailboxes found refl no_room

registered : lookup (codes "c") (broker none).sessions ≡ some 1
unfolding lookup
registered = refl

active :
    (w : Option WillMessage)
    → lookup (codes "c") (broker w).persistent_sessions.active_sessions ≡ some (session w)
unfolding lookup
active w = refl

connection_lost-done_example :
    (b' : Broker) × (connection_lost 5 (codes "m") (codes "c") (broker none) ≡ done b')
    × (lookup (codes "c") b'.sessions ≡ none)
    × (lookup (codes "c") b'.persistent_sessions.active_sessions ≡ remains 5 (session none))
    × ((subs : List Subscription) × (t : Store) × (get_subscribers (codes "a/b") b'.topics
          ≡ some (subs, t))
        × (has_mailbox 1 subs ≡ false))
connection_lost-done_example =
    connection_lost-done 5 (codes "m") (codes "c") (session none) 1 (codes "a/b") (broker none)
      topics-IsValid registered (active none) refl

connection_lost-Hangs_example :
    connection_lost 5 (codes "m") (codes "c") (broker (some will)) ≢ done (broker none)
connection_lost-Hangs_example =
    connection_lost-Hangs 5 (codes "m") (codes "c") (session (some will)) will (broker (some will))
      (active (some will)) refl refl (broker none)

abbrev publication : PublishIn
publication = record {
  topic_name = codes "a/b";
  payload = 9 ∷ [];
  qos = 1;
  dup = false;
  retain = false;
  packet_id = 4;
  topic_alias_flag = false;
  topic_alias = 0;
  user = [];
  response_topic = [];
  correlation_data = [];
}

abbrev repeated : PublishIn
repeated = record publication { payload = 8 ∷ [] }

published :
    In
      (post_ack (codes "c") (routed_of publication (codes "a/b")) false)
      (handle_publish no_subscribing [] 5 true (codes "c") publication (broker none)).tasks
unfolding handle_publish violation contains contains_any write_packet lookup
published = inl refl

handle_publish-tasks_example :
    (post_ack (codes "c") (routed_of publication (codes "a/b")) false
      ≡ post_ack (codes "c") (routed_of publication (codes "a/b")) false)
    × IsPublishable publication
    × (no_subscribing.publish_access (codes "c") [] [] (codes "a/b") ≢ denied)
handle_publish-tasks_example =
    handle_publish-tasks no_subscribing [] 5 true (codes "c") publication (broker none)
      (post_ack (codes "c") (routed_of publication (codes "a/b")) false) published

abbrev twice : Handled
twice =
    handle_publish no_subscribing [] 9 true (codes "c") publication
      (handle_publish no_subscribing [] 5 true (codes "c") publication (broker none)).broker

abbrev a_b : Filter
a_b = record { filter = codes "a/b"; qos = 1 }

is_refused : refusal no_subscribing [] (codes "c") a_b ≡ some 0x87
unfolding refusal contains contains_any is_malicious
is_refused = refl

handle_subscribe-codes_example :
    handle_subscribe no_subscribing [] 5 true 1 (codes "c") 4 (a_b ∷ []) false (broker none)
    ≡ record {
      broker = grant_all no_subscribing [] 5 1 (codes "c") (a_b ∷ []) (broker none);
      written = reply_codes suback 4 (codes_of no_subscribing [] 5 1 (codes "c") (a_b ∷ [])) ∷ [];
      is_open = true;
      tasks = send_retained 1 (a_b ∷ []) ∷ [];
    }
handle_subscribe-codes_example =
    handle_subscribe-codes no_subscribing [] 5 1 (codes "c") 4 a_b [] false (broker none)
      (omega arith)

abbrev kept_for_a_b : RetainedMessage
kept_for_a_b = record {
  topic = codes "a/b";
  payload = 7 ∷ [];
  qos = 1;
  timestamp = 3;
  expiry_time = none;
  client_id = codes "d";
  headers = [];
}

is_kept : In kept_for_a_b (get_retained_messages 6 (codes "a/b") (broker none).retainer)
unfolding get_retained_messages topic_matches split
is_kept = inl refl

abbrev greeting : ConnectIn
greeting = record {
  client_identifier = codes "d";
  clean = true;
  keepalive = 60;
  username_flag = false;
  username = [];
  password_flag = false;
  password = [];
  will_flag = false;
  will_topic = [];
  will_payload = [];
  will_qos = 0;
  will_retain = false;
}

abbrev open_chain : AuthChain
open_chain = record { authenticators = []; enabled = true }

abbrev newcomer : Client
newcomer = record { client_id = codes "d"; mailbox = 2; keep_alive = 60000000000 }

abbrev broker_of : Connecting → Broker
broker_of (refused written) = broker none
broker_of (connected client b written tasks) = b

abbrev welcomed : Connecting
welcomed = handle_connect no_subscribing open_chain [] [] 5 true greeting (broker none)

is_connected : welcomed ≡ connected newcomer (broker_of welcomed) (reply connack 0 0 ∷ []) []
unfolding handle_connect has_prefix write_packet lookup
is_connected = refl

handle_connect-Admitted_example :
    Admitted no_subscribing open_chain [] (codes "d") greeting
    × (codes "d" ≡ codes "d")
    × (lookup (codes "d") (broker_of welcomed).sessions ≡ some 2)
    × (reply connack 0 0 ∷ [] ≡ reply connack 0 0 ∷ [])
handle_connect-Admitted_example =
    handle_connect-Admitted no_subscribing open_chain [] [] 5 true greeting (broker none) newcomer
      (broker_of welcomed) (reply connack 0 0 ∷ []) [] is_connected

abbrev setting : Setting
setting = record {
  access = no_subscribing;
  auth_chain = open_chain;
  ip = [];
  generated_id = codes "auto";
  message_id = codes "m";
}

abbrev reads : List (ℕ × (Bool × Read))
reads = (5, (true, packet (connect greeting))) ∷ (6, (true, packet (publish publication))) ∷ []

next_mailbox_after : (handle_connection setting reads none (broker none)).broker.next_mailbox ≡ 3
unfolding handle_connection has_prefix write_packet lookup handle_connect handle_publish contains
    contains_any
next_mailbox_after = refl

is_changed : (handle_connection setting reads none (broker none)).broker ≢ broker none
is_changed e =
    let n : 3 ≡ 2 = sym next_mailbox_after ∙ ap (λ (b : Broker). b.next_mailbox) e in
    absurd (omega (arith, n))

handle_connection-LetIn_example :
    LetIn setting reads (handle_connection setting reads none (broker none)).written
handle_connection-LetIn_example = handle_connection-LetIn setting reads (broker none) is_changed
