-- ===== src/Lib.antt =====
-- emqx-go, an MQTT broker in Go.
--
-- A connection hands packets to the broker, which asks the topic store for the receivers of a
-- publication and sends each a message; the actor of the receiver's session encodes it and writes
-- it to the connection. What a session keeps while its client is away is in the persistent
-- sessions.
--
-- Base: the names, lists, Go strings, Go maps and outcomes that all parts share. A Go string or
-- byte slice is the list of its bytes, a Go map an association list with no key twice, whose
-- order stands for the order of a range, and a method runs to its end before another starts.
-- Methods that hold a mutex do so in the program; two hold it less: GetSubscribers moves the
-- index of a group under the read lock, and ProcessMessage of the rule engine holds its lock only
-- while it collects the rules. A slice or an index out of range is an outcome of its own, the
-- panic; an error value is another. Integers are naturals with the wrap-around of the width
-- written out.
--
-- Topic: pkg/topic/store.go. Topic/Filter is matchesTopicFilter beside the matching relation of
-- MQTT, with its rule on topics that start with `$` as a relation of its own, Topic/Wildcards the
-- matchers of pkg/storage/messages/memory_backend.go, pkg/retainer/retainer.go and
-- pkg/persistent/offline.go. Topic/Store is Store with Subscribe, Unsubscribe, GetSubscribers and
-- RemoveAllSubscriptions; a mailbox is the number that identifies its pointer. Store/Groups has
-- the invariant of the groups, Store/Calls sequences of calls, Store/Delivery who is reached,
-- Store/Turns and Store/RoundRobin the turns of a group, Store/View the store as a finite map.
--
-- Protocol: pkg/protocol/mqtt/parser.go and types.go. A decoder takes the bytes that are left on
-- the stream, an encoder gives the bytes that it writes; write errors are not modelled. The loop
-- of DecodeSubscribe runs on fuel, one round more than the packet has bytes, which is enough.
--
-- Session: pkg/session/session.go. Session/Length is the variable byte integer, on as much fuel
-- as the number itself, Session/Packet encodePublishPacket, Session/Actor the loop of Start over
-- the messages that arrive and the answers of the connection, Session/Alias assignTopicAlias,
-- Session/Framing and Session/Order what a reader of the connection sees. The packet type of the
-- MQTT library is a record of the fields that Start sets.
--
-- Persistent: pkg/persistent over the memory store of pkg/storage/store.go. Persistent/Manager is
-- SessionManager, Persistent/Offline OfflineMessageManager, Persistent/Will WillMessageManager,
-- whose publisher, an interface there, is the list of what it was handed: what the publisher does
-- with a will, and whether it returns, is the matter of the broker, and Broker/WillLock shows
-- that it does not where the lock of the session is held. Each method is handed the time, and a
-- timer fires as a step of its own. A session in the store is the session itself: json.Marshal
-- and json.Unmarshal are not modelled, so nothing is said of what survives their round trip, and
-- the store never fails. The delivery callback is an argument, a test whether it takes the
-- message. Persistent/Queue, Lifecycle, Wills and Delivery prove what the methods do;
-- Persistent/Bounded, Steps and Requests carry an invariant through any sequence of their calls.
--
-- Messages: pkg/storage/messages. Messages/Backend is the memory backend with the types of
-- storage.go; Messages/Retained is about its retained messages, Messages/Streams about sequence
-- numbers and retention. A method is handed the time, and the cutoff of the retention, which
-- package time computes.
--
-- Retainer: pkg/retainer/retainer.go over that backend. The id of a new message is an argument.
-- Retainer/Answers is about what is stored and found, Retainer/Limit about the limits.
--
-- Auth: pkg/auth, the users in memory and the chain of authenticators. SHA-256 and bcrypt are an
-- interface, Hashes; Auth/Users asks of it that bcrypt accepts a password against its own hash.
-- Auth/Chain says which answer of a chain counts.
--
-- Blacklist: pkg/blacklist. Blacklist/Entries has the data of manager.go, Blacklist/Match how an
-- entry matches, with regexp and net as an interface, Libraries, Blacklist/Manager the methods
-- that change the manager, Blacklist/Check its checks and the record of a block, and
-- Blacklist/Middleware the middleware of middleware.go. The four maps of values and the map of
-- patterns are functions of the type, and what they point at is named by its id.
-- Blacklist/Indexed, Storing and Calls carry the agreement of the indexes through any sequence of
-- calls, Blacklist/Sound is about what a check answers, Blacklist/Blocking and Added about what
-- an addition changes, Blacklist/Refused about the broker behind it.
--
-- Rules: pkg/rules. Rules/Values has the data and what is asked of the standard library,
-- Rules/Conditions the conditions of sql.go and what they evaluate to, Rules/Parse its parser,
-- Rules/Actions the executors of actions.go, whose requests, messages and prints are a list of
-- effects, and Rules/Engine the methods of engine.go. The callback of a republish is code of its
-- caller: the one of the broker routes the message and so calls ProcessMessage again. In
-- process_message a processing that calls it ends as called_back, and nothing is said of it;
-- process_enabled is the loop for a callback that returns without a call of the engine.
-- parseExpression runs on fuel, one more than the clause has bytes, which Rules/Splitting and
-- Rules/Terminates show to be enough. Rules/Evaluation, Stored, Processing and Calls carry an
-- invariant of the rules through any sequence of calls, Rules/Priority is about the sort,
-- Rules/Each about what becomes of each rule, Rules/Negation about NOT, Rules/Accepted about the
-- validation of actions.
--
-- Broker: pkg/broker/broker.go, a broker without a cluster manager, rules, integrations and
-- connectors. Broker/State is its state; the Send calls to the mailboxes are one list, in order.
-- Broker/Mailboxes is the Mailbox of pkg/actor/actor.go, in which a Send waits while the mailbox
-- is full, and says what becomes of a list of Send calls; elsewhere a Send is taken to return.
-- Broker/Connect, Publish, Subscribe, Unsubscribe and Sessions are the cases of handleConnection,
-- Broker/Loop its loop over what is read, Broker/Route the routing to local subscribers,
-- Broker/Alias and Broker/Duplicate the helpers for topic aliases and repeated publications. A
-- handler gives what it writes, whether the connection goes on, and the goroutines that it
-- starts, as tasks (Broker/Connection); a task is run by run_task of Broker/Tasks. A call that
-- waits for a lock that it holds itself ends as blocked. The checks of the blacklist are an
-- interface, AccessControl, which Blacklist/Middleware fills. The time, the ids that are drawn,
-- and whether the connection takes bytes are arguments. Broker/Protocol, Connected, Admitted,
-- Repeat, Granted, Fanout, Takeover and WillLock prove what the handlers do.
--
-- Not modelled: TLS and certificates, clustering and the replicated database, integrations and
-- connectors, the administration interface, the dashboard and the metrics, the tickers that call
-- clean-ups, MessageStorage over the backend, the supervisor and the receiving end of a mailbox,
-- and the decoding of packets by the MQTT library.
pub mod Base
pub mod Topic
pub mod Protocol
pub mod Session
pub mod Persistent
pub mod Messages
pub mod Retainer
pub mod Auth
pub mod Blacklist
pub mod Rules
pub mod Broker
