-- ===== src/Persistent/Offline.antt =====
-- OfflineMessageManager of pkg/persistent/offline.go. A delivery callback takes a message, and says
-- whether it succeeded; what it was handed is the list that comes back.
use emqx_go.Base.{
  ℕ, Bool, true, false, not, ◌||◌, List, [], ◌∷◌, none, some, if◌then◌else◌, ltb, Text, Outcome, ok,
  err, panic, ◌>>=◌,
}
use emqx_go.Base.Map.{Map, lookup, text_has_eq}
use emqx_go.Persistent.Types.{
  QueuedMessage, PersistentSession, SessionError, no_delivery_callback, not_connected,
  callback_failed,
}
use emqx_go.Persistent.Manager.{
  SessionManager, load_active, put_active, save_session, save_if, queue_message,
}

abbrev pub Callback : Type 0
Callback = QueuedMessage → Bool

-- msg.ExpiryTime != nil && time.Now().After(*msg.ExpiryTime)
unfoldable pub past_expiry : ℕ → QueuedMessage → Bool
past_expiry now msg = elim msg.expiry_time [ none ↦ false | some t ↦ ltb t now ]

-- The loop of DeliverOfflineMessages: what was handed to the callback, and whether all went well.
unfoldable pub deliver_loop : ℕ → Callback → List QueuedMessage → List QueuedMessage × Bool
unfolding past_expiry
deliver_loop now callback [] = ([], true)
deliver_loop now callback (msg ∷ q) =
    let rest = deliver_loop now callback q in
    if past_expiry now msg
    then rest
    else if callback msg
    then (msg ∷ rest.0, rest.1)
    else (msg ∷ [], false)

-- The outcome, beside what the callback was handed.
unfoldable pub deliver_session :
    ℕ
    → Callback
    → Text
    → PersistentSession
    → SessionManager
    → List QueuedMessage × Outcome SessionError SessionManager
unfolding deliver_loop save_session
deliver_session now callback client s m =
    let (sent, done) = deliver_loop now callback s.message_queue in
    let s' = record s { message_queue = [] } in
    if not s.connected
    then ([], err not_connected)
    else if done
    then (sent, ok (save_if (not s.clean_session) s' (put_active client s' m)))
    else (sent, err callback_failed)

unfoldable pub deliver_offline :
    ℕ
    → Map Text Callback
    → Text
    → SessionManager
    → List QueuedMessage × Outcome SessionError SessionManager
unfolding deliver_session
deliver_offline now callbacks client m = elim (lookup client callbacks) [
  | none ↦ ([], err no_delivery_callback)
  | some callback ↦ elim (load_active client m) [
    | ok s ↦ deliver_session now callback client s m
    | err e ↦ ([], err e)
    | panic ↦ ([], panic)
  ]
]

-- Whether one of the subscriptions matches; the matcher is the argument of the method.
unfoldable pub any_match : (Text → Text → Bool) → Text → Map Text ℕ → Bool
any_match matches topic [] = false
any_match matches topic ((filter, _) ∷ subs) = matches topic filter || any_match matches topic subs

-- Whether the range of QueueMessageForOfflineClients queues the message for a session.
unfoldable pub wants : (Text → Text → Bool) → Text → PersistentSession → Bool
unfolding any_match
wants matches topic s =
    if s.connected
    then false
    else if s.clean_session
    then false
    else any_match matches topic s.subscriptions

-- An error of QueueMessage is logged, and the range goes on; a panic ends it.
abbrev pub go_on :
    SessionManager → Outcome SessionError SessionManager → Outcome SessionError SessionManager
go_on m (ok m') = ok m'
go_on m (err e) = ok m
go_on m panic = panic

unfoldable pub queue_loop :
    ℕ
    → (Text → Text → Bool)
    → Text
    → List ℕ
    → ℕ
    → Bool
    → Map Text PersistentSession
    → SessionManager
    → Outcome SessionError SessionManager
unfolding wants queue_message
queue_loop now matches topic payload qos retain [] m = ok m
queue_loop now matches topic payload qos retain ((client, s) ∷ rest) m = do
  m' ←
      if wants matches topic s
      then go_on m (queue_message now client topic payload qos retain m)
      else ok m
  queue_loop now matches topic payload qos retain rest m'

unfoldable pub queue_for_offline_clients :
    ℕ
    → (Text → Text → Bool)
    → Text
    → List ℕ
    → ℕ
    → Bool
    → SessionManager
    → Outcome SessionError SessionManager
unfolding queue_loop
queue_for_offline_clients now matches topic payload qos retain m =
    queue_loop now matches topic payload qos retain m.active_sessions m
