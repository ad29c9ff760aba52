-- ===== src/Persistent/Queue.antt =====
-- The offline queue of pkg/persistent/session.go: bounded, and the newest messages in order.
use emqx_go.Base.{
  ◌∙◌, sym, ℕ, suc, ◌-◌, ◌≤◌, ◌<◌, ◌≡◌, refl, Bool, false, List, [], ◌∷◌, ◌++◌, some, arith, ap,
  Bool-cases, inl, inr, leb, length, length-append, length-drop, drop, Text, text_eq, ok, panic,
}
use emqx_go.Base.Map.{lookup, lookup-insert, lookup-insert_self, text_has_eq}
use emqx_go.Persistent.Types.{QueuedMessage, PersistentSession}
use emqx_go.Persistent.Manager.{
  SessionManager, queue_message, queued_message, put_active, save_session, load_session,
  session_key, make_room,
}

-- The newest n elements of a list, oldest first.
pub newest {ℓ} : {A : Type ℓ} → ℕ → List A → List A
newest n q = drop (length q - n) q

length-newest-le {ℓ} : {A : Type ℓ} (n : ℕ) (q : List A) → length (newest n q) ≤ n
unfolding newest
length-newest-le n q = omega (arith, length-drop (length q - n) q)

newest_all {ℓ} : {A : Type ℓ} (n : ℕ) (q : List A) → length q ≤ n → newest n q ≡ q
unfolding newest
newest_all n q h = let e : length q - n ≡ 0 = omega arith in rw e refl

newest_one_over {ℓ} :
    {A : Type ℓ} (n : ℕ) (x : A) (q : List A) → length (x ∷ q) ≡ suc n → newest n (x ∷ q) ≡ q
unfolding newest
newest_one_over n x q h = let e : suc (length q) - n ≡ 1 = omega arith in rw e refl

make_room-newest :
    (limit : ℕ) (q : List QueuedMessage) (msg : QueuedMessage)
    → 0 < limit
    → length q ≤ limit
    → (q' : List QueuedMessage) × (make_room limit q ≡ ok q')
      × (q' ++ msg ∷ [] ≡ newest limit (q ++ msg ∷ []))
make_room-newest limit [] msg pos h =
    ([], ground arith, sym (newest_all limit (msg ∷ []) (omega arith)))
make_room-newest limit (x ∷ q) msg pos h = elim (Bool-cases (leb limit (length (x ∷ q)))) [
  | inl full ↦ (
    q,
    rw full refl,
    sym (newest_one_over limit x (q ++ msg ∷ []) (ground (arith, length-append q (msg ∷ [])))),
  )
  | inr room ↦ (
    x ∷ q,
    rw room refl,
    sym (newest_all limit (x ∷ (q ++ msg ∷ [])) (ground (arith, length-append q (msg ∷ [])))),
  )
]

-- What the store holds of a session after it was saved.
load-save :
    (client : Text) (s : PersistentSession) (m : SessionManager)
    → s.client_id ≡ client
    → load_session client (save_session s m) ≡ some s
unfolding load_session save_session
load-save client s m e =
    rw (← e) (ground (arith, lookup-insert_self (session_key s.client_id) s m.store.entries))

-- A message for an offline, persistent session is queued: the session then holds the newest messages,
-- as many as the configured maximum, in order, and the same session is in the store. Other sessions
-- stay as they are.
pub queue_message-newest :
    (now : ℕ) (client topic : Text) (payload : List ℕ) (qos : ℕ) (retain : Bool)
    (m : SessionManager) (s : PersistentSession)
    → lookup client m.active_sessions ≡ some s
    → s.client_id ≡ client
    → s.connected ≡ false
    → s.clean_session ≡ false
    → 0 < m.config.max_offline_messages
    → length s.message_queue ≤ m.config.max_offline_messages
    → (m' : SessionManager) × (s' : PersistentSession) × (queue_message now client topic payload qos
          retain m
        ≡ ok m')
      × (s' ≡ record s {
        message_queue =
            newest m.config.max_offline_messages
              (s.message_queue ++ queued_message now m.config topic payload qos retain ∷ []);
      })
      × (lookup client m'.active_sessions ≡ some s')
      × (load_session client m' ≡ some s')
      × ((other : Text)
          → text_eq client other ≡ false
          → lookup other m'.active_sessions ≡ lookup other m.active_sessions)
unfolding queue_message
queue_message-newest now client topic payload qos retain m s h id off keep pos fits =
    let msg = queued_message now m.config topic payload qos retain in
    let (q, room, e) =
      make_room-newest m.config.max_offline_messages s.message_queue msg pos fits in
    let s' : PersistentSession = record s { message_queue = q ++ msg ∷ [] } in
    let m' = save_session s' (put_active client s' m) in
    (
      m',
      s',
      unfold save_session in ground arith,
      ap (λ t. record s { message_queue = t }) e,
      unfold save_session in lookup-insert_self client s' m.active_sessions,
      load-save client s' (put_active client s' m) id,
      λ other ne.
          unfold save_session in (lookup-insert client other s' m.active_sessions ∙ rw ne refl),
    )

-- With a maximum of zero, which nothing refuses, the first message for an offline, persistent session
-- makes the broker slice an empty queue, and panics.
queue_message-panic :
    (now : ℕ) (client topic : Text) (payload : List ℕ) (qos : ℕ) (retain : Bool)
    (m : SessionManager) (s : PersistentSession)
    → lookup client m.active_sessions ≡ some s
    → s.connected ≡ false
    → s.clean_session ≡ false
    → s.message_queue ≡ []
    → m.config.max_offline_messages ≡ 0
    → queue_message now client topic payload qos retain m ≡ panic
unfolding queue_message
queue_message-panic now client topic payload qos retain m s h off keep empty zero_limit =
    ground arith
