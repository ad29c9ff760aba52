-- ===== src/Persistent/Delivery.antt =====
-- Delivering and queueing offline messages, in pkg/persistent/offline.go.
use emqx_go.Base.{
  ◌∙◌, append-nil, ◌⊎◌, ℕ, ◌≡◌, refl, true, not, List, [], ◌∷◌, ◌++◌, some, arith, ap, Bool-cases,
  inl, inr, filter, Text, ok, err,
}
use emqx_go.Base.Map.{Map, lookup, lookup-insert_self, text_has_eq}
use emqx_go.Persistent.Types.{QueuedMessage, PersistentSession, callback_failed}
use emqx_go.Persistent.Manager.{SessionManager, put_active, save_session, save_if}
use emqx_go.Persistent.Offline.{
  Callback, past_expiry, deliver_loop, deliver_session, deliver_offline,
}

-- The messages that have not expired, in order.
abbrev pub live : ℕ → List QueuedMessage → List QueuedMessage
live now = filter (λ msg. not (past_expiry now msg))

-- What was handed over is the front of the live messages: all of them, or up to the first that the
-- callback refused.
deliver_loop-live :
    (now : ℕ) (callback : Callback) (q : List QueuedMessage)
    → (rest : List QueuedMessage) × ((deliver_loop now callback q).0 ++ rest ≡ live now q)
      × ((deliver_loop now callback q).1 ≡ true → rest ≡ [])
unfolding deliver_loop
deliver_loop-live now callback [] = ([], refl, λ e. refl)
deliver_loop-live now callback (msg ∷ q) =
    let (rest, split_at, all) = deliver_loop-live now callback q in
    elim (Bool-cases (past_expiry now msg)) [
      | inl past ↦ rw past (rest, split_at, all)
      | inr fresh ↦ elim (Bool-cases (callback msg)) [
        | inl sent ↦ rw (fresh, sent) (rest, ap (◌∷◌ msg) split_at, all)
        | inr refused ↦ rw (fresh, refused) (live now q, refl, λ e. cc)
      ]
    ]

-- The manager after a delivery that succeeded.
delivered : Text → PersistentSession → SessionManager → SessionManager
delivered client s m =
    let s' : PersistentSession = record s { message_queue = [] } in
    save_if (not s.clean_session) s' (put_active client s' m)

lookup-delivered :
    (client : Text) (s : PersistentSession) (m : SessionManager)
    → lookup client (delivered client s m).active_sessions ≡ some (record s { message_queue = [] })
unfolding delivered save_session
lookup-delivered client s m =
    let s' : PersistentSession = record s { message_queue = [] } in
    ground (arith, lookup-insert_self client s' m.active_sessions)

deliver_offline-session :
    (now : ℕ) (callbacks : Map Text Callback) (callback : Callback) (client : Text)
    (m : SessionManager) (s : PersistentSession)
    → lookup client callbacks ≡ some callback
    → lookup client m.active_sessions ≡ some s
    → deliver_offline now callbacks client m ≡ deliver_session now callback client s m
unfolding deliver_offline
deliver_offline-session now callbacks callback client m s hc h = rw (deliver_offline, hc, h) refl

-- Delivery to a connected client with a callback hands over the front of its live messages, in order.
-- If it succeeds it has handed over all of them, and the client's queue is empty; if not, the error
-- is the callback's.
deliver_offline-live :
    (now : ℕ) (callbacks : Map Text Callback) (callback : Callback) (client : Text)
    (m : SessionManager) (s : PersistentSession)
    → lookup client callbacks ≡ some callback
    → lookup client m.active_sessions ≡ some s
    → s.connected ≡ true
    → ((m' : SessionManager) × (deliver_offline now callbacks client m
          ≡ (live now s.message_queue, ok m'))
        × (lookup client m'.active_sessions ≡ some (record s { message_queue = [] })))
      ⊎ ((sent rest : List QueuedMessage) × (deliver_offline now callbacks client m
            ≡ (sent, err callback_failed))
          × (sent ++ rest ≡ live now s.message_queue))
deliver_offline-live now callbacks callback client m s hc h on =
    let (rest, split_at, all) = deliver_loop-live now callback s.message_queue in
    elim (Bool-cases (deliver_loop now callback s.message_queue).1) [
      | inl done ↦
          let whole : (deliver_loop now callback s.message_queue).0 ≡ live now s.message_queue =
            ground (arith, append-nil (deliver_loop now callback s.message_queue).0) in
          inl (
            delivered client s m,
            (deliver_offline-session now callbacks callback client m s hc h
                ∙ unfold deliver_session delivered in ground arith),
            lookup-delivered client s m,
          )
      | inr refused ↦ inr (
        (deliver_loop now callback s.message_queue).0,
        rest,
        (deliver_offline-session now callbacks callback client m s hc h
            ∙ unfold deliver_session delivered in ground arith),
        split_at,
      )
    ]
