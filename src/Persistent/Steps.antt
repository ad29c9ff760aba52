-- ===== src/Persistent/Steps.antt =====
-- Each method of SessionManager in pkg/persistent/session.go, on a manager within its bounds.
use mathlib.Core.Path.{subst}
use emqx_go.Base.{
  sym, ℕ, ◌<◌, ◌≡◌, refl, Bool, true, false, not, ◌||◌, List, [], ◌∷◌, ◌++◌, Option, none, some,
  arith, if◌then◌else◌, Option-cases, inl, inr, length, length-append, Text, ok, ◌>>=◌,
}
use emqx_go.Base.Map.{lookup, insert, delete, text_has_eq}
use emqx_go.Persistent.KeyValue
use emqx_go.Persistent.KeyValue.{MemStore}
use emqx_go.Persistent.Types.{QueuedMessage, WillMessage, PersistentSession}
use emqx_go.Persistent.Manager.{
  SessionManager, Managed, create_or_resume, create_session, resume_or_create, resume_stored,
  resume_active, fresh_session, disconnect, load_active, put_active, save_session, load_session,
  session_key, save_if, end_will, add_subscription, remove_subscription, set_will_message,
  make_room, queued_message, queue_message, next_counter, next_packet_id,
}
use emqx_go.Persistent.Bounded.{
  AllGood-lookup, FoundGood, IsBounded, IsGood, IsSafe, gone-IsBounded, load_active-IsSafe,
  make_room-room, next_counter_bounds, ok_if-IsSafe, put_active-IsBounded, save_if-IsBounded,
  save_session-IsBounded,
}

module _ (limit now : ℕ) (client : Text) (m : SessionManager) (h : IsBounded limit m) where
  wills : Bool → PersistentSession → SessionManager
  wills graceful s = record m {
    will_manager = end_will now client graceful s.will_message m.will_manager;
  }

  wills-IsBounded : (graceful : Bool) (s : PersistentSession) → IsBounded limit (wills graceful s)
  unfolding wills IsBounded
  wills-IsBounded graceful s = h

  gone : PersistentSession → PersistentSession
  gone s = record s { connected = false; last_activity = now; will_message = none }

  pub disconnect-IsSafe : (graceful : Bool) → IsSafe limit (disconnect now client graceful m)
  unfolding disconnect wills gone IsGood
  disconnect-IsSafe graceful = load_active-IsSafe limit client m _ h (λ s g.
      ok_if-IsSafe limit s.clean_session _ _
        (gone-IsBounded limit client (wills graceful s) (wills-IsBounded graceful s))
        (save_session-IsBounded limit (gone s) _ g (
          put_active-IsBounded limit client (gone s) (wills graceful s) g
            (wills-IsBounded graceful s))))

  kept-IsSafe :
      (s : PersistentSession) (b : Bool)
      → IsGood limit s
      → IsSafe limit (ok (save_if b s (put_active client s m)))
  unfolding IsSafe
  kept-IsSafe s b g = save_if-IsBounded limit b s _ g (put_active-IsBounded limit client s m g h)

  pub add_subscription-IsSafe :
      (topic : Text) (qos : ℕ) → IsSafe limit (add_subscription now client topic qos m)
  unfolding add_subscription IsGood
  add_subscription-IsSafe topic qos = load_active-IsSafe limit client m _ h (λ s g.
      kept-IsSafe
        (record s { subscriptions = insert topic qos s.subscriptions; last_activity = now })
        (not s.clean_session) g)

  pub remove_subscription-IsSafe :
      (topic : Text) → IsSafe limit (remove_subscription now client topic m)
  unfolding remove_subscription IsGood
  remove_subscription-IsSafe topic = load_active-IsSafe limit client m _ h (λ s g.
      kept-IsSafe (record s { subscriptions = delete topic s.subscriptions; last_activity = now })
        (not s.clean_session) g)

  pub set_will_message-IsSafe : (will : WillMessage) → IsSafe limit (set_will_message client will m)
  unfolding set_will_message IsGood
  set_will_message-IsSafe will =
      load_active-IsSafe limit client m _ h
        (λ s g. kept-IsSafe (record s { will_message = some will }) false g)

  abbrev queue_session : PersistentSession → QueuedMessage → Bool → Managed
  queue_session s msg skip =
      if skip
      then ok m
      else (make_room m.config.max_offline_messages s.message_queue >>= λ q. ok (
          save_session (record s { message_queue = q ++ msg ∷ [] })
            (put_active client (record s { message_queue = q ++ msg ∷ [] }) m)))

  longer-IsGood :
      (s : PersistentSession) (q : List QueuedMessage) (msg : QueuedMessage)
      → IsGood limit s
      → length q < limit
      → IsGood limit (record s { message_queue = q ++ msg ∷ [] })
  unfolding IsGood
  longer-IsGood s q msg g room =
      let (short, pos, small) = g in (omega (arith, length-append q (msg ∷ [])), pos, small)

  queue_session-IsSafe :
      (s : PersistentSession)
      → IsGood limit s
      → (msg : QueuedMessage) (skip : Bool) → IsSafe limit (queue_session s msg skip)
  unfolding IsSafe IsBounded IsGood
  queue_session-IsSafe s g msg true = h
  queue_session-IsSafe s g msg false =
      let (c, pos, _, _) = h in
      let (short, _, _) = g in
      let (q, room, fits) = make_room-room limit s.message_queue pos short in
      let s' : PersistentSession = record s { message_queue = q ++ msg ∷ [] } in
      let good = longer-IsGood s q msg g fits in
      let room' : make_room m.config.max_offline_messages s.message_queue ≡ ok q = rw c room in
      rw room' (kept-IsSafe s' true good)

  pub queue_message-IsSafe :
      (topic : Text) (payload : List ℕ) (qos : ℕ) (retain : Bool)
      → IsSafe limit (queue_message now client topic payload qos retain m)
  unfolding queue_message
  queue_message-IsSafe topic payload qos retain = load_active-IsSafe limit client m _ h (λ s g.
      queue_session-IsSafe s g (queued_message now m.config topic payload qos retain)
        (s.connected || s.clean_session))

  counted : PersistentSession → PersistentSession
  counted s = record s { packet_id_counter = next_counter s.packet_id_counter }

  counted-IsGood : (s : PersistentSession) → IsGood limit s → IsGood limit (counted s)
  unfolding IsGood counted
  counted-IsGood s (short, _, _) =
      let (pos, small) = next_counter_bounds s.packet_id_counter in (short, pos, small)

  next_packet_id-load :
      (next_packet_id client m >>= λ r. ok r.1)
      ≡ (load_active client m >>= λ s. ok (put_active client (counted s) m))
  unfolding next_packet_id counted
  next_packet_id-load = elim (Option-cases (lookup client m.active_sessions)) [
    | inl missing ↦ rw missing refl
    | inr (s, found) ↦ rw found refl
  ]

  pub next_packet_id-IsSafe : IsSafe limit (next_packet_id client m >>= λ r. ok r.1)
  next_packet_id-IsSafe = rw next_packet_id-load (
      load_active-IsSafe limit client m _ h
        (λ s g. kept-IsSafe (counted s) false (counted-IsGood s g)))

  resume_active-IsGood :
      (clean : Bool) (s : PersistentSession)
      → IsGood limit s
      → IsGood limit (resume_active now clean s)
  unfolding resume_active IsGood
  resume_active-IsGood true s (short, pos, small) = (omega arith, pos, small)
  resume_active-IsGood false s g = g

  fresh_session-IsGood :
      (clean : Bool) (expiry : ℕ) → IsGood limit (fresh_session now client clean expiry m.config)
  unfolding fresh_session IsGood
  fresh_session-IsGood clean expiry = (omega arith, omega arith, omega arith)

  create_session-IsBounded :
      (clean : Bool) (expiry : ℕ) → IsBounded limit (create_session now client clean expiry m).1
  unfolding create_session
  create_session-IsBounded clean expiry =
      let g = fresh_session-IsGood clean expiry in
      save_if-IsBounded limit (not clean) _ _ g (put_active-IsBounded limit client _ m g h)

  resume_or_create-IsBounded :
      (expiry : ℕ) (o : Option PersistentSession)
      → FoundGood limit o
      → IsBounded limit (resume_or_create now client expiry o m).1
  unfolding resume_or_create FoundGood resume_stored IsGood
  resume_or_create-IsBounded expiry none g = create_session-IsBounded false expiry
  resume_or_create-IsBounded expiry (some s) g =
      put_active-IsBounded limit client (resume_stored now expiry s) m g h

  load_session-lookup : load_session client m ≡ lookup (session_key client) m.store.entries
  unfolding load_session KeyValue.get
  load_session-lookup = elim (Option-cases (lookup (session_key client) m.store.entries)) [
    | inl missing ↦ rw (load_session, missing) refl
    | inr (s, there) ↦ rw (load_session, there) refl
  ]

  load_session-FoundGood : FoundGood limit (load_session client m)
  unfolding IsBounded
  load_session-FoundGood =
      let (_, _, _, st) = h in
      subst (FoundGood limit) (sym load_session-lookup)
        (AllGood-lookup limit (session_key client) m.store.entries st)

  new_or_stored-IsBounded :
      (clean : Bool) (expiry : ℕ)
      → IsBounded limit
          (if clean
            then create_session now client true expiry m
            else resume_or_create now client expiry (load_session client m) m).1
  new_or_stored-IsBounded true expiry = create_session-IsBounded true expiry
  new_or_stored-IsBounded false expiry =
      resume_or_create-IsBounded expiry (load_session client m) load_session-FoundGood

  resumed-IsBounded :
      (clean : Bool) (s : PersistentSession)
      → lookup client m.active_sessions ≡ some s
      → IsBounded limit (put_active client (resume_active now clean s) m)
  unfolding IsBounded FoundGood
  resumed-IsBounded clean s found =
      let (_, _, a, _) = h in
      put_active-IsBounded limit client (resume_active now clean s) m
        (resume_active-IsGood clean s
          (subst (FoundGood limit) found (AllGood-lookup limit client m.active_sessions a)))
        h

  pub create_or_resume-IsBounded :
      (clean : Bool) (expiry : ℕ) → IsBounded limit (create_or_resume now client clean expiry m).1
  unfolding create_or_resume
  create_or_resume-IsBounded clean expiry = elim (Option-cases (lookup client m.active_sessions)) [
    | inl missing ↦ rw (create_or_resume, missing) (new_or_stored-IsBounded clean expiry)
    | inr (s, found) ↦ rw (create_or_resume, found) (resumed-IsBounded clean s found)
  ]
