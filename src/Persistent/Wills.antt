-- ===== src/Persistent/Wills.antt =====
-- What becomes of a will, in pkg/persistent/session.go and will.go.
use emqx_go.Base.{
  lt→ltb, ℕ, ◌+◌, ◌<◌, ◌≡◌, refl, Bool, true, false, [], ◌∷◌, ◌++◌, some, arith, Bool-cases, inl,
  inr, Text, ok,
}
use emqx_go.Base.Map.{Map, lookup, lookup-insert_self, text_has_eq}
use emqx_go.Persistent.Types.{WillMessage, PersistentSession}
use emqx_go.Persistent.Will.{
  TimerId, WillTimer, WillMessageManager, schedule_delayed, fire, cancel_timers, scheduled,
  timer_has_eq,
}
use emqx_go.Persistent.Lifecycle.{disconnect-clean, disconnect-keep}
use emqx_go.Persistent.Manager.{
  delete_session, save_session, SessionManager, disconnect, end_will, create_or_resume,
}

scheduled-cancel_timers :
    (client : Text) (m : Map TimerId WillTimer) → scheduled client (cancel_timers client m) ≡ false
unfolding scheduled cancel_timers
scheduled-cancel_timers client [] = refl
scheduled-cancel_timers client ((id, t) ∷ m) = ground (arith, scheduled-cancel_timers client m)

-- An active client can be disconnected, and the manager's wills are then those of `end_will`.
disconnect-end_will :
    (now : ℕ) (client : Text) (graceful : Bool) (m : SessionManager) (s : PersistentSession)
    → lookup client m.active_sessions ≡ some s
    → (m' : SessionManager) × (disconnect now client graceful m ≡ ok m')
      × (m'.will_manager ≡ end_will now client graceful s.will_message m.will_manager)
disconnect-end_will now client graceful m s h = elim (Bool-cases s.clean_session) [
  | inl clean ↦ (_, disconnect-clean now client graceful m s h clean, unfold delete_session in refl)
  | inr keep ↦ (_, disconnect-keep now client graceful m s h keep, unfold save_session in refl)
]

-- A graceful disconnection of an active client publishes nothing, and leaves no will of the client
-- scheduled.
pub graceful_disconnect :
    (now : ℕ) (client : Text) (m : SessionManager) (s : PersistentSession)
    → lookup client m.active_sessions ≡ some s
    → (m' : SessionManager) × (disconnect now client true m ≡ ok m')
      × (m'.will_manager.published ≡ m.will_manager.published)
      × (scheduled client m'.will_manager.timers ≡ false)
graceful_disconnect now client m s h =
    let (m', run, e) = disconnect-end_will now client true m s h in
    (
      m',
      run,
      rw e (unfold end_will in refl),
      rw e (unfold end_will in scheduled-cancel_timers client m.will_manager.timers),
    )

fire-schedule_delayed :
    (now : ℕ) (will : WillMessage) (client : Text) (w : WillMessageManager)
    → (fire (client, now) (schedule_delayed now will client w)).published
      ≡ w.published ++ (client, will) ∷ []
unfolding fire schedule_delayed
fire-schedule_delayed now will client w =
    let t : WillTimer = record {
      will_msg = will;
      client_id = client;
      due = now + will.delay_interval;
    } in
    ground (arith, lookup-insert_self (client, now) t w.timers)

create_or_resume-will_manager :
    (now : ℕ) (client : Text) (clean : Bool) (expiry : ℕ) (m : SessionManager)
    → (create_or_resume now client clean expiry m).1.will_manager ≡ m.will_manager
unfolding create_or_resume
create_or_resume-will_manager now client clean expiry m = ground arith

-- A will with a delay is not published at the disconnection. It is published when its time comes,
-- also if the client has come back in between.
delayed_will_after_reconnect :
    (now later : ℕ) (client : Text) (clean : Bool) (expiry : ℕ) (m : SessionManager)
    (s : PersistentSession) (will : WillMessage)
    → lookup client m.active_sessions ≡ some s
    → s.will_message ≡ some will
    → 0 < will.delay_interval
    → (m' : SessionManager) × (disconnect now client false m ≡ ok m')
      × (m'.will_manager.published ≡ m.will_manager.published)
      × ((fire
            (client, now)
            (create_or_resume later client clean expiry m').1.will_manager).published
          ≡ m.will_manager.published ++ (client, will) ∷ [])
delayed_will_after_reconnect now later client clean expiry m s will h has d =
    let (m', run, e) = disconnect-end_will now client false m s h in
    let e' : end_will now client false s.will_message m.will_manager
        ≡ schedule_delayed now will client m.will_manager =
      unfold end_will in rw (has, lt→ltb 0 will.delay_interval d) refl in
    (
      m',
      run,
      rw (e, e') (unfold schedule_delayed in refl),
      rw (create_or_resume-will_manager, e, e')
          (fire-schedule_delayed now will client m.will_manager),
    )
