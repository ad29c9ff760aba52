-- ===== src/Persistent/Lifecycle.antt =====
-- Disconnecting, and the next packet id, in pkg/persistent/session.go.
use emqx_go.Base.{ℕ, ◌<◌, ◌≡◌, refl, ◌≢◌, Bool, true, false, none, some, arith, Text, ok}
use emqx_go.Base.Map.{lookup, delete, lookup-insert_self, text_has_eq}
use emqx_go.Persistent.Types.{PersistentSession}
use emqx_go.Persistent.Manager.{
  end_will, SessionManager, disconnect, put_active, save_session, delete_session, next_counter,
  next_packet_id,
}

-- The two branches of a disconnection.
abbrev pub left_behind : ℕ → PersistentSession → PersistentSession
left_behind now s = record s { connected = false; last_activity = now; will_message = none }

abbrev pub after_will : ℕ → Text → Bool → PersistentSession → SessionManager → SessionManager
after_will now client graceful s m = record m {
  will_manager = end_will now client graceful s.will_message m.will_manager;
}

module _ (now : ℕ) (client : Text) (graceful : Bool) (m : SessionManager)
    (s : PersistentSession) where
  pub disconnect-keep :
      lookup client m.active_sessions ≡ some s
      → s.clean_session ≡ false
      → disconnect now client graceful m
        ≡ ok (
            save_session
              (left_behind now s)
              (put_active client (left_behind now s) (after_will now client graceful s m)))
  unfolding disconnect
  disconnect-keep h keep = rw (disconnect, h, keep) refl

  pub disconnect-clean :
      lookup client m.active_sessions ≡ some s
      → s.clean_session ≡ true
      → disconnect now client graceful m
        ≡ ok (
            delete_session client (record (after_will now client graceful s m) {
              active_sessions = delete client m.active_sessions;
            }))
  unfolding disconnect
  disconnect-clean h gone = rw (disconnect, h, gone) refl

-- A packet id is never 0, fits 16 bits, and differs from the one before; the session keeps it as its
-- counter.
pub next_packet_id_bounds :
    (client : Text) (m : SessionManager) (s : PersistentSession)
    → lookup client m.active_sessions ≡ some s
    → s.packet_id_counter < 65536
    → (id : ℕ) × (m' : SessionManager) × (next_packet_id client m ≡ ok (id, m'))
      × (0 < id)
      × (id < 65536)
      × (id ≢ s.packet_id_counter)
      × (lookup client m'.active_sessions ≡ some (record s { packet_id_counter = id }))
unfolding next_packet_id
next_packet_id_bounds client m s h fits = (
  next_counter s.packet_id_counter,
  put_active client (record s { packet_id_counter = next_counter s.packet_id_counter }) m,
  ground arith,
  ground arith,
  ground arith,
  ground arith,
  lookup-insert_self client _ m.active_sessions,
)
