-- ===== src/Persistent/Bounded.antt =====
-- Sessions of pkg/persistent/session.go within the bounds of their manager: queues within the
-- maximum, packet id counters within 16 bits.
use mathlib.Core.Path.{subst}
use emqx_go.Base.{
  ℕ, ◌≤◌, ◌<◌, ◌≡◌, refl, Bool, true, false, List, [], ◌∷◌, Option, none, some, arith,
  if◌then◌else◌, Bool-cases, Option-cases, inl, inr, leb, length, Text, All, ok, err, panic, ◌>>=◌,
}
use emqx_go.Base.Map.{Map, lookup, insert, delete, text_has_eq}
use emqx_go.Persistent.Types.{QueuedMessage, PersistentSession}
use emqx_go.Persistent.Manager.{
  SessionManager, Managed, load_active, put_active, save_session, delete_session, session_key,
  save_if, make_room, next_counter,
}

-- A session within the maximum of queued messages, with a packet id as its counter.
unfoldable pub IsGood : ℕ → PersistentSession → Type 0
IsGood limit s =
    (length s.message_queue ≤ limit) × (0 < s.packet_id_counter) × (s.packet_id_counter < 65536)

abbrev pub AllGood : ℕ → Map Text PersistentSession → Type 0
AllGood limit = All (λ e. IsGood limit e.1)

AllGood-insert :
    (limit : ℕ) (k : Text) (s : PersistentSession) (m : Map Text PersistentSession)
    → IsGood limit s
    → AllGood limit m
    → AllGood limit (insert k s m)
unfolding insert
AllGood-insert limit k s [] g h = (g, tt)
AllGood-insert limit k s ((j, t) ∷ m) g h = elim (Bool-cases (text_has_eq.beq j k)) [
  | inl same ↦ rw same (g, h.1)
  | inr other ↦ rw other (h.0, AllGood-insert limit k s m g h.1)
]

AllGood-delete :
    (limit : ℕ) (k : Text) (m : Map Text PersistentSession)
    → AllGood limit m
    → AllGood limit (delete k m)
unfolding delete
AllGood-delete limit k [] h = tt
AllGood-delete limit k ((j, t) ∷ m) h = elim (Bool-cases (text_has_eq.beq j k)) [
  | inl same ↦ rw same (AllGood-delete limit k m h.1)
  | inr other ↦ rw other (h.0, AllGood-delete limit k m h.1)
]

-- What a lookup finds in such a map.
unfoldable pub FoundGood : ℕ → Option PersistentSession → Type 0
FoundGood limit none = Unit
FoundGood limit (some s) = IsGood limit s

pub AllGood-lookup :
    (limit : ℕ) (k : Text) (m : Map Text PersistentSession)
    → AllGood limit m
    → FoundGood limit (lookup k m)
unfolding lookup FoundGood
AllGood-lookup limit k [] h = tt
AllGood-lookup limit k ((j, t) ∷ m) h = elim (Bool-cases (text_has_eq.beq j k)) [
  | inl same ↦ rw same h.0
  | inr other ↦ rw other (AllGood-lookup limit k m h.1)
]

-- The configured maximum, and good sessions both among the active ones and in the store.
unfoldable pub IsBounded : ℕ → SessionManager → Type 0
IsBounded limit m =
    (m.config.max_offline_messages ≡ limit)
    × (0 < limit)
    × AllGood limit m.active_sessions
    × AllGood limit m.store.entries

-- An outcome that is no panic, and leaves the manager bounded.
unfoldable pub IsSafe : ℕ → Managed → Type 0
IsSafe limit (ok m) = IsBounded limit m
IsSafe limit (err e) = Unit
IsSafe limit panic = ⊥

module _ (limit : ℕ) where
  pub put_active-IsBounded :
      (k : Text) (s : PersistentSession) (m : SessionManager)
      → IsGood limit s
      → IsBounded limit m
      → IsBounded limit (put_active k s m)
  unfolding IsBounded
  put_active-IsBounded k s m g (c, pos, a, st) =
      (c, pos, AllGood-insert limit k s m.active_sessions g a, st)

  pub save_session-IsBounded :
      (s : PersistentSession) (m : SessionManager)
      → IsGood limit s
      → IsBounded limit m
      → IsBounded limit (save_session s m)
  unfolding IsBounded save_session
  save_session-IsBounded s m g (c, pos, a, st) =
      (c, pos, a, AllGood-insert limit (session_key s.client_id) s m.store.entries g st)

  pub save_if-IsBounded :
      (b : Bool) (s : PersistentSession) (m : SessionManager)
      → IsGood limit s
      → IsBounded limit m
      → IsBounded limit (save_if b s m)
  save_if-IsBounded true s m g h = save_session-IsBounded s m g h
  save_if-IsBounded false s m g h = h

  pub load_active-IsSafe :
      (client : Text) (m : SessionManager) (next : PersistentSession → Managed)
      → IsBounded limit m
      → ((s : PersistentSession) → IsGood limit s → IsSafe limit (next s))
      → IsSafe limit (load_active client m >>= next)
  unfolding IsBounded IsSafe FoundGood
  load_active-IsSafe client m next (c, pos, a, st) step =
      elim (Option-cases (lookup client m.active_sessions)) [
        | inl missing ↦ rw missing tt
        | inr (s, found) ↦ rw found (
            step s
              (subst (FoundGood limit) found (AllGood-lookup limit client m.active_sessions a)))
      ]

module _ (limit : ℕ) where
  pub ok_if-IsSafe :
      (b : Bool) (x y : SessionManager)
      → IsBounded limit x
      → IsBounded limit y
      → IsSafe limit (ok (if b then x else y))
  unfolding IsSafe
  ok_if-IsSafe true x y hx hy = hx
  ok_if-IsSafe false x y hx hy = hy

  pub gone-IsBounded :
      (client : Text) (m : SessionManager)
      → IsBounded limit m
      → IsBounded limit
          (delete_session client (record m { active_sessions = delete client m.active_sessions }))
  unfolding IsBounded delete_session
  gone-IsBounded client m (c, pos, a, st) = (
    c,
    pos,
    AllGood-delete limit client m.active_sessions a,
    AllGood-delete limit (session_key client) m.store.entries st,
  )

pub make_room-room :
    (limit : ℕ) (q : List QueuedMessage)
    → 0 < limit
    → length q ≤ limit
    → (q' : List QueuedMessage) × (make_room limit q ≡ ok q') × (length q' < limit)
make_room-room limit [] pos h = ([], ground arith, pos)
make_room-room limit (x ∷ q) pos h = elim (Bool-cases (leb limit (length (x ∷ q)))) [
  | inl full ↦ (q, rw full refl, omega arith)
  | inr room ↦ (x ∷ q, rw room refl, ground arith)
]

pub next_counter_bounds : (c : ℕ) → (0 < next_counter c) × (next_counter c < 65536)
unfolding next_counter
next_counter_bounds c = (ground arith, ground arith)
