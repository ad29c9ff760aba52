-- ===== src/Session/Order.antt =====
-- What the actor of pkg/session/session.go writes, and in which order.
use emqx_go.Base.{
  ℕ, ◌≡◌, refl, suc, take, ltb, length, if◌then◌else◌, arith, Bool, true, false, List, [], ◌∷◌, ap,
}
use emqx_go.Session.Packet.{encode_publish_packet}
use emqx_go.Session.Actor.{
  Message, publish, stop, unknown, Exit, mailbox_closed, stopped, write_failed, packet_of, start,
}

-- The messages before the first stop, each as the bytes of its packet.
abbrev pub pending : ℕ → List Message → List (List ℕ)
pending version [] = []
pending version (publish m ∷ ms) =
    encode_publish_packet (packet_of version m) m.qos ∷ pending version ms
pending version (stop ∷ ms) = []
pending version (unknown ∷ ms) = pending version ms

-- How many writes succeed before the first that fails; with no answer left a write fails.
abbrev pub accepted : List Bool → ℕ
accepted [] = 0
accepted (false ∷ writes) = 0
accepted (true ∷ writes) = suc (accepted writes)

-- Why the loop ends when no write fails.
abbrev pub end_of : List Message → Exit
end_of [] = mailbox_closed
end_of (publish m ∷ ms) = end_of ms
end_of (stop ∷ ms) = stopped
end_of (unknown ∷ ms) = end_of ms

-- The actor hands to the connection the packets of the messages before the first stop, each once and
-- in the order of the mailbox: all of them as long as the writes succeed, and otherwise those up to and
-- with the first write that fails. It ends with that failure exactly if there is one among them, and
-- else with the stop or with the error of the mailbox.
pub start-pending :
    (version : ℕ) (writes : List Bool) (ms : List Message)
    → ((start version writes ms).0 ≡ take (suc (accepted writes)) (pending version ms))
      × ((start version writes ms).1 ≡ (
          if ltb (accepted writes) (length (pending version ms)) then write_failed else end_of ms))
unfolding start
start-pending version writes [] = (refl, ground arith)
start-pending version writes (stop ∷ ms) = (refl, ground arith)
start-pending version writes (unknown ∷ ms) = start-pending version writes ms
start-pending version [] (publish m ∷ ms) = (refl, ground arith)
start-pending version (false ∷ writes) (publish m ∷ ms) = (refl, ground arith)
start-pending version (true ∷ writes) (publish m ∷ ms) =
    let (order, end) = start-pending version writes ms in
    (ap (◌∷◌ (encode_publish_packet (packet_of version m) m.qos)) order, ground arith)
