-- ===== src/Broker/Protocol.antt =====
-- Nothing comes before a CONNECT that is let in, in handleConnection of pkg/broker/broker.go.
use emqx_go.Base.{ℕ, ◌≡◌, ◌≢◌, refl, Bool, List, [], ◌∷◌, Option, none, some}
use emqx_go.Broker.State.{Broker}
use emqx_go.Broker.Connection.{connack, Reply, reply}
use emqx_go.Broker.Connect.{
  ConnectIn, Client, Connecting, refused, connected, id_of, handle_connect,
}
use emqx_go.Broker.Connected.{Admitted, handle_connect-Admitted}
use emqx_go.Broker.Loop.{
  connect, subscribe, publish, puback, pubrec, pubrel_in, pubcomp_in, pingreq, unsubscribe,
  disconnect, unknown, Read, packet, timeout, failure, Setting, Connection, of_connecting, go_on,
  one_round, handle_connection,
}

-- The first packet was a CONNECT that was let in, and the first reply was a CONNACK of success.
pub data LetIn (s : Setting) : List (ℕ × (Bool × Read)) → List Reply → Type 0 where
  let_in :
      (now : ℕ) (up : Bool) (pk : ConnectIn) (rs : List (ℕ × (Bool × Read))) (replies : List Reply)
      → Admitted s.access s.auth_chain s.ip (id_of s.generated_id pk) pk
      → LetIn s ((now, (up, packet (connect pk))) ∷ rs) (reply connack 0 0 ∷ replies)

module _ (s : Setting) (b : Broker) (now : ℕ) (up : Bool) (pk : ConnectIn)
    (rs : List (ℕ × (Bool × Read))) (rest : Option Client → Broker → Connection) where
  of_connecting-LetIn :
      (r : Connecting)
      → handle_connect s.access s.auth_chain s.ip s.generated_id now up pk b ≡ r
      → (go_on rest b (of_connecting b r)).broker ≢ b
      → LetIn s ((now, (up, packet (connect pk))) ∷ rs) (go_on rest b (of_connecting b r)).written
  of_connecting-LetIn (refused written) e h = absurd (h refl)
  of_connecting-LetIn (connected client b' written tasks) e h =
      let (passed, same, registered, wrote) =
        handle_connect-Admitted s.access s.auth_chain s.ip s.generated_id now up pk b client b'
          written tasks e in
      rw wrote (let_in now up pk rs (rest (some client) b').written passed)

-- Whatever is read on a connection, the broker's state changes only if the first thing read is a
-- CONNECT that passes the checks, the blacklist and the authentication (or has a test prefix); the
-- first reply is then a CONNACK of success.
pub handle_connection-LetIn :
    (s : Setting) (rs : List (ℕ × (Bool × Read))) (b : Broker)
    → (handle_connection s rs none b).broker ≢ b
    → LetIn s rs (handle_connection s rs none b).written
unfolding handle_connection one_round
handle_connection-LetIn s [] b h = absurd (h refl)
handle_connection-LetIn s ((now, (up, timeout)) ∷ rs) b h = absurd (h refl)
handle_connection-LetIn s ((now, (up, failure)) ∷ rs) b h = absurd (h refl)
handle_connection-LetIn s ((now, (up, packet (connect pk))) ∷ rs) b h =
    of_connecting-LetIn s b now up pk rs (handle_connection s rs)
      (handle_connect s.access s.auth_chain s.ip s.generated_id now up pk b) refl h
handle_connection-LetIn s ((now, (up, packet (subscribe id fs q))) ∷ rs) b h = absurd (h refl)
handle_connection-LetIn s ((now, (up, packet (publish p))) ∷ rs) b h = absurd (h refl)
handle_connection-LetIn s ((now, (up, packet (puback id))) ∷ rs) b h = absurd (h refl)
handle_connection-LetIn s ((now, (up, packet (pubrec id))) ∷ rs) b h = absurd (h refl)
handle_connection-LetIn s ((now, (up, packet (pubrel_in id))) ∷ rs) b h = absurd (h refl)
handle_connection-LetIn s ((now, (up, packet (pubcomp_in id))) ∷ rs) b h = absurd (h refl)
handle_connection-LetIn s ((now, (up, packet pingreq)) ∷ rs) b h = absurd (h refl)
handle_connection-LetIn s ((now, (up, packet (unsubscribe id fs))) ∷ rs) b h = absurd (h refl)
handle_connection-LetIn s ((now, (up, packet disconnect)) ∷ rs) b h = absurd (h refl)
handle_connection-LetIn s ((now, (up, packet unknown)) ∷ rs) b h = absurd (h refl)
