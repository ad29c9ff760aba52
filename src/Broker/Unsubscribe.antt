-- ===== src/Broker/Unsubscribe.antt =====
-- The handling of an UNSUBSCRIBE packet in handleConnection of pkg/broker/broker.go, on a connection
-- that has a session. Without a cluster manager no route is removed.
use emqx_go.Base.{
  ℕ, Bool, List, [], ◌∷◌, if◌then◌else◌, ◌==◌, Text, is_empty, Outcome, ok, err, panic,
}
use emqx_go.Topic.Store
use emqx_go.Persistent.Types.{SessionError}
use emqx_go.Persistent.Manager.{SessionManager, remove_subscription}
use emqx_go.Broker.State.{Broker}
use emqx_go.Broker.Connection.{unsuback, reply_codes, write_packet, Handled, closed}
use emqx_go.Broker.Subscribe.{answered}

abbrev pub with_result : Outcome SessionError SessionManager → Broker → ℕ × Broker
with_result (ok m) b = (0, record b { persistent_sessions = m })
with_result (err e) b = (0x80, b)
with_result panic b = (0x80, b)

-- One round of the loop: the reason code, and the broker.
unfoldable pub remove_filter : ℕ → ℕ → Text → Text → Broker → ℕ × Broker
remove_filter now mb client f b =
    let b' = record b { topics = Store.unsubscribe f mb b.topics } in
    if is_empty f
    then (0x11, b)
    else with_result (remove_subscription now client f b.persistent_sessions) b'

unfoldable pub remove_filters : ℕ → ℕ → Text → List Text → Broker → List ℕ × Broker
unfolding remove_filter
remove_filters now mb client [] b = ([], b)
remove_filters now mb client (f ∷ fs) b =
    let (code, b1) = remove_filter now mb client f b in
    let (cs, b2) = remove_filters now mb client fs b1 in (code ∷ cs, b2)

unfoldable pub handle_unsubscribe : ℕ → Bool → ℕ → Text → ℕ → List Text → Broker → Handled
unfolding remove_filters
handle_unsubscribe now up mb client id [] b =
    if id == 0
    then closed b (write_packet up (reply_codes unsuback 1 (0x80 ∷ []))).1
    else closed b (write_packet up (reply_codes unsuback id (0x83 ∷ []))).1
handle_unsubscribe now up mb client id (f ∷ fs) b =
    let (cs, b') = remove_filters now mb client (f ∷ fs) b in
    if id == 0
    then closed b (write_packet up (reply_codes unsuback 1 (0x80 ∷ []))).1
    else answered b' [] (write_packet up (reply_codes unsuback id cs))
