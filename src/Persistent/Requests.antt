-- ===== src/Persistent/Requests.antt =====
-- Any sequence of calls of SessionManager in pkg/persistent/session.go.
use emqx_go.Base.{ℕ, Bool, List, [], ◌∷◌, Text, ok, err, panic, ◌>>=◌}
use emqx_go.Base.Map.{text_has_eq}
use emqx_go.Persistent.Types.{WillMessage}
use emqx_go.Persistent.Manager.{
  SessionManager, Managed, create_or_resume, disconnect, add_subscription, remove_subscription,
  set_will_message, queue_message, next_packet_id,
}

-- What is asked of the manager, with the time at which it is asked.
pub data Request : Type 0 where
  connect : Bool → ℕ → Request
  leave : Bool → Request
  add : Text → ℕ → Request
  remove : Text → Request
  set_will : WillMessage → Request
  queue : Text → List ℕ → ℕ → Bool → Request
  next_id : Request

unfoldable pub request : ℕ → Text → Request → SessionManager → Managed
request now client (connect clean expiry) m = ok (create_or_resume now client clean expiry m).1
request now client (leave graceful) m = disconnect now client graceful m
request now client (add topic qos) m = add_subscription now client topic qos m
request now client (remove topic) m = remove_subscription now client topic m
request now client (set_will will) m = set_will_message client will m
request now client (queue topic payload qos retain) m =
    queue_message now client topic payload qos retain m
request now client next_id m = next_packet_id client m >>= λ r. ok r.1

abbrev carry_on : SessionManager → Managed → (SessionManager → Managed) → Managed
carry_on m (ok m') next = next m'
carry_on m (err e) next = next m
carry_on m panic next = panic

-- A request that fails with an error leaves the manager as it is; a panic ends the run.
unfoldable pub requests : List (ℕ × (Text × Request)) → SessionManager → Managed
unfolding request
requests [] m = ok m
requests ((now, (client, r)) ∷ rs) m = carry_on m (request now client r m) (requests rs)
