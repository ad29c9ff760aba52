-- ===== src/Broker/Connected.antt =====
-- Who gets a session, in pkg/broker/broker.go.
use mathlib.Core.Path.{subst}
use emqx_go.Base.{
  ==_iff, sym, ◌==◌, if◌then◌else◌, ℕ, ◌∙◌, ◌≡◌, ◌≢◌, ◌⊎◌, inl, inr, refl, Bool, true, false, List,
  [], ◌∷◌, Option, none, some, Text, arith, Bool-cases,
}
use emqx_go.Base.Map.{lookup, text_has_eq, lookup-insert_self}
use emqx_go.Auth.{AuthResult, success, failure, error, ignore, AuthChain, run_chain}
use emqx_go.Broker.State.{Broker}
use emqx_go.Broker.Sessions.{register_session}
use emqx_go.Broker.Connection.{
  connack, Reply, reply, write_packet, Task, Verdict, allowed, denied, failed, AccessControl,
}
use emqx_go.Broker.Connect.{
  ConnectIn, Client, Connecting, refused, connected, connect_violation, refuse, id_of, username_of,
  password_of, is_test_client, auth_result, connack_code, establish, if_written, after_auth,
  after_blacklist, unless_refused, handle_connect,
}

-- What the connection must have passed for a client to be there.
pub data Admitted (ac : AccessControl) (chain : AuthChain) (ip id : Text) (c : ConnectIn)
    : Type 0 where
  is_admitted :
      connect_violation c ≡ none
      → ac.client_connection id (username_of c) ip ≡ allowed
      → (is_test_client id ≡ true)
        ⊎ ((run_chain (username_of c) (password_of c) chain ≡ success)
            ⊎ (run_chain (username_of c) (password_of c) chain ≡ ignore))
      → Admitted ac chain ip id c

refuse-ne-connected :
    (up : Bool) (code : Option ℕ) (client : Client) (b : Broker) (written : List Reply)
    (tasks : List Task)
    → refuse up code ≢ connected client b written tasks
refuse-ne-connected up none client b written tasks = λ e. cc
refuse-ne-connected up (some code) client b written tasks = λ e. cc

module _ (client : Client) (b' : Broker) (written : List Reply) (tasks : List Task) where
  unless_refused-connected :
      (v : Option (Option ℕ)) (up : Bool) (r : Connecting)
      → unless_refused v up r ≡ connected client b' written tasks
      → (v ≡ none) × (r ≡ connected client b' written tasks)
  unless_refused-connected none up r h = (refl, h)
  unless_refused-connected (some code) up r h =
      absurd (refuse-ne-connected up code client b' written tasks h)

  after_blacklist-connected :
      (v : Verdict) (chain : AuthChain) (up : Bool) (now : ℕ) (id : Text) (c : ConnectIn)
      (b : Broker)
      → after_blacklist v chain up now id c b ≡ connected client b' written tasks
      → (v ≡ allowed)
        × (after_auth up
              (connack_code (auth_result chain id (username_of c) (password_of c)))
              now
              id
              c
              b
            ≡ connected client b' written tasks)
  after_blacklist-connected allowed chain up now id c b h = (refl, h)
  after_blacklist-connected denied chain up now id c b h = absurd cc
  after_blacklist-connected failed chain up now id c b h =
      absurd (refuse-ne-connected up (some 0x80) client b' written tasks h)

  if_written-connected :
      (up : Bool) (r : Connecting)
      → if_written (write_packet up (reply connack 0 0)) r ≡ connected client b' written tasks
      → (up ≡ true) × (r ≡ connected client b' written tasks)
  unfolding write_packet
  if_written-connected true r h = (refl, h)
  if_written-connected false r h = absurd cc

  after_auth-connected :
      (up : Bool) (code now : ℕ) (id : Text) (c : ConnectIn) (b : Broker)
      → after_auth up code now id c b ≡ connected client b' written tasks
      → (code ≡ 0) × (up ≡ true) × (establish now id c b ≡ connected client b' written tasks)
  after_auth-connected up code now id c b h = elim (Bool-cases (code == 0)) [
    | inl is_zero ↦
        let step : after_auth up code now id c b
            ≡ if_written (write_packet up (reply connack 0 0)) (establish now id c b) =
          rw is_zero refl in
        let (went, e) = if_written-connected up (establish now id c b) (sym step ∙ h) in
        ((==_iff code 0).0 is_zero, went, e)
    | inr other ↦
        let step : after_auth up code now id c b ≡ refuse up (some code) = rw other refl in
        absurd (refuse-ne-connected up (some code) client b' written tasks (sym step ∙ h))
  ]

abbrev IsEstablished : Text → Connecting → Type 0
IsEstablished id (refused written) = Unit
IsEstablished id (connected client b written tasks) =
    (client.client_id ≡ id)
    × (lookup id b.sessions ≡ some client.mailbox)
    × (written ≡ reply connack 0 0 ∷ [])

establish-IsEstablished :
    (now : ℕ) (id : Text) (c : ConnectIn) (b : Broker) → IsEstablished id (establish now id c b)
unfolding establish register_session
establish-IsEstablished now id c b = (refl, lookup-insert_self id _ _, refl)

passed_auth :
    (is_test : Bool) (r : AuthResult)
    → connack_code (if is_test then ignore else r) ≡ 0
    → (is_test ≡ true) ⊎ ((r ≡ success) ⊎ (r ≡ ignore))
unfolding connack_code
passed_auth true r h = inl refl
passed_auth false success h = inr (inl refl)
passed_auth false ignore h = inr (inr refl)
passed_auth false failure h = absurd (omega arith)
passed_auth false error h = absurd (omega arith)

code-admitted :
    (chain : AuthChain) (id username password : Text)
    → connack_code (auth_result chain id username password) ≡ 0
    → (is_test_client id ≡ true)
      ⊎ ((run_chain username password chain ≡ success)
          ⊎ (run_chain username password chain ≡ ignore))
unfolding auth_result
code-admitted chain id username password h =
    passed_auth (is_test_client id) (run_chain username password chain) h

-- A CONNECT leads to a session only if the packet passes the checks, the blacklist allows the client,
-- and the chain of authenticators accepts the credentials or has no opinion, unless the client's id has
-- one of the test prefixes, for which the chain is not asked. The session is then the client's, its mailbox is the
-- one registered under the client's id, and what was written is a CONNACK of success.
pub handle_connect-Admitted :
    (ac : AccessControl) (chain : AuthChain) (ip generated : Text) (now : ℕ) (up : Bool)
    (c : ConnectIn) (b : Broker) (client : Client) (b' : Broker) (written : List Reply)
    (tasks : List Task)
    → handle_connect ac chain ip generated now up c b ≡ connected client b' written tasks
    → Admitted ac chain ip (id_of generated c) c
      × (client.client_id ≡ id_of generated c)
      × (lookup client.client_id b'.sessions ≡ some client.mailbox)
      × (written ≡ reply connack 0 0 ∷ [])
unfolding handle_connect
handle_connect-Admitted ac chain ip generated now up c b client b' written tasks h =
    let id = id_of generated c in
    let (valid, went) =
      unless_refused-connected client b' written tasks (connect_violation c) up _ h in
    let (let_in, went') =
      after_blacklist-connected client b' written tasks (ac.client_connection id (username_of c) ip)
        chain up now id c b went in
    let (code, up', e) = after_auth-connected client b' written tasks up _ now id c b went' in
    let (same, registered, wrote) =
      subst (IsEstablished id) e (establish-IsEstablished now id c b) in
    (
      is_admitted valid let_in (code-admitted chain id (username_of c) (password_of c) code),
      same,
      rw same registered,
      wrote,
    )
