-- ===== src/Broker/Granted.antt =====
-- What a SUBSCRIBE packet grants, and what is sent for it, in pkg/broker/broker.go.
use emqx_go.Base.{
  ℕ, ◌<◌, ◌≡◌, refl, ap, ◌∙◌, inl, inr, Bool, true, false, List, [], ◌∷◌, Option, none, some, arith,
  ◌==◌, Option-cases, map, Text, In, In-append_left, In-append_right,
}
use emqx_go.Session.Actor.{Message}
use emqx_go.Retainer.{RetainedMessage, get_retained_messages}
use emqx_go.Broker.State.{Broker, send_all}
use emqx_go.Broker.Connection.{
  suback, reply_codes, write_packet, Filter, send_retained, AccessControl,
}
use emqx_go.Broker.Subscribe.{
  refusal, store_subscription, filter_codes, handle_subscribe, retained_delivery, retained_for,
  send_retained_messages,
}

-- The code that answers a filter: the refusal, or else the QoS that was asked for.
abbrev pub code_of : Option ℕ → ℕ → ℕ
code_of none qos = qos
code_of (some code) qos = code

-- The broker after the granted filters, one after the other, and nothing of the others.
abbrev stored_if : Option ℕ → ℕ → ℕ → Text → Filter → Broker → Broker
stored_if none now mb client f b = store_subscription now mb client f b
stored_if (some code) now mb client f b = b

pub grant_all : AccessControl → Text → ℕ → ℕ → Text → List Filter → Broker → Broker
grant_all ac ip now mb client [] b = b
grant_all ac ip now mb client (f ∷ fs) b =
    grant_all ac ip now mb client fs (stored_if (refusal ac ip client f) now mb client f b)

module _ (ac : AccessControl) (ip : Text) (now mb : ℕ) (client : Text) where
  filter_codes-map :
      (fs : List Filter) (b : Broker)
      → filter_codes ac ip now mb client fs b
        ≡ (map (λ f. code_of (refusal ac ip client f) f.qos) fs, grant_all ac ip now mb client fs b)
  unfolding filter_codes grant_all
  filter_codes-map [] b = refl
  filter_codes-map (f ∷ fs) b = elim (Option-cases (refusal ac ip client f)) [
    | inl granted ↦
        rw granted (
          ap (λ r. (f.qos ∷ r.0, r.1)) (filter_codes-map fs (store_subscription now mb client f b)))
    | inr (code, refused) ↦ rw refused (ap (λ r. (code ∷ r.0, r.1)) (filter_codes-map fs b))
  ]

  stored_if-retainer :
      (o : Option ℕ) (f : Filter) (b : Broker)
      → (stored_if o now mb client f b).retainer ≡ b.retainer
  unfolding store_subscription
  stored_if-retainer none f b = refl
  stored_if-retainer (some code) f b = refl

  grant_all-retainer :
      (fs : List Filter) (b : Broker) → (grant_all ac ip now mb client fs b).retainer ≡ b.retainer
  unfolding grant_all
  grant_all-retainer [] b = refl
  grant_all-retainer (f ∷ fs) b =
      grant_all-retainer fs (stored_if (refusal ac ip client f) now mb client f b)
      ∙ stored_if-retainer (refusal ac ip client f) f b

  abbrev pub codes_of : List Filter → List ℕ
  codes_of = map (λ f. code_of (refusal ac ip client f) f.qos)

  -- A SUBSCRIBE packet with a packet id and at least one filter, on a connection that is up, is answered
  -- with one code for each filter, in order: the QoS that was asked for, or the code of the refusal. The
  -- broker is then as after the granted filters alone.
  pub handle_subscribe-codes :
      (id : ℕ) (f : Filter) (fs : List Filter) (invalid_qos : Bool) (b : Broker)
      → 0 < id
      → handle_subscribe ac ip now true mb client id (f ∷ fs) invalid_qos b ≡ record {
        broker = grant_all ac ip now mb client (f ∷ fs) b;
        written = reply_codes suback id (codes_of (f ∷ fs)) ∷ [];
        is_open = true;
        tasks = send_retained mb (f ∷ fs) ∷ [];
      }
  unfolding handle_subscribe write_packet
  handle_subscribe-codes id f fs invalid_qos b pos =
      let some_id : (id == 0) ≡ false = ground arith in
      rw (handle_subscribe, filter_codes-map (f ∷ fs) b, some_id) refl

In-map :
    (mb qos : ℕ) (msg : RetainedMessage) (msgs : List RetainedMessage)
    → In msg msgs
    → In (retained_delivery mb qos msg) (map (retained_delivery mb qos) msgs)
In-map mb qos msg [] h = absurd h
In-map mb qos msg (x ∷ msgs) (inl e) = rw e (inl refl)
In-map mb qos msg (x ∷ msgs) (inr h) = inr (In-map mb qos msg msgs h)

module _ (now mb : ℕ) where
  sent-send_retained_messages :
      (d : ℕ × Message) (fs : List Filter) (b : Broker)
      → In d b.sent
      → In d (send_retained_messages now mb fs b).sent
  unfolding send_retained_messages
  sent-send_retained_messages d [] b h = h
  sent-send_retained_messages d (f ∷ fs) b h =
      sent-send_retained_messages d fs (send_all (retained_for now mb f b) b)
        (In-append_left d b.sent (retained_for now mb f b) h)

  send_retained_messages-In :
      (f : Filter) (msg : RetainedMessage) (fs : List Filter) (b : Broker)
      → In f fs
      → In msg (get_retained_messages now f.filter b.retainer)
      → In (retained_delivery mb f.qos msg) (send_retained_messages now mb fs b).sent
  unfolding send_retained_messages
  send_retained_messages-In f msg [] b h i = absurd h
  send_retained_messages-In f msg (x ∷ fs) b (inl e) i =
      sent-send_retained_messages (retained_delivery mb f.qos msg) fs
        (send_all (retained_for now mb x b) b)
        (rw (← e) (
          In-append_right (retained_delivery mb f.qos msg) b.sent (retained_for now mb f b)
            (In-map mb f.qos msg (get_retained_messages now f.filter b.retainer) i)))
  send_retained_messages-In f msg (x ∷ fs) b (inr h) i =
      send_retained_messages-In f msg fs (send_all (retained_for now mb x b) b) h i

-- The retained messages of a refused filter are sent too: whatever refuses a filter of an answered
-- SUBSCRIBE packet, each message that is retained for it reaches the mailbox of the client.
handle_subscribe-refused_retained :
    (ac : AccessControl) (ip : Text) (now later mb : ℕ) (client : Text) (id code : ℕ)
    (first f : Filter) (fs : List Filter) (msg : RetainedMessage) (b : Broker)
    → 0 < id
    → In f (first ∷ fs)
    → refusal ac ip client f ≡ some code
    → In msg (get_retained_messages later f.filter b.retainer)
    → ((handle_subscribe ac ip now true mb client id (first ∷ fs) false b).tasks
        ≡ send_retained mb (first ∷ fs) ∷ [])
      × In
          (retained_delivery mb f.qos msg)
          (send_retained_messages later mb
            (first ∷ fs)
            (handle_subscribe ac ip now true mb client id (first ∷ fs) false b).broker).sent
handle_subscribe-refused_retained ac ip now later mb client id code first f fs msg b pos h refused
      i =
    let e = handle_subscribe-codes ac ip now mb client id first fs false b pos in
    let same = grant_all-retainer ac ip now mb client (first ∷ fs) b in
    rw e (
      refl,
      send_retained_messages-In later mb f msg (first ∷ fs)
          (grant_all ac ip now mb client (first ∷ fs) b) h (rw same i),
    )
