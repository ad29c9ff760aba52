-- ===== src/Protocol/Subscribe.antt =====
-- DecodeSubscribe of pkg/protocol/mqtt/parser.go, against the layout of a SUBSCRIBE packet.
use emqx_go.Base.{
  >>=-ne-err, lt→ltb, ◌∙◌, sym, append-nil, ℕ, zero, suc, ◌+◌, ◌-◌, ◌≤◌, ◌<◌, ◌≡◌, refl, ◌≢◌, inl,
  inr, Bool, true, false, List, [], ◌∷◌, ◌++◌, some, arith, ap, if◌then◌else◌, ltb, Bool-cases,
  length, get_elem?, length-append, append_assoc, Text, ok, err,
}
use emqx_go.Protocol.Decode.{
  read_failed, Bytes, FixedHeader, SubscribePacket, read_full, uint16_at, read_string,
  subscribe_loop, decode_subscribe, out_of_fuel, index,
}
use emqx_go.Protocol.Encode.{be16, prefixed}
use emqx_go.Protocol.RoundTrip.{
  uint16_at-be16, read_string-prefixed, read_full-append, get_elem?-append,
}

-- The payload of a SUBSCRIBE packet: each filter behind its length, then its QoS.
unfoldable pub topic_filters : List (Text × ℕ) → Bytes
topic_filters [] = []
topic_filters ((topic, qos) ∷ ts) = prefixed topic ++ qos ∷ topic_filters ts

unfoldable pub filters_fit : List (Text × ℕ) → Bool
filters_fit [] = true
filters_fit ((topic, qos) ∷ ts) = if ltb (length topic) 65536 then filters_fit ts else false

pub topics_of : List (Text × ℕ) → List Text
topics_of [] = []
topics_of ((topic, qos) ∷ ts) = topic ∷ topics_of ts

pub qoss_of : List (Text × ℕ) → List ℕ
qoss_of [] = []
qoss_of ((topic, qos) ∷ ts) = qos ∷ qoss_of ts

snoc_assoc {ℓ} : {A : Type ℓ} (xs ys : List A) (y : A) → (xs ++ y ∷ []) ++ ys ≡ xs ++ y ∷ ys
snoc_assoc xs ys y = append_assoc xs (y ∷ []) ys

module _ (pre : Bytes) (topic : Text) (qos : ℕ) (rest : Bytes) where
  filter_at : Bytes
  filter_at = pre ++ (prefixed topic ++ qos ∷ rest)

  qos_at : get_elem? filter_at (length pre + 2 + length topic) ≡ some qos
  unfolding filter_at
  qos_at =
      get_elem?-append pre (prefixed topic ++ qos ∷ rest) (2 + length topic) _ (omega arith)
      ∙ get_elem?-append (prefixed topic) (qos ∷ rest) 0 (2 + length topic) (omega arith)

  length-filter_at : length filter_at ≡ length pre + 2 + length topic + 1 + length rest
  unfolding filter_at
  length-filter_at =
      omega
        (arith, length-append pre (prefixed topic ++ qos ∷ rest), length-append topic (qos ∷ rest))

  filter_at_assoc : filter_at ≡ (pre ++ (prefixed topic ++ qos ∷ [])) ++ rest
  unfolding filter_at
  filter_at_assoc = sym (
      append_assoc pre (prefixed topic ++ qos ∷ []) rest
      ∙ ap (λ t. pre ++ t) (append_assoc (prefixed topic) (qos ∷ []) rest))

-- From any offset the loop reads the filters that are left, and its fuel is enough.
subscribe_loop-topic_filters :
    (f : ℕ) (pre buf : Bytes) (o : ℕ) (ts : List (Text × ℕ)) (p : SubscribePacket)
    → buf ≡ pre ++ topic_filters ts
    → o ≡ length pre
    → filters_fit ts ≡ true
    → length (topic_filters ts) < f
    → subscribe_loop f buf o p
      ≡ ok (record p { topics = p.topics ++ topics_of ts; qoss = p.qoss ++ qoss_of ts })
unfolding subscribe_loop topic_filters filters_fit topics_of qoss_of
subscribe_loop-topic_filters zero pre buf o ts p e l h lt = absurd (omega arith)
subscribe_loop-topic_filters (suc f) pre buf o [] p e l h lt =
    ground (arith, append-nil pre, append-nil p.topics, append-nil p.qoss)
subscribe_loop-topic_filters (suc f) pre buf o ((topic, qos) ∷ ts) p e l h lt =
    let rest = topic_filters ts in
    let fits : length topic < 65536 = ground arith in
    let e' : buf ≡ filter_at pre topic qos rest = unfold filter_at in e in
    let read : read_string buf o ≡ ok (topic, length pre + 2 + length topic) =
      rw (e, l) (read_string-prefixed pre topic (qos ∷ rest) fits) in
    let at : get_elem? buf (length pre + 2 + length topic) ≡ some qos =
      rw e' (qos_at pre topic qos rest) in
    let more : ltb o (length buf) ≡ true =
      lt→ltb o (length buf) (rw (e', l) (omega (arith, length-filter_at pre topic qos rest))) in
    let ih =
      subscribe_loop-topic_filters f (pre ++ (prefixed topic ++ qos ∷ [])) buf
        (length pre + 2 + length topic + 1) ts
        (record p { topics = p.topics ++ topic ∷ []; qoss = p.qoss ++ qos ∷ [] })
        (e' ∙ filter_at_assoc pre topic qos rest)
        (omega
          (arith, length-append pre (prefixed topic ++ qos ∷ []), length-append topic (qos ∷ [])))
        (ground arith) (omega (arith, length-append topic (qos ∷ rest))) in
    rw (more, read, at)
      (ih ∙ cc (snoc_assoc p.topics (topics_of ts) topic, snoc_assoc p.qoss (qoss_of ts) qos))

-- A well-formed SUBSCRIBE packet, whose filters have fewer than 65536 bytes each, is read with its message id and with each
-- filter beside its QoS, in order, and what follows it on the stream is left.
pub decode_subscribe-topic_filters :
    (fh : FixedHeader) (id : ℕ) (ts : List (Text × ℕ)) (rest : Bytes)
    → id < 65536
    → filters_fit ts ≡ true
    → fh.rem_length ≡ length (be16 id ++ topic_filters ts)
    → decode_subscribe fh ((be16 id ++ topic_filters ts) ++ rest)
      ≡ ok (record { message_id = id; topics = topics_of ts; qoss = qoss_of ts }, rest)
unfolding decode_subscribe
decode_subscribe-topic_filters fh id ts rest hid h n =
    let body = be16 id ++ topic_filters ts in
    ground (
      arith,
      read_full-append read_failed body rest,
      uint16_at-be16 [] (topic_filters ts) id hid,
      subscribe_loop-topic_filters (length body + 1) (be16 id) body 2 ts
          (record { message_id = id; topics = []; qoss = [] }) refl refl h (omega arith),
    )

read_string-ne-out_of_fuel : (b : Bytes) (o : ℕ) → read_string b o ≢ err out_of_fuel
unfolding read_string
read_string-ne-out_of_fuel b o = ground arith

index-ne-out_of_fuel : (b : Bytes) (o : ℕ) → index b o ≢ err out_of_fuel
index-ne-out_of_fuel b o = ground arith

read_string-offset : (b : Bytes) (o : ℕ) (r : Text × ℕ) → read_string b o ≡ ok r → o + 2 ≤ r.1
unfolding read_string
read_string-offset b o r h = ground arith

-- Each round moves the offset on, so as many rounds as there are bytes left are enough.
subscribe_loop-fuel :
    (f : ℕ) (buf : Bytes) (o : ℕ) (p : SubscribePacket)
    → length buf - o < f
    → subscribe_loop f buf o p ≢ err out_of_fuel
unfolding subscribe_loop
subscribe_loop-fuel zero buf o p h = absurd (omega arith)
subscribe_loop-fuel (suc f) buf o p h = elim (Bool-cases (ltb o (length buf))) [
  | inr stop ↦ rw stop (λ e. cc)
  | inl more ↦ rw more (
      >>=-ne-err out_of_fuel (read_string buf o) _ (read_string-ne-out_of_fuel buf o) λ r e.
        >>=-ne-err out_of_fuel (index buf r.1) _ (index-ne-out_of_fuel buf r.1) λ qos e'.
          subscribe_loop-fuel f buf (r.1 + 1) _ (ground (arith, read_string-offset buf o r)))
]

-- Whatever the header and the bytes, the loop ends within its fuel.
decode_subscribe-ne-out_of_fuel :
    (fh : FixedHeader) (r : Bytes) → decode_subscribe fh r ≢ err out_of_fuel
unfolding decode_subscribe
decode_subscribe-ne-out_of_fuel fh r =
    >>=-ne-err out_of_fuel (read_full read_failed fh.rem_length r) _
      (unfold read_full in ground arith)
      λ b e. >>=-ne-err out_of_fuel (uint16_at b.0 0) _ (unfold uint16_at in ground arith) λ id e'.
        >>=-ne-err out_of_fuel (subscribe_loop (length b.0 + 1) b.0 2 _) _
          (subscribe_loop-fuel (length b.0 + 1) b.0 2 _ (omega arith)) λ p e''. λ h. cc
