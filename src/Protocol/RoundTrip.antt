-- ===== src/Protocol/RoundTrip.antt =====
-- What the encoders of pkg/protocol/mqtt write, its decoders read back.
use mathlib.Core.Path.{subst}
use emqx_go.Base.{
  sym, append-nil, ◌∙◌, ℕ, zero, suc, ◌+◌, ◌*◌, ◌/◌, ◌%◌, ◌<◌, ◌≡◌, refl, [], ◌∷◌, ◌++◌, arith,
  length, get_elem?, drop, length-append, take-append, drop-append, append_assoc, ok, ◌>>=◌,
}
use emqx_go.Protocol.Decode.{
  Bytes, FixedHeader, PublishPacket, Decoded, DecodeError, read_full, uint16_at, read_string,
  decode_fixed_header, decode_publish, read_failed, type_publish,
}
use emqx_go.Protocol.Encode.{be16, prefixed, qos_flags, publish_header, encode_publish}

pub read_full-append :
    (e : DecodeError) (xs ys : Bytes) → read_full e (length xs) (xs ++ ys) ≡ ok (xs, ys)
unfolding read_full
read_full-append e xs ys = ground (arith, length-append xs ys, take-append xs ys, drop-append xs ys)

-- What stands behind a known prefix, read at an index that is known to be so far.
pub get_elem?-append :
    (xs ys : Bytes) (i j : ℕ) → j ≡ length xs + i → get_elem? (xs ++ ys) j ≡ get_elem? ys i
get_elem?-append [] ys i j e = let e' : j ≡ i = omega arith in rw e' refl
get_elem?-append (x ∷ xs) ys i zero e = absurd (omega arith)
get_elem?-append (x ∷ xs) ys i (suc j) e = get_elem?-append xs ys i j (omega arith)

drop-append_add : (xs ys : Bytes) (i j : ℕ) → j ≡ length xs + i → drop j (xs ++ ys) ≡ drop i ys
drop-append_add [] ys i j e = let e' : j ≡ i = omega arith in rw e' refl
drop-append_add (x ∷ xs) ys i zero e = absurd (omega arith)
drop-append_add (x ∷ xs) ys i (suc j) e = drop-append_add xs ys i j (omega arith)

pub uint16_at-be16 :
    (xs ys : Bytes) (n : ℕ) → n < 65536 → uint16_at (xs ++ (be16 n ++ ys)) (length xs) ≡ ok n
unfolding uint16_at
uint16_at-be16 xs ys n h = ground (
  arith,
  get_elem?-append xs (be16 n ++ ys) 0 (length xs),
  get_elem?-append xs (be16 n ++ ys) 1 (length xs + 1),
)

length-prefixed :
    (xs s ys : Bytes) → length (xs ++ (prefixed s ++ ys)) ≡ length xs + 2 + length s + length ys
length-prefixed xs s ys = omega (arith, length-append xs (prefixed s ++ ys), length-append s ys)

drop-be16 : (xs ys : Bytes) (n : ℕ) → drop (length xs + 2) (xs ++ (be16 n ++ ys)) ≡ ys
drop-be16 xs ys n = drop-append_add xs (be16 n ++ ys) 2 (length xs + 2) refl

pub read_string-prefixed :
    (xs s ys : Bytes)
    → length s < 65536
    → read_string (xs ++ (prefixed s ++ ys)) (length xs) ≡ ok (s, length xs + 2 + length s)
unfolding read_string
read_string-prefixed xs s ys h = ground (
  arith,
  length-prefixed xs s ys,
  uint16_at-be16 xs (s ++ ys) (length s),
  drop-be16 xs (s ++ ys) (length s),
  take-append s ys,
)

-- Reading one PUBLISH packet off a stream: the fixed header, then the packet.
abbrev pub read_publish : Bytes → Decoded (PublishPacket × Bytes)
read_publish r = do (fh, r) ← decode_fixed_header r; decode_publish fh r

pub decode_fixed_header-cons :
    (b n : ℕ) (r : Bytes)
    → decode_fixed_header (b ∷ n ∷ r)
      ≡ ok (record { packet_type = b / 16; flags = b % 16; rem_length = n }, r)
unfolding decode_fixed_header
decode_fixed_header-cons b n r = ground arith

read_string_front :
    (s ys : Bytes) → length s < 65536 → read_string (prefixed s ++ ys) 0 ≡ ok (s, 2 + length s)
read_string_front s ys h = read_string-prefixed [] s ys h

drop_front : (s ys : Bytes) → drop (2 + length s) (prefixed s ++ ys) ≡ ys
drop_front s ys = drop-append_add (prefixed s) ys 0 (2 + length s) (omega arith)

drop_front-be16 :
    (s ys : Bytes) (n : ℕ) → drop (2 + length s + 2) (prefixed s ++ (be16 n ++ ys)) ≡ ys
drop_front-be16 s ys n =
    drop-append_add (prefixed s) (be16 n ++ ys) 2 (2 + length s + 2) (omega arith)

decode_publish-qos0 :
    (fh : FixedHeader) (topic payload rest : Bytes)
    → length topic < 65536
    → fh.flags / 2 % 4 ≡ 0
    → fh.rem_length ≡ length (prefixed topic ++ payload)
    → decode_publish fh ((prefixed topic ++ payload) ++ rest)
      ≡ ok (record { topic_name = topic; payload = payload }, rest)
unfolding decode_publish
decode_publish-qos0 fh topic payload rest h q n =
    rw (n, read_full-append, read_string_front, h) (ground (arith, drop_front topic payload))

decode_publish-qos12 :
    (fh : FixedHeader) (topic payload rest : Bytes) (id : ℕ)
    → length topic < 65536
    → 0 < fh.flags / 2 % 4
    → fh.rem_length ≡ length (prefixed topic ++ (be16 id ++ payload))
    → decode_publish fh ((prefixed topic ++ (be16 id ++ payload)) ++ rest)
      ≡ ok (record { topic_name = topic; payload = payload }, rest)
unfolding decode_publish
decode_publish-qos12 fh topic payload rest id h q n =
    rw
      (
        n,
        read_full-append (read_failed) (prefixed topic ++ (be16 id ++ payload)) rest,
        read_string_front topic (be16 id ++ payload) h,
      )
      (ground (arith, drop_front-be16 topic payload id, length-append topic (be16 id ++ payload)))

read_publish-cons :
    (b n : ℕ) (r : Bytes)
    → read_publish (b ∷ n ∷ r)
      ≡ decode_publish (record { packet_type = b / 16; flags = b % 16; rem_length = n }) r
read_publish-cons b n r = rw decode_fixed_header-cons refl

-- The fixed header that the encoder writes, as the decoder reads it.
abbrev publish_fixed_header : ℕ → ℕ → FixedHeader
publish_fixed_header qos n = record { packet_type = type_publish; flags = qos * 2; rem_length = n }

read_publish-encode_publish :
    (p : PublishPacket) (qos id : ℕ) (rest vh : Bytes)
    → qos < 3
    → publish_header p qos id ≡ vh
    → length vh + length p.payload < 256
    → read_publish (encode_publish p qos id ++ rest)
      ≡ decode_publish
          (publish_fixed_header qos (length (vh ++ p.payload)))
          ((vh ++ p.payload) ++ rest)
unfolding encode_publish
read_publish-encode_publish p qos id rest vh hq e hn =
    let b : (type_publish * 16 + qos_flags qos) / 16 ≡ type_publish = omega arith in
    let f : (type_publish * 16 + qos_flags qos) % 16 ≡ qos * 2 = omega arith in
    let n : (length vh + length p.payload) % 256 ≡ length (vh ++ p.payload) =
      omega (arith, length-append vh p.payload) in
    read_publish-cons _ _ ((publish_header p qos id ++ p.payload) ++ rest) ∙ cc (b, f, n, e)

publish_header-zero : (p : PublishPacket) (id : ℕ) → publish_header p 0 id ≡ prefixed p.topic_name
unfolding publish_header
publish_header-zero p id = rw (append-nil p.topic_name) refl

publish_header-suc :
    (p : PublishPacket) (qos id : ℕ)
    → publish_header p (suc qos) id ≡ prefixed p.topic_name ++ be16 id
unfolding publish_header
publish_header-suc p qos id = ground arith

-- A PUBLISH packet that fits one length byte, at QoS 0, 1 or 2 and with any packet id, is read back
-- with its topic and its payload, and what follows it on the stream is left.
pub publish_roundtrip :
    (p : PublishPacket) (qos id : ℕ) (rest : Bytes)
    → qos < 3
    → length (publish_header p qos id) + length p.payload < 256
    → read_publish (encode_publish p qos id ++ rest) ≡ ok (p, rest)
publish_roundtrip p zero id rest hq hn =
    let e = publish_header-zero p id in
    let hn' : length (prefixed p.topic_name) + length p.payload < 256 = rw e at hn in
    read_publish-encode_publish p 0 id rest _ hq e hn'
    ∙ decode_publish-qos0 (publish_fixed_header 0 _) p.topic_name p.payload rest (omega arith)
        (omega arith) refl
publish_roundtrip p (suc qos) id rest hq hn =
    let e = publish_header-suc p qos id in
    let hn' : length (prefixed p.topic_name ++ be16 id) + length p.payload < 256 = rw e at hn in
    read_publish-encode_publish p (suc qos) id rest _ hq e hn'
    ∙ subst
        (λ xs.
          decode_publish (publish_fixed_header (suc qos) (length xs)) (xs ++ rest) ≡ ok (p, rest))
        (sym (append_assoc (prefixed p.topic_name) (be16 id) p.payload))
        (decode_publish-qos12 (publish_fixed_header (suc qos) _) p.topic_name p.payload rest id
          (omega (arith, length-append p.topic_name (be16 id))) (omega arith) refl)
