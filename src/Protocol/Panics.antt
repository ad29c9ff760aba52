-- ===== src/Protocol/Panics.antt =====
-- DecodeConnect of pkg/protocol/mqtt/parser.go: it checks the protocol name, and then reads the version,
-- the flags and the keep-alive without a look at the length.
use emqx_go.Base.{
  get_elem?-some, ltb→lt, inr, inl, Bool-cases, ◌↔◌, ℕ, ◌+◌, ◌<◌, ◌≤◌, ◌≡◌, refl, ◌≢◌, [], ◌∷◌,
  ◌++◌, arith, ltb, length, codes, ok, panic, ◌>>=◌,
}
use emqx_go.Protocol.Decode.{short_packet, Bytes, read_string, decode_connect, decode_connect_body}
use emqx_go.Protocol.Encode.{prefixed}
use emqx_go.Protocol.RoundTrip.{decode_fixed_header-cons, read_full-append}

-- The body of a CONNECT packet: the protocol name, and what follows it.
abbrev pub connect_body : Bytes → Bytes
connect_body rest = prefixed (codes "MQTT") ++ rest

body_panics : (rest : Bytes) → length rest < 4 → decode_connect_body (connect_body rest) ≡ panic
unfolding decode_connect_body
body_panics [] h = refl
body_panics (v ∷ []) h = refl
body_panics (v ∷ f ∷ []) h = refl
body_panics (v ∷ f ∷ k ∷ []) h = refl
body_panics (v ∷ f ∷ k ∷ l ∷ rest) h = absurd (omega arith)

read_string-ne-panic : (b : Bytes) (o : ℕ) → read_string b o ≢ panic
unfolding read_string
read_string-ne-panic b o = λ e. elim (Bool-cases (ltb (length b) (o + 2))) [
  | inl short ↦ ground arith
  | inr long ↦
      let (hi, at_hi) = get_elem?-some b o (ground arith) in
      let (lo, at_lo) = get_elem?-some b (o + 1) (ground arith) in ground arith
]

body_ends : (rest : Bytes) → 4 ≤ length rest → decode_connect_body (connect_body rest) ≢ panic
unfolding decode_connect_body
body_ends (v ∷ f ∷ k ∷ l ∷ rest) h =
    λ e. ground (arith, read_string-ne-panic (0 ∷ 4 ∷ 77 ∷ 81 ∷ 84 ∷ 84 ∷ v ∷ f ∷ k ∷ l ∷ rest) 10)
body_ends rest h = absurd (omega arith)

read_connect :
    (flags : ℕ) (rest more : Bytes)
    → flags < 16
    → decode_connect ((16 + flags) ∷ length (connect_body rest) ∷ (connect_body rest ++ more))
      ≡ (do packet ← decode_connect_body (connect_body rest); ok (packet, more))
unfolding decode_connect
read_connect flags rest more h = ground (
  arith,
  decode_fixed_header-cons (16 + flags) (length (connect_body rest)) (connect_body rest ++ more),
  read_full-append short_packet (connect_body rest) more,
)

-- On a CONNECT packet with the right protocol name, alone or with bytes behind it on the stream, the
-- decoder panics exactly when fewer than four bytes follow the name.
decode_connect-panic_iff :
    (flags : ℕ) (rest more : Bytes)
    → flags < 16
    → (decode_connect ((16 + flags) ∷ length (connect_body rest) ∷ (connect_body rest ++ more))
        ≡ panic)
      ↔ (length rest < 4)
unfolding decode_connect
decode_connect-panic_iff flags rest more h =
    let e = read_connect flags rest more h in
    (
      λ p. elim (Bool-cases (ltb (length rest) 4)) [
        | inl short ↦ ltb→lt (length rest) 4 short
        | inr long ↦ absurd (ground (arith, body_ends rest))
      ],
      λ short. rw (e, body_panics rest short) refl,
    )
