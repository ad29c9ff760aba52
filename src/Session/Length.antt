-- ===== src/Session/Length.antt =====
-- The variable byte integers that encodePublishPacket of pkg/session/session.go writes, and the
-- decoding rule of MQTT.
use emqx_go.Base.{
  ℕ, zero, suc, ◌+◌, ◌*◌, ◌/◌, ◌%◌, ◌≤◌, ◌<◌, ◌≡◌, refl, true, List, [], ◌∷◌, ◌++◌, Option, none,
  some, arith, if◌then◌else◌, ltb, Bool-cases, inl, inr,
}

-- The loop `for n > 0`; a round leaves n / 128, so n rounds are enough.
unfoldable pub length_loop : ℕ → ℕ → List ℕ
length_loop zero n = []
length_loop (suc f) n =
    let rest = length_loop f (n / 128) in
    if ltb 0 n then (if ltb 0 (n / 128) then n % 128 + 128 else n % 128) ∷ rest else []

unfoldable pub encode_length : ℕ → List ℕ
unfolding length_loop
encode_length n = if ltb n 128 then n ∷ [] else length_loop n n

-- A variable byte integer: seven bits a byte, lowest first, with the high bit on all but the last.
unfoldable pub decode_length : List ℕ → Option (ℕ × List ℕ)
decode_length [] = none
decode_length (b ∷ bs) =
    if ltb b 128
    then some (b, bs)
    else elim (decode_length bs) [ none ↦ none | some (n, rest) ↦ some (b % 128 + 128 * n, rest) ]

ltb_pos : (n : ℕ) → 0 < n → ltb 0 n ≡ true
ltb_pos n pos = ground arith

length_loop_zero : (f : ℕ) → length_loop f 0 ≡ []
unfolding length_loop
length_loop_zero zero = refl
length_loop_zero (suc f) = refl

length_loop-decode :
    (f n : ℕ) (rest : List ℕ)
    → 0 < n
    → n ≤ f
    → decode_length (length_loop f n ++ rest) ≡ some (n, rest)
unfolding length_loop decode_length
length_loop-decode zero n rest pos h = absurd (omega arith)
length_loop-decode (suc f) n rest pos h = elim (Bool-cases (ltb 0 (n / 128))) [
  | inl more ↦
      let ih = length_loop-decode f (n / 128) rest (ground arith) (ground arith) in ground arith
  | inr last ↦
      let z : n / 128 ≡ 0 = ground arith in
      rw (ltb_pos n pos, last, z, length_loop_zero f) (ground arith)
]

-- What the encoder writes for a length, the rule of MQTT reads back, whatever follows it.
pub decode-encode_length :
    (n : ℕ) (rest : List ℕ) → decode_length (encode_length n ++ rest) ≡ some (n, rest)
unfolding encode_length
decode-encode_length n rest = elim (Bool-cases (ltb n 128)) [
  | inl small ↦ rw small (unfold decode_length in rw small refl)
  | inr large ↦ rw large (length_loop-decode n n rest (ground arith) (omega arith))
]
