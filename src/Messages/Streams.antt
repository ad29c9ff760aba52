-- ===== src/Messages/Streams.antt =====
-- The message streams of pkg/storage/messages/memory_backend.go: sequence numbers and retention.
use emqx_go.Base.{
  ℕ, suc, ◌+◌, ◌<◌, ◌≤◌, ◌≡◌, refl, ap, ◌∙◌, ◌⊎◌, inl, inr, true, false, List, [], ◌∷◌, ◌++◌, some,
  arith, ltb, leb, Bool-cases, length, length-append, drop, drop-append, All, append_assoc, Text,
}
use emqx_go.Base.Map.{lookup, lookup-insert_self, text_has_eq}
use emqx_go.Messages.Backend.{
  Message, StreamInfo, MemoryBackend, or_empty, stamp, append_loop, append_messages, first_after,
  apply_retention, meta_for,
}

-- A message from before the cutoff.
abbrev pub IsStale : ℕ → Message → Type 0
IsStale cutoff msg = msg.timestamp ≤ cutoff

-- The search for the first message to keep, from any index.
SplitsAt : ℕ → ℕ → List Message → Type 0
SplitsAt cutoff i msgs =
    (All (IsStale cutoff) msgs × (first_after cutoff i msgs ≡ 0))
    ⊎ ((old rest : List Message) × (msg : Message) × (msgs ≡ old ++ msg ∷ rest)
        × All (IsStale cutoff) old
        × (cutoff < msg.timestamp)
        × (first_after cutoff i msgs ≡ i + length old))

first_after_splits : (cutoff i : ℕ) (msgs : List Message) → SplitsAt cutoff i msgs
unfolding SplitsAt first_after
first_after_splits cutoff i [] = inl (tt, refl)
first_after_splits cutoff i (msg ∷ msgs) = elim (Bool-cases (ltb cutoff msg.timestamp)) [
  | inl newer ↦ inr ([], msgs, msg, refl, tt, ground arith, rw newer (omega arith))
  | inr stale ↦ elim (first_after_splits cutoff (i + 1) msgs) [
    | inl (all, none_found) ↦ inl ((ground arith, all), rw stale none_found)
    | inr (old, rest, m, split_at, all, newer, index) ↦ inr (
      msg ∷ old,
      rest,
      m,
      ap (◌∷◌ msg) split_at,
      (ground arith, all),
      newer,
      rw stale (omega (arith, index)),
    )
  ]
]

module _ (cutoff : ℕ) (stream : Text) (mb : MemoryBackend) (on : 0 < mb.retention_days) where
  apply_retention-none :
      first_after cutoff 0 (or_empty (lookup stream mb.streams)) ≡ 0
      → apply_retention cutoff stream mb ≡ mb
  unfolding apply_retention
  apply_retention-none h = let e : leb mb.retention_days 0 ≡ false = ground arith in rw (e, h) refl

  apply_retention-some :
      (n : ℕ)
      → first_after cutoff 0 (or_empty (lookup stream mb.streams)) ≡ suc n
      → or_empty (lookup stream (apply_retention cutoff stream mb).streams)
        ≡ drop (suc n) (or_empty (lookup stream mb.streams))
  unfolding apply_retention
  apply_retention-some n h =
      let e : leb mb.retention_days 0 ≡ false = ground arith in
      let pos : ltb 0 (suc n) ≡ true = ground arith in
      rw (e, h, pos)
        (ap or_empty (
          lookup-insert_self stream (drop (suc n) (or_empty (lookup stream mb.streams)))
            mb.streams))

-- With retention on: if a message of the stream is newer than the cutoff, what is left of the stream
-- starts at the first such message. If none is, the stream is left as it is, with all its old messages.
apply_retention_cases :
    (cutoff : ℕ) (stream : Text) (mb : MemoryBackend)
    → 0 < mb.retention_days
    → (All (IsStale cutoff) (or_empty (lookup stream mb.streams))
        × (apply_retention cutoff stream mb ≡ mb))
      ⊎ ((old rest : List Message) × (msg : Message) × (or_empty (lookup stream mb.streams)
            ≡ old ++ msg ∷ rest)
          × All (IsStale cutoff) old
          × (cutoff < msg.timestamp)
          × (or_empty (lookup stream (apply_retention cutoff stream mb).streams) ≡ msg ∷ rest))
unfolding SplitsAt
apply_retention_cases cutoff stream mb on =
    elim (first_after_splits cutoff 0 (or_empty (lookup stream mb.streams))) [
      | inl (all, none_found) ↦ inl (all, apply_retention-none cutoff stream mb on none_found)
      | inr ([], rest, msg, split_at, all, newer, index) ↦ inr (
        [],
        rest,
        msg,
        split_at,
        all,
        newer,
        rw (apply_retention-none cutoff stream mb on index) split_at,
      )
      | inr (m ∷ old, rest, msg, split_at, all, newer, index) ↦ inr (
        m ∷ old,
        rest,
        msg,
        split_at,
        all,
        newer,
        (apply_retention-some cutoff stream mb on (length old) (omega (arith, index))
            ∙ ap (drop (suc (length old))) split_at
            ∙ drop-append (m ∷ old) (msg ∷ rest)),
      )
    ]

append_messages-off :
    (now cutoff : ℕ) (stream : Text) (msgs : List Message) (mb : MemoryBackend)
    → mb.retention_days ≡ 0
    → (lookup stream (append_messages now cutoff stream msgs mb).streams
        ≡ some
            (append_loop now stream 0 msgs
              (or_empty (lookup stream mb.streams))
              (meta_for now stream (lookup stream mb.streams) (lookup stream mb.stream_meta))).0)
      × ((append_messages now cutoff stream msgs mb).retention_days ≡ 0)
unfolding append_messages apply_retention
append_messages-off now cutoff stream msgs mb off =
    rw off (lookup-insert_self stream _ mb.streams, refl)

append_loop-one :
    (now : ℕ) (stream : Text) (msg : Message) (so_far : List Message) (meta : StreamInfo)
    → (append_loop now stream 0 (msg ∷ []) so_far meta).0
      ≡ so_far ++ stamp now stream 0 so_far msg ∷ []
unfolding append_loop
append_loop-one now stream msg so_far meta = refl

-- With retention off: after a batch of two messages and one of one, the last two messages of the
-- stream have the same sequence number, whatever stood in the stream before.
append_messages-same_sequence :
    (now cutoff : ℕ) (stream : Text) (first second third : Message) (mb : MemoryBackend)
    → mb.retention_days ≡ 0
    → (a b c : Message) × (lookup stream
          (append_messages now cutoff stream
            (third ∷ [])
            (append_messages now cutoff stream (first ∷ second ∷ []) mb)).streams
        ≡ some (or_empty (lookup stream mb.streams) ++ a ∷ b ∷ c ∷ []))
      × (b.payload ≡ second.payload)
      × (c.payload ≡ third.payload)
      × (b.sequence_no ≡ c.sequence_no)
unfolding append_loop stamp
append_messages-same_sequence now cutoff stream first second third mb off =
    let old = or_empty (lookup stream mb.streams) in
    let mb1 = append_messages now cutoff stream (first ∷ second ∷ []) mb in
    let (stored, still_off) = append_messages-off now cutoff stream (first ∷ second ∷ []) mb off in
    let (stored', _) = append_messages-off now cutoff stream (third ∷ []) mb1 still_off in
    let a = stamp now stream 0 old first in
    let b = stamp now stream 1 (old ++ a ∷ []) second in
    let c = stamp now stream 0 ((old ++ a ∷ []) ++ b ∷ []) third in
    let e : or_empty (lookup stream mb1.streams) ≡ (old ++ a ∷ []) ++ b ∷ [] = ap or_empty stored in
    (
      a,
      b,
      c,
      (stored'
          ∙ ap some (
              append_loop-one now stream third (or_empty (lookup stream mb1.streams))
                (meta_for now stream (lookup stream mb1.streams) (lookup stream mb1.stream_meta))
              ∙ ap (λ s. s ++ stamp now stream 0 s third ∷ []) e
              ∙ append_assoc (old ++ a ∷ []) (b ∷ []) (c ∷ [])
              ∙ append_assoc old (a ∷ []) (b ∷ c ∷ []))),
      refl,
      refl,
      omega (arith, length-append old (a ∷ []), length-append (old ++ a ∷ []) (b ∷ [])),
    )
