-- ===== src/Broker/Duplicate.antt =====
-- markAndCheckDuplicate of pkg/broker/broker.go: the packet ids of QoS 1 that a client used lately.
use emqx_go.Base.{
  ℕ, ◌-◌, Bool, true, false, [], ◌∷◌, Option, none, some, if◌then◌else◌, ltb, leb, ◌==◌, Text,
}
use emqx_go.Base.Map.{Map, lookup, insert, text_has_eq, nat_has_eq}
use emqx_go.Broker.State.{Broker}

-- 30 seconds in nanoseconds
abbrev pub qos_duplicate_window : ℕ
qos_duplicate_window = 30000000000

-- The range that drops the entries whose window has passed.
unfoldable pub recent : ℕ → Map ℕ ℕ → Map ℕ ℕ
recent now [] = []
recent now ((id, ts) ∷ m) =
    let rest = recent now m in if leb qos_duplicate_window (now - ts) then rest else (id, ts) ∷ rest

abbrev pub or_empty_map : Option (Map ℕ ℕ) → Map ℕ ℕ
or_empty_map none = []
or_empty_map (some m) = m

-- Whether the packet id was seen within the window.
unfoldable pub seen : ℕ → ℕ → Map ℕ ℕ → Bool
seen now id m = elim (lookup id m) [ none ↦ false | some ts ↦ ltb (now - ts) qos_duplicate_window ]

abbrev pub put_processed : Text → Map ℕ ℕ → Broker → Broker
put_processed client m b = record b { processed_qos1 = insert client m b.processed_qos1 }

unfoldable pub mark_and_check_duplicate : ℕ → Text → ℕ → Broker → Bool × Broker
unfolding recent seen
mark_and_check_duplicate now client id b =
    let m = or_empty_map (lookup client b.processed_qos1) in
    if id == 0
    then (false, b)
    else if seen now id m
    then (true, put_processed client (insert id now m) b)
    else (false, put_processed client (recent now (insert id now m)) b)
