-- ===== src/Topic/Filter.antt =====
-- matchesTopicFilter of pkg/topic/store.go, beside what MQTT means by a match.
use emqx_go.Base.{
  ℕ, ◌≡◌, refl, ◌≢◌, ◌↔◌, Bool, true, false, not, ◌&&◌, ◌||◌, ◌==◌, ◌⊎◌, List, [], ◌∷◌, arith,
  if◌then◌else◌, Bool-cases, inl, inr, Text, codes, text_eq, text_eq_iff, split,
}

abbrev pub slash : ℕ
slash = b'/'

abbrev pub hash : Text
hash = codes "#"

abbrev pub plus : Text
plus = codes "+"

abbrev pub levels : Text → List Text
levels = split slash

abbrev pub is_nil {ℓ} : {A : Type ℓ} → List A → Bool
is_nil [] = true
is_nil (x ∷ xs) = false

-- The loop over the levels of the filter; what is left of the topic stands for the index.
unfoldable pub filter_loop : List Text → List Text → Bool
filter_loop ts [] = is_nil ts
filter_loop [] (f ∷ fs) = text_eq f hash && is_nil fs
filter_loop (t ∷ ts) (f ∷ fs) =
    let rest = filter_loop ts fs in
    if text_eq f hash
    then is_nil fs
    else if not (text_eq f plus) && not (text_eq f t)
    then false
    else rest

unfoldable pub matches_topic_filter : Text → Text → Bool
matches_topic_filter topic filter = filter_loop (levels topic) (levels filter)

-- The rules of MQTT for levels: `#` stands for any rest and only at the end, `+` for one level, any
-- other level for itself. The rule on topics that begin with `$` is not among them.
pub data Matches : List Text → List Text → Type 0 where
  done : Matches [] []
  multi : (ts : List Text) → Matches ts (hash ∷ [])
  single : {t : Text} {ts fs : List Text} → Matches ts fs → Matches (t ∷ ts) (plus ∷ fs)
  level : {t : Text} {ts fs : List Text} → t ≢ hash → Matches ts fs → Matches (t ∷ ts) (t ∷ fs)

Matches-of_hash :
    (ts : List Text) {f : Text} (fs : List Text)
    → text_eq f hash ≡ true
    → is_nil fs ≡ true
    → Matches ts (f ∷ fs)
Matches-of_hash ts {f} [] h e = rw ((text_eq_iff f hash).0 h) (multi ts)
Matches-of_hash ts {f} (g ∷ fs) h e = cc

Matches-of_level :
    {t f : Text} {ts fs : List Text}
    → text_eq f hash ≡ false
    → not (text_eq f plus) && not (text_eq f t) ≡ false
    → Matches ts fs
    → Matches (t ∷ ts) (f ∷ fs)
Matches-of_level {t} {f} h e m = elim (Bool-cases (text_eq f plus)) [
  | inl is_plus ↦ rw ((text_eq_iff f plus).0 is_plus) (single m)
  | inr not_plus ↦
      let same : f ≡ t = ground (arith, text_eq_iff f t) in
      rw same (level (ground (arith, text_eq_iff f hash)) m)
]

filter_loop-Matches : (ts fs : List Text) → filter_loop ts fs ≡ true → Matches ts fs
unfolding filter_loop
filter_loop-Matches [] [] h = done
filter_loop-Matches (t ∷ ts) [] h = cc
filter_loop-Matches [] (f ∷ fs) h = Matches-of_hash [] fs (ground arith) (ground arith)
filter_loop-Matches (t ∷ ts) (f ∷ fs) h = elim (Bool-cases (text_eq f hash)) [
  | inl e ↦ Matches-of_hash (t ∷ ts) fs e (ground arith)
  | inr e ↦ Matches-of_level e (ground arith) (filter_loop-Matches ts fs (ground arith))
]

Matches-filter_loop : {ts fs : List Text} → Matches ts fs → filter_loop ts fs ≡ true
unfolding filter_loop
Matches-filter_loop done = refl
Matches-filter_loop (multi []) = refl
Matches-filter_loop (multi (t ∷ ts)) = refl
Matches-filter_loop (single m) = Matches-filter_loop m
Matches-filter_loop (level {t} ne m) =
    ground (arith, text_eq_iff t hash, text_eq_iff t t, Matches-filter_loop m)

-- The topic begins with `$`.
unfoldable pub is_system : Text → Bool
is_system [] = false
is_system (c ∷ s) = c == b'$'

-- The first level of the filter is a wildcard.
unfoldable pub starts_wild : List Text → Bool
starts_wild [] = false
starts_wild (f ∷ fs) = text_eq f hash || text_eq f plus

-- What MQTT means by a match: the levels match, and a filter that begins with a wildcard does not match
-- a topic that begins with `$` (MQTT-4.7.2-1).
pub record MqttMatches (topic filter : Text) : Type 0 where
  pub by_levels : Matches (levels topic) (levels filter)
  pub no_system : is_system topic && starts_wild (levels filter) ≡ false

-- The levels match, but MQTT excludes the match for the `$` at the front of the topic.
pub record IsExcluded (topic filter : Text) : Type 0 where
  pub by_levels : Matches (levels topic) (levels filter)
  pub system : is_system topic && starts_wild (levels filter) ≡ true

by_levels_of :
    (topic filter : Text)
    → MqttMatches topic filter ⊎ IsExcluded topic filter
    → Matches (levels topic) (levels filter)
by_levels_of topic filter (inl m) = m.by_levels
by_levels_of topic filter (inr m) = m.by_levels

-- A published topic matches a filter exactly when MQTT says so, or when the levels match and MQTT
-- excludes the match because the topic begins with `$` and the filter with a wildcard.
pub matches_topic_filter_iff :
    (topic filter : Text)
    → (matches_topic_filter topic filter ≡ true)
      ↔ (MqttMatches topic filter ⊎ IsExcluded topic filter)
unfolding matches_topic_filter
matches_topic_filter_iff topic filter = (
  (λ h.
      let m = filter_loop-Matches (levels topic) (levels filter) h in
      elim (Bool-cases (is_system topic && starts_wild (levels filter))) [
        | inl e ↦ inr (record { by_levels = m; system = e })
        | inr e ↦ inl (record { by_levels = m; no_system = e })
      ]),
  (λ m. Matches-filter_loop (by_levels_of topic filter m)),
)
