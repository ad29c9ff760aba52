-- ===== src/Topic/Wildcards.antt =====
-- The wildcard matchers of pkg/storage/messages/memory_backend.go, pkg/retainer/retainer.go and
-- pkg/persistent/offline.go, and how far they agree with the one of the topic store.
use emqx_go.Base.{
  ◌≡◌, refl, ◌≢◌, Bool, true, false, not, ◌&&◌, ◌||◌, List, [], ◌∷◌, arith, if◌then◌else◌, Text,
  text_eq, text_eq_iff, split, split-ne-nil,
}
use emqx_go.Topic.Filter.{slash, hash, plus, levels, filter_loop, matches_topic_filter}

-- levels[len(levels)-1] == "#"
unfoldable pub ends_in_hash : List Text → Bool
ends_in_hash [] = false
ends_in_hash (f ∷ []) = text_eq f hash
ends_in_hash (f ∷ g ∷ fs) = ends_in_hash (g ∷ fs)

abbrev level_ok : Text → Text → Bool
level_ok f t = text_eq f plus || text_eq f t

-- The first loop: every level of the filter but the last is there and matches.
unfoldable pub prefix_loop : List Text → List Text → Bool
prefix_loop ts [] = true
prefix_loop ts (f ∷ []) = true
prefix_loop [] (f ∷ g ∷ fs) = false
prefix_loop (t ∷ ts) (f ∷ g ∷ fs) =
    let rest = prefix_loop ts (g ∷ fs) in
    if not (text_eq f plus) && not (text_eq f t) then false else rest

-- The second loop, with the test that both have as many levels.
unfoldable pub equal_loop : List Text → List Text → Bool
equal_loop [] [] = true
equal_loop [] (f ∷ fs) = false
equal_loop (t ∷ ts) [] = false
equal_loop (t ∷ ts) (f ∷ fs) =
    let rest = equal_loop ts fs in
    if text_eq f plus then rest else if not (text_eq f t) then false else rest

unfoldable pub topic_matches : Text → Text → Bool
unfolding ends_in_hash prefix_loop equal_loop
topic_matches topic filter =
    if text_eq topic filter
    then true
    else if text_eq filter hash
    then true
    else if ends_in_hash (levels filter)
    then prefix_loop (levels topic) (levels filter)
    else equal_loop (levels topic) (levels filter)

-- The copy in package retainer.
unfoldable pub match_topic_filter : Text → Text → Bool
unfolding ends_in_hash prefix_loop equal_loop
match_topic_filter topic filter =
    if text_eq topic filter
    then true
    else if text_eq filter hash
    then true
    else if ends_in_hash (levels filter)
    then prefix_loop (levels topic) (levels filter)
    else equal_loop (levels topic) (levels filter)

-- The stand-in of package persistent.
unfoldable pub basic_topic_match : Text → Text → Bool
basic_topic_match topic filter =
    if text_eq topic filter then true else if text_eq filter hash then true else false

-- `#` stands at the end of the filter or nowhere.
abbrev pub IsValidFilter : List Text → Type 0
IsValidFilter [] = Unit
IsValidFilter (f ∷ []) = Unit
IsValidFilter (f ∷ g ∷ fs) = (f ≢ hash) × IsValidFilter (g ∷ fs)

loops_agree :
    (ts fs : List Text)
    → IsValidFilter fs
    → fs ≢ []
    → filter_loop ts fs ≡ (if ends_in_hash fs then prefix_loop ts fs else equal_loop ts fs)
unfolding filter_loop ends_in_hash prefix_loop equal_loop
loops_agree ts [] v n = absurd (n refl)
loops_agree [] (f ∷ []) v n = ground arith
loops_agree (t ∷ []) (f ∷ []) v n = ground arith
loops_agree (t ∷ u ∷ ts) (f ∷ []) v n = ground arith
loops_agree [] (f ∷ g ∷ fs) v n = ground (arith, text_eq_iff f hash)
loops_agree (t ∷ ts) (f ∷ g ∷ fs) v n =
    ground (arith, text_eq_iff f hash, loops_agree ts (g ∷ fs) v.1 (λ e. cc))

filter_loop_self : (fs : List Text) → IsValidFilter fs → filter_loop fs fs ≡ true
unfolding filter_loop
filter_loop_self [] v = refl
filter_loop_self (f ∷ []) v = ground (arith, text_eq_iff f f)
filter_loop_self (f ∷ g ∷ fs) v =
    ground (arith, text_eq_iff f f, text_eq_iff f hash, filter_loop_self (g ∷ fs) v.1)

levels-hash : levels hash ≡ hash ∷ []
unfolding split
levels-hash = refl

filter_loop-hash : (ts : List Text) → filter_loop ts (hash ∷ []) ≡ true
unfolding filter_loop
filter_loop-hash [] = refl
filter_loop-hash (t ∷ ts) = refl

-- On a filter with `#` at the end or nowhere, the matcher of the message storage gives the answer of
-- the topic store.
topic_matches_agree :
    (topic filter : Text)
    → IsValidFilter (levels filter)
    → topic_matches topic filter ≡ matches_topic_filter topic filter
unfolding topic_matches matches_topic_filter
topic_matches_agree topic filter v = ground (
  arith,
  text_eq_iff topic filter,
  text_eq_iff filter hash,
  levels-hash,
  filter_loop-hash (levels topic),
  filter_loop_self (levels filter) v,
  loops_agree (levels topic) (levels filter) v (split-ne-nil slash filter),
)

-- The retainer's copy gives the same answer as the storage's, on every input.
match_topic_filter-topic_matches :
    (topic filter : Text) → match_topic_filter topic filter ≡ topic_matches topic filter
unfolding match_topic_filter topic_matches
match_topic_filter-topic_matches topic filter = refl

-- What the stand-in of package persistent accepts, the topic store accepts.
basic_topic_match_sound :
    (topic filter : Text)
    → IsValidFilter (levels filter)
    → basic_topic_match topic filter ≡ true
    → matches_topic_filter topic filter ≡ true
unfolding basic_topic_match
basic_topic_match_sound topic filter v h =
    rw (← topic_matches_agree topic filter v) (unfold topic_matches in ground arith)

abbrev pub has_plus : List Text → Bool
has_plus [] = false
has_plus (f ∷ fs) = text_eq f plus || has_plus fs

-- A filter with a `+` level is never accepted by the stand-in of package persistent for a topic
-- that has no such level, whatever the topic store says.
basic_topic_match-plus :
    (topic filter : Text)
    → has_plus (levels filter) ≡ true
    → has_plus (levels topic) ≡ false
    → basic_topic_match topic filter ≡ false
unfolding basic_topic_match
basic_topic_match-plus topic filter hf ht =
    ground (arith, text_eq_iff topic filter, text_eq_iff filter hash, levels-hash)
