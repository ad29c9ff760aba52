-- ===== src/Messages/Retained.antt =====
-- The retained messages of pkg/storage/messages/memory_backend.go, as a finite map and as answers.
use emqx_go.Base.{
  text_eq_refl, ◌≡◌, refl, ◌↔◌, ◌⊎◌, inl, inr, Bool, true, false, List, [], ◌∷◌, none, some, arith,
  if◌then◌else◌, Bool-cases, Text, text_eq, text_eq_iff, In,
}
use emqx_go.Base.Map.{
  Map, IsUnique, lookup, lookup-insert, lookup-delete, insert-IsUnique, delete-IsUnique,
  text_has_eq,
}
use emqx_go.Topic.Wildcards.{topic_matches}
use emqx_go.Messages.Backend.{
  Message, MemoryBackend, is_nil, store_retained, matching, get_retained,
}

-- Storing a message sets the entry of its topic, marked as retained, or removes it if the payload is
-- empty; every other topic keeps its message.
pub lookup-store_retained :
    (topic other : Text) (msg : Message) (mb : MemoryBackend)
    → lookup other (store_retained topic msg mb).retained ≡ (
        if text_eq topic other
        then (if is_nil msg.payload then none else some (record msg { retained = true }))
        else lookup other mb.retained)
unfolding store_retained
lookup-store_retained topic other msg mb = ground (
  arith,
  lookup-insert topic other (record msg { retained = true }) mb.retained,
  lookup-delete topic other mb.retained,
)

pub store_retained-IsUnique :
    (topic : Text) (msg : Message) (mb : MemoryBackend)
    → IsUnique mb.retained
    → IsUnique (store_retained topic msg mb).retained
unfolding store_retained
store_retained-IsUnique topic msg mb u = ground (
  arith,
  insert-IsUnique topic (record msg { retained = true }) mb.retained u,
  delete-IsUnique topic mb.retained u,
)

-- What a query can find.
unfoldable pub Found : Text → Message → Map Text Message → Type 0
Found topic_filter msg m =
    (topic : Text) × (lookup topic m ≡ some msg) × (topic_matches topic topic_filter ≡ true)

Found-cons :
    (topic_filter topic : Text) (msg msg' : Message) (m : Map Text Message)
    → lookup topic m ≡ none
    → Found topic_filter msg m
    → Found topic_filter msg ((topic, msg') ∷ m)
unfolding Found lookup
Found-cons topic_filter topic msg msg' m u (t, found, matched) =
    (t, ground (arith, text_eq_iff topic t), matched)

-- Membership in what one round of the range adds.
In-round :
    (msg msg' : Message) (b : Bool) (rest : List Message)
    → In msg (if b then msg' ∷ rest else rest)
    → ((b ≡ true) × (msg ≡ msg')) ⊎ In msg rest
In-round msg msg' true rest (inl e) = inl (refl, e)
In-round msg msg' true rest (inr h) = inr h
In-round msg msg' false rest h = inr h

round-In :
    (msg msg' : Message) (b : Bool) (rest : List Message)
    → In msg rest
    → In msg (if b then msg' ∷ rest else rest)
round-In msg msg' true rest h = inr h
round-In msg msg' false rest h = h

module _ (topic_filter : Text) (msg : Message) where
  In-matching :
      (m : Map Text Message)
      → IsUnique m
      → In msg (matching topic_filter m)
      → Found topic_filter msg m
  unfolding matching Found
  In-matching [] u h = absurd h
  In-matching ((topic, msg') ∷ m) u h =
      elim (In-round msg msg' (topic_matches topic topic_filter) (matching topic_filter m) h) [
        | inl (matched, same) ↦
            (topic, unfold lookup in rw (text_eq_refl topic, same) refl, matched)
        | inr later ↦ Found-cons topic_filter topic msg msg' m u.0 (In-matching m u.1 later)
      ]

  matching-In :
      (m : Map Text Message) (topic : Text)
      → lookup topic m ≡ some msg
      → topic_matches topic topic_filter ≡ true
      → In msg (matching topic_filter m)
  unfolding matching lookup
  matching-In [] topic found matched = absurd cc
  matching-In ((t, msg') ∷ m) topic found matched = elim (Bool-cases (text_eq t topic)) [
    | inl same ↦
        let e : t ≡ topic = (text_eq_iff t topic).0 same in
        let e' : msg' ≡ msg = ground arith in rw (e, matched, e') (inl refl)
    | inr other ↦
        round-In msg msg' (topic_matches t topic_filter) (matching topic_filter m)
          (matching-In m topic (ground arith) matched)
  ]

pub get_retained_iff :
    (topic_filter : Text) (msg : Message) (mb : MemoryBackend)
    → IsUnique mb.retained
    → In msg (get_retained topic_filter mb) ↔ Found topic_filter msg mb.retained
unfolding get_retained
get_retained_iff topic_filter msg mb u = (
  In-matching topic_filter msg mb.retained u,
  unfold Found in
      λ (topic, found, matched). matching-In topic_filter msg mb.retained topic found matched,
)
