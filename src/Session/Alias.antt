-- ===== src/Session/Alias.antt =====
-- The topic aliases of pkg/session/session.go.
use emqx_go.Base.{
  ◌∙◌, sym, ==_iff, ap, ℕ, ◌+◌, ◌%◌, ◌^◌, ◌≤◌, ◌<◌, ◌≡◌, refl, Bool, true, false, [], ◌∷◌, Option,
  none, some, arith, if◌then◌else◌, ltb, ◌==◌, Bool-cases, Option-cases, inl, inr, Text, text_eq,
}
use emqx_go.Base.Map.{Map, lookup, insert, lookup-insert, lookup-insert_self, nat_has_eq}

pub record Aliases : Type 0 where
  pub aliases : Map ℕ Text
  pub next_alias : ℕ
  pub alias_maximum : ℕ

unfoldable pub new_aliases : Aliases
new_aliases = record { aliases = []; next_alias = 1; alias_maximum = 65535 }

unfoldable pub set_topic_alias_maximum : ℕ → Aliases → Aliases
set_topic_alias_maximum maximum a = record a { alias_maximum = maximum }

-- The range that looks for the topic among the aliases.
unfoldable pub find_alias : Text → Map ℕ Text → Option ℕ
find_alias topic [] = none
find_alias topic ((alias, t) ∷ m) = if text_eq t topic then some alias else find_alias topic m

-- assignTopicAlias: the alias and whether it is new. nextBrokerAlias is a uint16.
unfoldable pub assign_topic_alias : Text → Aliases → (ℕ × Bool) × Aliases
unfolding find_alias
assign_topic_alias topic a =
    if ltb a.alias_maximum a.next_alias
    then ((0, false), a)
    else elim (find_alias topic a.aliases) [
      | some alias ↦ ((alias, false), a)
      | none ↦ (
        (a.next_alias, true),
        record a {
          aliases = insert a.next_alias topic a.aliases;
          next_alias = (a.next_alias + 1) % 2 ^ 16;
        },
      )
    ]

-- The next alias is one that the client can be sent and that is not taken.
pub record IsValid (a : Aliases) : Type 0 where
  pub positive : 0 < a.next_alias
  pub fits : a.next_alias < 65536
  pub below :
      (alias : ℕ) (t : Text)
      → lookup alias a.aliases ≡ some t
      → (0 < alias) × (alias < a.next_alias)

module _ (topic : Text) (a : Aliases) where
  assign_topic_alias-full :
      ltb a.alias_maximum a.next_alias ≡ true → assign_topic_alias topic a ≡ ((0, false), a)
  unfolding assign_topic_alias
  assign_topic_alias-full h = rw (assign_topic_alias, h) refl

  assign_topic_alias-found :
      (alias : ℕ)
      → ltb a.alias_maximum a.next_alias ≡ false
      → find_alias topic a.aliases ≡ some alias
      → assign_topic_alias topic a ≡ ((alias, false), a)
  unfolding assign_topic_alias
  assign_topic_alias-found alias h e = rw (assign_topic_alias, h, e) refl

  assigned : Aliases
  assigned = record a {
    aliases = insert a.next_alias topic a.aliases;
    next_alias = (a.next_alias + 1) % 2 ^ 16;
  }

  assign_topic_alias-free :
      ltb a.alias_maximum a.next_alias ≡ false
      → find_alias topic a.aliases ≡ none
      → assign_topic_alias topic a ≡ ((a.next_alias, true), assigned)
  unfolding assign_topic_alias assigned
  assign_topic_alias-free h e = rw (assign_topic_alias, h, e) refl

  untaken : IsValid a → lookup a.next_alias a.aliases ≡ none
  untaken v = elim (Option-cases (lookup a.next_alias a.aliases)) [
    | inl missing ↦ missing
    | inr (t, found) ↦ let (pos, small) = v.below a.next_alias t found in absurd (omega arith)
  ]

  assigned-below :
      IsValid a
      → (alias : ℕ) (t : Text) → lookup alias (insert a.next_alias topic a.aliases) ≡ some t
      → (0 < alias) × (alias < a.next_alias + 1)
  assigned-below v alias t found = elim (Bool-cases (a.next_alias == alias)) [
    | inl same ↦
        let e : a.next_alias ≡ alias = (==_iff a.next_alias alias).0 same in
        (let pos = v.positive in omega arith, omega arith)
    | inr other ↦
        let old : lookup alias a.aliases ≡ some t =
          sym (lookup-insert a.next_alias alias topic a.aliases ∙ rw other refl) ∙ found in
        let (pos, small) = v.below alias t old in (pos, omega arith)
  ]

  assigned-IsValid : IsValid a → a.next_alias < 65535 → IsValid assigned
  unfolding assigned
  assigned-IsValid v room =
      let e : (a.next_alias + 1) % 2 ^ 16 ≡ a.next_alias + 1 = omega arith in
      record {
        positive = rw e (omega arith);
        fits = rw e (omega arith);
        below = rw e (assigned-below v);
      }

-- A new alias, below the last 16-bit number, lies between 1 and the maximum, was not taken, stands
-- for the topic from then on, changes no other alias, and leaves a valid next alias.
assign_topic_alias-new :
    (topic : Text) (a : Aliases)
    → IsValid a
    → a.alias_maximum < 65535
    → (assign_topic_alias topic a).0.1 ≡ true
    → (0 < (assign_topic_alias topic a).0.0)
      × ((assign_topic_alias topic a).0.0 ≤ a.alias_maximum)
      × (lookup (assign_topic_alias topic a).0.0 a.aliases ≡ none)
      × (lookup (assign_topic_alias topic a).0.0 (assign_topic_alias topic a).1.aliases
          ≡ some topic)
      × IsValid (assign_topic_alias topic a).1
assign_topic_alias-new topic a v room new = elim (Bool-cases (ltb a.alias_maximum a.next_alias)) [
  | inl full ↦
      let e : (assign_topic_alias topic a).0.1 ≡ false =
        ap (λ r. (r.0).1) (assign_topic_alias-full topic a full) in
      absurd cc
  | inr free ↦ elim (Option-cases (find_alias topic a.aliases)) [
    | inl missing ↦
        let bound : a.next_alias ≤ a.alias_maximum = ground arith in
        rw (assign_topic_alias-free topic a free missing) (
          v.positive,
          bound,
          untaken topic a v,
          unfold assigned in lookup-insert_self a.next_alias topic a.aliases,
          assigned-IsValid topic a v (omega arith),
        )
    | inr (alias, found) ↦
        let e : (assign_topic_alias topic a).0.1 ≡ false =
          ap (λ r. (r.0).1) (assign_topic_alias-found topic a alias free found) in
        absurd cc
  ]
]

-- With the default maximum the counter wraps: after the topic that takes alias 65535, the next new
-- topic is given alias 0, which means no alias, as a new one.
assign_topic_alias-wrap :
    (first second : Text) (a : Aliases)
    → a.alias_maximum ≡ 65535
    → a.next_alias ≡ 65535
    → find_alias first a.aliases ≡ none
    → find_alias second (insert 65535 first a.aliases) ≡ none
    → ((assign_topic_alias first a).0 ≡ (65535, true))
      × ((assign_topic_alias second (assign_topic_alias first a).1).0 ≡ (0, true))
assign_topic_alias-wrap first second a m n free free' =
    let e = assign_topic_alias-free first a (ground arith) free in
    let full : ltb (assigned first a).alias_maximum (assigned first a).next_alias ≡ false =
      unfold assigned in rw (n, m) refl in
    let none_found : find_alias second (assigned first a).aliases ≡ none =
      unfold assigned in rw n free' in
    let e' = assign_topic_alias-free second (assigned first a) full none_found in
    let zero_next : (assigned first a).next_alias ≡ 0 = unfold assigned in rw n refl in
    rw e (rw n refl, ap (λ r. r.0) e' ∙ rw zero_next refl)
