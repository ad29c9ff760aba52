-- ===== src/Blacklist/Blocking.antt =====
-- What an entry added to pkg/blacklist/manager.go blocks.
use mathlib.Core.Path.{subst}
use emqx_go.Base.{
  ℕ, ◌≡◌, ◌≢◌, inl, inr, refl, ap, ◌∙◌, Bool, true, false, ◌&&◌, List, [], ◌∷◌, ◌++◌, Option, none,
  some, if◌then◌else◌, Bool-cases, Option-cases, In, Text, is_empty, text_eq,
}
use emqx_go.Base.Map.{lookup, insert, lookup-insert_self, text_has_eq}
use emqx_go.Blacklist.Entries.{BlacklistType, BlacklistEntry, BlacklistManager, type_eq}
use emqx_go.Blacklist.Check.{
  is_in_force, if_in_force, check_direct, check_patterns, check_type, applies, first_or, or_next,
}
use emqx_go.Blacklist.Indexed.{IsIndexed}
use emqx_go.Blacklist.Storing.{lookup-insert_other}

-- What the new entry adds at the end of the loop.
abbrev pub if_applies :
    (Text → BlacklistEntry → Bool) → ℕ → Text → BlacklistEntry → Option BlacklistEntry
if_applies matches now s e = if is_in_force now e && matches s e then some e else none

-- A check after an entry is stored, from the checks before: nothing changes for another type; an exact
-- entry takes the place of what stood at its value; an entry with a pattern is asked last.
abbrev pub answer_with :
    (Text → BlacklistEntry → Bool)
    → ℕ
    → BlacklistType
    → Text
    → BlacklistEntry
    → BlacklistManager
    → Option BlacklistEntry
answer_with matches now u v e bm =
    if type_eq e.type u
    then (if is_empty e.pattern
        then (if text_eq e.value v
            then or_next (if_in_force now (some e))
                (check_patterns matches now v (bm.pattern_entries u) bm)
            else check_type matches now u v bm)
        else or_next (check_type matches now u v bm) (if_applies matches now v e))
    else check_type matches now u v bm

pub check_patterns-same :
    (matches : Text → BlacklistEntry → Bool) (now : ℕ) (v : Text) (ids : List Text)
    (bm bm' : BlacklistManager)
    → ((x : Text) → In x ids → lookup x bm'.entries ≡ lookup x bm.entries)
    → check_patterns matches now v ids bm' ≡ check_patterns matches now v ids bm
unfolding check_patterns
check_patterns-same matches now v [] bm bm' same = refl
check_patterns-same matches now v (x ∷ ids) bm bm' same =
    rw (same x (inl refl), check_patterns-same matches now v ids bm bm' (λ y k. same y (inr k)))
      refl

or_next-first_or :
    (b : Bool) (found rest last : Option BlacklistEntry)
    → (b ≡ true → found ≢ none)
    → first_or b found (or_next rest last) ≡ or_next (first_or b found rest) last
or_next-first_or false found rest last known = refl
or_next-first_or true none rest last known = absurd (known refl refl)
or_next-first_or true (some e) rest last known = refl

or_next_assoc : (a b c : Option BlacklistEntry) → or_next a (or_next b c) ≡ or_next (or_next a b) c
or_next_assoc none b c = refl
or_next_assoc (some e) b c = refl

applies-known :
    (matches : Text → BlacklistEntry → Bool) (now : ℕ) (s : Text) (found : Option BlacklistEntry)
    → applies matches now s found ≡ true
    → found ≢ none
applies-known matches now s none h = absurd cc
applies-known matches now s (some e) h = λ q. cc

last_answer :
    (matches : Text → BlacklistEntry → Bool) (now : ℕ) (v : Text) (e : BlacklistEntry)
    → first_or (applies matches now v (some e)) (some e) none ≡ if_applies matches now v e
last_answer matches now v e = elim (Bool-cases (is_in_force now e && matches v e)) [
  | inl yes_ ↦ rw yes_ refl
  | inr no_ ↦ rw no_ refl
]

check_patterns-append :
    (matches : Text → BlacklistEntry → Bool) (now : ℕ) (v : Text) (ids : List Text)
    (e : BlacklistEntry) (bm : BlacklistManager)
    → lookup e.id bm.entries ≡ some e
    → check_patterns matches now v (ids ++ e.id ∷ []) bm
      ≡ or_next (check_patterns matches now v ids bm) (if_applies matches now v e)
unfolding check_patterns
check_patterns-append matches now v [] e bm found = rw found (last_answer matches now v e)
check_patterns-append matches now v (x ∷ ids) e bm found =
    ap (first_or (applies matches now v (lookup x bm.entries)) (lookup x bm.entries))
      (check_patterns-append matches now v ids e bm found)
    ∙ or_next-first_or (applies matches now v (lookup x bm.entries)) (lookup x bm.entries)
        (check_patterns matches now v ids bm) (if_applies matches now v e)
        (applies-known matches now v (lookup x bm.entries))

-- A manager that has the entries of another and one entry more, under a new id.
module _ (matches : Text → BlacklistEntry → Bool) (now : ℕ) (u : BlacklistType) (v : Text)
    (e : BlacklistEntry) (bm bm' : BlacklistManager) (ix : IsIndexed bm)
    (unknown : lookup e.id bm.entries ≡ none)
    (stored : bm'.entries ≡ insert e.id e bm.entries) where
  known_same :
      (x : Text) (old : BlacklistEntry)
      → lookup x bm.entries ≡ some old
      → lookup x bm'.entries ≡ lookup x bm.entries
  known_same x old found =
      let apart : x ≢ e.id =
        λ q. absurd (let q' = subst (λ y. lookup y bm.entries ≡ some old) q found in cc) in
      ap (lookup x) stored ∙ lookup-insert_other e.id x e bm.entries apart

  direct_same :
      lookup v (bm'.direct_entries u) ≡ lookup v (bm.direct_entries u)
      → check_direct now u v bm' ≡ check_direct now u v bm
  unfolding check_direct
  direct_same same = elim (Option-cases (lookup v (bm.direct_entries u))) [
    | inl nothing ↦ rw (same, nothing) refl
    | inr (id, named) ↦
        let (x, found, type', value', pattern') = ix.direct u v id named in
        rw (same, named, known_same id x found) refl
  ]

  patterns_same :
      check_patterns matches now v (bm.pattern_entries u) bm'
      ≡ check_patterns matches now v (bm.pattern_entries u) bm
  patterns_same =
      check_patterns-same matches now v (bm.pattern_entries u) bm bm'
        (λ x k. let (old, found, type', pattern') = ix.pattern u x k in known_same x old found)

  new_found : lookup e.id bm'.entries ≡ some e
  new_found = ap (lookup e.id) stored ∙ lookup-insert_self e.id e bm.entries

  -- A check that the new entry does not bear on.
  pub check_type-same :
      lookup v (bm'.direct_entries u) ≡ lookup v (bm.direct_entries u)
      → bm'.pattern_entries u ≡ bm.pattern_entries u
      → check_type matches now u v bm' ≡ check_type matches now u v bm
  unfolding check_type
  check_type-same same same_ids = rw (direct_same same, same_ids, patterns_same) refl

  pub check_type-replaced :
      lookup v (bm'.direct_entries u) ≡ some e.id
      → bm'.pattern_entries u ≡ bm.pattern_entries u
      → check_type matches now u v bm'
        ≡ or_next
            (if_in_force now (some e))
            (check_patterns matches now v (bm.pattern_entries u) bm)
  unfolding check_type check_direct
  check_type-replaced here same_ids = rw (here, new_found, same_ids, patterns_same) refl

  pub check_type-appended :
      lookup v (bm'.direct_entries u) ≡ lookup v (bm.direct_entries u)
      → bm'.pattern_entries u ≡ bm.pattern_entries u ++ e.id ∷ []
      → check_type matches now u v bm'
        ≡ or_next (check_type matches now u v bm) (if_applies matches now v e)
  unfolding check_type
  check_type-appended same more =
      rw
        (
          direct_same same,
          more,
          check_patterns-append matches now v (bm.pattern_entries u) e bm' new_found,
          patterns_same,
        )
        (or_next_assoc (check_direct now u v bm)
          (check_patterns matches now v (bm.pattern_entries u) bm) (if_applies matches now v e))
