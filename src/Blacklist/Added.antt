-- ===== src/Blacklist/Added.antt =====
-- The checks of pkg/blacklist/manager.go after AddEntry, from the checks before it.
use emqx_go.Base.{
  ℕ, ◌≡◌, inl, inr, refl, sym, ap, ◌∙◌, Bool, true, false, [], ◌∷◌, ◌++◌, Option, none, some,
  if◌then◌else◌, Bool-cases, Text, is_empty, ok, text_eq,
}
use emqx_go.Base.Map.{lookup, insert, lookup-insert, text_has_eq}
use emqx_go.Blacklist.Entries.{
  BlacklistType, Submitted, BlacklistEntry, BlacklistManager, type_eq, type_eq_iff, set_at,
}
use emqx_go.Blacklist.Match.{Libraries}
use emqx_go.Blacklist.Manager.{
  add_entry, created, store_entry, add_to_type_index, validate_entry, compile_if,
}
use emqx_go.Blacklist.Check.{check_type}
use emqx_go.Blacklist.Indexed.{IsIndexed}
use emqx_go.Blacklist.Calls.{add_entry-ok}
use emqx_go.Blacklist.Blocking.{
  answer_with, check_type-same, check_type-replaced, check_type-appended,
}

module _ (now : ℕ) (e : BlacklistEntry) (bm : BlacklistManager) where
  store_entry-entries : (store_entry now e bm).entries ≡ insert e.id e bm.entries
  unfolding add_to_type_index
  store_entry-entries = elim (Bool-cases (is_empty e.pattern)) [
    | inl none_given ↦ rw none_given refl
    | inr given ↦ rw given refl
  ]

  exact-direct :
      is_empty e.pattern ≡ true
      → (store_entry now e bm).direct_entries
        ≡ set_at e.type (insert e.value e.id (bm.direct_entries e.type)) bm.direct_entries
  unfolding add_to_type_index
  exact-direct none_given = rw none_given refl

  exact-pattern :
      is_empty e.pattern ≡ true → (store_entry now e bm).pattern_entries ≡ bm.pattern_entries
  unfolding add_to_type_index
  exact-pattern none_given = rw none_given refl

  given-direct :
      is_empty e.pattern ≡ false → (store_entry now e bm).direct_entries ≡ bm.direct_entries
  unfolding add_to_type_index
  given-direct given = rw given refl

  given-pattern :
      is_empty e.pattern ≡ false
      → (store_entry now e bm).pattern_entries
        ≡ set_at e.type (bm.pattern_entries e.type ++ e.id ∷ []) bm.pattern_entries
  unfolding add_to_type_index
  given-pattern given = rw given refl

module _ (matches : Text → BlacklistEntry → Bool) (now later : ℕ) (u : BlacklistType) (v : Text)
    (e : BlacklistEntry) (bm : BlacklistManager) (ix : IsIndexed bm)
    (unknown : lookup e.id bm.entries ≡ none) where
  exact_answer :
      is_empty e.pattern ≡ true
      → check_type matches later u v (store_entry now e bm) ≡ answer_with matches later u v e bm
  exact_answer none_given =
      let bm' = store_entry now e bm in
      let stored = store_entry-entries now e bm in
      let ids = ap (λ f. f u) (exact-pattern now e bm none_given) in
      let at_u : bm'.direct_entries u
          ≡ set_at e.type (insert e.value e.id (bm.direct_entries e.type)) bm.direct_entries u =
        ap (λ f. f u) (exact-direct now e bm none_given) in
      elim (Bool-cases (type_eq e.type u)) [
        | inr other ↦
            let kept : bm'.direct_entries u ≡ bm.direct_entries u = at_u ∙ rw other refl in
            check_type-same matches later u v e bm bm' ix unknown stored (ap (lookup v) kept) ids
            ∙ rw other refl
        | inl same ↦
            let eq : e.type ≡ u = (type_eq_iff e.type u).0 same in
            let changed : bm'.direct_entries u ≡ insert e.value e.id (bm.direct_entries u) =
              at_u ∙ (rw same (ap (λ t. insert e.value e.id (bm.direct_entries t)) eq)) in
            let found : lookup v (bm'.direct_entries u)
                ≡ (if text_eq e.value v then some e.id else lookup v (bm.direct_entries u)) =
              ap (lookup v) changed ∙ lookup-insert e.value v e.id (bm.direct_entries u) in
            elim (Bool-cases (text_eq e.value v)) [
              | inl here ↦
                  check_type-replaced matches later u v e bm bm' ix unknown stored
                    (found ∙ rw here refl) ids
                  ∙ rw (same, none_given, here) refl
              | inr elsewhere ↦
                  check_type-same matches later u v e bm bm' ix unknown stored
                    (found ∙ rw elsewhere refl) ids
                  ∙ rw (same, none_given, elsewhere) refl
            ]
      ]

  pattern_answer :
      is_empty e.pattern ≡ false
      → check_type matches later u v (store_entry now e bm) ≡ answer_with matches later u v e bm
  pattern_answer given =
      let bm' = store_entry now e bm in
      let stored = store_entry-entries now e bm in
      let direct = ap (λ f. lookup v (f u)) (given-direct now e bm given) in
      let at_u : bm'.pattern_entries u
          ≡ set_at e.type (bm.pattern_entries e.type ++ e.id ∷ []) bm.pattern_entries u =
        ap (λ f. f u) (given-pattern now e bm given) in
      elim (Bool-cases (type_eq e.type u)) [
        | inr other ↦
            check_type-same matches later u v e bm bm' ix unknown stored direct
              (at_u ∙ rw other refl)
            ∙ rw other refl
        | inl same ↦
            let eq : e.type ≡ u = (type_eq_iff e.type u).0 same in
            check_type-appended matches later u v e bm bm' ix unknown stored direct
              (at_u ∙ rw same (ap (λ t. bm.pattern_entries t ++ e.id ∷ []) eq))
            ∙ rw (same, given) refl
      ]

-- A successful AddEntry makes an entry of what it is handed, under an id that was free, and at any
-- later time and for any type, string and test of patterns, a check answers as follows. For another
-- type it answers as before. An entry without a pattern answers at its value, in force or not, in the
-- place of what stood there, and the patterns come after it; elsewhere nothing changes. An entry with a
-- pattern answers where it matches and nothing else does. The indexes are supposed to agree with the
-- entries.
pub add_entry-check_type :
    (lib : Libraries) (now : ℕ) (s : Submitted) (bm bm' : BlacklistManager)
    → IsIndexed bm
    → add_entry lib now s bm ≡ ok bm'
    → (t : BlacklistType) × (c : Option (Text → Bool)) × (validate_entry s ≡ ok t)
      × (compile_if lib s.pattern none ≡ ok c)
      × (lookup s.id bm.entries ≡ none)
      × ((matches : Text → BlacklistEntry → Bool) (later : ℕ) (u : BlacklistType) (v : Text)
          → check_type matches later u v bm' ≡ answer_with matches later u v (created now s t c) bm)
add_entry-check_type lib now s bm bm' ix h =
    let (t, c, valid, unknown, compiled, same) = add_entry-ok lib now s bm bm' h in
    let e = created now s t c in
    (
      t,
      c,
      valid,
      compiled,
      unknown,
      λ matches later u v.
          ap (check_type matches later u v) (sym same) ∙ elim (Bool-cases (is_empty s.pattern)) [
            | inl none_given ↦ exact_answer matches now later u v e bm ix unknown none_given
            | inr given ↦ pattern_answer matches now later u v e bm ix unknown given
          ],
    )
