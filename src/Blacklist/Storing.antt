-- ===== src/Blacklist/Storing.antt =====
-- What pkg/blacklist/manager.go stores and deletes keeps the indexes in agreement with the entries.
use mathlib.Core.Path.{subst}
use emqx_go.Base.{
  ◌++◌, ◌≡◌, ◌≢◌, inl, inr, refl, sym, ap, ◌∙◌, List, [], ◌∷◌, none, some, arith, Bool-cases, In,
  In-append_cases, Text, text_eq, text_eq_iff, text_eq-false, is_empty,
}
use emqx_go.Base.Map.{
  Map, IsUnique, lookup, insert, delete, lookup-insert, lookup-delete, lookup-insert_self,
  insert-IsUnique, delete-IsUnique, text_has_eq,
}
use emqx_go.Blacklist.Entries.{BlacklistEntry, BlacklistStats, BlacklistManager}
use emqx_go.Blacklist.Manager.{put_direct, put_patterns, add_to_type_index, put_entry, with_stats}
use emqx_go.Blacklist.Indexed.{
  IsDistinct, IsIndexed, IsFree, set_at-cases, is_empty-eq, is_empty-ne,
}

pub with_stats-IsIndexed :
    (f : BlacklistStats → BlacklistStats) (bm : BlacklistManager)
    → IsIndexed bm
    → IsIndexed (with_stats f bm)
with_stats-IsIndexed f bm ix = record {
  direct = ix.direct;
  pattern = ix.pattern;
  distinct = ix.distinct;
  named = ix.named;
  unique = ix.unique;
}

pub lookup-insert_other :
    (id x : Text) (e : BlacklistEntry) (m : Map Text BlacklistEntry)
    → x ≢ id
    → lookup x (insert id e m) ≡ lookup x m
lookup-insert_other id x e m apart =
    rw (lookup-insert, text_eq-false id x (λ h. apart (sym h))) refl

pub lookup-delete_other :
    (id x : Text) (m : Map Text BlacklistEntry) → x ≢ id → lookup x (delete id m) ≡ lookup x m
lookup-delete_other id x m apart = rw (lookup-delete, text_eq-false id x (λ h. apart (sym h))) refl

-- A change of the entries at an id that no index names.
module _ (id : Text) (m : Map Text BlacklistEntry) (bm : BlacklistManager) (ix : IsIndexed bm)
    (free : IsFree id bm) (same : (x : Text) → x ≢ id → lookup x m ≡ lookup x bm.entries) where
  with_entries-IsFree : IsFree id (record bm { entries = m })
  with_entries-IsFree = record { no_direct = free.no_direct; no_pattern = free.no_pattern }

  with_entries-IsIndexed :
      ((x : Text) (e : BlacklistEntry) → lookup x m ≡ some e → e.id ≡ x)
      → IsUnique m
      → IsIndexed (record bm { entries = m })
  with_entries-IsIndexed named unique = record {
    direct = λ t v x h.
        let (e, found, type', value', pattern') = ix.direct t v x h in
        let apart : x ≢ id = λ q. free.no_direct t v (h ∙ ap some q) in
        (e, same x apart ∙ found, type', value', pattern');
    pattern = λ t x h.
        let (e, found, type', pattern') = ix.pattern t x h in
        let apart : x ≢ id =
          λ q. free.no_pattern t (subst (λ y. In y (bm.pattern_entries t)) q h) in
        (e, same x apart ∙ found, type', pattern');
    distinct = ix.distinct;
    named = named;
    unique = unique;
  }

pub put_entry-IsIndexed :
    (e : BlacklistEntry) (bm : BlacklistManager)
    → IsIndexed bm
    → IsFree e.id bm
    → IsIndexed (put_entry e bm)
put_entry-IsIndexed e bm ix free =
    with_entries-IsIndexed e.id (insert e.id e bm.entries) bm ix free
      (λ x apart. lookup-insert_other e.id x e bm.entries apart)
      (λ x e' h. elim (Bool-cases (text_eq e.id x)) [
        | inl is_id ↦
            let eq = (text_eq_iff e.id x).0 is_id in
            let h' : some e ≡ some e' =
              sym (lookup-insert_self e.id e bm.entries)
              ∙ subst (λ y. lookup y (insert e.id e bm.entries) ≡ some e') (sym eq) h in
            let same : e ≡ e' = cc in sym (ap (λ (y : BlacklistEntry). y.id) same) ∙ eq
        | inr not_id ↦ ix.named x e' (ground (arith, lookup-insert e.id x e bm.entries))
      ])
      (insert-IsUnique e.id e bm.entries ix.unique)

pub delete_entry-IsIndexed :
    (id : Text) (bm : BlacklistManager)
    → IsIndexed bm
    → IsFree id bm
    → IsIndexed (record bm { entries = delete id bm.entries })
delete_entry-IsIndexed id bm ix free =
    with_entries-IsIndexed id (delete id bm.entries) bm ix free
      (λ x apart. lookup-delete_other id x bm.entries apart)
      (λ x e h. ix.named x e (ground (arith, lookup-delete id x bm.entries)))
      (delete-IsUnique id bm.entries ix.unique)

IsDistinct-append :
    (id : Text) (ids : List Text) → IsDistinct ids → (In id ids → ⊥) → IsDistinct (ids ++ id ∷ [])
IsDistinct-append id [] d new = ((λ h. h), tt)
IsDistinct-append id (x ∷ ids) d new = (
  (λ h. elim (In-append_cases x ids (id ∷ []) h) [
    | inl old ↦ d.0 old
    | inr (inl e) ↦ new (inl (sym e))
    | inr (inr none_left) ↦ none_left
  ]),
  IsDistinct-append id ids d.1 (λ h. new (inr h)),
)

module _ (e : BlacklistEntry) (bm : BlacklistManager) (ix : IsIndexed bm)
    (found : lookup e.id bm.entries ≡ some e) (free : IsFree e.id bm) where
  add_direct-IsIndexed : e.pattern ≡ [] → IsIndexed (put_direct (insert e.value e.id) e.type bm)
  add_direct-IsIndexed none_given = record {
    direct = λ t v id h.
        elim (set_at-cases e.type (insert e.value e.id (bm.direct_entries e.type)) bm.direct_entries
          t) [
            | inl (same, q) ↦
                let h1 : lookup v (insert e.value e.id (bm.direct_entries e.type)) ≡ some id =
                  sym (ap (lookup v) q) ∙ h in
                elim (Bool-cases (text_eq e.value v)) [
                  | inl here ↦
                      let id_same : e.id ≡ id =
                        ground (arith, lookup-insert e.value v e.id (bm.direct_entries e.type)) in
                      (
                        e,
                        subst (λ x. lookup x bm.entries ≡ some e) id_same found,
                        same,
                        (text_eq_iff e.value v).0 here,
                        none_given,
                      )
                  | inr elsewhere ↦
                      let k : lookup v (bm.direct_entries e.type) ≡ some id =
                        ground (arith, lookup-insert e.value v e.id (bm.direct_entries e.type)) in
                      ix.direct t v id
                        (subst (λ u. lookup v (bm.direct_entries u) ≡ some id) same k)
                ]
            | inr (other, q) ↦ ix.direct t v id (sym (ap (lookup v) q) ∙ h)
          ];
    pattern = ix.pattern;
    distinct = ix.distinct;
    named = ix.named;
    unique = ix.unique;
  }

  add_pattern-IsIndexed :
      e.pattern ≢ [] → IsIndexed (put_patterns (λ ids. ids ++ e.id ∷ []) e.type bm)
  add_pattern-IsIndexed given = record {
    direct = ix.direct;
    pattern = λ t id h.
        elim (set_at-cases e.type (bm.pattern_entries e.type ++ e.id ∷ []) bm.pattern_entries t) [
          | inl (same, q) ↦
              elim (In-append_cases id (bm.pattern_entries e.type) (e.id ∷ [])
                (subst (In id) q h)) [
                  | inl old ↦ ix.pattern t id (subst (λ u. In id (bm.pattern_entries u)) same old)
                  | inr (inl new) ↦
                      (e, subst (λ x. lookup x bm.entries ≡ some e) (sym new) found, same, given)
                  | inr (inr none_left) ↦ absurd none_left
                ]
          | inr (other, q) ↦ ix.pattern t id (subst (In id) q h)
        ];
    distinct = λ t.
        elim (set_at-cases e.type (bm.pattern_entries e.type ++ e.id ∷ []) bm.pattern_entries t) [
          | inl (same, q) ↦ subst IsDistinct (sym q) (
              IsDistinct-append e.id (bm.pattern_entries e.type) (ix.distinct e.type)
                (free.no_pattern e.type))
          | inr (other, q) ↦ subst IsDistinct (sym q) (ix.distinct t)
        ];
    named = ix.named;
    unique = ix.unique;
  }

  add_to_type_index-IsIndexed : IsIndexed (add_to_type_index e bm)
  unfolding add_to_type_index
  add_to_type_index-IsIndexed = elim (Bool-cases (is_empty e.pattern)) [
    | inl none_given ↦ rw none_given (add_direct-IsIndexed (is_empty-eq e.pattern none_given))
    | inr given ↦ rw given (add_pattern-IsIndexed (is_empty-ne e.pattern given))
  ]

-- Storing an entry under an id that no index names.
pub put_and_index-IsIndexed :
    (e : BlacklistEntry) (bm : BlacklistManager)
    → IsIndexed bm
    → IsFree e.id bm
    → IsIndexed (add_to_type_index e (put_entry e bm))
put_and_index-IsIndexed e bm ix free =
    add_to_type_index-IsIndexed e (put_entry e bm) (put_entry-IsIndexed e bm ix free)
      (lookup-insert_self e.id e bm.entries)
      (with_entries-IsFree e.id (insert e.id e bm.entries) bm ix free
        (λ x apart. lookup-insert_other e.id x e bm.entries apart))

pub unknown-IsFree :
    (id : Text) (bm : BlacklistManager) → IsIndexed bm → lookup id bm.entries ≡ none → IsFree id bm
unknown-IsFree id bm ix unknown = record {
  no_direct = λ t v h. let (e, found, type', value', pattern') = ix.direct t v id h in absurd cc;
  no_pattern = λ t h. let (e, found, type', pattern') = ix.pattern t id h in absurd cc;
}
