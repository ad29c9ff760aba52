-- ===== src/Blacklist/Indexed.antt =====
-- The indexes of pkg/blacklist/manager.go agree with its entries: what makes and what keeps them so.
use mathlib.Core.Path.{subst}
use emqx_go.Base.{
  ◌≡◌, ◌≢◌, ◌⊎◌, inl, inr, refl, sym, ap, ◌∙◌, Bool, true, false, List, [], ◌∷◌, some, arith,
  if◌then◌else◌, Bool-cases, In, Text, text_eq, text_eq_iff, is_empty,
}
use emqx_go.Base.Map.{Map, IsUnique, lookup, delete, lookup-delete, text_has_eq}
use emqx_go.Blacklist.Entries.{
  BlacklistType, type_eq, type_eq_iff, BlacklistEntry, BlacklistManager, set_at,
}
use emqx_go.Blacklist.Manager.{put_direct, put_patterns, remove_first, remove_from_type_index}

-- No id stands in the list twice.
abbrev pub IsDistinct : List Text → Type 0
IsDistinct [] = Unit
IsDistinct (x ∷ xs) = (In x xs → ⊥) × IsDistinct xs

-- Each value of an index names an entry with that value, of that type and without a pattern, each id
-- of a list of patterns an entry of that type with a pattern, and an entry stands under its own id.
pub record IsIndexed (bm : BlacklistManager) : Type 0 where
  pub direct :
      (t : BlacklistType) (v id : Text)
      → lookup v (bm.direct_entries t) ≡ some id
      → (e : BlacklistEntry) × (lookup id bm.entries ≡ some e)
        × (e.type ≡ t)
        × (e.value ≡ v)
        × (e.pattern ≡ [])
  pub pattern :
      (t : BlacklistType) (id : Text)
      → In id (bm.pattern_entries t)
      → (e : BlacklistEntry) × (lookup id bm.entries ≡ some e) × (e.type ≡ t) × (e.pattern ≢ [])
  pub distinct : (t : BlacklistType) → IsDistinct (bm.pattern_entries t)
  pub named : (id : Text) (e : BlacklistEntry) → lookup id bm.entries ≡ some e → e.id ≡ id
  pub unique : IsUnique bm.entries

-- No index names the id.
pub record IsFree (id : Text) (bm : BlacklistManager) : Type 0 where
  pub no_direct : (t : BlacklistType) (v : Text) → lookup v (bm.direct_entries t) ≢ some id
  pub no_pattern : (t : BlacklistType) → In id (bm.pattern_entries t) → ⊥

pub set_at-cases :
    {A : Type 0} (t : BlacklistType) (a : A) (f : BlacklistType → A) (u : BlacklistType)
    → ((t ≡ u) × (set_at t a f u ≡ a)) ⊎ ((t ≢ u) × (set_at t a f u ≡ f u))
set_at-cases t a f u = elim (Bool-cases (type_eq t u)) [
  | inl same ↦ inl ((type_eq_iff t u).0 same, rw same refl)
  | inr other ↦ inr (λ e. absurd (let yes_ = (type_eq_iff t u).1 e in cc), rw other refl)
]

pub is_empty-eq : (s : Text) → is_empty s ≡ true → s ≡ []
is_empty-eq [] h = refl
is_empty-eq (x ∷ s) h = cc

pub is_empty-ne : (s : Text) → is_empty s ≡ false → s ≢ []
is_empty-ne [] h = absurd cc
is_empty-ne (x ∷ s) h = λ e. cc

removed-direct :
    (f : BlacklistType → Map Text Text) (t u : BlacklistType) (w v id : Text)
    → lookup v (set_at t (delete w (f t)) f u) ≡ some id
    → (lookup v (f u) ≡ some id) × (t ≡ u → w ≢ v)
removed-direct f t u w v id h = elim (set_at-cases t (delete w (f t)) f u) [
  | inl (same, q) ↦
      let h' : lookup v (delete w (f t)) ≡ some id = sym (ap (lookup v) q) ∙ h in
      let found : lookup v (f t) ≡ some id = ground (arith, lookup-delete w v (f t)) in
      let apart : text_eq w v ≡ false = ground (arith, lookup-delete w v (f t)) in
      (
        subst (λ x. lookup v (f x) ≡ some id) same found,
        λ _ e. absurd (let eq = (text_eq_iff w v).1 e in cc),
      )
  | inr (other, q) ↦ (sym (ap (lookup v) q) ∙ h, λ e. absurd (other e))
]

In-if :
    (b : Bool) (x y : Text) (ids rest : List Text)
    → In x (if b then ids else y ∷ rest)
    → ((b ≡ true) × In x ids) ⊎ ((b ≡ false) × In x (y ∷ rest))
In-if true x y ids rest h = inl (refl, h)
In-if false x y ids rest h = inr (refl, h)

remove_first-In : (id x : Text) (ids : List Text) → In x (remove_first id ids) → In x ids
unfolding remove_first
remove_first-In id x [] h = h
remove_first-In id x (y ∷ ids) h = elim (In-if (text_eq y id) x y ids (remove_first id ids) h) [
  | inl (same, later) ↦ inr later
  | inr (other, inl here) ↦ inl here
  | inr (other, inr later) ↦ inr (remove_first-In id x ids later)
]

remove_first-gone : (id : Text) (ids : List Text) → IsDistinct ids → In id (remove_first id ids) → ⊥
unfolding remove_first
remove_first-gone id [] d h = h
remove_first-gone id (y ∷ ids) d h = elim (In-if (text_eq y id) id y ids (remove_first id ids) h) [
  | inl (same, later) ↦ d.0 (subst (λ z. In z ids) (sym ((text_eq_iff y id).0 same)) later)
  | inr (other, inl here) ↦ absurd (let eq = (text_eq_iff y id).1 (sym here) in cc)
  | inr (other, inr later) ↦ remove_first-gone id ids d.1 later
]

remove_first-IsDistinct :
    (id : Text) (ids : List Text) → IsDistinct ids → IsDistinct (remove_first id ids)
unfolding remove_first
remove_first-IsDistinct id [] d = tt
remove_first-IsDistinct id (y ∷ ids) d = elim (Bool-cases (text_eq y id)) [
  | inl same ↦ rw same d.1
  | inr other ↦
      rw other ((λ h. d.0 (remove_first-In id y ids h)), remove_first-IsDistinct id ids d.1)
]

-- The fields of the invariant and of freedom, for a manager whose entries are the same.
module _ (e : BlacklistEntry) (bm : BlacklistManager) (ix : IsIndexed bm)
    (found : lookup e.id bm.entries ≡ some e) where
  same_entry : (e' : BlacklistEntry) → lookup e.id bm.entries ≡ some e' → e' ≡ e
  same_entry e' h = cc

  remove_direct-IsIndexed : IsIndexed (put_direct (delete e.value) e.type bm)
  remove_direct-IsIndexed = record {
    direct =
        λ t v id h. ix.direct t v id (removed-direct bm.direct_entries e.type t e.value v id h).0;
    pattern = ix.pattern;
    distinct = ix.distinct;
    named = ix.named;
    unique = ix.unique;
  }

  remove_direct-IsFree : e.pattern ≡ [] → IsFree e.id (put_direct (delete e.value) e.type bm)
  remove_direct-IsFree none_given = record {
    no_direct = λ t v h.
        let (h', apart) = removed-direct bm.direct_entries e.type t e.value v e.id h in
        let (e', found', type', value', pattern') = ix.direct t v e.id h' in
        let same = same_entry e' found' in
        apart (sym (ap (λ (x : BlacklistEntry). x.type) same) ∙ type')
          (sym (ap (λ (x : BlacklistEntry). x.value) same) ∙ value');
    no_pattern = λ t h.
        let (e', found', type', pattern') = ix.pattern t e.id h in
        pattern' (ap (λ (x : BlacklistEntry). x.pattern) (same_entry e' found') ∙ none_given);
  }

  remove_pattern-IsIndexed : IsIndexed (put_patterns (remove_first e.id) e.type bm)
  remove_pattern-IsIndexed = record {
    direct = ix.direct;
    pattern = λ t id h.
        elim (set_at-cases e.type (remove_first e.id (bm.pattern_entries e.type)) bm.pattern_entries
          t) [
            | inl (same, q) ↦
                let h' = remove_first-In e.id id (bm.pattern_entries e.type) (subst (In id) q h) in
                ix.pattern t id (subst (λ u. In id (bm.pattern_entries u)) same h')
            | inr (other, q) ↦ ix.pattern t id (subst (In id) q h)
          ];
    distinct = λ t.
        elim (set_at-cases e.type (remove_first e.id (bm.pattern_entries e.type)) bm.pattern_entries
          t) [
            | inl (same, q) ↦
                subst IsDistinct (sym q)
                  (remove_first-IsDistinct e.id (bm.pattern_entries e.type) (ix.distinct e.type))
            | inr (other, q) ↦ subst IsDistinct (sym q) (ix.distinct t)
          ];
    named = ix.named;
    unique = ix.unique;
  }

  remove_pattern-IsFree : e.pattern ≢ [] → IsFree e.id (put_patterns (remove_first e.id) e.type bm)
  remove_pattern-IsFree given = record {
    no_direct = λ t v h.
        let (e', found', type', value', pattern') = ix.direct t v e.id h in
        given (sym (ap (λ (x : BlacklistEntry). x.pattern) (same_entry e' found')) ∙ pattern');
    no_pattern = λ t h.
        elim (set_at-cases e.type (remove_first e.id (bm.pattern_entries e.type)) bm.pattern_entries
          t) [
            | inl (same, q) ↦
                remove_first-gone e.id (bm.pattern_entries e.type) (ix.distinct e.type)
                  (subst (In e.id) q h)
            | inr (other, q) ↦
                let (e', found', type', pattern') = ix.pattern t e.id (subst (In e.id) q h) in
                other (sym (ap (λ (x : BlacklistEntry). x.type) (same_entry e' found')) ∙ type')
          ];
  }

  pub remove_from_type_index-IsIndexed : IsIndexed (remove_from_type_index e bm)
  unfolding remove_from_type_index
  remove_from_type_index-IsIndexed = elim (Bool-cases (is_empty e.pattern)) [
    | inl none_given ↦ rw none_given remove_direct-IsIndexed
    | inr given ↦ rw given remove_pattern-IsIndexed
  ]

  pub remove_from_type_index-IsFree : IsFree e.id (remove_from_type_index e bm)
  unfolding remove_from_type_index
  remove_from_type_index-IsFree = elim (Bool-cases (is_empty e.pattern)) [
    | inl none_given ↦ rw none_given (remove_direct-IsFree (is_empty-eq e.pattern none_given))
    | inr given ↦ rw given (remove_pattern-IsFree (is_empty-ne e.pattern given))
  ]
