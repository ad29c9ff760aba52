-- ===== src/Blacklist/Calls.antt =====
-- Sequences of calls of pkg/blacklist/manager.go keep the indexes in agreement with the entries.
use mathlib.Core.Path.{subst}
use emqx_go.Base.{
  ok_inj, bind-ok, ℕ, ◌≡◌, ◌≢◌, inl, inr, refl, sym, ap, ◌∙◌, Bool, List, [], ◌∷◌, Option, none,
  some, text_eq-false, Bool-cases, Option-cases, Text, is_empty, Outcome, ok, err, panic,
}
use emqx_go.Base.Map.{Map, IsUnique, lookup, delete, text_has_eq, beq_refl}
use emqx_go.Blacklist.Entries.{
  BlacklistType, Submitted, BlacklistEntry, BlacklistBlock, BlacklistManager, BlacklistError,
  not_found,
}
use emqx_go.Blacklist.Match.{Libraries}
use emqx_go.Blacklist.Manager.{
  new_blacklist_manager, add_to_type_index, remove_from_type_index, put_entry, created, store_entry,
  validate_entry, compile_if, unless_known, Compiled, half_updated, updated, finish_update,
  drop_entry, add_entry, update_entry, remove_entry, is_past, cleanup_loop, cleanup_expired_entries,
  touched, update_stats_on_add, update_stats_on_remove,
}
use emqx_go.Blacklist.Check.{record_block}
use emqx_go.Blacklist.Indexed.{
  IsIndexed, IsFree, remove_from_type_index-IsIndexed, remove_from_type_index-IsFree,
}
use emqx_go.Blacklist.Storing.{
  with_stats-IsIndexed, delete_entry-IsIndexed, put_and_index-IsIndexed, put_entry-IsIndexed,
  unknown-IsFree, lookup-delete_other,
}

-- Taking an entry out of its index leaves the map of the entries, whatever stands in it.
remove_from_type_index-entries :
    (e : BlacklistEntry) (m : Map Text BlacklistEntry) (bm : BlacklistManager)
    → remove_from_type_index e (record bm { entries = m })
      ≡ record (remove_from_type_index e bm) { entries = m }
unfolding remove_from_type_index
remove_from_type_index-entries e m bm = elim (Bool-cases (is_empty e.pattern)) [
  | inl none_given ↦ rw none_given refl
  | inr given ↦ rw given refl
]

entries_same :
    (e : BlacklistEntry) (bm : BlacklistManager)
    → (remove_from_type_index e bm).entries ≡ bm.entries
unfolding remove_from_type_index
entries_same e bm = elim (Bool-cases (is_empty e.pattern)) [
  | inl none_given ↦ rw none_given refl
  | inr given ↦ rw given refl
]

pub new_blacklist_manager-IsIndexed : (now : ℕ) → IsIndexed (new_blacklist_manager now)
unfolding new_blacklist_manager lookup
new_blacklist_manager-IsIndexed now = record {
  direct = λ t v id h. absurd cc;
  pattern = λ t id h. absurd h;
  distinct = λ t. tt;
  named = λ id e h. absurd cc;
  unique = tt;
}

drop_entry-entries :
    (now : ℕ) (id : Text) (e : BlacklistEntry) (bm : BlacklistManager)
    → (drop_entry now id e bm).entries ≡ delete id bm.entries
drop_entry-entries now id e bm = entries_same e (record bm { entries = delete id bm.entries })

drop_entry-IsIndexed :
    (now : ℕ) (id : Text) (e : BlacklistEntry) (bm : BlacklistManager)
    → IsIndexed bm
    → lookup id bm.entries ≡ some e
    → IsIndexed (drop_entry now id e bm)
drop_entry-IsIndexed now id e bm ix found =
    let same : e.id ≡ id = ix.named id e found in
    let found' = subst (λ x. lookup x bm.entries ≡ some e) (sym same) found in
    let bm1 = remove_from_type_index e bm in
    let free = subst (λ x. IsFree x bm1) same (remove_from_type_index-IsFree e bm ix found') in
    let dropped =
      delete_entry-IsIndexed id bm1 (remove_from_type_index-IsIndexed e bm ix found') free in
    let dropped' =
      subst (λ m. IsIndexed (record bm1 { entries = delete id m })) (entries_same e bm) dropped in
    with_stats-IsIndexed (update_stats_on_remove now e)
      (remove_from_type_index e (record bm { entries = delete id bm.entries }))
      (subst IsIndexed (sym (remove_from_type_index-entries e (delete id bm.entries) bm)) dropped')

unless_known-ok : (old : Option BlacklistEntry) (b : Bool) → unless_known old ≡ ok b → old ≡ none
unless_known-ok none b h = refl
unless_known-ok (some e) b h = absurd cc

remove_entry-unknown :
    (now : ℕ) (id : Text) (bm : BlacklistManager)
    → lookup id bm.entries ≡ none
    → remove_entry now id bm ≡ err not_found
unfolding remove_entry
remove_entry-unknown now id bm unknown = rw unknown refl

pub remove_entry-known :
    (now : ℕ) (id : Text) (e : BlacklistEntry) (bm : BlacklistManager)
    → lookup id bm.entries ≡ some e
    → remove_entry now id bm ≡ ok (drop_entry now id e bm)
unfolding remove_entry
remove_entry-known now id e bm found = rw found refl

remove_entry-IsIndexed :
    (now : ℕ) (id : Text) (bm bm' : BlacklistManager)
    → IsIndexed bm
    → remove_entry now id bm ≡ ok bm'
    → IsIndexed bm'
remove_entry-IsIndexed now id bm bm' ix h = elim (Option-cases (lookup id bm.entries)) [
  | inl unknown ↦ absurd (let e = remove_entry-unknown now id bm unknown in cc)
  | inr (e, found) ↦
      subst IsIndexed (ok_inj (sym (remove_entry-known now id e bm found) ∙ h))
        (drop_entry-IsIndexed now id e bm ix found)
]

-- What a successful AddEntry has found out, and what it returns.
pub add_entry-ok :
    (lib : Libraries) (now : ℕ) (s : Submitted) (bm bm' : BlacklistManager)
    → add_entry lib now s bm ≡ ok bm'
    → (t : BlacklistType) × (c : Option (Text → Bool)) × (validate_entry s ≡ ok t)
      × (lookup s.id bm.entries ≡ none)
      × (compile_if lib s.pattern none ≡ ok c)
      × (store_entry now (created now s t c) bm ≡ bm')
unfolding add_entry
add_entry-ok lib now s bm bm' h =
    let (t, valid, h1) = bind-ok (validate_entry s) _ bm' h in
    let (b, new, h2) = bind-ok (unless_known (lookup s.id bm.entries)) _ bm' h1 in
    let (c, compiled, h3) = bind-ok (compile_if lib s.pattern none) _ bm' h2 in
    (t, c, valid, unless_known-ok (lookup s.id bm.entries) b new, compiled, ok_inj h3)

pub add_entry-IsIndexed :
    (lib : Libraries) (now : ℕ) (s : Submitted) (bm bm' : BlacklistManager)
    → IsIndexed bm
    → add_entry lib now s bm ≡ ok bm'
    → IsIndexed bm'
add_entry-IsIndexed lib now s bm bm' ix h =
    let (t, c, valid, unknown, compiled, same) = add_entry-ok lib now s bm bm' h in
    let e = created now s t c in
    subst IsIndexed same (
      with_stats-IsIndexed (update_stats_on_add now e) (add_to_type_index e (put_entry e bm))
        (put_and_index-IsIndexed e bm ix (unknown-IsFree s.id bm ix unknown)))

finish_update-IsIndexed :
    (now : ℕ) (up : Submitted) (e : BlacklistEntry) (bm : BlacklistManager)
    → IsIndexed bm
    → IsFree e.id bm
    → (c : Compiled) → IsIndexed (finish_update now up e bm c).1
finish_update-IsIndexed now up e bm ix free (ok compiled) =
    let e' = updated now up compiled e in
    with_stats-IsIndexed (touched now) (add_to_type_index e' (put_entry e' bm))
      (put_and_index-IsIndexed e' bm ix free)
finish_update-IsIndexed now up e bm ix free (err x) =
    put_entry-IsIndexed (half_updated up e) bm ix free
finish_update-IsIndexed now up e bm ix free panic =
    put_entry-IsIndexed (half_updated up e) bm ix free

-- An update keeps the agreement, and so does one that fails.
update_entry-IsIndexed :
    (lib : Libraries) (now : ℕ) (id : Text) (up : Submitted) (bm : BlacklistManager)
    → IsIndexed bm
    → IsIndexed (update_entry lib now id up bm).1
unfolding update_entry
update_entry-IsIndexed lib now id up bm ix = elim (Option-cases (lookup id bm.entries)) [
  | inl unknown ↦ rw unknown ix
  | inr (e, found) ↦
      let found' = subst (λ x. lookup x bm.entries ≡ some e) (sym (ix.named id e found)) found in
      rw found (
        finish_update-IsIndexed now up e (remove_from_type_index e bm)
          (remove_from_type_index-IsIndexed e bm ix found')
          (remove_from_type_index-IsFree e bm ix found')
          (compile_if lib up.pattern e.compiled_pattern))
]

-- The range of the cleanup: what is still to come is what the manager holds.
abbrev IsHeld : Map Text BlacklistEntry → BlacklistManager → Type 0
IsHeld m bm =
    (id : Text) (e : BlacklistEntry) → lookup id m ≡ some e → lookup id bm.entries ≡ some e

IsHeld-tail :
    (id : Text) (e : BlacklistEntry) (m : Map Text BlacklistEntry) (bm : BlacklistManager)
    → lookup id m ≡ none
    → IsHeld ((id, e) ∷ m) bm
    → IsHeld m (record bm { entries = delete id bm.entries })
unfolding lookup
IsHeld-tail id e m bm new held x e' h =
    let apart : x ≢ id = λ q. absurd (let q' = subst (λ y. lookup y m ≡ some e') q h in cc) in
    let here : lookup x ((id, e) ∷ m) ≡ some e' = rw (text_eq-false id x (λ q. apart (sym q))) h in
    lookup-delete_other id x bm.entries apart ∙ held x e' here

IsHeld-skip :
    (id : Text) (e : BlacklistEntry) (m : Map Text BlacklistEntry) (bm : BlacklistManager)
    → lookup id m ≡ none
    → IsHeld ((id, e) ∷ m) bm
    → IsHeld m bm
unfolding lookup
IsHeld-skip id e m bm new held x e' h =
    let apart : id ≢ x = λ q. absurd (let q' = subst (λ y. lookup y m ≡ some e') (sym q) h in cc) in
    held x e' (rw (text_eq-false id x apart) h)

cleanup_loop-IsIndexed :
    (now : ℕ) (m : Map Text BlacklistEntry) (bm : BlacklistManager)
    → IsUnique m
    → IsHeld m bm
    → IsIndexed bm
    → IsIndexed (cleanup_loop now m bm)
unfolding cleanup_loop lookup
cleanup_loop-IsIndexed now [] bm u held ix = ix
cleanup_loop-IsIndexed now ((id, e) ∷ m) bm u held ix =
    elim (Bool-cases (is_past now e.expires_at)) [
      | inl past ↦ rw past (
          cleanup_loop-IsIndexed now m (drop_entry now id e bm) u.1
            (λ x e' h.
              ap (lookup x) (drop_entry-entries now id e bm)
              ∙ IsHeld-tail id e m bm u.0 held x e' h)
            (drop_entry-IsIndexed now id e bm ix (held id e (rw (beq_refl id) refl))))
      | inr not_past ↦
          rw not_past (cleanup_loop-IsIndexed now m bm u.1 (IsHeld-skip id e m bm u.0 held) ix)
    ]

cleanup_expired_entries-IsIndexed :
    (now : ℕ) (bm : BlacklistManager) → IsIndexed bm → IsIndexed (cleanup_expired_entries now bm)
unfolding cleanup_expired_entries
cleanup_expired_entries-IsIndexed now bm ix =
    cleanup_loop-IsIndexed now bm.entries bm ix.unique (λ id e h. h) ix

-- The calls that change a manager. A failed call leaves what the method leaves.
pub data Call : Type 0 where
  add : ℕ → Submitted → Call
  update : ℕ → Text → Submitted → Call
  remove : ℕ → Text → Call
  cleanup : ℕ → Call
  block : ℕ → BlacklistBlock → Call

abbrev pub or_unchanged :
    BlacklistManager → Outcome BlacklistError BlacklistManager → BlacklistManager
or_unchanged bm (ok bm') = bm'
or_unchanged bm _ = bm

unfoldable pub step : Libraries → Call → BlacklistManager → BlacklistManager
unfolding add_entry update_entry remove_entry cleanup_expired_entries record_block
step lib (add now s) bm = or_unchanged bm (add_entry lib now s bm)
step lib (update now id s) bm = (update_entry lib now id s bm).1
step lib (remove now id) bm = or_unchanged bm (remove_entry now id bm)
step lib (cleanup now) bm = cleanup_expired_entries now bm
step lib (block now b) bm = record_block now b bm

unfoldable pub calls : Libraries → List Call → BlacklistManager → BlacklistManager
unfolding step
calls lib [] bm = bm
calls lib (c ∷ cs) bm = calls lib cs (step lib c bm)

or_unchanged-IsIndexed :
    (bm : BlacklistManager) (r : Outcome BlacklistError BlacklistManager)
    → IsIndexed bm
    → ((bm' : BlacklistManager) → r ≡ ok bm' → IsIndexed bm')
    → IsIndexed (or_unchanged bm r)
or_unchanged-IsIndexed bm (ok bm') ix f = f bm' refl
or_unchanged-IsIndexed bm (err x) ix f = ix
or_unchanged-IsIndexed bm panic ix f = ix

step-IsIndexed :
    (lib : Libraries) (c : Call) (bm : BlacklistManager) → IsIndexed bm → IsIndexed (step lib c bm)
unfolding step record_block
step-IsIndexed lib (add now s) bm ix =
    or_unchanged-IsIndexed bm (add_entry lib now s bm) ix
      (λ bm' h. add_entry-IsIndexed lib now s bm bm' ix h)
step-IsIndexed lib (update now id s) bm ix = update_entry-IsIndexed lib now id s bm ix
step-IsIndexed lib (remove now id) bm ix =
    or_unchanged-IsIndexed bm (remove_entry now id bm) ix
      (λ bm' h. remove_entry-IsIndexed now id bm bm' ix h)
step-IsIndexed lib (cleanup now) bm ix = cleanup_expired_entries-IsIndexed now bm ix
step-IsIndexed lib (block now b) bm ix =
    with_stats-IsIndexed (λ st. (record_block now b bm).stats) bm ix

calls_from-IsIndexed :
    (lib : Libraries) (cs : List Call) (bm : BlacklistManager)
    → IsIndexed bm
    → IsIndexed (calls lib cs bm)
unfolding calls
calls_from-IsIndexed lib [] bm ix = ix
calls_from-IsIndexed lib (c ∷ cs) bm ix =
    calls_from-IsIndexed lib cs (step lib c bm) (step-IsIndexed lib c bm ix)

-- After any sequence of additions, updates, removals, cleanups and records of blocks, failed ones
-- included, each value of an index names an entry with that value and type and without a pattern, each
-- id in a list of patterns stands once in it and names an entry of that type with a pattern, and an
-- entry stands under its own id.
pub calls-IsIndexed :
    (lib : Libraries) (now : ℕ) (cs : List Call)
    → IsIndexed (calls lib cs (new_blacklist_manager now))
calls-IsIndexed lib now cs =
    calls_from-IsIndexed lib cs (new_blacklist_manager now) (new_blacklist_manager-IsIndexed now)
