-- ===== src/Blacklist/Sound.antt =====
-- What the checks of pkg/blacklist/manager.go answer is an entry that applies, and a value that no
-- index names is not blocked by value.
use mathlib.Core.Path.{subst}
use emqx_go.Base.{
  ok_inj, ℕ, ◌≡◌, ◌≢◌, ◌⊎◌, refl, sym, ◌∙◌, Bool, true, [], none, some, Text, is_empty, ok,
}
use emqx_go.Base.Map.{lookup, delete, lookup-delete_self, text_has_eq}
use emqx_go.Blacklist.Entries.{BlacklistType, BlacklistEntry, BlacklistManager, type_eq_iff}
use emqx_go.Blacklist.Manager.{remove_entry, remove_from_type_index, drop_entry}
use emqx_go.Blacklist.Check.{is_in_force, if_in_force, entry_of, check_direct}
use emqx_go.Blacklist.Calls.{remove_entry-known}

-- The entry stands in the manager, is of the type and in force, and its value is the string, or it has
-- a pattern and matches.
pub record Applies (matches : Text → BlacklistEntry → Bool) (now : ℕ) (t : BlacklistType) (s : Text)
    (bm : BlacklistManager) (e : BlacklistEntry) : Type 0 where
  pub held : lookup e.id bm.entries ≡ some e
  pub of_type : e.type ≡ t
  pub in_force : is_in_force now e ≡ true
  pub hit : ((e.value ≡ s) × (e.pattern ≡ [])) ⊎ ((matches s e ≡ true) × (e.pattern ≢ []))

remove_from_type_index-forgets :
    (e : BlacklistEntry) (bm : BlacklistManager)
    → is_empty e.pattern ≡ true
    → lookup e.value ((remove_from_type_index e bm).direct_entries e.type) ≡ none
unfolding remove_from_type_index
remove_from_type_index-forgets e bm none_given =
    rw (none_given, (type_eq_iff e.type e.type).1 refl, lookup-delete_self) refl

-- Once an entry without a pattern is removed, no entry is found under its value, of whatever entries
-- have that type and value.
remove_entry-forgets_value :
    (now later : ℕ) (id : Text) (e : BlacklistEntry) (bm bm' : BlacklistManager)
    → lookup id bm.entries ≡ some e
    → is_empty e.pattern ≡ true
    → remove_entry now id bm ≡ ok bm'
    → check_direct later e.type e.value bm' ≡ none
unfolding check_direct
remove_entry-forgets_value now later id e bm bm' found none_given h =
    let q : drop_entry now id e bm ≡ bm' =
      ok_inj (sym (remove_entry-known now id e bm found) ∙ h) in
    let gone =
      remove_from_type_index-forgets e (record bm { entries = delete id bm.entries }) none_given in
    subst (λ m. if_in_force later (entry_of m (lookup e.value (m.direct_entries e.type))) ≡ none) q
      (rw gone refl)
