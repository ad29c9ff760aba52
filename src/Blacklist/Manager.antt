-- ===== src/Blacklist/Manager.antt =====
-- BlacklistManager of pkg/blacklist/manager.go: adding, changing and removing entries. A method is one
-- step and is handed the time.
use emqx_go.Base.{
  ℕ, ◌+◌, ◌-◌, Bool, true, false, not, ◌&&◌, ◌||◌, List, [], ◌∷◌, ◌++◌, Option, none, some,
  if◌then◌else◌, ltb, filter, map, Text, codes, text_eq, is_empty, Outcome, ok, err, panic, ◌>>=◌,
}
use emqx_go.Base.Map.{Map, lookup, insert, delete, text_has_eq}
use emqx_go.Blacklist.Entries.{
  BlacklistType, type_eq, type_of_name, Submitted, BlacklistEntry, Counter, BlacklistStats,
  BlacklistManager, BlacklistError, id_required, invalid_type, invalid_action, value_required,
  already_exists, invalid_pattern, not_found, set_at, set_action,
}
use emqx_go.Blacklist.Match.{Libraries}

unfoldable pub new_blacklist_manager : ℕ → BlacklistManager
new_blacklist_manager now = record {
  entries = [];
  direct_entries = λ t. [];
  pattern_entries = λ t. [];
  stats = record {
    total_entries = 0;
    entries_by_type = λ t. record { ups = 0; downs = 0 };
    entries_by_action = λ a. record { ups = 0; downs = 0 };
    total_blocks = 0;
    blocks_by_type = λ t. 0;
    recent_blocks = [];
    last_updated = now;
  };
}

abbrev pub is_action : Text → Bool
is_action a =
    text_eq a (codes "deny") || (text_eq a (codes "disconnect") || text_eq a (codes "log"))

abbrev pub validate_rest : Submitted → Option BlacklistType → Outcome BlacklistError BlacklistType
validate_rest e none = err invalid_type
validate_rest e (some t) =
    if not (is_action e.action)
    then err invalid_action
    else if is_empty e.value && is_empty e.pattern
    then err value_required
    else ok t

-- The type is that which the name stands for.
unfoldable pub validate_entry : Submitted → Outcome BlacklistError BlacklistType
unfolding type_of_name
validate_entry e =
    if is_empty e.id then err id_required else validate_rest e (type_of_name e.type_name)

abbrev pub put_direct :
    (Map Text Text → Map Text Text) → BlacklistType → BlacklistManager → BlacklistManager
put_direct f t bm = record bm {
  direct_entries = set_at t (f (bm.direct_entries t)) bm.direct_entries;
}

abbrev pub put_patterns :
    (List Text → List Text) → BlacklistType → BlacklistManager → BlacklistManager
put_patterns f t bm = record bm {
  pattern_entries = set_at t (f (bm.pattern_entries t)) bm.pattern_entries;
}

unfoldable pub add_to_type_index : BlacklistEntry → BlacklistManager → BlacklistManager
add_to_type_index e bm =
    if is_empty e.pattern
    then put_direct (insert e.value e.id) e.type bm
    else put_patterns (λ ids. ids ++ e.id ∷ []) e.type bm

-- The loop that takes the first entry of the id out of the slice.
unfoldable pub remove_first : Text → List Text → List Text
remove_first id [] = []
remove_first id (x ∷ ids) = let rest = remove_first id ids in if text_eq x id then ids else x ∷ rest

unfoldable pub remove_from_type_index : BlacklistEntry → BlacklistManager → BlacklistManager
unfolding remove_first
remove_from_type_index e bm =
    if is_empty e.pattern
    then put_direct (delete e.value) e.type bm
    else put_patterns (remove_first e.id) e.type bm

abbrev pub up : Counter → Counter
up c = record c { ups = c.ups + 1 }

abbrev pub down : Counter → Counter
down c = record c { downs = c.downs + 1 }

unfoldable pub update_stats_on_add : ℕ → BlacklistEntry → BlacklistStats → BlacklistStats
update_stats_on_add now e st = record st {
  total_entries = st.total_entries + 1;
  entries_by_type = set_at e.type (up (st.entries_by_type e.type)) st.entries_by_type;
  entries_by_action = set_action e.action (up (st.entries_by_action e.action)) st.entries_by_action;
  last_updated = now;
}

unfoldable pub update_stats_on_remove : ℕ → BlacklistEntry → BlacklistStats → BlacklistStats
update_stats_on_remove now e st = record st {
  total_entries = st.total_entries - 1;
  entries_by_type = set_at e.type (down (st.entries_by_type e.type)) st.entries_by_type;
  entries_by_action =
      set_action e.action (down (st.entries_by_action e.action)) st.entries_by_action;
  last_updated = now;
}

abbrev pub Compiled : Type 0
Compiled = Outcome BlacklistError (Option (Text → Bool))

abbrev pub or_invalid : Option (Text → Bool) → Compiled
or_invalid none = err invalid_pattern
or_invalid (some test) = ok (some test)

-- Compile the pattern if one is given; `old` is what there was.
unfoldable pub compile_if : Libraries → Text → Option (Text → Bool) → Compiled
compile_if lib pattern old = if is_empty pattern then ok old else or_invalid (lib.compile pattern)

abbrev pub put_entry : BlacklistEntry → BlacklistManager → BlacklistManager
put_entry e bm = record bm { entries = insert e.id e bm.entries }

abbrev pub created : ℕ → Submitted → BlacklistType → Option (Text → Bool) → BlacklistEntry
created now e t compiled = record {
  id = e.id;
  type = t;
  value = e.value;
  pattern = e.pattern;
  action = e.action;
  reason = e.reason;
  description = e.description;
  created_at = now;
  updated_at = now;
  expires_at = e.expires_at;
  enabled = e.enabled;
  compiled_pattern = compiled;
}

abbrev pub with_stats : (BlacklistStats → BlacklistStats) → BlacklistManager → BlacklistManager
with_stats f bm = record bm { stats = f bm.stats }

abbrev pub store_entry : ℕ → BlacklistEntry → BlacklistManager → BlacklistManager
store_entry now e bm = with_stats (update_stats_on_add now e) (add_to_type_index e (put_entry e bm))

abbrev pub is_known : Option BlacklistEntry → Bool
is_known none = false
is_known (some e) = true

abbrev pub unless_known : Option BlacklistEntry → Outcome BlacklistError Bool
unless_known none = ok true
unless_known (some e) = err already_exists

unfoldable pub add_entry :
    Libraries → ℕ → Submitted → BlacklistManager → Outcome BlacklistError BlacklistManager
unfolding validate_entry compile_if add_to_type_index update_stats_on_add
add_entry lib now e bm = do
  t ← validate_entry e
  _ ← unless_known (lookup e.id bm.entries)
  compiled ← compile_if lib e.pattern none
  ok (store_entry now (created now e t compiled) bm)

abbrev pub or_old : Text → Text → Text
or_old old new = if is_empty new then old else new

abbrev pub or_old_time : Option ℕ → Option ℕ → Option ℕ
or_old_time old none = old
or_old_time old (some t) = some t

-- The entry when its value and its pattern are set, and nothing more.
abbrev pub half_updated : Submitted → BlacklistEntry → BlacklistEntry
half_updated up e = record e {
  value = or_old e.value up.value;
  pattern = or_old e.pattern up.pattern;
}

abbrev pub updated : ℕ → Submitted → Option (Text → Bool) → BlacklistEntry → BlacklistEntry
updated now up compiled e = record (half_updated up e) {
  compiled_pattern = compiled;
  action = or_old e.action up.action;
  reason = or_old e.reason up.reason;
  description = or_old e.description up.description;
  enabled = up.enabled;
  updated_at = now;
  expires_at = or_old_time e.expires_at up.expires_at;
}

abbrev pub touched : ℕ → BlacklistStats → BlacklistStats
touched now st = record st { last_updated = now }

-- The entry is changed where it is, so that a failure leaves what was set before it.
abbrev pub finish_update :
    ℕ
    → Submitted
    → BlacklistEntry
    → BlacklistManager
    → Compiled
    → Option BlacklistError × BlacklistManager
finish_update now up e bm (ok compiled) =
    let e' = updated now up compiled e in
    (none, with_stats (touched now) (add_to_type_index e' (put_entry e' bm)))
finish_update now up e bm (err x) = (some x, put_entry (half_updated up e) bm)
finish_update now up e bm panic = (some invalid_pattern, put_entry (half_updated up e) bm)

abbrev pub update_found :
    Libraries
    → ℕ
    → Submitted
    → BlacklistManager
    → Option BlacklistEntry
    → Option BlacklistError × BlacklistManager
update_found lib now up bm none = (some not_found, bm)
update_found lib now up bm (some e) =
    finish_update now up e (remove_from_type_index e bm)
      (compile_if lib up.pattern e.compiled_pattern)

unfoldable pub update_entry :
    Libraries → ℕ → Text → Submitted → BlacklistManager → Option BlacklistError × BlacklistManager
unfolding remove_from_type_index compile_if add_to_type_index
update_entry lib now id up bm = update_found lib now up bm (lookup id bm.entries)

abbrev pub drop_entry : ℕ → Text → BlacklistEntry → BlacklistManager → BlacklistManager
drop_entry now id e bm =
    with_stats (update_stats_on_remove now e)
      (remove_from_type_index e (record bm { entries = delete id bm.entries }))

abbrev pub remove_found :
    ℕ → Text → BlacklistManager → Option BlacklistEntry → Outcome BlacklistError BlacklistManager
remove_found now id bm none = err not_found
remove_found now id bm (some e) = ok (drop_entry now id e bm)

unfoldable pub remove_entry : ℕ → Text → BlacklistManager → Outcome BlacklistError BlacklistManager
unfolding remove_from_type_index update_stats_on_remove
remove_entry now id bm = remove_found now id bm (lookup id bm.entries)

abbrev pub or_not_found : Option BlacklistEntry → Outcome BlacklistError BlacklistEntry
or_not_found none = err not_found
or_not_found (some e) = ok e

unfoldable pub get_entry : Text → BlacklistManager → Outcome BlacklistError BlacklistEntry
get_entry id bm = or_not_found (lookup id bm.entries)

-- now.After(*entry.ExpiresAt)
abbrev pub is_past : ℕ → Option ℕ → Bool
is_past now none = false
is_past now (some t) = ltb t now

abbrev pub same_type : Option BlacklistType → BlacklistType → Bool
same_type none t = true
same_type (some u) t = type_eq t u

abbrev pub same_state : Option Bool → Bool → Bool
same_state none b = true
same_state (some true) b = b
same_state (some false) b = not b

unfoldable pub list_entries :
    ℕ → Option BlacklistType → Option Bool → BlacklistManager → List BlacklistEntry
list_entries now t enabled bm =
    filter
      (λ (e : BlacklistEntry).
        same_type t e.type && (same_state enabled e.enabled && not (is_past now e.expires_at)))
      (map (λ (entry : Text × BlacklistEntry). entry.1) bm.entries)

-- The range of CleanupExpiredEntries, which deletes what it visits.
unfoldable pub cleanup_loop : ℕ → Map Text BlacklistEntry → BlacklistManager → BlacklistManager
unfolding remove_from_type_index update_stats_on_remove
cleanup_loop now [] bm = bm
cleanup_loop now ((id, e) ∷ m) bm =
    cleanup_loop now m (if is_past now e.expires_at then drop_entry now id e bm else bm)

unfoldable pub cleanup_expired_entries : ℕ → BlacklistManager → BlacklistManager
unfolding cleanup_loop
cleanup_expired_entries now bm = cleanup_loop now bm.entries bm
