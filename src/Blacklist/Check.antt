-- ===== src/Blacklist/Check.antt =====
-- The checks of BlacklistManager in pkg/blacklist/manager.go, and the record of a block. A record is
-- made in a goroutine of its own, a later step.
use emqx_go.Base.{
  ℕ, ◌+◌, Bool, true, false, ◌&&◌, List, [], ◌∷◌, ◌++◌, Option, none, some, if◌then◌else◌, ltb,
  length, drop, Text,
}
use emqx_go.Base.Map.{lookup, text_has_eq}
use emqx_go.Blacklist.Entries.{
  BlacklistType, client_id, username, ip_address, topic, BlacklistEntry, ClientInfo, BlacklistBlock,
  BlacklistManager, set_at,
}
use emqx_go.Blacklist.Match.{Libraries, matches_compiled, match_ip_pattern, match_topic_pattern}

-- entry.ExpiresAt == nil || time.Now().Before(*entry.ExpiresAt)
abbrev pub is_before : ℕ → Option ℕ → Bool
is_before now none = true
is_before now (some t) = ltb now t

abbrev pub is_in_force : ℕ → BlacklistEntry → Bool
is_in_force now e = e.enabled && is_before now e.expires_at

abbrev pub if_in_force : ℕ → Option BlacklistEntry → Option BlacklistEntry
if_in_force now none = none
if_in_force now (some e) = if is_in_force now e then some e else none

abbrev pub entry_of : BlacklistManager → Option Text → Option BlacklistEntry
entry_of bm none = none
entry_of bm (some id) = lookup id bm.entries

-- What the map of the values points at, if it is in force.
unfoldable pub check_direct : ℕ → BlacklistType → Text → BlacklistManager → Option BlacklistEntry
check_direct now t s bm = if_in_force now (entry_of bm (lookup s (bm.direct_entries t)))

abbrev pub applies : (Text → BlacklistEntry → Bool) → ℕ → Text → Option BlacklistEntry → Bool
applies matches now s none = false
applies matches now s (some e) = is_in_force now e && matches s e

abbrev pub first_or : Bool → Option BlacklistEntry → Option BlacklistEntry → Option BlacklistEntry
first_or true e rest = e
first_or false e rest = rest

-- The loop over the entries with a pattern.
unfoldable pub check_patterns :
    (Text → BlacklistEntry → Bool) → ℕ → Text → List Text → BlacklistManager → Option BlacklistEntry
check_patterns matches now s [] bm = none
check_patterns matches now s (id ∷ ids) bm =
    let rest = check_patterns matches now s ids bm in
    let e = lookup id bm.entries in first_or (applies matches now s e) e rest

abbrev pub or_next : Option BlacklistEntry → Option BlacklistEntry → Option BlacklistEntry
or_next none next = next
or_next (some e) next = some e

-- What checkClientID, checkUsername, checkIPAddress and checkTopic share.
unfoldable pub check_type :
    (Text → BlacklistEntry → Bool)
    → ℕ
    → BlacklistType
    → Text
    → BlacklistManager
    → Option BlacklistEntry
unfolding check_direct check_patterns
check_type matches now t s bm =
    or_next (check_direct now t s bm) (check_patterns matches now s (bm.pattern_entries t) bm)

abbrev pub match_pattern : Text → BlacklistEntry → Bool
match_pattern s e = matches_compiled s e.compiled_pattern

unfoldable pub check_client_id : ℕ → Text → BlacklistManager → Option BlacklistEntry
unfolding check_type
check_client_id now s bm = check_type match_pattern now client_id s bm

unfoldable pub check_username : ℕ → Text → BlacklistManager → Option BlacklistEntry
unfolding check_type
check_username now s bm = check_type match_pattern now username s bm

unfoldable pub check_ip_address : Libraries → ℕ → Text → BlacklistManager → Option BlacklistEntry
unfolding check_type
check_ip_address lib now s bm = check_type (match_ip_pattern lib) now ip_address s bm

unfoldable pub check_topic : ℕ → Text → BlacklistManager → Option BlacklistEntry
unfolding check_type
check_topic now s bm = check_type match_topic_pattern now topic s bm

abbrev pub block_by : ℕ → BlacklistType → Text → ClientInfo → BlacklistEntry → BlacklistBlock
block_by now t s info e = record {
  timestamp = now;
  type = t;
  value = s;
  action = e.action;
  entry_id = e.id;
  client_info = info;
  reason = e.reason;
}

abbrev pub Blocked : Type 0
Blocked = Option (BlacklistEntry × BlacklistBlock)

abbrev pub or_else :
    ℕ → BlacklistType → Text → ClientInfo → Option BlacklistEntry → Blocked → Blocked
or_else now t s info none rest = rest
or_else now t s info (some e) rest = some (e, block_by now t s info e)

-- CheckClientConnection: the entry that blocks, with the record that is then made, or none.
unfoldable pub check_client_connection : Libraries → ℕ → ClientInfo → BlacklistManager → Blocked
unfolding check_client_id check_username check_ip_address
check_client_connection lib now info bm =
    or_else now client_id info.client_id info (check_client_id now info.client_id bm) (
      or_else now username info.username info (check_username now info.username bm) (
        or_else now ip_address info.ip_address info (check_ip_address lib now info.ip_address bm)
          none))

-- CheckTopicAccess; the action of the access is not used.
unfoldable pub check_topic_access : ℕ → Text → ClientInfo → BlacklistManager → Blocked
unfolding check_topic
check_topic_access now s info bm = or_else now topic s info (check_topic now s bm) none

abbrev pub last_100 : List BlacklistBlock → List BlacklistBlock
last_100 blocks = if ltb 100 (length blocks) then drop 1 blocks else blocks

-- The goroutine of recordBlock.
unfoldable pub record_block : ℕ → BlacklistBlock → BlacklistManager → BlacklistManager
record_block now block bm = record bm {
  stats = record bm.stats {
    total_blocks = bm.stats.total_blocks + 1;
    blocks_by_type =
        set_at block.type (bm.stats.blocks_by_type block.type + 1) bm.stats.blocks_by_type;
    recent_blocks = last_100 (bm.stats.recent_blocks ++ block ∷ []);
    last_updated = now;
  };
}
