-- ===== src/Blacklist/Match.antt =====
-- How an entry of pkg/blacklist/manager.go matches. Regular expressions and IP addresses are the
-- libraries' and enter as an interface.
use emqx_go.Base.{
  ℕ, ◌≡◌, refl, Bool, true, false, ◌&&◌, List, [], ◌∷◌, Option, none, some, if◌then◌else◌, arith,
  Text, codes, text_eq, text_eq_iff, contains,
}
use emqx_go.Topic.Filter.{hash, plus, levels, is_nil, filter_loop, matches_topic_filter}
use emqx_go.Topic.Wildcards.{IsValidFilter}
use emqx_go.Blacklist.Entries.{BlacklistEntry}

-- regexp.Compile, and net.ParseIP and net.ParseCIDR: an address as a number, a network as its test.
pub record Libraries : Type 0 where
  pub compile : Text → Option (Text → Bool)
  pub parse_ip : Text → Option ℕ
  pub parse_cidr : Text → Option (ℕ → Bool)

abbrev pub matches_compiled : Text → Option (Text → Bool) → Bool
matches_compiled s none = false
matches_compiled s (some test) = test s

abbrev pub in_network : Option (ℕ → Bool) → Option ℕ → Bool
in_network (some network) (some ip) = network ip
in_network _ _ = false

unfoldable pub match_ip_pattern : Libraries → Text → BlacklistEntry → Bool
match_ip_pattern lib ip e =
    if contains e.value (codes "/") && in_network (lib.parse_cidr e.value) (lib.parse_ip ip)
    then true
    else matches_compiled ip e.compiled_pattern

-- What is left of the levels stands for the indexes.
unfoldable pub match_topic_levels : List Text → List Text → Bool
match_topic_levels ts [] = is_nil ts
match_topic_levels [] (f ∷ fs) = is_nil fs && text_eq f hash
match_topic_levels (t ∷ ts) (f ∷ fs) =
    let rest = match_topic_levels ts fs in
    if text_eq f hash
    then true
    else if text_eq f plus
    then rest
    else if text_eq f t
    then rest
    else false

unfoldable pub match_mqtt_topic_filter : Text → Text → Bool
unfolding match_topic_levels
match_mqtt_topic_filter topic filter = match_topic_levels (levels topic) (levels filter)

unfoldable pub match_topic_pattern : Text → BlacklistEntry → Bool
unfolding match_mqtt_topic_filter
match_topic_pattern topic e =
    if match_mqtt_topic_filter topic e.value
    then true
    else matches_compiled topic e.compiled_pattern

levels_agree : (ts fs : List Text) → IsValidFilter fs → match_topic_levels ts fs ≡ filter_loop ts fs
unfolding match_topic_levels filter_loop
levels_agree ts [] v = refl
levels_agree [] (f ∷ fs) v = ground arith
levels_agree (t ∷ ts) (f ∷ []) v = ground (arith, levels_agree ts [] tt)
levels_agree (t ∷ ts) (f ∷ g ∷ fs) v =
    ground (arith, text_eq_iff f hash, levels_agree ts (g ∷ fs) v.1)

-- On a filter in which `#` is the last level or no level, the blacklist's matcher gives the answer of
-- the topic store.
pub match_mqtt_topic_filter-agrees :
    (topic filter : Text)
    → IsValidFilter (levels filter)
    → match_mqtt_topic_filter topic filter ≡ matches_topic_filter topic filter
unfolding match_mqtt_topic_filter matches_topic_filter
match_mqtt_topic_filter-agrees topic filter v = levels_agree (levels topic) (levels filter) v
