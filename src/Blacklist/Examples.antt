-- ===== src/Blacklist/Examples.antt =====
-- The theorems on pkg/blacklist at small managers. Every regular expression matches every string here,
-- and no text is an address.
use emqx_go.Base.{
  ℕ, ◌≡◌, refl, Bool, true, false, List, [], ◌∷◌, Option, none, some, Text, codes, ok, split, arith,
  text_eq_iff,
}
use emqx_go.Base.Map.{lookup, insert, text_has_eq}
use emqx_go.Blacklist.Entries.{
  Submitted, BlacklistEntry, BlacklistManager, BlacklistBlock, BlacklistType, client_id, username,
  type_of_name,
}
use emqx_go.Blacklist.Match.{Libraries, match_mqtt_topic_filter, match_mqtt_topic_filter-agrees}
use emqx_go.Blacklist.Manager.{
  new_blacklist_manager, add_entry, validate_entry, compile_if, created, store_entry,
}
use emqx_go.Blacklist.Check.{record_block, check_type, block_by}
use emqx_go.Blacklist.Middleware.{
  BlacklistMiddleware, checks_clients, default_middleware_config, access_control, info_of,
}
use emqx_go.Blacklist.Indexed.{IsIndexed}
use emqx_go.Blacklist.Calls.{
  add, remove, calls, calls-IsIndexed, new_blacklist_manager-IsIndexed, add_entry-IsIndexed,
}
use emqx_go.Blacklist.Blocking.{answer_with}
use emqx_go.Blacklist.Added.{add_entry-check_type}
use emqx_go.Blacklist.Refused.{add_entry-refused}
use emqx_go.Auth.{AuthChain}
use emqx_go.Broker.Connection.{Reply}
use emqx_go.Broker.Connect.{ConnectIn, handle_connect, refused}
use emqx_go.Broker.Samples.{broker}
use emqx_go.Topic.Wildcards.{IsValidFilter}
use emqx_go.Topic.Filter.{hash, levels, matches_topic_filter}

abbrev libraries : Libraries
libraries = record { compile = λ p. some (λ s. true); parse_ip = λ s. none; parse_cidr = λ s. none }

-- A device that is kept out, by id.
abbrev kept_out : Text → Submitted
kept_out id = record {
  id = id;
  type_name = codes "clientid";
  value = codes "d";
  pattern = [];
  action = codes "deny";
  reason = [];
  description = [];
  expires_at = none;
  enabled = true;
}

abbrev empty : BlacklistManager
empty = new_blacklist_manager 1

abbrev entry : Text → BlacklistEntry
entry id = created 2 (kept_out id) client_id none

abbrev with_first : BlacklistManager
with_first = store_entry 2 (entry (codes "first")) empty

abbrev with_both : BlacklistManager
with_both = store_entry 2 (entry (codes "second")) with_first

first_added : add_entry libraries 2 (kept_out (codes "first")) empty ≡ ok with_first
unfolding add_entry validate_entry type_of_name compile_if lookup new_blacklist_manager
first_added = refl

second_added : add_entry libraries 2 (kept_out (codes "second")) with_first ≡ ok with_both
unfolding add_entry validate_entry type_of_name compile_if lookup insert new_blacklist_manager
second_added = refl

empty-IsIndexed : IsIndexed empty
empty-IsIndexed = new_blacklist_manager-IsIndexed 1

with_first-IsIndexed : IsIndexed with_first
with_first-IsIndexed =
    add_entry-IsIndexed libraries 2 (kept_out (codes "first")) empty with_first empty-IsIndexed
      first_added

calls-IsIndexed_example : IsIndexed (
    calls libraries
      (add 2 (kept_out (codes "first")) ∷ remove 3 (codes "first") ∷ [])
      (new_blacklist_manager 1))
calls-IsIndexed_example =
    calls-IsIndexed libraries 1 (add 2 (kept_out (codes "first")) ∷ remove 3 (codes "first") ∷ [])

add_entry-check_type_example :
    (t : BlacklistType) × (c : Option (Text → Bool)) × (validate_entry (kept_out (codes "second"))
      ≡ ok t)
    × (compile_if libraries [] none ≡ ok c)
    × (lookup (codes "second") with_first.entries ≡ none)
    × ((matches : Text → BlacklistEntry → Bool) (later : ℕ) (u : BlacklistType) (v : Text)
        → check_type matches later u v with_both
          ≡ answer_with matches later u v (created 2 (kept_out (codes "second")) t c) with_first)
add_entry-check_type_example =
    add_entry-check_type libraries 2 (kept_out (codes "second")) with_first with_both
      with_first-IsIndexed second_added

abbrev refusal_of_device : BlacklistBlock
refusal_of_device =
    block_by 3 client_id (codes "d") (info_of (codes "d") [] [] []) (entry (codes "first"))

abbrev middleware : BlacklistMiddleware
middleware = record {
  manager = some (record_block 3 refusal_of_device with_first);
  config = default_middleware_config;
}

abbrev device : ConnectIn
device = record {
  client_identifier = codes "d";
  clean = true;
  keepalive = 60;
  username_flag = false;
  username = [];
  password_flag = false;
  password = [];
  will_flag = false;
  will_topic = [];
  will_payload = [];
  will_qos = 0;
  will_retain = false;
}

abbrev no_authenticators : AuthChain
no_authenticators = record { authenticators = []; enabled = true }

add_entry-refused_example :
    (written : List Reply) × (handle_connect
        (access_control libraries 3 middleware)
        no_authenticators
        []
        []
        3
        true
        device
        (broker none)
      ≡ refused written)
unfolding checks_clients default_middleware_config calls record_block
add_entry-refused_example =
    add_entry-refused libraries 1 2 3 [] ((3, refusal_of_device) ∷ []) (kept_out (codes "first"))
      with_first middleware no_authenticators [] [] true device (broker none) first_added refl refl
      refl refl refl refl refl

deep_filter : IsValidFilter (levels (codes "a/+/#"))
unfolding split
deep_filter = (
  (λ e. ground (arith, text_eq_iff (codes "a") hash)),
  ((λ e. ground (arith, text_eq_iff (codes "+") hash)), tt),
)

match_mqtt_topic_filter-agrees_example :
    match_mqtt_topic_filter (codes "a/b/c") (codes "a/+/#")
    ≡ matches_topic_filter (codes "a/b/c") (codes "a/+/#")
match_mqtt_topic_filter-agrees_example =
    match_mqtt_topic_filter-agrees (codes "a/b/c") (codes "a/+/#") deep_filter
