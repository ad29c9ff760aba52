-- ===== src/Blacklist/Middleware.antt =====
-- BlacklistMiddleware of pkg/blacklist/middleware.go, and the broker's checks that it answers. Times
-- and durations are nanoseconds; the log is left out.
use emqx_go.Base.{
  ℕ, ◌+◌, Bool, true, false, ◌&&◌, ◌||◌, List, [], ◌∷◌, Option, none, some, if◌then◌else◌, Text,
  codes, is_empty, Outcome, ok, err, panic,
}
use emqx_go.Base.Map.{lookup, text_has_eq}
use emqx_go.Blacklist.Entries.{
  BlacklistType, client_id, username, ip_address, topic, Submitted, BlacklistEntry, ClientInfo,
  BlacklistManager, BlacklistError, type_of_name,
}
use emqx_go.Blacklist.Match.{Libraries}
use emqx_go.Blacklist.Manager.{add_entry, update_entry}
use emqx_go.Blacklist.Check.{Blocked, check_client_connection, check_topic_access}
use emqx_go.Broker.Connection.{AccessControl, Verdict, allowed, denied}

pub record MiddlewareConfig : Type 0 where
  pub enable_client_id_check : Bool
  pub enable_username_check : Bool
  pub enable_ip_address_check : Bool
  pub enable_topic_check : Bool
  pub log_blocks : Bool
  pub block_timeout : ℕ
  pub cleanup_interval : ℕ
  pub max_recent_blocks : ℕ
  pub default_action : Text
  pub unknown_client_action : Text

abbrev pub hour : ℕ
hour = 3600000000000

unfoldable pub default_middleware_config : MiddlewareConfig
default_middleware_config = record {
  enable_client_id_check = true;
  enable_username_check = true;
  enable_ip_address_check = true;
  enable_topic_check = true;
  log_blocks = true;
  block_timeout = 86400000000000;
  cleanup_interval = hour;
  max_recent_blocks = 1000;
  default_action = codes "deny";
  unknown_client_action = codes "log";
}

-- The manager may be nil.
pub record BlacklistMiddleware : Type 0 where
  pub manager : Option BlacklistManager
  pub config : MiddlewareConfig

unfoldable pub checks_clients : MiddlewareConfig → Bool
checks_clients c =
    c.enable_client_id_check || (c.enable_username_check || c.enable_ip_address_check)

abbrev pub ask_clients :
    Libraries → ℕ → ClientInfo → MiddlewareConfig → Option BlacklistManager → Blocked
ask_clients lib now info c none = none
ask_clients lib now info c (some bm) =
    if checks_clients c then check_client_connection lib now info bm else none

unfoldable pub connection_block : Libraries → ℕ → ClientInfo → BlacklistMiddleware → Blocked
unfolding checks_clients check_client_connection
connection_block lib now info mw = ask_clients lib now info mw.config mw.manager

abbrev pub ask_topic : ℕ → Text → ClientInfo → MiddlewareConfig → Option BlacklistManager → Blocked
ask_topic now s info c none = none
ask_topic now s info c (some bm) =
    if c.enable_topic_check then check_topic_access now s info bm else none

-- CheckTopicAccess, for a publication and for a subscription alike.
unfoldable pub topic_block : ℕ → Text → ClientInfo → BlacklistMiddleware → Blocked
unfolding check_topic_access
topic_block now s info mw = ask_topic now s info mw.config mw.manager

abbrev pub verdict : Blocked → Verdict
verdict none = allowed
verdict (some b) = denied

abbrev pub info_of : Text → Text → Text → Text → ClientInfo
info_of client user ip protocol = record {
  client_id = client;
  username = user;
  ip_address = ip;
  protocol = protocol;
}

-- What the broker asks, at a time; it never gets an error.
unfoldable pub access_control : Libraries → ℕ → BlacklistMiddleware → AccessControl
unfolding connection_block topic_block
access_control lib now mw = record {
  client_connection = λ client user ip.
      verdict (connection_block lib now (info_of client user ip (codes "mqtt")) mw);
  publish_access = λ client user ip s. verdict (topic_block now s (info_of client user ip []) mw);
  subscribe_access = λ client user ip s. verdict (topic_block now s (info_of client user ip []) mw);
}

unfoldable pub is_enabled : BlacklistMiddleware → Bool
unfolding checks_clients
is_enabled mw = elim mw.manager [
  | none ↦ false
  | some bm ↦ checks_clients mw.config || mw.config.enable_topic_check
]

abbrev pub name_of_type : BlacklistType → Text
name_of_type client_id = codes "clientid"
name_of_type username = codes "username"
name_of_type ip_address = codes "ipaddress"
name_of_type topic = codes "topic"

-- `id` and `description` are the texts that name the type, the time and the duration.
abbrev pub temporary :
    ℕ → Text → Text → BlacklistType → Text → Text → ℕ → MiddlewareConfig → Submitted
temporary now id description t value reason duration c = record {
  id = id;
  type_name = name_of_type t;
  value = value;
  pattern = [];
  action = c.default_action;
  reason = reason;
  description = description;
  expires_at = some (now + duration);
  enabled = true;
}

pub data MiddlewareError : Type 0 where
  no_manager invalid_address empty_topic completed_with_errors : MiddlewareError
  of_manager : BlacklistError → MiddlewareError

abbrev pub with_manager :
    BlacklistMiddleware
    → Outcome BlacklistError BlacklistManager
    → Outcome MiddlewareError BlacklistMiddleware
with_manager mw (ok bm) = ok (record mw { manager = some bm })
with_manager mw (err e) = err (of_manager e)
with_manager mw panic = panic

-- AddTemporaryBlock; BlockClientID, BlockUsername, BlockIPAddress and BlockTopic are its uses at a type.
unfoldable pub add_temporary_block :
    Libraries
    → ℕ
    → Text
    → Text
    → BlacklistType
    → Text
    → Text
    → ℕ
    → BlacklistMiddleware
    → Outcome MiddlewareError BlacklistMiddleware
unfolding add_entry
add_temporary_block lib now id description t value reason duration mw = elim mw.manager [
  | none ↦ err no_manager
  | some bm ↦
      with_manager mw
        (add_entry lib now (temporary now id description t value reason duration mw.config) bm)
]

abbrev pub is_address : Libraries → Text → Bool
is_address lib s = elim (lib.parse_ip s) [
  | some ip ↦ true
  | none ↦ elim (lib.parse_cidr s) [ some network ↦ true | none ↦ false ]
]

abbrev pub validate_type : Libraries → Submitted → Option BlacklistType → Option MiddlewareError
validate_type lib e (some ip_address) =
    if is_empty e.value then none else if is_address lib e.value then none else some invalid_address
validate_type lib e (some topic) =
    if is_empty e.value && is_empty e.pattern then some empty_topic else none
validate_type lib e _ = none

unfoldable pub validate : Libraries → Submitted → Option MiddlewareError
unfolding type_of_name
validate lib e = validate_type lib e (type_of_name e.type_name)

abbrev pub or_kept :
    BlacklistManager → Outcome BlacklistError BlacklistManager → Bool × BlacklistManager
or_kept bm (ok bm') = (true, bm')
or_kept bm _ = (false, bm)

abbrev pub updated : Option BlacklistError × BlacklistManager → Bool × BlacklistManager
updated (none, bm) = (true, bm)
updated (some e, bm) = (false, bm)

abbrev pub import_valid :
    Libraries
    → ℕ
    → Bool
    → Submitted
    → Option BlacklistEntry
    → BlacklistManager
    → Bool × BlacklistManager
import_valid lib now overwrite e none bm = or_kept bm (add_entry lib now e bm)
import_valid lib now overwrite e (some old) bm =
    if overwrite then updated (update_entry lib now e.id e bm) else (false, bm)

abbrev pub import_if :
    Libraries
    → ℕ
    → Bool
    → Submitted
    → Option MiddlewareError
    → BlacklistManager
    → Bool × BlacklistManager
import_if lib now overwrite e none bm = import_valid lib now overwrite e (lookup e.id bm.entries) bm
import_if lib now overwrite e (some x) bm = (false, bm)

-- The loop of ImportBlacklist: whether all went well, and the manager.
unfoldable pub import_loop :
    Libraries → ℕ → Bool → List Submitted → BlacklistManager → Bool × BlacklistManager
unfolding validate add_entry update_entry
import_loop lib now overwrite [] bm = (true, bm)
import_loop lib now overwrite (e ∷ es) bm =
    let (here, bm1) = import_if lib now overwrite e (validate lib e) bm in
    let (later, bm2) = import_loop lib now overwrite es bm1 in (here && later, bm2)

-- ImportBlacklist: whether it returns no error.
unfoldable pub import_blacklist :
    Libraries → ℕ → Bool → List Submitted → BlacklistMiddleware → Bool × BlacklistMiddleware
unfolding import_loop
import_blacklist lib now overwrite es mw = elim mw.manager [
  | none ↦ (false, mw)
  | some bm ↦
      let (done, bm') = import_loop lib now overwrite es bm in
      (done, record mw { manager = some bm' })
]

unfoldable pub update_config : Option MiddlewareConfig → BlacklistMiddleware → BlacklistMiddleware
update_config none mw = mw
update_config (some c) mw = record mw { config = c }
