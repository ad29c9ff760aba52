-- ===== src/Blacklist/Entries.antt =====
-- The data of pkg/blacklist/manager.go. Metadata and CreatedBy are left out. An action is a string, as
-- in the source; a type that is not one of the four is refused where an entry comes in.
use emqx_go.Base.{
  ℕ, ◌≡◌, ◌↔◌, Bool, true, false, List, Option, none, some, arith, if◌then◌else◌, Text, codes,
  text_eq,
}
use emqx_go.Base.Map.{Map}

pub data BlacklistType : Type 0 where
  client_id username ip_address topic : BlacklistType

abbrev pub type_eq : BlacklistType → BlacklistType → Bool
type_eq client_id client_id = true
type_eq username username = true
type_eq ip_address ip_address = true
type_eq topic topic = true
type_eq _ _ = false

pub type_eq_iff : (t u : BlacklistType) → (type_eq t u ≡ true) ↔ (t ≡ u)
type_eq_iff client_id client_id = ground arith
type_eq_iff client_id username = ground arith
type_eq_iff client_id ip_address = ground arith
type_eq_iff client_id topic = ground arith
type_eq_iff username client_id = ground arith
type_eq_iff username username = ground arith
type_eq_iff username ip_address = ground arith
type_eq_iff username topic = ground arith
type_eq_iff ip_address client_id = ground arith
type_eq_iff ip_address username = ground arith
type_eq_iff ip_address ip_address = ground arith
type_eq_iff ip_address topic = ground arith
type_eq_iff topic client_id = ground arith
type_eq_iff topic username = ground arith
type_eq_iff topic ip_address = ground arith
type_eq_iff topic topic = ground arith

unfoldable pub type_of_name : Text → Option BlacklistType
type_of_name s =
    if text_eq s (codes "clientid")
    then some client_id
    else if text_eq s (codes "username")
    then some username
    else if text_eq s (codes "ipaddress")
    then some ip_address
    else if text_eq s (codes "topic")
    then some topic
    else none

-- An entry as it is handed in, with its type still a string; an update is one too.
pub record Submitted : Type 0 where
  pub id : Text
  pub type_name : Text
  pub value : Text
  pub pattern : Text
  pub action : Text
  pub reason : Text
  pub description : Text
  pub expires_at : Option ℕ
  pub enabled : Bool

-- A compiled pattern is the test that it makes of a string.
pub record BlacklistEntry : Type 0 where
  pub id : Text
  pub type : BlacklistType
  pub value : Text
  pub pattern : Text
  pub action : Text
  pub reason : Text
  pub description : Text
  pub created_at : ℕ
  pub updated_at : ℕ
  pub expires_at : Option ℕ
  pub enabled : Bool
  pub compiled_pattern : Option (Text → Bool)

pub record ClientInfo : Type 0 where
  pub client_id : Text
  pub username : Text
  pub ip_address : Text
  pub protocol : Text

pub record BlacklistBlock : Type 0 where
  pub timestamp : ℕ
  pub type : BlacklistType
  pub value : Text
  pub action : Text
  pub entry_id : Text
  pub client_info : ClientInfo
  pub reason : Text

-- A counter that may go below zero: how often it went up, and how often down.
pub record Counter : Type 0 where
  pub ups : ℕ
  pub downs : ℕ

pub record BlacklistStats : Type 0 where
  pub total_entries : ℕ
  pub entries_by_type : BlacklistType → Counter
  pub entries_by_action : Text → Counter
  pub total_blocks : ℕ
  pub blocks_by_type : BlacklistType → ℕ
  pub recent_blocks : List BlacklistBlock
  pub last_updated : ℕ

-- The four maps of values and the map of patterns are functions of the type. What they point at is
-- named by its id.
pub record BlacklistManager : Type 0 where
  pub entries : Map Text BlacklistEntry
  pub direct_entries : BlacklistType → Map Text Text
  pub pattern_entries : BlacklistType → List Text
  pub stats : BlacklistStats

pub data BlacklistError : Type 0 where
  id_required invalid_type invalid_action value_required : BlacklistError
  already_exists invalid_pattern not_found : BlacklistError

-- A map with one key set anew.
abbrev pub set_at : {A : Type 0} → BlacklistType → A → (BlacklistType → A) → BlacklistType → A
set_at t a f u = if type_eq t u then a else f u

abbrev pub set_action : {A : Type 0} → Text → A → (Text → A) → Text → A
set_action t a f u = if text_eq t u then a else f u
