-- ===== src/Broker/Alias.antt =====
-- ClientTopicAliasManager of pkg/broker/broker.go: the topic aliases that a client has set.
use emqx_go.Base.{ℕ, [], ◌∷◌, Option, none, some, if◌then◌else◌, ltb, ◌==◌, Text, Outcome, ok, err}
use emqx_go.Base.Map.{Map, lookup, insert, nat_has_eq}

pub record ClientTopicAliasManager : Type 0 where
  pub client_to_server_aliases : Map ℕ Text
  pub topic_alias_maximum : ℕ

unfoldable pub new_client_topic_alias_manager : ℕ → ClientTopicAliasManager
new_client_topic_alias_manager maximum = record {
  client_to_server_aliases = [];
  topic_alias_maximum = maximum;
}

pub data AliasError : Type 0 where
  exceeds_maximum no_mapping : AliasError

abbrev pub Resolved : Type 0
Resolved = Outcome AliasError (Text × ClientTopicAliasManager)

-- The mapping that is there, for an empty topic name.
abbrev pub known_topic : Option Text → ClientTopicAliasManager → Resolved
known_topic none tam = err no_mapping
known_topic (some topic) tam = ok (topic, tam)

abbrev pub named : Text → ℕ → ClientTopicAliasManager → Resolved
named [] alias tam = known_topic (lookup alias tam.client_to_server_aliases) tam
named (c ∷ name) alias tam = ok (
  c ∷ name,
  record tam { client_to_server_aliases = insert alias (c ∷ name) tam.client_to_server_aliases },
)

unfoldable pub resolve_topic_alias : Text → ℕ → ClientTopicAliasManager → Resolved
resolve_topic_alias name alias tam =
    if alias == 0
    then ok (name, tam)
    else if ltb tam.topic_alias_maximum alias
    then err exceeds_maximum
    else named name alias tam
