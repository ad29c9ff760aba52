-- ===== src/Broker/State.antt =====
-- The state of Broker in pkg/broker/broker.go. A mailbox is the number that identifies its pointer, and
-- the Send calls to the mailboxes are one list, in order; whether each returns is the matter of
-- Broker/Mailboxes. The broker stands without a cluster manager, rules, integrations and connectors.
use emqx_go.Base.{ℕ, List, ◌++◌, Text}
use emqx_go.Base.Map.{Map}
use emqx_go.Topic.Store.{Store}
use emqx_go.Session.Actor.{Message}
use emqx_go.Persistent.Manager.{SessionManager}
use emqx_go.Retainer.{Retainer}
use emqx_go.Broker.Alias.{ClientTopicAliasManager}

pub record Broker : Type 0 where
  pub topics : Store
  pub sessions : Map Text ℕ
  pub next_mailbox : ℕ
  pub sent : List (ℕ × Message)
  pub retainer : Retainer
  pub persistent_sessions : SessionManager
  pub delivery_callbacks : List Text
  pub topic_alias_managers : Map Text ClientTopicAliasManager
  pub processed_qos1 : Map Text (Map ℕ ℕ)

-- How a call ends: it returns, it waits for a lock that it holds itself, or it panics. What was done
-- before it blocks is kept.
pub data Run (A : Type 0) : Type 0 where
  done : A → Run A
  blocked : A → Run A
  crashed : Run A

-- The Send calls to the mailboxes, after those before.
abbrev pub send_all : List (ℕ × Message) → Broker → Broker
send_all ms b = record b { sent = b.sent ++ ms }
