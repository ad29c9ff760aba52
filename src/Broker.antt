-- ===== src/Broker.antt =====
-- pkg/broker/broker.go: the handling of the packets of a connection over the topic store, the
-- persistent sessions, the retainer and the mailboxes of the session actors.
pub mod State
pub mod Alias
pub mod Duplicate
pub mod Route
pub mod Mailboxes
pub mod Fanout
pub mod Connection
pub mod Publish
pub mod Admitted
pub mod Repeat
pub mod Subscribe
pub mod Granted
pub mod Sessions
pub mod Takeover
pub mod WillLock
pub mod Connect
pub mod Connected
pub mod Unsubscribe
pub mod Loop
pub mod Tasks
pub mod Protocol
pub mod Samples
mod Examples
