-- ===== src/Persistent.antt =====
-- pkg/persistent over the store of pkg/storage/store.go: sessions that outlive a connection, their
-- offline queues and their wills.
pub mod KeyValue
pub mod Types
pub mod Will
pub mod Manager
pub mod Offline
pub mod Queue
pub mod Lifecycle
pub mod Wills
pub mod Delivery
pub mod Bounded
pub mod Steps
pub mod Requests
mod Examples
