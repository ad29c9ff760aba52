-- ===== src/Topic.antt =====
-- pkg/topic/store.go, and the copies of its wildcard matcher in other packages.
pub mod Filter
pub mod Wildcards
pub mod Store
mod Examples
