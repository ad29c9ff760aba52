-- ===== src/Blacklist.antt =====
-- pkg/blacklist: the manager of the entries (manager.go) and the middleware that the broker asks
-- (middleware.go).
pub mod Entries
pub mod Match
pub mod Manager
pub mod Check
pub mod Middleware
pub mod Indexed
pub mod Storing
pub mod Calls
pub mod Sound
pub mod Blocking
pub mod Added
pub mod Refused
mod Examples
