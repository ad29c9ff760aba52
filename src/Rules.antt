-- ===== src/Rules.antt =====
-- The rule engine of pkg/rules.
pub mod Values
pub mod Conditions
pub mod Parse
pub mod Splitting
pub mod Terminates
pub mod Negation
pub mod Actions
pub mod Engine
pub mod Priority
pub mod Evaluation
pub mod Stored
pub mod Processing
pub mod Accepted
pub mod Calls
pub mod Each
mod Examples
