-- ===== src/Approval.antt =====
-- crates/ladon-app/src/approval.rs: the coordinator that stands between agents and secrets. State keeps
-- the shared state and the helpers on it; Authorize, Control, Sessions and Unattended have the methods;
-- the other modules say what they guarantee.
pub mod State
pub mod Authorize
pub mod Control
pub mod Sessions
pub mod Unattended
pub mod View
pub mod Operations
pub mod Keeps
pub mod Kept
pub mod Invariant
pub mod Access
pub mod Tickets
pub mod Locks
mod Examples
