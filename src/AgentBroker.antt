-- ===== src/AgentBroker.antt =====
-- crates/ladon-app/src/agent_broker.rs: what the threads that answer agents share with each other and with
-- the user interface.
pub mod Runs
pub mod Threads
pub mod UiLocks
mod Examples
