-- ===== src/Redact.antt =====
-- crates/ladon-core/src/redact.rs: how the output of a program is freed of secrets before the agent sees
-- it. A byte is a number below 256. A `&str` is the list of its characters, each of them the list of the
-- bytes of its UTF-8 encoding.
pub mod Utf8
pub mod Capture
pub mod Stream
pub mod Patterns
pub mod Scan
pub mod Bounded
pub mod Search
pub mod Reference
pub mod Equivalence
pub mod Chunks
pub mod Ready
pub mod Hidden
mod Examples
