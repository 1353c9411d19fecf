-- ===== src/KvRaft.antt =====
-- src/kvraft: the replicated key/value server and its clerk.
pub mod Types
pub mod Server
pub mod Client
mod Tests
