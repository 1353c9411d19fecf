-- ===== src/Raft.antt =====
-- src/raft: one Raft peer, its RPC handlers and its goroutines.
pub mod Types
pub mod Persist
pub mod Log
pub mod Append
pub mod Leader
pub mod Election
pub mod Compaction
pub mod Steps
pub mod Cluster
mod Tests
