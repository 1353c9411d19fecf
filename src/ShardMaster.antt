-- ===== src/ShardMaster.antt =====
-- src/shardmaster: the shard master's configurations, its replicated state machine, and its clerk.
pub mod Types
pub mod Maps
pub mod Rebalance
pub mod Server
pub mod Handlers
pub mod Client
mod Tests
