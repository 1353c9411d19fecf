-- ===== src/ShardKv.antt =====
-- src/shardkv: the sharded key/value service. Its server's handlers are empty in the source.
pub mod Client
