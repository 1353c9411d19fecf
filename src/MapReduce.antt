-- ===== src/MapReduce.antt =====
-- src/mapreduce: the map/reduce library.
pub mod Types
pub mod Names
pub mod Files
pub mod Map
pub mod Reduce
pub mod Job
pub mod Workers
pub mod Schedule
pub mod Distributed
mod Tests
