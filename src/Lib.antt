-- ===== src/Lib.antt =====
-- Distributed-Systems-Labs: a Raft library, a key/value server and a shard master on top of it.
--
-- The program's parts and the files that model them (paths from the repository's root):
--   src/raft/raft.go, src/raft/persister.go: Raft. A peer is the record Raft of Raft/Types.antt; each
--     RPC handler and each section of code under rf.mu is one function from a state to a state.
--     Raft/Persist.antt has persist, readPersist and Make; Raft/Log.antt the log and its indices;
--     Raft/Append.antt AppendEntries; Raft/Leader.antt Start, the messages of the ticker's leader
--     branch, processAppendEntriesReply and advanceCommit; Raft/Election.antt RequestVote,
--     tickFollower, doElection and the replies; Raft/Compaction.antt Snapshot, InstallSnapshot,
--     handleSendInstallSnapshot and BackgroundApplyRoutine. Raft/Steps.antt is the step relation of
--     one peer: any section of code under the lock in any order, and a crash with a restart from the
--     persister at any point between them. Raft/Cluster.antt is a group of peers: the goroutines of
--     doElection are calls, each with its own state, of which any message may be late or lost.
--   src/shardmaster: ShardMaster/Types.antt has the configurations and operations,
--     ShardMaster/Rebalance.antt Rebalance, ShardMaster/Server.antt the handlers of operations and
--     ApplyRoutine, ShardMaster/Handlers.antt the RPC handlers and waitAppliedOrTimeout, and
--     ShardMaster/Client.antt the clerk.
--   src/kvraft: KvRaft/Types.antt has operations and state, KvRaft/Server.antt ApplyRoutine with its
--     snapshots and the RPC handlers, KvRaft/Server/Service.antt the abstract service, and
--     KvRaft/Client.antt the clerk.
--   src/shardkv: ShardKv/Client.antt has key2shard and the clerk.
--   src/mapreduce: MapReduce/Names.antt has the names of the files, MapReduce/Files.antt the files with
--     their streams of pairs, MapReduce/Map.antt doMap, MapReduce/Reduce.antt doReduce,
--     MapReduce/Job.antt Sequential with merge and CleanupFiles, MapReduce/Workers.antt the worker and
--     the master's handlers, MapReduce/Schedule.antt schedule as a step relation, and
--     MapReduce/Distributed.antt the run of Distributed.
--   src/labrpc/labrpc.go: LabRpc/Network.antt has Network, LabRpc/Server.antt Server and Service, and
--     LabRpc/Calls.antt one call through ProcessReq.
-- Base.antt passes on the library's names and has what the parts share: Boolean tests, lists under
-- native indices, counting, and the type Run of calls that may panic.
--
-- The parts interact through Raft: the servers call Start, Snapshot and RaftSize of their peer, and
-- the peer sends ApplyMsg values, which the rounds of ApplyRoutine take one at a time.
--
-- Conventions. Go's int is a natural number without overflow; -1 for "none" is an option, and the
-- shard and number of a shard master's operation may be negative. A read or write of a slice out of
-- range, which panics in Go, is the value `panic` of Run. A map is an association list; the models
-- never depend on the order of its entries. A channel of capacity one is an optional value. A handler
-- that waits in a select has the buffer of its own channel, whether its timer has fired, and the case
-- that the select takes when both are ready as arguments. The time and the random number that a
-- handler reads are an argument. encoding/gob is the parameter Codec: it reads back what it wrote, and
-- what it writes is not empty. encoding/json is the parameter Json, a stream of pairs; sort.Slice the
-- parameter SortSlice, some permutation in the order of the keys; the hash of hash/fnv is any
-- function. A file system is a function from names to contents, in which creating a file succeeds.
-- Every RPC is delivered by the caller of the handler's function, so loss, delay, repetition and
-- reordering need no model of the network; the models of the servers do not stand on the model of
-- src/labrpc.
--
-- Two parts of the handlers run on the state of a later moment and are functions of their own:
-- install_message, after InstallSnapshot has unlocked, and register, after the call of Start in
-- waitAppliedOrTimeout. A round of ApplyRoutine, with the snapshot it may take, is one function.
--
-- Fuel. The loops of Rebalance run on the count that they decrease or the target that they approach,
-- which is as many rounds as they can take. The clerks' loops, which retry for ever in the source, run
-- on the number of attempts or passes. The loops over a stream of JSON run on the length of its text,
-- since a value takes up a character at least, and the loop of doReduce on the number of pairs. Itoa
-- runs on the number itself, which has no more digits than that, and one more.
--
-- Not modelled: the commands in src/main, whose mapF and reduceF are empty, the shardkv server, whose
-- handlers are empty, the net/rpc server of the map/reduce master, the pauses of the simulated
-- network, tasks of a distributed job that run at the same moment, logging, and the scheduling of
-- goroutines between sections under a lock.
pub mod Base
pub mod Raft
pub mod ShardMaster
pub mod KvRaft
pub mod MapReduce
pub mod LabRpc
pub mod ShardKv
