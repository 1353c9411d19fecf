-- ===== src/ShardMaster/Handlers.antt =====
-- src/shardmaster/server.go: the RPC handlers Join, Leave, Move and Query, with
-- waitAppliedOrTimeout in two parts: the submission, and the answer of the select that follows.
use distributed_systems_labs.Base.{
  ℕ, Bool, true, false, not, ◌&&◌, Option, none, some, List, [], if◌then◌else◌, replicate, Run, ok,
  ◌>>=◌,
}
use distributed_systems_labs.ShardMaster.Types.{
  ℤ, pos, n_shards, Groups, Config, OpType, join, leave, move, query, Op, put, remove,
}
use distributed_systems_labs.Raft.Types.{Codec, Persisted}
use distributed_systems_labs.Raft.Leader.{Outgoing, start}
use distributed_systems_labs.Raft.Compaction.{kill}
use distributed_systems_labs.ShardMaster.Server.{ShardMaster, is_same_op}

pub data Err : Type 0 where
  no_error err_wrong_leader : Err

pub record JoinArgs : Type 0 where
  pub servers : Groups
  pub id : ℕ
  pub me : ℕ

pub record LeaveArgs : Type 0 where
  pub gids : List ℕ
  pub id : ℕ
  pub me : ℕ

pub record MoveArgs : Type 0 where
  pub shard : ℤ
  pub gid : ℕ
  pub id : ℕ
  pub me : ℕ

pub record QueryArgs : Type 0 where
  pub num : ℤ
  pub id : ℕ
  pub me : ℕ

-- JoinReply, LeaveReply and MoveReply, which have the same fields.
pub record Reply : Type 0 where
  pub wrong_leader : Bool
  pub err : Err

pub record QueryReply : Type 0 where
  pub wrong_leader : Bool
  pub err : Err
  pub config : Option Config

abbrev zero_op : OpType → ℕ → ℕ → Op
zero_op t id me = record {
  type' = t;
  req_id = id;
  me = me;
  servers = [];
  gids = [];
  shard = pos 0;
  gid = 0;
  num = pos 0;
  config = record { num = 0; shards = replicate n_shards 0; groups = [] };
}

-- The operation that each handler submits.
abbrev pub join_op : JoinArgs → Op
join_op args = record (zero_op join args.id args.me) { servers = args.servers }

abbrev pub leave_op : LeaveArgs → Op
leave_op args = record (zero_op leave args.id args.me) { gids = args.gids }

abbrev pub move_op : MoveArgs → Op
move_op args = record (zero_op move args.id args.me) { shard = args.shard; gid = args.gid }

abbrev pub query_op : QueryArgs → Op
query_op args = record (zero_op query args.id args.me) { num = args.num }

-- waitAppliedOrTimeout, its call of Start: the index is there at the leader.
module _ ⦃gob : Codec (Persisted Op)⦄ where
  unfoldable pub submit : ShardMaster → Op → Run (ShardMaster × Option ℕ × List (Outgoing Op))
  submit sm op =
      start sm.rf op >>= λ (rf, started, sent). ok (record sm { rf = rf }, started.index, sent)

-- A later section, under the lock: a new channel for the index.
unfoldable pub register : ShardMaster → ℕ → ShardMaster
register sm idx = record sm { results = put idx none sm.results }

-- The select on the buffer of the handler's own channel, which is ready when it holds an operation,
-- and on the timer, which is ready when it has fired. When both are, `picks_channel` says which case
-- Go chooses; when none is, the handler still waits.
unfoldable pub await_applied :
    ShardMaster → ℕ → Op → Option Op → Bool → Bool → Option (ShardMaster × Bool × Op)
await_applied sm idx op buffer timed_out picks_channel =
    let last = record sm { results = remove idx sm.results } in
    elim buffer [
      | some applied ↦
          if timed_out && not picks_channel
          then some (last, false, op)
          else some (last, is_same_op op applied, applied)
      | none ↦ if timed_out then some (last, false, op) else none
    ]

-- The reply of Join, Leave and Move, and that of Query, from the results of the wait.
unfoldable pub acknowledge : Bool → Reply
acknowledge success =
    if not success
    then record { wrong_leader = true; err = err_wrong_leader }
    else record { wrong_leader = false; err = no_error }

unfoldable pub answer_query : Bool → Op → QueryReply
answer_query success applied =
    if not success
    then record { wrong_leader = true; err = err_wrong_leader; config = none }
    else record { wrong_leader = false; err = no_error; config = some applied.config }

unfoldable pub kill_server : ShardMaster → ShardMaster
unfolding kill
kill_server sm = record sm { rf = kill sm.rf }
