-- ===== src/KvRaft/Types.antt =====
-- src/kvraft/common.go and server.go: operations, RPC messages and the server's state. A Go string
-- is the list of its bytes; the op name is one of the three that the code compares with, or other.
pub use distributed_systems_labs.Base.{Text, same_text}
use distributed_systems_labs.Base.{ℕ, Bool, Option, none, some, List, [], ◌∷◌, if◌then◌else◌}
use distributed_systems_labs.Raft.Types.{Raft}

pub data OpType : Type 0 where
  put_op append_op get_op : OpType
  other_op : Text → OpType

pub record Op : Type 0 where
  pub type' : OpType
  pub req_id : ℕ
  pub me : ℕ
  pub key : Text
  pub value : Text

abbrev pub Store : Type 0
Store = List (Text × Text)

-- kv.store[key], with the flag of the two-value form as an option.
unfoldable pub lookup : Text → Store → Option Text
lookup key [] = none
lookup key ((k, v) ∷ store) = if same_text k key then some v else lookup key store

-- kv.store[key] = value
unfoldable pub write : Text → Text → Store → Store
write key value [] = (key, value) ∷ []
write key value ((k, v) ∷ store) =
    if same_text k key then (k, value) ∷ store else (k, v) ∷ write key value store

-- What a snapshot holds, which is also what ApplyRoutine computes from the log.
pub record SnapshotData : Type 0 where
  pub store : Store
  pub last_applied : List (ℕ × ℕ)
  pub last_included_index : ℕ

-- `results` maps a log index to the buffer of its channel. A `maxraftstate` of -1 is 0 here: the
-- code takes no snapshot for either.
pub record RaftKv : Type 0 where
  pub me : ℕ
  pub rf : Raft Op
  pub max_raft_state : ℕ
  pub results : List (ℕ × Option Op)
  pub store : Store
  pub last_applied : List (ℕ × ℕ)
  pub last_included_index : ℕ

pub data Err : Type 0 where
  no_error err_wrong_leader : Err

pub record PutAppendArgs : Type 0 where
  pub key : Text
  pub value : Text
  pub op : OpType
  pub id : ℕ
  pub me : ℕ

pub record PutAppendReply : Type 0 where
  pub wrong_leader : Bool
  pub err : Err

pub record GetArgs : Type 0 where
  pub key : Text
  pub id : ℕ
  pub me : ℕ

pub record GetReply : Type 0 where
  pub wrong_leader : Bool
  pub err : Err
  pub value : Text
