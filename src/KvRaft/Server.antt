-- ===== src/KvRaft/Server.antt =====
-- src/kvraft/server.go: the state machine, its snapshots, and the RPC handlers.
use distributed_systems_labs.Base.{
  ℕ, zero, suc, ◌+◌, ◌-◌, ◌*◌, ◌/◌, ◌%◌, ◌^◌, ◌≤◌, ◌<◌, min, ◌≡◌, refl, sym, ap, ◌∙◌, ◌≢◌, ◌↔◌, ◌⊎◌,
  inl, inr, Bool, true, false, ◌&&◌, ◌||◌, not, Option, none, some, List, [], ◌∷◌, ◌++◌, map, arith,
  ltb, leb, ◌==◌, if◌then◌else◌, ltb→lt, lt→ltb, le→ltb, lt→leb, ltb→le, leb→le, leb→lt, ==→eq,
  ==→ne, Bool-cases, Option-cases, le_suc-cases, length, get_elem?, set, take, drop, replicate,
  length-append, length-set, length-take, length-drop, length-replicate, get_elem?_total,
  get_elem?_bound, get_elem?-none, get_elem?-set, get_elem?-append_left, get_elem?-append_right,
  get_elem?-take, get_elem?-drop, take_all, length_zero, take-suc, Run, ok, panic, ◌>>=◌, or_panic,
  Returns, returns, Returns-bind, Returns-map, Returns-if, Returns-inv, Returns-eq, Yields,
  Yields-bind, Yields-then, Yields-if, Yields-eq, Yields-map, Returns-Yields, one, occ, elem,
  count_in, sum_over, IsDistinct, insert, sort, occ-append, occ-sort, length-sort, elem→occ,
  occ→elem, elem-false, elem-of_occ, occ-set, count_in-set, count_in-le, sum_over-add, sum_over-occ,
}
use distributed_systems_labs.Raft.Types.{
  Bytes, Codec, Persister, Raft, ApplyMsg, committed, snapshot_msg, Persisted,
}
use distributed_systems_labs.Raft.Persist.{make}
use distributed_systems_labs.Raft.Leader.{Outgoing, Started, start}
use distributed_systems_labs.Raft.Election.{get_state}
use distributed_systems_labs.Raft.Compaction.{kill, raft_size, snapshot}
use distributed_systems_labs.ShardMaster.Types.{put, remove, find}
use distributed_systems_labs.KvRaft.Types.{
  Text, same_text, OpType, put_op, append_op, get_op, other_op, Op, Store, lookup, write,
  SnapshotData, RaftKv, Err, no_error, err_wrong_leader, PutAppendArgs, PutAppendReply, GetArgs,
  GetReply,
}
pub mod Reads
pub mod Service
pub mod Refinement
pub mod Answers

-- The value of a missing key is the empty string.
abbrev pub or_empty : Option Text → Text
or_empty none = []
or_empty (some v) = v

unfoldable pub handle_put_append : RaftKv → Op → RaftKv
handle_put_append kv op = elim op.type' [
  | put_op ↦ record kv { store = write op.key op.value kv.store }
  | append_op ↦ record kv {
    store = write op.key (or_empty (lookup op.key kv.store) ++ op.value) kv.store;
  }
  | get_op ↦ kv
  | other_op name ↦ kv
]

unfoldable pub handle_get : RaftKv → Op → Op
handle_get kv op = elim (lookup op.key kv.store) [
  | some val ↦ record op { value = val }
  | none ↦ op
]

-- The branch of ApplyRoutine for an operation that is not "GET".
unfoldable pub apply_write : RaftKv → ℕ → Op → RaftKv
unfolding handle_put_append
apply_write kv idx op =
    let done =
      record (handle_put_append (record kv { last_applied = put op.me op.req_id kv.last_applied })
        op) { last_included_index = idx } in
    elim (find op.me kv.last_applied) [
      | none ↦ done
      | some last_idx ↦ if ltb last_idx op.req_id then done else kv
    ]

abbrev pub is_get : OpType → Bool
is_get get_op = true
is_get t = false

-- The part of the round under kv.mu: the state, and the operation to report.
unfoldable pub execute : RaftKv → ℕ → Op → RaftKv × Op
unfolding apply_write handle_get
execute kv idx op = if is_get op.type' then (kv, handle_get kv op) else (apply_write kv idx op, op)

-- A send that does not wait, to the channel of `idx` if there is one and its buffer is empty.
unfoldable pub offer : ℕ → Op → List (ℕ × Option Op) → List (ℕ × Option Op)
offer idx op [] = []
offer idx op ((j, none) ∷ m) = if j == idx then (j, some op) ∷ m else (j, none) ∷ offer idx op m
offer idx op ((j, some a) ∷ m) = if j == idx then (j, some a) ∷ m else (j, some a) ∷ offer idx op m

abbrev pub snapshot_data : RaftKv → SnapshotData
snapshot_data kv = record {
  store = kv.store;
  last_applied = kv.last_applied;
  last_included_index = kv.last_included_index;
}

module _ ⦃gob : Codec (Persisted Op)⦄ ⦃data_gob : Codec SnapshotData⦄ where
  unfoldable pub send_snapshot : RaftKv → ℕ → Run RaftKv
  send_snapshot kv raft_index =
      snapshot kv.rf raft_index (data_gob.encode (snapshot_data kv)) >>= λ rf.
      ok (record kv { rf = rf })

  -- kv.maxraftstate > 0 && kv.rf.RaftSize() >= kv.maxraftstate/kv.rf.NumPeers()
  unfoldable pub is_due : RaftKv → Bool
  unfolding raft_size
  is_due kv = ltb 0 kv.max_raft_state && leb (kv.max_raft_state / kv.rf.peers) (raft_size kv.rf)

  -- The branch of ApplyRoutine for a snapshot from Raft.
  unfoldable pub install : RaftKv → Bytes → RaftKv
  install kv bytes = elim (data_gob.decode bytes) [
    | none ↦ kv
    | some d ↦
        if ltb kv.last_included_index d.last_included_index
        then record kv {
          last_included_index = d.last_included_index;
          store = d.store;
          last_applied = d.last_applied;
        }
        else kv
  ]

  -- One round of ApplyRoutine.
  unfoldable pub apply_msg : RaftKv → ApplyMsg Op → Run RaftKv
  unfolding execute is_due send_snapshot install offer
  apply_msg kv (snapshot_msg idx bytes) = ok (install kv bytes)
  apply_msg kv (committed idx op) =
      let (done, answer) = execute kv idx op in
      (if is_due done then send_snapshot done idx else ok done) >>= λ kept.
      ok (record kept { results = offer idx answer kept.results })

  unfoldable pub apply_all : RaftKv → List (ApplyMsg Op) → Run RaftKv
  apply_all kv [] = ok kv
  apply_all kv (m ∷ msgs) = apply_msg kv m >>= λ kv'. apply_all kv' msgs

  -- waitAppliedOrTimeout, its call of Start: the index is there at the leader.
  unfoldable pub submit : RaftKv → Op → Run (RaftKv × Option ℕ × List (Outgoing Op))
  submit kv op =
      start kv.rf op >>= λ (rf, started, sent). ok (record kv { rf = rf }, started.index, sent)

  -- StartKVServer, with the message that Make sends.
  unfoldable pub start_kv_server : ℕ → ℕ → Persister → ℕ → RaftKv × ApplyMsg Op
  start_kv_server servers me persister max_raft_state =
      let (rf, msg) = make servers me persister in
      (
        record {
          me = me;
          rf = rf;
          max_raft_state = max_raft_state;
          results = [];
          store = [];
          last_applied = [];
          last_included_index = 0;
        },
        msg,
      )

abbrev pub same_type : OpType → OpType → Bool
same_type put_op put_op = true
same_type append_op append_op = true
same_type get_op get_op = true
same_type (other_op a) (other_op b) = same_text a b
same_type a b = false

unfoldable pub is_same_op : Op → Op → Bool
is_same_op op1 op2 =
    same_type op1.type' op2.type'
    && (same_text op1.key op2.key && ((op1.req_id == op2.req_id) && (op1.me == op2.me)))

-- A later section, under kv.mu: a new channel for the index.
unfoldable pub register : RaftKv → ℕ → RaftKv
register kv idx = record kv { results = put idx none kv.results }

-- The select on the buffer of the handler's own channel, which is ready when it holds an operation,
-- and on the timer, which is ready when it has fired. When both are, `picks_channel` says which case
-- Go chooses; when none is, the handler still waits.
unfoldable pub await_applied :
    RaftKv → ℕ → Op → Option Op → Bool → Bool → Option (RaftKv × Bool × Op)
await_applied kv idx op buffer timed_out picks_channel =
    let last = record kv { results = remove idx kv.results } in
    elim buffer [
      | some applied ↦
          if timed_out && not picks_channel
          then some (last, false, op)
          else some (last, is_same_op op applied, applied)
      | none ↦ if timed_out then some (last, false, op) else none
    ]

unfoldable pub get_raft_leader : RaftKv → Bool × Err
unfolding get_state
get_raft_leader kv = if not (get_state kv.rf).1 then (true, err_wrong_leader) else (false, no_error)

-- The operations that Get and PutAppend submit, and their replies.
abbrev pub get_request : GetArgs → Op
get_request args = record {
  type' = get_op;
  req_id = args.id;
  me = args.me;
  key = args.key;
  value = [];
}

abbrev pub put_append_request : PutAppendArgs → Op
put_append_request args = record {
  type' = args.op;
  req_id = args.id;
  me = args.me;
  key = args.key;
  value = args.value;
}

unfoldable pub get_reply : Bool → Op → GetReply
get_reply success applied =
    if not success
    then record { wrong_leader = true; err = err_wrong_leader; value = [] }
    else record { wrong_leader = false; err = no_error; value = applied.value }

unfoldable pub put_append_reply : Bool → PutAppendReply
put_append_reply success =
    if not success
    then record { wrong_leader = true; err = err_wrong_leader }
    else record { wrong_leader = false; err = no_error }

unfoldable pub kill_server : RaftKv → RaftKv
unfolding kill
kill_server kv = record kv { rf = kill kv.rf }
