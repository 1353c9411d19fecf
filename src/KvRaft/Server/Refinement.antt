-- ===== src/KvRaft/Server/Refinement.antt =====
-- src/kvraft/server.go: ApplyRoutine on a sequence of messages, beside the abstract service.
use distributed_systems_labs.Base.{
  ℕ, ◌<◌, inl, inr, List, [], ◌∷◌, ltb, leb, if◌then◌else◌, ltb→lt, lt→ltb, ltb→le, leb→le, leb→lt,
  Bool-cases, ok, Returns, returns, Returns-bind, Returns-map, Returns-if,
}
use distributed_systems_labs.Raft.Types.{
  Bytes, Codec, Raft, ApplyMsg, committed, snapshot_msg, Persisted, InBounds,
}
use distributed_systems_labs.Raft.Compaction.{snapshot}
use distributed_systems_labs.Raft.Compaction.Trim.{snapshot-Trimmed, snapshot-unchanged}
use distributed_systems_labs.KvRaft.Types.{Op, SnapshotData, RaftKv}
use distributed_systems_labs.KvRaft.Server.{
  execute, snapshot_data, send_snapshot, is_due, install, apply_msg, apply_all,
}
use distributed_systems_labs.KvRaft.Server.Service.{
  Service, serve, serve_all, Implements, execute-Implements,
}

abbrev pub commits : List (ℕ × Op) → List (ApplyMsg Op)
commits [] = []
commits ((idx, op) ∷ ops) = committed idx op ∷ commits ops

module _ ⦃gob : Codec (Persisted Op)⦄ ⦃data_gob : Codec SnapshotData⦄ where
  -- On a peer whose indices are in order, Snapshot returns, and they stay in order.
  pub snapshot-InBounds :
      (rf : Raft Op) (idx : ℕ) (bytes : Bytes)
      → InBounds rf
      → Returns InBounds (snapshot rf idx bytes)
  snapshot-InBounds rf idx bytes b = elim (Bool-cases (ltb rf.last_applied idx)) [
    | inl early ↦ rw (snapshot-unchanged rf idx bytes (inl (ltb→lt _ _ early))) (returns b)
    | inr applied ↦ elim (Bool-cases (leb idx rf.last_included_index)) [
      | inl old ↦ rw (snapshot-unchanged rf idx bytes (inr (leb→le _ _ old))) (returns b)
      | inr new ↦
          Returns-map (snapshot-Trimmed rf idx bytes b (leb→lt _ _ new) (ltb→le _ _ applied))
            λ r trimmed. trimmed.ordered
    ]
  ]

  -- The server's maps are the service's, and its Raft peer's indices are in order.
  pub record Serves (s : Service) (kv : RaftKv) : Type 0 where
    pub implements : Implements kv s
    pub ordered : InBounds kv.rf

  kept-Serves :
      (kv : RaftKv) (s : Service) (idx : ℕ)
      → Serves s kv
      → Returns (Serves s) (if is_due kv then send_snapshot kv idx else ok kv)
  unfolding send_snapshot
  kept-Serves kv s idx v =
      Returns-if (is_due kv)
        (λ due. Returns-bind (snapshot-InBounds kv.rf idx _ v.ordered) λ rf b. returns (record {
          implements = record { reads = v.implements.reads; numbers = v.implements.numbers };
          ordered = b;
        }))
        (λ not_due. returns v)

  apply_msg-Serves :
      (kv : RaftKv) (s : Service) (idx : ℕ) (op : Op)
      → Serves s kv
      → Returns (Serves (serve s op)) (apply_msg kv (committed idx op))
  unfolding apply_msg
  apply_msg-Serves kv s idx op v =
      let (i, same, _) = execute-Implements kv s op v.implements idx in
      Returns-bind
        (kept-Serves (execute kv idx op).0 (serve s op) idx
          (record { implements = i; ordered = rw same v.ordered }))
        λ kept w. returns (record {
          implements = record { reads = w.implements.reads; numbers = w.implements.numbers };
          ordered = w.ordered;
        })

  -- If a server holds the maps of the service and the indices of its Raft peer are in order, then
  -- for every sequence of committed operations ApplyRoutine returns, and the server holds the maps
  -- that the service has after the same operations, where the service skips reads and the
  -- operations with a number of the client that is not new.
  pub apply_all-Serves :
      (ops : List (ℕ × Op)) (kv : RaftKv) (s : Service)
      → Serves s kv
      → Returns (Serves (serve_all s ops)) (apply_all kv (commits ops))
  unfolding apply_all
  apply_all-Serves [] kv s v = returns v
  apply_all-Serves ((idx, op) ∷ ops) kv s v =
      Returns-bind (apply_msg-Serves kv s idx op v) λ kv' w. apply_all-Serves ops kv' (serve s op) w

  -- If a server whose lastIncludedIndex is lower, and the indices of whose Raft peer are in order,
  -- gets the snapshot that another server writes of the maps of the service, and then any
  -- committed operations, ApplyRoutine returns and the server holds the maps of the service after
  -- those operations.
  pub install-Serves :
      (ops : List (ℕ × Op)) (kv other : RaftKv) (s : Service)
      → Implements other s
      → InBounds kv.rf
      → kv.last_included_index < other.last_included_index
      → Returns (Serves (serve_all s ops)) (
          apply_all kv (
            snapshot_msg other.last_included_index (data_gob.encode (snapshot_data other))
            ∷ commits ops))
  unfolding apply_all apply_msg install
  install-Serves ops kv other s i b behind =
      rw (data_gob.decode-encode (snapshot_data other), install, lt→ltb _ _ behind)
        (apply_all-Serves ops _ s
          (record { implements = record { reads = i.reads; numbers = i.numbers }; ordered = b }))
