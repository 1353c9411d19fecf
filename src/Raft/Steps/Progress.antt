-- ===== src/Raft/Steps/Progress.antt =====
-- src/raft/raft.go: the end of the snapshot over the runs of a peer, and the message of InstallSnapshot.
use distributed_systems_labs.Base.{ℕ, ◌≤◌, ◌≡◌, refl, arith, Yields-eq}
use distributed_systems_labs.Raft.Types.{Bytes, Codec, snapshot_msg, Raft, Persisted}
use distributed_systems_labs.Raft.Persist.{make_persister, make}
use distributed_systems_labs.Raft.Compaction.{install_message, kill}
use distributed_systems_labs.Raft.Steps.Disk.{IsDurable}
use distributed_systems_labs.Raft.Steps.Advances.{
  Advances, still, Advances-trans, tick-Advances, process_append_entries_reply-Advances,
  on_snapshot_reply-Advances, request_vote-Advances, do_election-Advances, on_vote_reply-Advances,
}
use distributed_systems_labs.Raft.Steps.Votes.{Reach-Effect, fresh-IsDurable}
use distributed_systems_labs.Raft.Steps.{
  Step, on_append_entries, on_request_vote, on_install_snapshot, on_tick, on_election, on_vote,
  on_append_reply, on_install_reply, on_snapshot, on_start, on_apply, on_kill, on_restart, Reach,
  here, next,
}
use distributed_systems_labs.Raft.Steps.Advances.Followers.{
  append_entries-Advances, install_snapshot-Advances, snapshot-Advances, start-Advances,
  apply_step-Advances, make-Advances, make-applied,
}

module _ {C : Type 0} ⦃gob : Codec (Persisted C)⦄ where
  Step-Advances : {rf rf' : Raft C} → IsDurable rf → Step rf rf' → Advances rf rf'
  unfolding kill
  Step-Advances {rf} d (on_append_entries t args e) =
      Yields-eq (λ out. Advances rf out.0) (append_entries-Advances t rf args) e
  Step-Advances {rf} d (on_request_vote t args) = request_vote-Advances t rf args
  Step-Advances {rf} d (on_install_snapshot args) = install_snapshot-Advances rf args
  Step-Advances {rf} d (on_tick t) = tick-Advances t rf
  Step-Advances {rf} d (on_election t) = do_election-Advances t rf
  Step-Advances {rf} d (on_vote t term sent reply e) =
      Yields-eq (Advances rf) (on_vote_reply-Advances t rf term sent reply) e
  Step-Advances {rf} d (on_append_reply t peer term prev ent reply e) =
      Yields-eq (Advances rf) (process_append_entries_reply-Advances t rf peer term prev ent reply)
        e
  Step-Advances {rf} d (on_install_reply t peer args sent reply e) =
      Yields-eq (Advances rf) (on_snapshot_reply-Advances t rf peer args sent reply) e
  Step-Advances {rf} d (on_snapshot index bytes e) =
      Yields-eq (Advances rf) (snapshot-Advances rf index bytes) e
  Step-Advances {rf} d (on_start command e) =
      Yields-eq (λ out. Advances rf out.0) (start-Advances rf command) e
  Step-Advances {rf} d (on_apply e) =
      Yields-eq (λ out. Advances rf out.0) (apply_step-Advances rf) e
  Step-Advances d on_kill = still refl refl
  Step-Advances {rf} d on_restart = make-Advances rf d

  Reach-Advances : {rf rf' : Raft C} → IsDurable rf → Reach rf rf' → Advances rf rf'
  Reach-Advances d here = still refl refl
  Reach-Advances d (next r s) =
      Advances-trans (Reach-Advances d r) (Step-Advances (Reach-Effect d r).1 s)

  -- The end of the snapshot in a later state, and the index of a message sent there.
  pub record Progress (rf rf' : Raft C) (bytes : Bytes) : Type 0 where
    pub forward : rf.last_included_index ≤ rf'.last_included_index
    pub applied : rf'.last_included_index ≤ rf'.last_applied
    pub index : ℕ
    pub message : install_message rf' bytes ≡ snapshot_msg index bytes
    pub reaches : rf.last_included_index ≤ index

  -- In every run of a peer from an empty persister, crashes and restarts included, the last index
  -- of the snapshot never falls and is never above lastApplied. So the index that InstallSnapshot
  -- reads for its message, in whatever later state it reads it, is no lower than the last index of
  -- the snapshot that it left.
  pub Reach-Progress :
      (peers me : ℕ) (bytes : Bytes) {rf rf' : Raft C}
      → Reach (make peers me make_persister).0 rf
      → Reach rf rf'
      → Progress rf rf' bytes
  unfolding install_message
  Reach-Progress peers me bytes {rf} {rf'} run more =
      let d = fresh-IsDurable peers me in
      let a = Reach-Advances d run in
      let b = Reach-Advances (Reach-Effect d run).1 more in
      let at_start = make-applied C peers me make_persister in
      let covered = b.covered (a.covered (omega (arith, at_start))) in
      record {
        forward = b.forward;
        applied = covered;
        index = rf'.last_applied;
        message = refl;
        reaches = omega (arith, b.forward, covered);
      }
