-- ===== src/Raft/Compaction.antt =====
-- src/raft/raft.go: Snapshot, the InstallSnapshot handler and its sender, and the apply routine.
pub mod Trim
pub mod Install
pub mod Delivery
use distributed_systems_labs.Base.{
  ℕ, ◌+◌, ◌-◌, Bool, true, false, ◌||◌, Option, none, some, [], Run, ok, or_panic, ◌>>=◌, ltb, leb,
  ◌==◌, if◌then◌else◌, get_elem?,
}
use distributed_systems_labs.Raft.Types.{
  Codec, Clock, Raft, Persisted, Bytes, follower, ApplyMsg, committed, snapshot_msg,
  InstallSnapshotArgs, InstallSnapshotReply, last_log_index,
}
use distributed_systems_labs.Raft.Persist.{persist, save_snapshot, raft_state_size}
use distributed_systems_labs.Raft.Log.{load, store, adopt_term, step_down}
use distributed_systems_labs.Raft.Leader.{is_leader, log_from, advance_commit}

module _ {C : Type 0} where
  unfoldable pub raft_size : Raft C → ℕ
  unfolding raft_state_size
  raft_size rf = raft_state_size rf.persister

  unfoldable pub kill : Raft C → Raft C
  kill rf = record rf { dead = true }

  -- One pass of BackgroundApplyRoutine under the lock, with the message that follows it.
  unfoldable pub apply_step : Raft C → Run (Raft C × Option (ApplyMsg C))
  apply_step rf =
      if rf.dead || leb rf.commit_index rf.last_applied
      then ok (rf, none)
      else if last_log_index rf == rf.last_included_index
      then ok (rf, none)
      else (do
        let r = record rf { last_applied = rf.last_applied + 1 }
        e ← load r r.last_applied
        ok (r, some (committed r.last_applied e.command)))

  -- What InstallSnapshot sends after rf.mu.Unlock(): the index is read from the peer's state of
  -- that moment, which other sections may have reached.
  unfoldable pub install_message : Raft C → Bytes → ApplyMsg C
  install_message later bytes = snapshot_msg later.last_applied bytes

  -- handleSendInstallSnapshot, up to the call.
  unfoldable pub snapshot_args : Raft C → Option InstallSnapshotArgs
  snapshot_args rf =
      if is_leader rf.server_state
      then some (record {
        term = rf.current_term;
        leader_id = rf.me;
        last_included_index = rf.last_included_index;
        last_included_term = rf.last_included_term;
        snapshot = rf.persister.snapshot;
      })
      else none

module _ {C : Type 0} ⦃gob : Codec (Persisted C)⦄ where
  unfoldable pub snapshot : Raft C → ℕ → Bytes → Run (Raft C)
  unfolding persist save_snapshot
  snapshot rf index data' =
      if ltb rf.last_applied index || leb index rf.last_included_index then ok rf else (do
        let saved = record rf { persister = save_snapshot rf.persister data' }
        let cut = index - rf.last_included_index
        term ←
            if ltb 0 cut
            then (or_panic (get_elem? saved.log (cut - 1)) >>= λ e. ok e.term)
            else ok saved.current_term
        log ← log_from saved cut
        ok (
            persist
              (record saved { last_included_index = index; last_included_term = term; log = log })))

  -- The section under rf.mu: the state, the reply, and the snapshot that is still to be sent.
  unfoldable pub install_snapshot :
      Raft C → InstallSnapshotArgs → Raft C × InstallSnapshotReply × Option Bytes
  unfolding persist save_snapshot
  install_snapshot rf args =
      if ltb args.term rf.current_term
      then (rf, record { term = rf.current_term }, none)
      else let r = record (adopt_term rf args.term) { server_state = follower } in
        if leb args.last_included_index r.last_included_index
        then (r, record { term = rf.current_term }, none)
        else let s = persist (record r {
          last_included_index = args.last_included_index;
          last_included_term = args.last_included_term;
          last_applied =
              if ltb r.last_applied args.last_included_index
              then args.last_included_index
              else r.last_applied;
          commit_index =
              if ltb r.commit_index args.last_included_index
              then args.last_included_index
              else r.commit_index;
          log = [];
        }) in
          (
            record s { persister = save_snapshot s.persister args.snapshot },
            record { term = s.current_term },
            some args.snapshot,
          )

  -- The end of handleSendInstallSnapshot: the follower has the snapshot.
  unfoldable pub snapshot_acknowledged : Raft C → ℕ → InstallSnapshotArgs → Run (Raft C)
  unfolding persist
  snapshot_acknowledged rf peer args = do
    m ← or_panic (get_elem? rf.match_index peer)
    matches ←
        if ltb m args.last_included_index
        then store rf.match_index peer args.last_included_index
        else ok rf.match_index
    n ← or_panic (get_elem? rf.next_index peer)
    nexts ←
        if ltb n (args.last_included_index + 1)
        then store rf.next_index peer (args.last_included_index + 1)
        else ok rf.next_index
    r ← advance_commit (record rf { match_index = matches; next_index = nexts })
    ok (persist r)

  -- handleSendInstallSnapshot, after the call returned `sent` with `reply`.
  unfoldable pub on_snapshot_reply :
      Clock → Raft C → ℕ → InstallSnapshotArgs → Bool → InstallSnapshotReply → Run (Raft C)
  unfolding step_down
  on_snapshot_reply t rf peer args false reply = ok rf
  on_snapshot_reply t rf peer args true reply =
      if rf.current_term == args.term
      then (if is_leader rf.server_state
          then (if ltb rf.current_term reply.term
              then ok (step_down t rf reply.term)
              else if ltb reply.term rf.current_term
              then ok rf
              else snapshot_acknowledged rf peer args)
          else ok rf)
      else ok rf
