-- ===== src/Raft/Steps/Advances/Followers.antt =====
-- src/raft/raft.go: lastApplied and the end of the snapshot in a follower's handlers, the calls of the
-- service and a restart.
use distributed_systems_labs.Base.{
  ℕ, ◌+◌, ◌-◌, ◌≡◌, refl, ap, ◌∙◌, ◌||◌, none, some, [], ◌∷◌, ◌++◌, arith, ltb, leb, ◌==◌,
  if◌then◌else◌, get_elem?, ok, ◌>>=◌, or_panic, Yields, Yields-then, Yields-if, Yields-map,
}
use distributed_systems_labs.Raft.Types.{
  Bytes, Codec, Clock, follower, LogEntry, Persister, Raft, AppendEntriesArgs, AppendEntriesReply,
  InstallSnapshotArgs, Persisted, last_log_index,
}
use distributed_systems_labs.Raft.Persist.{save_snapshot, make}
use distributed_systems_labs.Raft.Log.{load, store, rearm, adopt_term}
use distributed_systems_labs.Raft.Append.{
  refusal, prev_conflict, spliced, follow_commit, accept, append_current, append_entries,
}
use distributed_systems_labs.Raft.Leader.{is_leader, log_from, broadcast, start}
use distributed_systems_labs.Raft.Compaction.{apply_step, snapshot, install_snapshot}
use distributed_systems_labs.Raft.Steps.Disk.{IsDurable, make-recovers}
use distributed_systems_labs.Raft.Compaction.Install.{
  stale, already, installed, install_snapshot-Outcome, adopt_term-rest,
}
use distributed_systems_labs.Raft.Steps.Advances.{Advances, still, Advances-trans}

-- After a restart everything within the snapshot is applied, and nothing else.
pub make-applied :
    (C : Type 0) ⦃gob : Codec (Persisted C)⦄ (peers me : ℕ) (ps : Persister)
    → (make {C = C} peers me ps).0.last_applied ≡ (make {C = C} peers me ps).0.last_included_index
unfolding make
make-applied C peers me ps = refl

module _ {C : Type 0} ⦃gob : Codec (Persisted C)⦄ where
  adopt_term-Advances :
      (rf : Raft C) (term : ℕ)
      → Advances rf (record (adopt_term rf term) { server_state = follower })
  adopt_term-Advances rf term =
      let (lii, applied, _, _) = adopt_term-rest rf term in still lii applied

  spliced-kept :
      (rf : Raft C) (args : AppendEntriesArgs C)
      → ((spliced rf args).last_included_index ≡ rf.last_included_index)
        × ((spliced rf args).last_applied ≡ rf.last_applied)
  unfolding spliced
  spliced-kept rf args = (ground arith, ground arith)

  accept-Advances :
      (t : Clock) (rf : Raft C) (args : AppendEntriesArgs C) → Advances rf (accept t rf args).0
  unfolding accept follow_commit
  accept-Advances t rf args =
      let (lii, applied) = spliced-kept rf args in
      record { forward = omega (arith, lii); covered = λ h. ground (arith, lii, applied, h) }

  append_current-Advances :
      (t : Clock) (rf : Raft C) (args : AppendEntriesArgs C) (reply : AppendEntriesReply)
      → Yields (λ out. Advances rf out.0) (append_current t rf args reply)
  unfolding append_current accept
  append_current-Advances t rf args reply =
      Yields-then (λ out. Advances rf out.0) (prev_conflict rf args reply) _
        λ conflict.
          elim conflict
            as (λ o.
              Yields (λ (out : Raft C × AppendEntriesReply). Advances rf out.0)
                (elim o [
                  | some refused ↦ ok (rearm t rf, refused)
                  | none ↦ ok (accept t rf args)
                ])) [ some refused ↦ still refl refl | none ↦ accept-Advances t rf args ]

  pub append_entries-Advances :
      (t : Clock) (rf : Raft C) (args : AppendEntriesArgs C)
      → Yields (λ out. Advances rf out.0) (append_entries t rf args)
  unfolding append_entries
  append_entries-Advances t rf args =
      Yields-if (λ out. Advances rf out.0) (ltb args.term rf.current_term) _ _
        (λ _. still refl refl)
        (λ _.
          let r = record (adopt_term rf args.term) { server_state = follower } in
          Yields-map (λ out. Advances r out.0) (λ out. Advances rf out.0) _
            (append_current-Advances t r args (refusal rf.current_term))
            (λ out e. Advances-trans (adopt_term-Advances rf args.term) e))

  pub install_snapshot-Advances :
      (rf : Raft C) (args : InstallSnapshotArgs) → Advances rf (install_snapshot rf args).0
  install_snapshot-Advances rf args = elim (install_snapshot-Outcome rf args) [
    | stale older e ↦
        still (ap (λ out. out.0.last_included_index) e) (ap (λ out. out.0.last_applied) e)
    | already fresh covered term vote (log, lii, applied, commit) unsent ↦ still lii applied
    | installed fresh newer i ↦ record {
      forward = omega (arith, i.cut.0, newer);
      covered = λ h. omega (arith, i.cut.0, i.applied);
    }
  ]

  pub snapshot-Advances :
      (rf : Raft C) (index : ℕ) (bytes : Bytes) → Yields (Advances rf) (snapshot rf index bytes)
  unfolding snapshot
  snapshot-Advances rf index bytes =
      Yields-if (Advances rf) (ltb rf.last_applied index || leb index rf.last_included_index) _ _
        (λ _. still refl refl)
        (λ inside.
          let cut = index - rf.last_included_index in
          Yields-then (Advances rf)
            (if ltb 0 cut
              then (or_panic (get_elem? rf.log (cut - 1)) >>= λ e. ok e.term)
              else ok rf.current_term)
            _
            λ term.
              Yields-then (Advances rf)
                (log_from (record rf { persister = save_snapshot rf.persister bytes }) cut) _
                λ log. record { forward = ground arith; covered = λ h. ground arith })

  pub start-Advances :
      (rf : Raft C) (command : C) → Yields (λ out. Advances rf out.0) (start rf command)
  unfolding start
  start-Advances rf command =
      Yields-if (λ out. Advances rf out.0) (is_leader rf.server_state) _ _
        (λ _.
          let entry : LogEntry C = record {
            term = rf.current_term;
            index = 0;
            command = command;
          } in
          let r = record rf { log = rf.log ++ entry ∷ [] } in
          Yields-then (λ out. Advances rf out.0) (store r.match_index r.me (last_log_index r)) _
            λ matches.
              Yields-then (λ out. Advances rf out.0)
                (broadcast r.peers (record r { match_index = matches })) _ λ sent. still refl refl)
        (λ _. still refl refl)

  pub apply_step-Advances : (rf : Raft C) → Yields (λ out. Advances rf out.0) (apply_step rf)
  unfolding apply_step
  apply_step-Advances rf =
      Yields-if (λ out. Advances rf out.0) (rf.dead || leb rf.commit_index rf.last_applied) _ _
        (λ _. still refl refl)
        (λ _.
          Yields-if (λ out. Advances rf out.0) (last_log_index rf == rf.last_included_index) _ _
            (λ _. still refl refl)
            (λ _.
              Yields-then (λ out. Advances rf out.0)
                (load (record rf { last_applied = rf.last_applied + 1 }) (rf.last_applied + 1)) _
                λ e. record { forward = omega arith; covered = λ h. omega (arith, h) }))

  pub make-Advances :
      (rf : Raft C) → IsDurable rf → Advances rf (make rf.peers rf.me rf.persister).0
  make-Advances rf d =
      let same_end =
        ap (λ (p : Persisted C). p.last_included_index)
          (make-recovers rf.peers rf.me rf.persister ∙ d) in
      let all_applied = make-applied C rf.peers rf.me rf.persister in
      record { forward = omega (arith, same_end); covered = λ h. omega (arith, all_applied) }
