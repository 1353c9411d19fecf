-- ===== src/Raft/Steps/Receipts.antt =====
-- What AppendEntries, InstallSnapshot, Snapshot, Start, the apply routine and Make leave on disk.
use distributed_systems_labs.Base.{
  ℕ, ◌+◌, ◌-◌, refl, ap, ◌∙◌, inl, inr, ◌||◌, none, some, [], ◌∷◌, ◌++◌, arith, ltb, leb, ◌==◌,
  if◌then◌else◌, Bool-cases, get_elem?, ok, ◌>>=◌, or_panic, Yields, Yields-then, Yields-if,
  Yields-map,
}
use distributed_systems_labs.Raft.Types.{
  Bytes, Codec, Clock, follower, LogEntry, Persister, Raft, AppendEntriesArgs, AppendEntriesReply,
  InstallSnapshotArgs, Persisted, last_log_index,
}
use distributed_systems_labs.Raft.Persist.{save_snapshot, make}
use distributed_systems_labs.Raft.Log.{load, store, rearm, adopt_term}
use distributed_systems_labs.Raft.Append.{
  refusal, prev_conflict, accept, append_current, append_entries,
}
use distributed_systems_labs.Raft.Leader.{is_leader, log_from, broadcast, start}
use distributed_systems_labs.Raft.Compaction.{apply_step, snapshot, install_snapshot}
use distributed_systems_labs.Raft.Steps.Disk.{
  Effect, kept, again, Effect-trans, IsDurable, make-recovers, make-persister,
}
use distributed_systems_labs.Raft.Steps.Effects.{adopt_term-Effect}

module _ {C : Type 0} ⦃gob : Codec (Persisted C)⦄ where
  append_current-Effect :
      (t : Clock) (rf : Raft C) (args : AppendEntriesArgs C) (reply : AppendEntriesReply)
      → Yields (λ out. Effect rf out.0) (append_current t rf args reply)
  unfolding append_current accept
  append_current-Effect t rf args reply =
      Yields-then (λ out. Effect rf out.0) (prev_conflict rf args reply) _
        λ conflict.
          elim conflict
            as (λ o.
              Yields (λ (out : Raft C × AppendEntriesReply). Effect rf out.0)
                (elim o [
                  | some refused ↦ ok (rearm t rf, refused)
                  | none ↦ ok (accept t rf args)
                ])) [
                  | some refused ↦ kept refl refl
                  | none ↦ again (ground arith) (ground arith) refl
                ]

  pub append_entries-Effect :
      (t : Clock) (rf : Raft C) (args : AppendEntriesArgs C)
      → Yields (λ out. Effect rf out.0) (append_entries t rf args)
  unfolding append_entries
  append_entries-Effect t rf args =
      Yields-if (λ out. Effect rf out.0) (ltb args.term rf.current_term) _ _ (λ _. kept refl refl)
        (λ _.
          let r = record (adopt_term rf args.term) { server_state = follower } in
          Yields-map (λ out. Effect r out.0) (λ out. Effect rf out.0) _
            (append_current-Effect t r args (refusal rf.current_term))
            (λ out e.
              Effect-trans (Effect-trans (adopt_term-Effect rf args.term) (kept refl refl)) e))

  pub install_snapshot-Effect :
      (rf : Raft C) (args : InstallSnapshotArgs) → Effect rf (install_snapshot rf args).0
  unfolding install_snapshot
  install_snapshot-Effect rf args =
      let a = adopt_term rf args.term in
      let adopted = adopt_term-Effect rf args.term in
      elim (Bool-cases (ltb args.term rf.current_term)) [
        | inl stale ↦ rw stale (kept refl refl)
        | inr fresh ↦ elim (Bool-cases (leb args.last_included_index a.last_included_index)) [
          | inl old ↦ rw (fresh, old) (Effect-trans adopted (kept refl refl))
          | inr newer ↦ rw (fresh, newer) (Effect-trans adopted (again refl refl refl))
        ]
      ]

  pub snapshot-Effect :
      (rf : Raft C) (index : ℕ) (bytes : Bytes) → Yields (Effect rf) (snapshot rf index bytes)
  unfolding snapshot
  snapshot-Effect rf index bytes =
      Yields-if (Effect rf) (ltb rf.last_applied index || leb index rf.last_included_index) _ _
        (λ _. kept refl refl)
        (λ _.
          let cut = index - rf.last_included_index in
          Yields-then (Effect rf)
            (if ltb 0 cut
              then (or_panic (get_elem? rf.log (cut - 1)) >>= λ e. ok e.term)
              else ok rf.current_term)
            _
            λ term.
              Yields-then (Effect rf)
                (log_from (record rf { persister = save_snapshot rf.persister bytes }) cut) _
                λ log. again refl refl refl)

  pub start-Effect :
      (rf : Raft C) (command : C) → Yields (λ out. Effect rf out.0) (start rf command)
  unfolding start
  start-Effect rf command =
      Yields-if (λ out. Effect rf out.0) (is_leader rf.server_state) _ _
        (λ _.
          let entry : LogEntry C = record {
            term = rf.current_term;
            index = 0;
            command = command;
          } in
          let r = record rf { log = rf.log ++ entry ∷ [] } in
          Yields-then (λ out. Effect rf out.0) (store r.match_index r.me (last_log_index r)) _
            λ matches.
              Yields-then (λ out. Effect rf out.0)
                (broadcast r.peers (record r { match_index = matches })) _
                λ sent. again refl refl refl)
        (λ _. kept refl refl)

  pub apply_step-Effect : (rf : Raft C) → Yields (λ out. Effect rf out.0) (apply_step rf)
  unfolding apply_step
  apply_step-Effect rf =
      Yields-if (λ out. Effect rf out.0) (rf.dead || leb rf.commit_index rf.last_applied) _ _
        (λ _. kept refl refl)
        (λ _.
          Yields-if (λ out. Effect rf out.0) (last_log_index rf == rf.last_included_index) _ _
            (λ _. kept refl refl)
            (λ _.
              Yields-then (λ out. Effect rf out.0)
                (load (record rf { last_applied = rf.last_applied + 1 }) (rf.last_applied + 1)) _
                λ e. kept refl refl))

  pub make-Effect : (rf : Raft C) → IsDurable rf → Effect rf (make rf.peers rf.me rf.persister).0
  make-Effect rf d =
      kept (make-recovers rf.peers rf.me rf.persister ∙ d)
        (ap (λ (p : Persister). p.raftstate) (make-persister rf))
