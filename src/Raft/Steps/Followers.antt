-- ===== src/Raft/Steps/Followers.antt =====
-- src/raft/raft.go: the handlers of a follower, the calls of the service and a restart, as changes of
-- role, term and number of votes.
use distributed_systems_labs.Base.{
  ℕ, ◌+◌, ◌-◌, refl, inl, inr, ◌||◌, none, some, [], ◌∷◌, ◌++◌, arith, ltb, leb, ◌==◌,
  if◌then◌else◌, Bool-cases, Option-cases, length, get_elem?, ok, ◌>>=◌, or_panic, Yields,
  Yields-then, Yields-if, Yields-map,
}
use distributed_systems_labs.Raft.Types.{
  Bytes, Codec, Clock, follower, LogEntry, Raft, AppendEntriesArgs, AppendEntriesReply,
  InstallSnapshotArgs, Persisted, last_log_index,
}
use distributed_systems_labs.Raft.Persist.{save_snapshot, read_persist, make}
use distributed_systems_labs.Raft.Log.{load, store, rearm, adopt_term}
use distributed_systems_labs.Raft.Append.{
  refusal, prev_conflict, accept, append_current, append_entries,
}
use distributed_systems_labs.Raft.Leader.{is_leader, log_from, broadcast, start}
use distributed_systems_labs.Raft.Compaction.{apply_step, snapshot, install_snapshot}
use distributed_systems_labs.Raft.Steps.Roles.{Keeps, down, same, Keeps-trans}

module _ {C : Type 0} ⦃gob : Codec (Persisted C)⦄ where
  -- Adopting a term leaves the role alone; the handlers that do it then follow.
  adopt_term-down :
      (rf : Raft C) (term : ℕ) → Keeps rf (record (adopt_term rf term) { server_state = follower })
  unfolding adopt_term
  adopt_term-down rf term = down (ground arith) (ground arith) refl

  append_current-Keeps :
      (t : Clock) (rf : Raft C) (args : AppendEntriesArgs C) (reply : AppendEntriesReply)
      → Yields (λ out. Keeps rf out.0) (append_current t rf args reply)
  unfolding append_current accept
  append_current-Keeps t rf args reply =
      Yields-then (λ out. Keeps rf out.0) (prev_conflict rf args reply) _
        λ conflict.
          elim conflict
            as (λ o.
              Yields (λ (out : Raft C × AppendEntriesReply). Keeps rf out.0)
                (elim o [
                  | some refused ↦ ok (rearm t rf, refused)
                  | none ↦ ok (accept t rf args)
                ])) [
                  | some refused ↦ same refl refl refl refl refl
                  | none ↦
                      same (ground arith) (ground arith) (ground arith) (ground arith)
                        (ground arith)
                ]

  pub append_entries-Keeps :
      (t : Clock) (rf : Raft C) (args : AppendEntriesArgs C)
      → Yields (λ out. Keeps rf out.0) (append_entries t rf args)
  unfolding append_entries
  append_entries-Keeps t rf args =
      Yields-if (λ out. Keeps rf out.0) (ltb args.term rf.current_term) _ _
        (λ _. same refl refl refl refl refl)
        (λ _.
          let r = record (adopt_term rf args.term) { server_state = follower } in
          Yields-map (λ out. Keeps r out.0) (λ out. Keeps rf out.0) _
            (append_current-Keeps t r args (refusal rf.current_term))
            (λ out e. Keeps-trans (adopt_term-down rf args.term) e))

  pub install_snapshot-Keeps :
      (rf : Raft C) (args : InstallSnapshotArgs) → Keeps rf (install_snapshot rf args).0
  unfolding install_snapshot
  install_snapshot-Keeps rf args =
      let a = adopt_term rf args.term in
      let adopted = adopt_term-down rf args.term in
      elim (Bool-cases (ltb args.term rf.current_term)) [
        | inl stale ↦ rw stale (same refl refl refl refl refl)
        | inr fresh ↦ elim (Bool-cases (leb args.last_included_index a.last_included_index)) [
          | inl old ↦ rw (fresh, old) (Keeps-trans adopted (same refl refl refl refl refl))
          | inr newer ↦ rw (fresh, newer) (Keeps-trans adopted (same refl refl refl refl refl))
        ]
      ]

  pub snapshot-Keeps :
      (rf : Raft C) (index : ℕ) (bytes : Bytes) → Yields (Keeps rf) (snapshot rf index bytes)
  unfolding snapshot
  snapshot-Keeps rf index bytes =
      Yields-if (Keeps rf) (ltb rf.last_applied index || leb index rf.last_included_index) _ _
        (λ _. same refl refl refl refl refl)
        (λ _.
          let cut = index - rf.last_included_index in
          Yields-then (Keeps rf)
            (if ltb 0 cut
              then (or_panic (get_elem? rf.log (cut - 1)) >>= λ e. ok e.term)
              else ok rf.current_term)
            _
            λ term.
              Yields-then (Keeps rf)
                (log_from (record rf { persister = save_snapshot rf.persister bytes }) cut) _
                λ log. same refl refl refl refl refl)

  pub start-Keeps : (rf : Raft C) (command : C) → Yields (λ out. Keeps rf out.0) (start rf command)
  unfolding start
  start-Keeps rf command =
      Yields-if (λ out. Keeps rf out.0) (is_leader rf.server_state) _ _
        (λ _.
          let entry : LogEntry C = record {
            term = rf.current_term;
            index = 0;
            command = command;
          } in
          let r = record rf { log = rf.log ++ entry ∷ [] } in
          Yields-then (λ out. Keeps rf out.0) (store r.match_index r.me (last_log_index r)) _
            λ matches.
              Yields-then (λ out. Keeps rf out.0)
                (broadcast r.peers (record r { match_index = matches })) _
                λ sent. same refl refl refl refl refl)
        (λ _. same refl refl refl refl refl)

  pub apply_step-Keeps : (rf : Raft C) → Yields (λ out. Keeps rf out.0) (apply_step rf)
  unfolding apply_step
  apply_step-Keeps rf =
      Yields-if (λ out. Keeps rf out.0) (rf.dead || leb rf.commit_index rf.last_applied) _ _
        (λ _. same refl refl refl refl refl)
        (λ _.
          Yields-if (λ out. Keeps rf out.0) (last_log_index rf == rf.last_included_index) _ _
            (λ _. same refl refl refl refl refl)
            (λ _.
              Yields-then (λ out. Keeps rf out.0)
                (load (record rf { last_applied = rf.last_applied + 1 }) (rf.last_applied + 1)) _
                λ e. same refl refl refl refl refl))

  pub make-Keeps : (rf : Raft C) → Keeps rf (make rf.peers rf.me rf.persister).0
  unfolding make
  make-Keeps rf = elim (Bool-cases (length rf.persister.raftstate == 0)) [
    | inl empty ↦ rw (empty, read_persist) (down refl refl refl)
    | inr full ↦ elim (Option-cases (gob.decode rf.persister.raftstate)) [
      | inl bad ↦ rw (full, bad, read_persist) (down refl refl refl)
      | inr (p, good) ↦ rw (full, good, read_persist) (down refl refl refl)
    ]
  ]
