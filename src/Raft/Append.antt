-- ===== src/Raft/Append.antt =====
-- src/raft/raft.go: the AppendEntries handler.
pub mod Conflict
pub mod Outcome
pub mod Bounds
use distributed_systems_labs.Base.{
  ℕ, zero, suc, ◌+◌, ◌-◌, true, false, Option, none, some, ◌++◌, Run, ok, ◌>>=◌, ltb, leb, ◌==◌,
  if◌then◌else◌, length, take,
}
use distributed_systems_labs.Raft.Types.{
  Codec, Clock, Raft, Persisted, follower, AppendEntriesArgs, AppendEntriesReply, last_log_index,
}
use distributed_systems_labs.Raft.Persist.{persist}
use distributed_systems_labs.Raft.Log.{load, rearm, adopt_term}

-- reply.Term = rf.currentTerm; reply.Success = false, on the zero value of the reply.
abbrev pub refusal : ℕ → AppendEntriesReply
refusal term = record { term = term; success = false; x_term = some 0; x_index = 0; x_len = 0 }

module _ {C : Type 0} where
  -- The `for xIndex > rf.lastIncludedIndex+1` loop, from `xIndex`.
  unfoldable pub first_of_term : Raft C → ℕ → ℕ → Run ℕ
  first_of_term rf x_term zero = ok zero
  first_of_term rf x_term (suc x) =
      let earlier = first_of_term rf x_term x in
      let step = load rf x >>= λ e. if e.term == x_term then earlier else ok (suc x) in
      if ltb (rf.last_included_index + 1) (suc x) then step else ok (suc x)

  -- The terms differ at PrevLogIndex: the hint for the leader.
  unfoldable pub term_conflict :
      Raft C → AppendEntriesArgs C → AppendEntriesReply → Run (Option AppendEntriesReply)
  term_conflict rf args reply =
      if leb args.prev_log_index rf.last_included_index then ok (some reply) else (do
        e ← load rf args.prev_log_index
        x ← first_of_term rf e.term args.prev_log_index
        ok (some (record reply { x_term = some e.term; x_index = x })))

  -- The consistency check on PrevLogIndex and PrevLogTerm: the refusal to send, or `none`.
  unfoldable pub prev_conflict :
      Raft C → AppendEntriesArgs C → AppendEntriesReply → Run (Option AppendEntriesReply)
  prev_conflict rf args reply =
      if ltb (last_log_index rf) args.prev_log_index
      then ok (some (record reply { x_term = none; x_len = last_log_index rf + 1 }))
      else if ltb args.prev_log_index rf.last_included_index
      then ok (some reply)
      else (do
        prev_term ←
            if ltb rf.last_included_index args.prev_log_index
            then (load rf args.prev_log_index >>= λ e. ok e.term)
            else ok rf.last_included_term
        if prev_term == args.prev_log_term then ok none else term_conflict rf args reply)

  -- The log after the truncation and the append.
  unfoldable pub spliced : Raft C → AppendEntriesArgs C → Raft C
  spliced rf args =
      let cut = args.prev_log_index - rf.last_included_index in
      if ltb 0 (length args.entries)
      then record rf { log = take cut rf.log ++ args.entries }
      else if ltb args.prev_log_index (last_log_index rf)
      then record rf { log = take cut rf.log }
      else rf

  -- commitIndex and lastApplied, clamped to the log.
  unfoldable pub follow_commit : Raft C → ℕ → Raft C
  follow_commit rf leader_commit =
      let commit = if ltb rf.commit_index leader_commit then leader_commit else rf.commit_index in
      let last_new = last_log_index rf in
      record rf {
        commit_index = if ltb last_new commit then last_new else commit;
        last_applied = if ltb last_new rf.last_applied then last_new else rf.last_applied;
      }

module _ {C : Type 0} ⦃gob : Codec (Persisted C)⦄ where
  unfoldable pub accept : Clock → Raft C → AppendEntriesArgs C → Raft C × AppendEntriesReply
  unfolding spliced follow_commit persist
  accept t rf args =
      let r = follow_commit (spliced rf args) args.leader_commit in
      (rearm t (persist r), record (refusal r.current_term) { success = true })

  -- The handler once the term is adopted and the peer is a follower.
  unfoldable pub append_current :
      Clock → Raft C → AppendEntriesArgs C → AppendEntriesReply → Run (Raft C × AppendEntriesReply)
  append_current t rf args reply = prev_conflict rf args reply >>= λ conflict. elim conflict [
    | some refused ↦ ok (rearm t rf, refused)
    | none ↦ ok (accept t rf args)
  ]

  unfoldable pub append_entries :
      Clock → Raft C → AppendEntriesArgs C → Run (Raft C × AppendEntriesReply)
  append_entries t rf args =
      if ltb args.term rf.current_term
      then ok (rf, refusal rf.current_term)
      else append_current t (record (adopt_term rf args.term) { server_state = follower }) args
          (refusal rf.current_term)
