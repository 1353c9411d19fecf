-- ===== src/Raft/Compaction/Delivery.antt =====
-- src/raft/raft.go: BackgroundApplyRoutine, one pass under the lock.
use distributed_systems_labs.Base.{
  ◌+◌, ◌≤◌, ◌<◌, ◌≡◌, refl, ◌⊎◌, inl, inr, true, false, ◌||◌, Option, none, some, arith, leb, ◌==◌,
  ==→eq, ok, Returns, returns, Returns-if,
}
use distributed_systems_labs.Raft.Types.{
  LogEntry, ApplyMsg, committed, Raft, last_log_index, InBounds,
}
use distributed_systems_labs.Raft.Log.{entry_at}
use distributed_systems_labs.Raft.Log.Reads.{load-ok}
use distributed_systems_labs.Raft.Compaction.{apply_step}

module _ {C : Type 0} (rf : Raft C) where
  -- The entry after the last applied one is sent, and only lastApplied changes.
  pub record Delivers (out : Raft C × Option (ApplyMsg C)) : Type 0 where
    pub entry : LogEntry C
    pub next : entry_at rf (rf.last_applied + 1) ≡ some entry
    pub sent : out.1 ≡ some (committed (rf.last_applied + 1) entry.command)
    pub only : out.0 ≡ record rf { last_applied = rf.last_applied + 1 }

  -- If the indices of a peer are in order, it is not killed, and a committed entry is not applied
  -- yet, the apply routine sends the entry after lastApplied under its index, and only lastApplied
  -- changes, by one.
  pub apply_step-Delivers :
      InBounds rf
      → rf.dead ≡ false
      → rf.last_applied < rf.commit_index
      → Returns Delivers (apply_step rf)
  unfolding apply_step
  apply_step-Delivers b alive waiting =
      let r = record rf { last_applied = rf.last_applied + 1 } in
      let (e, loaded, at, _) =
        load-ok r (rf.last_applied + 1) (omega (arith, b.compacted)) (omega (arith, b.committed)) in
      Returns-if (rf.dead || leb rf.commit_index rf.last_applied) (λ idle. absurd (ground arith))
        λ _.
          Returns-if (last_log_index rf == rf.last_included_index)
            (λ none_left. absurd (omega (arith, ==→eq _ _ none_left, b.compacted, b.committed)))
            λ _. rw loaded (returns (record { entry = e; next = at; sent = refl; only = refl }))

  -- With nothing left to apply, or after Kill, the pass changes nothing and sends nothing.
  pub apply_step-idle :
      (rf.commit_index ≤ rf.last_applied) ⊎ (rf.dead ≡ true) → apply_step rf ≡ ok (rf, none)
  unfolding apply_step
  apply_step-idle (inl h) = ground arith
  apply_step-idle (inr h) = ground arith
