-- ===== src/Raft/Log.antt =====
-- src/raft/raft.go: reading the log by Raft index, and the small steps that the handlers share.
pub mod Reads
use distributed_systems_labs.Base.{
  ℕ, ◌-◌, none, some, Option, List, [], ◌∷◌, Run, ok, panic, or_panic, ltb, ◌==◌, if◌then◌else◌,
  length, get_elem?, set,
}
use distributed_systems_labs.Raft.Types.{
  Codec, Clock, deadline, Raft, Persisted, LogEntry, follower,
}
use distributed_systems_labs.Raft.Persist.{persist}

-- A write into a slice of numbers: out of range it panics.
unfoldable pub store : List ℕ → ℕ → ℕ → Run (List ℕ)
store xs i v = if ltb i (length xs) then ok (set xs i v) else panic

module _ {C : Type 0} where
  -- rf.log[i-rf.lastIncludedIndex-1]: a negative index panics, as does one past the end.
  unfoldable pub load : Raft C → ℕ → Run (LogEntry C)
  load rf i =
      if ltb rf.last_included_index i
      then or_panic (get_elem? rf.log (i - rf.last_included_index - 1))
      else panic

  -- The log as a function of the Raft index, for statements: the entry, and the term, which the
  -- last index of the snapshot has too.
  abbrev pub entry_at : Raft C → ℕ → Option (LogEntry C)
  entry_at rf i =
      if ltb rf.last_included_index i
      then get_elem? rf.log (i - rf.last_included_index - 1)
      else none

  abbrev pub term_of : Option (LogEntry C) → Option ℕ
  term_of none = none
  term_of (some e) = some e.term

  abbrev pub term_at : Raft C → ℕ → Option ℕ
  term_at rf i =
      if i == rf.last_included_index then some rf.last_included_term else term_of (entry_at rf i)

  -- The term of the last entry of a log, or `d` for the empty log.
  unfoldable pub last_term : ℕ → List (LogEntry C) → ℕ
  last_term d [] = d
  last_term d (e ∷ log) = last_term e.term log

  unfoldable pub last_log_term : Raft C → ℕ
  last_log_term rf = last_term rf.last_included_term rf.log

  -- rf.electionDeadline = time.Now().Add(…)
  abbrev pub rearm : Clock → Raft C → Raft C
  rearm t rf = record rf { election_deadline = some (deadline t) }

module _ {C : Type 0} ⦃gob : Codec (Persisted C)⦄ where
  -- A request of a later term: AppendEntries and InstallSnapshot.
  unfoldable pub adopt_term : Raft C → ℕ → Raft C
  unfolding persist
  adopt_term rf term =
      if ltb rf.current_term term
      then persist (record rf { current_term = term; voted_for = none })
      else rf

  -- A reply of a later term: the leader or candidate becomes a follower.
  unfoldable pub step_down : Clock → Raft C → ℕ → Raft C
  unfolding persist
  step_down t rf term = persist (record rf {
    current_term = term;
    server_state = follower;
    voted_for = none;
    election_deadline = some (deadline t);
  })
