-- ===== src/Raft/Log/Reads.antt =====
-- Reads and writes of slices that stay in range.
use distributed_systems_labs.Base.{
  ℕ, ◌-◌, ◌≤◌, ◌<◌, ◌≡◌, inl, inr, none, some, List, arith, ltb, if◌then◌else◌, ltb→lt, lt→ltb,
  Bool-cases, length, set, get_elem?_total, get_elem?-none, ok, ◌>>=◌,
}
use distributed_systems_labs.Raft.Types.{LogEntry, Raft, last_log_index}
use distributed_systems_labs.Raft.Log.{load, store, entry_at, term_at}

pub store-ok : (xs : List ℕ) (i v : ℕ) → i < length xs → store xs i v ≡ ok (set xs i v)
unfolding store
store-ok xs i v h = rw (lt→ltb _ _ h)

module _ {C : Type 0} (rf : Raft C) (i : ℕ) where
  -- Between the snapshot and the end of the log there is an entry, and `load` reads it.
  pub load-ok :
      rf.last_included_index < i
      → i ≤ last_log_index rf
      → (e : LogEntry C) × (load rf i ≡ ok e)
        × (entry_at rf i ≡ some e)
        × (term_at rf i ≡ some e.term)
  unfolding load
  load-ok above below =
      let (e, found) = get_elem?_total rf.log (i - rf.last_included_index - 1) (omega arith) in
      (e, rw (lt→ltb _ _ above, found), rw (lt→ltb _ _ above, found), ground arith)

  -- From the snapshot to the end of the log, AppendEntries and its sender read the term.
  pub prev_term-ok :
      rf.last_included_index ≤ i
      → i ≤ last_log_index rf
      → (d : ℕ) × ((if ltb rf.last_included_index i
            then (load rf i >>= λ e. ok e.term)
            else ok rf.last_included_term)
          ≡ ok d)
        × (term_at rf i ≡ some d)
  prev_term-ok above below = elim (Bool-cases (ltb rf.last_included_index i)) [
    | inr at ↦ (rf.last_included_term, rw at, ground arith)
    | inl more ↦
        let (e, loaded, _, term) = load-ok (ltb→lt _ _ more) below in
        (e.term, rw (more, loaded), term)
  ]

  pub entry_at-past : last_log_index rf < i → entry_at rf i ≡ none
  entry_at-past h = ground (arith, get_elem?-none rf.log (i - rf.last_included_index - 1))
