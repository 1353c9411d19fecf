-- ===== src/Raft/Compaction/Trim.antt =====
-- src/raft/raft.go: Snapshot, the log that it leaves.
use distributed_systems_labs.Base.{
  ℕ, ◌-◌, ◌≤◌, ◌<◌, ◌≡◌, refl, ap, ◌⊎◌, inl, inr, some, arith, lt→ltb, le→ltb, lt→leb, length,
  get_elem?, length-drop, get_elem?_total, get_elem?-none, get_elem?-drop, ok, panic, Returns,
  returns,
}
use distributed_systems_labs.Raft.Types.{Bytes, Codec, Raft, Persisted, last_log_index, InBounds}
use distributed_systems_labs.Raft.Log.{entry_at, term_at}
use distributed_systems_labs.Raft.Leader.{log_from}
use distributed_systems_labs.Raft.Compaction.{snapshot}

module _ {C : Type 0} ⦃gob : Codec (Persisted C)⦄ (rf : Raft C) (index : ℕ) (bytes : Bytes) where
  -- The state after a snapshot up to `index`.
  pub record Trimmed (rf' : Raft C) : Type 0 where
    pub cut : rf'.last_included_index ≡ index
    pub term : term_at rf index ≡ some rf'.last_included_term
    pub ends : last_log_index rf' ≡ last_log_index rf
    pub entries : (i : ℕ) → index < i → entry_at rf' i ≡ entry_at rf i
    pub saved : rf'.persister.snapshot ≡ bytes
    pub ordered : InBounds rf'

  -- On a peer whose indices are in order, Snapshot at an index after the last snapshot and no
  -- later than lastApplied returns: the log begins after the index, with the term of the entry
  -- there kept, the entries after it and the end of the log are the same, the snapshot is saved,
  -- and the indices are in order.
  pub snapshot-Trimmed :
      InBounds rf
      → rf.last_included_index < index
      → index ≤ rf.last_applied
      → Returns Trimmed (snapshot rf index bytes)
  unfolding snapshot log_from
  snapshot-Trimmed b above below =
      let cut = index - rf.last_included_index in
      let (e, found) = get_elem?_total rf.log (cut - 1) (omega arith) in
      let drops = length-drop cut rf.log in
      rw
        (
          le→ltb rf.last_applied index below,
          lt→leb index rf.last_included_index above,
          lt→ltb 0 cut (omega arith),
          found,
          le→ltb (length rf.log) cut (omega arith),
        )
        (returns (record {
          cut = refl;
          term = ground (arith, found);
          ends = omega (arith, drops);
          entries = λ i h.
              rw
                (
                  lt→ltb index i h,
                  lt→ltb rf.last_included_index i (omega arith),
                  get_elem?-drop cut rf.log (i - index - 1),
                )
                (ap (get_elem? rf.log) (omega arith));
          saved = refl;
          ordered = record {
            compacted = below;
            applied = b.applied;
            committed = omega (arith, drops);
            nexts = b.nexts;
            matches = b.matches;
            member = b.member;
          };
        }))

  -- Outside that range the call changes nothing.
  pub snapshot-unchanged :
      (rf.last_applied < index) ⊎ (index ≤ rf.last_included_index) → snapshot rf index bytes ≡ ok rf
  unfolding snapshot
  snapshot-unchanged (inl h) = ground arith
  snapshot-unchanged (inr h) = ground arith

  -- Past the end of the log the call panics.
  pub snapshot-past_end :
      rf.last_included_index < index
      → index ≤ rf.last_applied
      → last_log_index rf < index
      → snapshot rf index bytes ≡ panic
  unfolding snapshot
  snapshot-past_end above below past =
      let cut = index - rf.last_included_index in
      rw (
        le→ltb rf.last_applied index below,
        lt→leb index rf.last_included_index above,
        lt→ltb 0 cut (omega arith),
        get_elem?-none rf.log (cut - 1) (omega arith),
      )
