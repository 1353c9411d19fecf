-- ===== src/Raft/Leader/Messages.antt =====
-- src/raft/raft.go: the messages of Start and ticker to one peer, and their receipt by a follower.
use distributed_systems_labs.Raft.Append.Outcome.{Accepted, append_entries-Accepted}
use distributed_systems_labs.Base.{
  ℕ, suc, ◌+◌, ◌-◌, ◌≤◌, ◌<◌, ◌≡◌, refl, sym, ap, ◌∙◌, inl, inr, true, some, arith, ltb, leb,
  ltb→lt, lt→ltb, le→ltb, ltb→le, leb→le, leb→lt, Bool-cases, length, get_elem?, length-drop,
  get_elem?-drop, ok, Returns, returns, Returns-map, Returns-if, Returns-eq,
}
use distributed_systems_labs.Raft.Types.{
  Codec, Clock, Raft, AppendEntriesArgs, AppendEntriesReply, Persisted, last_log_index,
}
use distributed_systems_labs.Raft.Log.{entry_at, term_at}
use distributed_systems_labs.Raft.Log.Reads.{prev_term-ok, entry_at-past}
use distributed_systems_labs.Raft.Append.{append_entries}
use distributed_systems_labs.Raft.Append.Conflict.{Consistent}
use distributed_systems_labs.Raft.Leader.{Outgoing, append_to, snapshot_to, log_from, outgoing}

module _ {C : Type 0} (rf : Raft C) (peer : ℕ) where
  -- A request with the whole log from the peer's next index on.
  pub record Carries (next : ℕ) (args : AppendEntriesArgs C) : Type 0 where
    pub term : args.term ≡ rf.current_term
    pub commit : args.leader_commit ≡ rf.commit_index
    pub before : args.prev_log_index + 1 ≡ next
    pub own : Consistent rf args
    pub ends : args.prev_log_index + length args.entries ≡ last_log_index rf
    pub entries : (i : ℕ) → get_elem? args.entries i ≡ entry_at rf (args.prev_log_index + suc i)

  -- The message is such a request, or announces a snapshot that the next index lies in.
  abbrev pub Sends : ℕ → Outgoing C → Type 0
  Sends next (append_to p args) = (p ≡ peer) × Carries next args
  Sends next (snapshot_to p) = (p ≡ peer) × (next ≤ rf.last_included_index)

  -- If the next index that a leader holds for a peer is at most one past its log, it sends the
  -- peer the whole log from that index on, with the index and term of its own entry before it and
  -- its commit index; or, if the index lies in the snapshot, the snapshot.
  pub outgoing-Sends :
      (next : ℕ)
      → get_elem? rf.next_index peer ≡ some next
      → next ≤ last_log_index rf + 1
      → Returns (Sends next) (outgoing rf peer)
  unfolding outgoing log_from
  outgoing-Sends next found fits = rw found (
      Returns-if (leb next rf.last_included_index) (λ low. returns (refl, leb→le _ _ low))
        (λ high.
          let above = leb→lt _ _ high in
          let from = next - rf.last_included_index - 1 in
          let (d, read, term) = prev_term-ok rf (next - 1) (omega arith) (omega arith) in
          let drops = length-drop from rf.log in
          rw (read, le→ltb (length rf.log) from (omega arith))
            (returns (
              refl,
              record {
                term = refl;
                commit = refl;
                before = omega arith;
                own = (omega arith, term);
                ends = omega (arith, drops);
                entries = λ i.
                    rw
                      (
                        get_elem?-drop from rf.log i,
                        lt→ltb rf.last_included_index (next - 1 + suc i) (omega arith),
                      )
                      (ap (get_elem? rf.log) (omega arith));
              },
            ))))

-- Past PrevLogIndex, an accepted request leaves the leader's entries.
copied :
    {C : Type 0} (rf f : Raft C) {peer next : ℕ} (args : AppendEntriesArgs C)
    (out : Raft C × AppendEntriesReply)
    → Carries rf peer next args
    → Accepted f args out
    → (i : ℕ) → args.prev_log_index < i
    → entry_at out.0 i ≡ entry_at rf i
copied rf f args out c a i h =
    let j = i - args.prev_log_index - 1 in
    let at : i ≡ args.prev_log_index + suc j = omega arith in
    elim (Bool-cases (ltb j (length args.entries))) [
      | inl inside ↦ rw at (a.adds j (ltb→lt _ _ inside) ∙ c.entries j)
      | inr past ↦
          entry_at-past out.0 i (omega (arith, a.ends, ltb→le _ _ past))
          ∙ sym (entry_at-past rf i (omega (arith, c.ends, ltb→le _ _ past)))
    ]

-- Let a leader send a peer an AppendEntries request for the next index it holds for it, at most
-- one past its log. A follower of no later term, whose snapshot ends no later than PrevLogIndex
-- and whose term there is the leader's, returns success, and its log has the end of the leader's
-- log and the same entries as the leader after PrevLogIndex.
pub outgoing-replicates :
    {C : Type 0} ⦃gob : Codec (Persisted C)⦄ (t : Clock) (rf f : Raft C) (peer next : ℕ)
    (args : AppendEntriesArgs C)
    → get_elem? rf.next_index peer ≡ some next
    → next ≤ last_log_index rf + 1
    → outgoing rf peer ≡ ok (append_to peer args)
    → f.current_term ≤ rf.current_term
    → f.last_included_index ≤ args.prev_log_index
    → term_at f args.prev_log_index ≡ term_at rf args.prev_log_index
    → Returns
        (λ out.
          (out.1.success ≡ true)
          × (last_log_index out.0 ≡ last_log_index rf)
          × ((i : ℕ) → args.prev_log_index < i → entry_at out.0 i ≡ entry_at rf i))
        (append_entries t f args)
outgoing-replicates t rf f peer next args found fits sent fresh within agree =
    let (_, c) = Returns-eq (Sends rf peer next) (outgoing-Sends rf peer next found fits) sent in
    let (above, same) = c.own in
    Returns-map (append_entries-Accepted t f args (omega (arith, c.term)) (within, agree ∙ same))
      λ out a. (a.answered, a.ends ∙ c.ends, copied rf f args out c a)
