-- ===== src/Raft/Append/Bounds.antt =====
-- src/raft/raft.go: AppendEntries and the order of the peer's indices.
use distributed_systems_labs.Base.{
  ℕ, ◌≤◌, ◌<◌, ◌≡◌, ap, ◌∙◌, ◌⊎◌, inl, inr, Option, none, some, arith, ltb, leb, ◌==◌, ltb→le,
  leb→le, leb→lt, ==→eq, Bool-cases, Option-cases, length, ok, Returns, returns, Returns-map,
  Yields, Yields-then, Yields-if, Returns-Yields,
}
use distributed_systems_labs.Raft.Types.{
  Codec, Clock, follower, Raft, AppendEntriesArgs, AppendEntriesReply, Persisted, InBounds,
}
use distributed_systems_labs.Raft.Log.{term_at, rearm, adopt_term}
use distributed_systems_labs.Raft.Append.{
  refusal, prev_conflict, spliced, follow_commit, accept, append_current, append_entries,
}
use distributed_systems_labs.Base.{
  ℕ, ◌≤◌, ◌<◌, ◌≡◌, ap, ◌∙◌, ◌⊎◌, inl, inr, Option, none, some, arith, ltb, leb, ◌==◌, ltb→le,
  leb→le, leb→lt, ==→eq, Bool-cases, Option-cases, length, ok, Returns, returns, Returns-map,
  Yields, Yields-then, Yields-if, Returns-Yields,
}
use distributed_systems_labs.Raft.Types.{
  Codec, Clock, follower, Raft, AppendEntriesArgs, AppendEntriesReply, Persisted, InBounds,
}
use distributed_systems_labs.Raft.Log.{term_at, rearm, adopt_term}
use distributed_systems_labs.Raft.Append.Outcome.{append_entries-Accepted, append_entries-Refused}
use distributed_systems_labs.Raft.Append.Conflict.{Consistent}

-- Whether the preceding entry matches is decided by the code's own tests.
Consistent-cases :
    {C : Type 0} (rf : Raft C) (args : AppendEntriesArgs C)
    → Consistent rf args ⊎ (¬ Consistent rf args)
Consistent-cases rf args = elim (Bool-cases (leb rf.last_included_index args.prev_log_index)) [
  | inr low ↦ inr (λ (above, e). absurd (omega (arith, leb→lt _ _ low)))
  | inl high ↦ elim (Option-cases (term_at rf args.prev_log_index)) [
    | inl out ↦ inr (λ (above, e). absurd cc)
    | inr (d, at) ↦ elim (Bool-cases (d == args.prev_log_term)) [
      | inl same ↦ inl (leb→le _ _ high, at ∙ ap some (==→eq _ _ same))
      | inr differ ↦ inr (λ (above, e). ground (arith, at, e))
    ]
  ]
]

module _ {C : Type 0} ⦃gob : Codec (Persisted C)⦄ where
  follow_commit-InBounds :
      (rf : Raft C) (commit : ℕ)
      → rf.last_included_index ≤ rf.last_applied
      → rf.last_applied ≤ rf.commit_index
      → length rf.next_index ≡ rf.peers
      → length rf.match_index ≡ rf.peers
      → rf.me < rf.peers
      → InBounds (follow_commit rf commit)
  unfolding follow_commit
  follow_commit-InBounds rf commit a b c d e = record {
    compacted = ground arith;
    applied = ground arith;
    committed = ground arith;
    nexts = c;
    matches = d;
    member = e;
  }

  accept-InBounds :
      (t : Clock) (rf : Raft C) (args : AppendEntriesArgs C)
      → InBounds rf
      → InBounds (accept t rf args).0
  unfolding accept
  accept-InBounds t rf args b =
      let c =
        follow_commit-InBounds (spliced rf args) args.leader_commit (ground (arith, b.compacted))
          (ground (arith, b.applied)) (ground (arith, b.nexts)) (ground (arith, b.matches))
          (ground (arith, b.member)) in
      record {
        compacted = c.compacted;
        applied = c.applied;
        committed = c.committed;
        nexts = c.nexts;
        matches = c.matches;
        member = c.member;
      }

  pub adopt_term-InBounds : (rf : Raft C) (term : ℕ) → InBounds rf → InBounds (adopt_term rf term)
  unfolding adopt_term
  adopt_term-InBounds rf term b = ground arith

  append_current-InBounds :
      (t : Clock) (rf : Raft C) (args : AppendEntriesArgs C) (reply : AppendEntriesReply)
      → InBounds rf
      → Yields (λ out. InBounds out.0) (append_current t rf args reply)
  unfolding append_current
  append_current-InBounds t rf args reply b =
      Yields-then (λ out. InBounds out.0) (prev_conflict rf args reply) _
        λ conflict. settled conflict
    where
      settled :
          (o : Option AppendEntriesReply)
          → Yields
              (λ (out : Raft C × AppendEntriesReply). InBounds out.0)
              (elim o [ some refused ↦ ok (rearm t rf, refused) | none ↦ ok (accept t rf args) ])
      settled (some refused) = record {
        compacted = b.compacted;
        applied = b.applied;
        committed = b.committed;
        nexts = b.nexts;
        matches = b.matches;
        member = b.member;
      }
      settled none = accept-InBounds t rf args b

  append_entries-Yields :
      (t : Clock) (rf : Raft C) (args : AppendEntriesArgs C)
      → InBounds rf
      → Yields (λ out. InBounds out.0) (append_entries t rf args)
  unfolding append_entries
  append_entries-Yields t rf args b =
      Yields-if (λ out. InBounds out.0) (ltb args.term rf.current_term) _ _ (λ _. b)
        (λ _.
          let a = adopt_term-InBounds rf args.term b in
          append_current-InBounds t (record (adopt_term rf args.term) { server_state = follower })
            args (refusal rf.current_term)
            (record {
              compacted = a.compacted;
              applied = a.applied;
              committed = a.committed;
              nexts = a.nexts;
              matches = a.matches;
              member = a.member;
            }))

  -- The handler never panics: a request is stale, accepted or refused.
  append_entries-Returns :
      (t : Clock) (rf : Raft C) (args : AppendEntriesArgs C)
      → Returns (λ out. Unit {0}) (append_entries t rf args)
  unfolding append_entries
  append_entries-Returns t rf args = elim (Bool-cases (ltb args.term rf.current_term)) [
    | inl stale ↦ rw (stale, append_entries) (returns tt)
    | inr fresh ↦ elim (Consistent-cases rf args) [
      | inl same ↦
          Returns-map (append_entries-Accepted t rf args (ltb→le _ _ fresh) same) λ out a. tt
      | inr differs ↦
          Returns-map (append_entries-Refused t rf args (ltb→le _ _ fresh) differs) λ out a. tt
    ]
  ]

  -- On a peer whose indices are in order, AppendEntries returns for every request, and the indices
  -- of the peer are in order afterwards.
  pub append_entries-InBounds :
      (t : Clock) (rf : Raft C) (args : AppendEntriesArgs C)
      → InBounds rf
      → Returns (λ out. InBounds out.0) (append_entries t rf args)
  append_entries-InBounds t rf args b =
      Returns-Yields (append_entries-Returns t rf args) (append_entries-Yields t rf args b)
