-- ===== src/Raft/Election/Grants.antt =====
-- When RequestVote grants the vote, and what it records.
use distributed_systems_labs.Base.{ℕ, ◌≤◌, ◌<◌, ◌≡◌, ◌⊎◌, inl, inr, true, some, arith, Option-cases}
use distributed_systems_labs.Raft.Types.{
  Codec, Clock, Raft, RequestVoteArgs, Persisted, last_log_index,
}
use distributed_systems_labs.Raft.Log.{last_log_term}
use distributed_systems_labs.Raft.Election.{request_vote}

module _ {C : Type 0} ⦃gob : Codec (Persisted C)⦄ where
  module _ (t : Clock) (rf : Raft C) (args : RequestVoteArgs) where
    -- The candidate's log is at least as up to date as the peer's.
    abbrev pub UpToDate : Type 0
    UpToDate =
        (last_log_term rf < args.last_log_term)
        ⊎ ((args.last_log_term ≡ last_log_term rf) × (last_log_index rf ≤ args.last_log_index))

    -- What a peer grants its vote for.
    pub record Grants : Type 0 where
      pub current : rf.current_term ≤ args.term
      pub unbound :
          rf.current_term ≡ args.term → (v : ℕ) → rf.voted_for ≡ some v → v ≡ args.candidate_id
      pub newest : UpToDate

    -- If RequestVote grants the vote, the term of the request is no older than the peer's, the
    -- peer has no vote for another candidate in that term, and the candidate's last log entry is
    -- at least as up to date.
    pub request_vote-Grants : (request_vote t rf args).1.vote_granted ≡ true → Grants
    unfolding request_vote last_log_term
    request_vote-Grants h = record {
      current = ground arith;
      unbound = λ e v w. ground arith;
      newest = ground arith;
    }

    -- If the term of a request is no older than the peer's, the peer has no vote for another
    -- candidate in that term, and the candidate's last log entry is at least as up to date,
    -- RequestVote grants the vote.
    pub Grants-request_vote : Grants → (request_vote t rf args).1.vote_granted ≡ true
    unfolding request_vote last_log_term
    Grants-request_vote g = elim (Option-cases rf.voted_for) [
      | inl free ↦ ground arith
      | inr (v, e) ↦
          let bound = λ (same : rf.current_term ≡ args.term). g.unbound same v e in ground arith
    ]

    pub granted-voted :
        (request_vote t rf args).1.vote_granted ≡ true
        → ((request_vote t rf args).0.current_term ≡ args.term)
          × ((request_vote t rf args).0.voted_for ≡ some args.candidate_id)
    unfolding request_vote
    granted-voted h = ground arith
