-- ===== src/Raft/Steps/Polls.antt =====
-- src/raft/raft.go: requests for votes, elections and the replies to a candidate, as changes of role,
-- term and number of votes.
use distributed_systems_labs.Base.{
  ℕ, ◌+◌, ◌/◌, ◌<◌, ◌≡◌, refl, inl, inr, Bool, true, ◌&&◌, Option, none, some, arith, ltb, ◌==◌,
  ltb→lt, Bool-cases, Option-cases, Yields, Yields-then, Yields-if,
}
use distributed_systems_labs.Raft.Types.{
  Codec, Clock, ServerState, follower, leader, candidate, Raft, RequestVoteArgs, RequestVoteReply,
  Persisted, last_log_index,
}
use distributed_systems_labs.Raft.Log.{store}
use distributed_systems_labs.Raft.Leader.{is_leader, fill, init_leader_index}
use distributed_systems_labs.Raft.Election.{
  is_candidate, may_vote, up_to_date, count_vote, request_vote, do_election, on_vote_reply,
}
use distributed_systems_labs.Raft.Steps.Roles.{Keeps, down, same, step_down-Keeps}

is_candidate-candidate : (s : ServerState) → is_candidate s ≡ true → s ≡ candidate
is_candidate-candidate candidate h = refl
is_candidate-candidate leader h = absurd (ground arith)
is_candidate-candidate follower h = absurd (ground arith)

module _ {C : Type 0} ⦃gob : Codec (Persisted C)⦄ where
  pub request_vote-Keeps :
      (t : Clock) (rf : Raft C) (args : RequestVoteArgs) → Keeps rf (request_vote t rf args).0
  unfolding request_vote
  request_vote-Keeps t rf args = elim (Bool-cases (ltb args.term rf.current_term)) [
    | inl stale ↦ rw stale (same refl refl refl refl refl)
    | inr fresh ↦ elim (Bool-cases (ltb rf.current_term args.term)) [
      | inl newer ↦
          rw (fresh, newer)
            (elim (Bool-cases (
              up_to_date
                (record rf { current_term = args.term; voted_for = none; server_state = follower })
                args)) [
                  | inl grants ↦ rw grants (down refl refl refl)
                  | inr refuses ↦ rw refuses (down refl refl refl)
                ])
      | inr equal ↦
          rw (fresh, equal)
            (elim (Bool-cases (may_vote rf.voted_for args.candidate_id && up_to_date rf args)) [
              | inl grants ↦ rw grants (same refl refl refl refl refl)
              | inr refuses ↦ rw refuses (same refl refl refl refl refl)
            ])
    ]
  ]

  -- An election either does not start, or the peer stands.
  pub data Elects (t : Clock) (rf : Raft C) : Raft C × Option RequestVoteArgs → Type 0 where
    waits : {rf' : Raft C} → Keeps rf rf' → Elects t rf (rf', none)
    stands :
        {rf' : Raft C} {args : RequestVoteArgs}
        → rf'.me ≡ rf.me
        → rf'.peers ≡ rf.peers
        → rf'.server_state ≡ candidate
        → rf'.current_term ≡ rf.current_term + 1
        → rf'.votes_received ≡ 1
        → rf'.voted_for ≡ some rf.me
        → args.term ≡ rf.current_term + 1
        → args.candidate_id ≡ rf.me
        → Elects t rf (rf', some args)

  pub do_election-Elects : (t : Clock) (rf : Raft C) → Elects t rf (do_election t rf)
  unfolding do_election
  do_election-Elects t rf = elim (Bool-cases (is_leader rf.server_state)) [
    | inl leads ↦ rw leads (waits (same refl refl refl refl refl))
    | inr not_leading ↦ elim (Option-cases rf.election_deadline) [
      | inl unset ↦ simp (not_leading, unset) (waits (same refl refl refl refl refl))
      | inr (at, is_set) ↦ elim (Bool-cases (ltb at t.now)) [
        | inl passed ↦
            simp (not_leading, is_set, passed) (stands refl refl refl refl refl refl refl refl)
        | inr waiting ↦ simp (not_leading, is_set, waiting) (waits (same refl refl refl refl refl))
      ]
    ]
  ]

  -- What a reply to a request for a vote does to the candidate: nothing that matters, or one more vote.
  pub data Polls (term : ℕ) (sent : Bool) (reply : RequestVoteReply) (rf rf' : Raft C)
      : Type 0 where
    quiet : Keeps rf rf' → Polls term sent reply rf rf'
    counts :
        rf'.me ≡ rf.me
        → rf'.peers ≡ rf.peers
        → rf.server_state ≡ candidate
        → rf.current_term ≡ term
        → rf'.current_term ≡ term
        → (sent && reply.vote_granted) ≡ true
        → rf'.votes_received ≡ rf.votes_received + 1
        → (rf'.server_state ≡ leader → rf.peers / 2 < rf'.votes_received)
        → Polls term sent reply rf rf'

  init_leader_index-Polls :
      (term : ℕ) (sent : Bool) (reply : RequestVoteReply) (rf r : Raft C)
      → Polls term sent reply rf r
      → Yields (Polls term sent reply rf) (init_leader_index r)
  unfolding init_leader_index
  init_leader_index-Polls term sent reply rf r h =
      let P = Polls term sent reply rf in
      Yields-then P (fill r.peers r.next_index (last_log_index r + 1)) _ λ nexts.
        Yields-then P (fill r.peers r.match_index 0) _ λ zeros.
          Yields-then P (store zeros r.me (last_log_index r)) _ λ matches. elim h [
            | quiet (down a b c) ↦ quiet (down a b c)
            | quiet (same a b c d e) ↦ quiet (same a b c d e)
            | counts a b c d e f g l ↦ counts a b c d e f g l
          ]

  pub on_vote_reply-Polls :
      (t : Clock) (rf : Raft C) (term : ℕ) (sent : Bool) (reply : RequestVoteReply)
      → Yields (Polls term sent reply rf) (on_vote_reply t rf term sent reply)
  unfolding on_vote_reply count_vote
  on_vote_reply-Polls t rf term sent reply =
      let P = Polls term sent reply rf in
      Yields-if P (rf.current_term == term && is_candidate rf.server_state) _ _
        (λ live.
          Yields-if P (sent && ltb rf.current_term reply.term) _ _
            (λ newer. quiet (step_down-Keeps t rf reply.term))
            (λ _.
              Yields-if P (sent && reply.vote_granted) _ _
                (λ granted.
                  let stood = is_candidate-candidate rf.server_state (ground arith) in
                  let now : rf.current_term ≡ term = ground arith in
                  Yields-if P (ltb (rf.peers / 2) (rf.votes_received + 1)) _ _
                    (λ most.
                      init_leader_index-Polls term sent reply rf
                        (record rf {
                          votes_received = rf.votes_received + 1;
                          server_state = leader;
                        })
                        (counts refl refl stood now now granted refl (λ _. ltb→lt _ _ most)))
                    (λ _.
                      counts refl refl stood now now granted refl (λ leads. absurd (ground arith))))
                (λ _. quiet (same refl refl refl refl refl))))
        (λ _. quiet (same refl refl refl refl refl))
