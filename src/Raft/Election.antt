-- ===== src/Raft/Election.antt =====
-- src/raft/raft.go: the RequestVote handler, doElection with the goroutines that it starts,
-- tickFollower and GetState.
pub mod Grants
use distributed_systems_labs.Base.{
  ℕ, ◌+◌, ◌/◌, Bool, true, false, ◌&&◌, ◌||◌, not, Option, none, some, Run, ok, ltb, leb, ◌==◌,
  if◌then◌else◌,
}
use distributed_systems_labs.Raft.Types.{
  Codec, Clock, Raft, Persisted, ServerState, leader, follower, candidate, RequestVoteArgs,
  RequestVoteReply, last_log_index,
}
use distributed_systems_labs.Raft.Persist.{persist}
use distributed_systems_labs.Raft.Log.{last_log_term, rearm, step_down}
use distributed_systems_labs.Raft.Leader.{is_leader, init_leader_index}

abbrev pub is_candidate : ServerState → Bool
is_candidate candidate = true
is_candidate _ = false

-- rf.votedFor == -1 || rf.votedFor == id
abbrev pub may_vote : Option ℕ → ℕ → Bool
may_vote none id = true
may_vote (some v) id = v == id

module _ {C : Type 0} where
  unfoldable pub get_state : Raft C → ℕ × Bool
  get_state rf = (rf.current_term, is_leader rf.server_state)

  unfoldable pub up_to_date : Raft C → RequestVoteArgs → Bool
  up_to_date rf args =
      ltb (last_log_term rf) args.last_log_term
      || (args.last_log_term == last_log_term rf && leb (last_log_index rf) args.last_log_index)

  -- A granted vote: with a strict majority the candidate leads.
  unfoldable pub count_vote : Raft C → Run (Raft C)
  count_vote rf =
      let r = record rf { votes_received = rf.votes_received + 1 } in
      if ltb (r.peers / 2) r.votes_received
      then init_leader_index (record r { server_state = leader })
      else ok r

  -- The first locked section of tickFollower: the state, and whether doElection is called.
  unfoldable pub tick_follower : Clock → Raft C → Raft C × Bool
  tick_follower t rf = elim rf.election_deadline [
    | none ↦ (rearm t rf, false)
    | some at ↦ (rf, not (is_leader rf.server_state) && ltb at t.now)
  ]

module _ {C : Type 0} ⦃gob : Codec (Persisted C)⦄ where
  unfoldable pub request_vote : Clock → Raft C → RequestVoteArgs → Raft C × RequestVoteReply
  unfolding persist up_to_date
  request_vote t rf args =
      if ltb args.term rf.current_term
      then (rf, record { term = rf.current_term; vote_granted = false })
      else let r =
          if ltb rf.current_term args.term
          then record rf { current_term = args.term; voted_for = none; server_state = follower }
          else rf in
        if may_vote r.voted_for args.candidate_id && up_to_date r args
        then (
          persist (rearm t (record r { voted_for = some args.candidate_id })),
          record { term = r.current_term; vote_granted = true },
        )
        else (persist r, record { term = r.current_term; vote_granted = false })

  -- A new term with a vote for itself, and the request that goes to every other peer.
  unfoldable pub stand : Clock → Raft C → Raft C × RequestVoteArgs
  unfolding persist
  stand t rf =
      let r = persist (record rf {
        current_term = rf.current_term + 1;
        server_state = candidate;
        voted_for = some rf.me;
        votes_received = 1;
      }) in
      (
        rearm t r,
        record {
          term = r.current_term;
          candidate_id = r.me;
          last_log_index = last_log_index r;
          last_log_term = last_log_term r;
        },
      )

  -- The first locked section of doElection.
  unfoldable pub do_election : Clock → Raft C → Raft C × Option RequestVoteArgs
  unfolding stand
  do_election t rf = if is_leader rf.server_state then (rf, none) else (elim rf.election_deadline [
    | none ↦ (rearm t rf, none)
    | some at ↦ if ltb at t.now then ((stand t rf).0, some (stand t rf).1) else (rf, none)
  ])

  -- The goroutine of doElection for one peer, after the call returned `sent` with `reply`.
  unfoldable pub on_vote_reply : Clock → Raft C → ℕ → Bool → RequestVoteReply → Run (Raft C)
  unfolding step_down
  on_vote_reply t rf term sent reply =
      if rf.current_term == term && is_candidate rf.server_state
      then (if sent && ltb rf.current_term reply.term
          then ok (step_down t rf reply.term)
          else if sent && reply.vote_granted
          then count_vote rf
          else ok rf)
      else ok rf
