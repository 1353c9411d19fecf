-- ===== src/Raft/Tests/Group.antt =====
-- An election in a group of three peers.
use distributed_systems_labs.Raft.Cluster.Alone.{one_peer-unled}
use distributed_systems_labs.Base.{◌≢◌}
use distributed_systems_labs.Base.{ℕ, ◌≡◌, refl, arith}
use distributed_systems_labs.Raft.Types.{leader, random_election_timeout, Clock, RequestVoteArgs}
use distributed_systems_labs.Raft.Persist.{make_persister, make}
use distributed_systems_labs.Raft.Log.{last_term, last_log_term}
use distributed_systems_labs.Raft.Election.{request_vote}
use distributed_systems_labs.Raft.Cluster.{
  Cluster, with_peer, with_call, ask_all, begin, elect, deliver, boot, runs, elects, votes,
  comes_back, Reaches, booted, further,
}
use distributed_systems_labs.Raft.Cluster.Safety.{one_leader}
use distributed_systems_labs.Raft.Election.{
  tick_follower, do_election, stand, on_vote_reply, count_vote,
}
use distributed_systems_labs.Raft.Leader.{init_leader_index, fill}
use distributed_systems_labs.Raft.Persist.{persist}
use distributed_systems_labs.Raft.Log.{store}
use distributed_systems_labs.Raft.Steps.{on_tick}
use distributed_systems_labs.Raft.Tests.{number_codec, clock}

-- A group of three in which peer 0 is elected: its timer is set, runs out, and peer 1 votes for it.
abbrev late : Clock
late = record { now = 2000; rand = 0 }

abbrev waiting_group : Cluster ℕ
waiting_group = with_peer (boot 3) 0 (tick_follower clock ((boot 3).peers 0)).0

abbrev asking_group : Cluster ℕ
asking_group = elect late 3 0 waiting_group

abbrev request_one : RequestVoteArgs
request_one = record { term = 1; candidate_id = 0; last_log_index = 0; last_log_term = 0 }

abbrev voting_group : Cluster ℕ
voting_group = deliver late 0 1 1 request_one asking_group

-- Peer 0 leads in term 1, and is the one that leads in it.
abbrev winner : ℕ
winner = 0

one_leader_example : winner ≡ request_one.candidate_id
unfolding boot make make_persister tick_follower with_peer elect begin do_election stand ask_all
    deliver request_vote with_call on_vote_reply count_vote init_leader_index fill persist store
    last_log_term last_term random_election_timeout
one_leader_example =
    let asked' : Reaches 3 (boot 3) asking_group =
      further (further booted (runs 0 (on_tick clock) tt)) (elects late 0 (omega arith)) in
    let voted : Reaches 3 (boot 3) voting_group =
      further asked' (votes late 0 1 1 (omega arith) refl) in
    let led : Reaches 3 (boot 3) _ =
      further voted (comes_back late 0 1 1 (omega arith) refl refl) in
    one_leader 0 0 led booted refl refl refl

-- A group of one in which the peer stands for election.
abbrev lone_group : Cluster ℕ
lone_group = elect late 1 0 (with_peer (boot 1) 0 (tick_follower clock ((boot 1).peers 0)).0)

one_peer-unled_example : (lone_group.peers 0).server_state ≢ leader
one_peer-unled_example =
    one_peer-unled 0
      (further (further booted (runs 0 (on_tick clock) tt)) (elects late 0 (omega arith)))
