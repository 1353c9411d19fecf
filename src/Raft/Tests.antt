-- ===== src/Raft/Tests.antt =====
-- Runs of the Raft model on peers of a cluster of three, with numbers as commands and a codec
-- that writes a saved state as a list of numbers.
mod Group
use distributed_systems_labs.Base.{
  ℕ, zero, suc, ◌<◌, ◌≡◌, refl, ap, inr, true, false, Option, none, some, List, [], ◌∷◌, arith,
  panic, Returns,
}
use distributed_systems_labs.Raft.Types.{
  random_election_timeout, Bytes, Codec, Clock, follower, leader, LogEntry, Raft, RequestVoteArgs,
  AppendEntriesArgs, AppendEntriesReply, InstallSnapshotArgs, Persisted, last_log_index, InBounds,
}
use distributed_systems_labs.Raft.Persist.{make_persister, persisted, read_persist, make}
use distributed_systems_labs.Raft.Log.{load, entry_at, last_term, last_log_term}
use distributed_systems_labs.Raft.Append.{first_of_term, append_entries}
use distributed_systems_labs.Raft.Append.Conflict.{BeginsRun, first_of_term-BeginsRun}
use distributed_systems_labs.Raft.Append.Outcome.{
  Accepted, Refused, append_entries-Accepted, append_entries-Refused,
}
use distributed_systems_labs.Raft.Leader.{advance_commit, log_from, outgoing}
use distributed_systems_labs.Raft.Leader.Commit.{AdvancedTo, advance_commit-AdvancedTo}
use distributed_systems_labs.Raft.Election.{request_vote}
use distributed_systems_labs.Raft.Election.Grants.{Grants, request_vote-Grants, Grants-request_vote}
use distributed_systems_labs.Raft.Compaction.{apply_step, snapshot, install_snapshot}
use distributed_systems_labs.Raft.Compaction.Trim.{Trimmed, snapshot-Trimmed}
use distributed_systems_labs.Raft.Steps.{
  on_request_vote, on_install_snapshot, on_restart, here, next,
}
use distributed_systems_labs.Raft.Steps.Progress.{Progress, Reach-Progress}
use distributed_systems_labs.Raft.Steps.Disk.{TermVote}
use distributed_systems_labs.Raft.Append.Bounds.{append_entries-InBounds}
use distributed_systems_labs.Raft.Leader.Messages.{Sends, outgoing-Sends, outgoing-replicates}
use distributed_systems_labs.Raft.Compaction.Install.{
  Outcome, install_snapshot-InBounds, install_snapshot-snapshot-panic,
}
use distributed_systems_labs.Raft.Compaction.Delivery.{Delivers, apply_step-Delivers}
use distributed_systems_labs.Raft.Steps.Votes.{Reach-recovers, Reach-TermVote, votes-once}
use distributed_systems_labs.Raft.Cluster.{
  Cluster, with_peer, with_call, ask_all, begin, elect, deliver, boot, runs, elects, votes,
  comes_back, Reaches, booted, further,
}
use distributed_systems_labs.Raft.Cluster.Safety.{one_leader}
use distributed_systems_labs.Raft.Election.{
  tick_follower, do_election, stand, on_vote_reply, count_vote,
}
use distributed_systems_labs.Raft.Leader.{init_leader_index, fill}
use distributed_systems_labs.Raft.Persist.{persist}
use distributed_systems_labs.Raft.Log.{store}
use distributed_systems_labs.Raft.Steps.{on_tick}

abbrev write_log : List (LogEntry ℕ) → Bytes
write_log [] = []
write_log (e ∷ es) = e.term ∷ e.index ∷ e.command ∷ write_log es

abbrev read_log : Bytes → List (LogEntry ℕ)
read_log (t ∷ i ∷ c ∷ rest) = record { term = t; index = i; command = c } ∷ read_log rest
read_log rest = []

abbrev write_vote : Option ℕ → ℕ
write_vote none = 0
write_vote (some v) = suc v

abbrev read_vote : ℕ → Option ℕ
read_vote zero = none
read_vote (suc v) = some v

abbrev write_state : Persisted ℕ → Bytes
write_state p =
    write_vote p.voted_for
    ∷ p.current_term
    ∷ p.last_included_index
    ∷ p.last_included_term
    ∷ write_log p.log

abbrev read_state : Bytes → Option (Persisted ℕ)
read_state (v ∷ t ∷ i ∷ j ∷ rest) = some (record {
  voted_for = read_vote v;
  current_term = t;
  log = read_log rest;
  last_included_index = i;
  last_included_term = j;
})
read_state rest = none

read_log-write_log : (es : List (LogEntry ℕ)) → read_log (write_log es) ≡ es
read_log-write_log [] = refl
read_log-write_log (e ∷ es) = ap (◌∷◌ e) (read_log-write_log es)

read_vote-write_vote : (v : Option ℕ) → read_vote (write_vote v) ≡ v
read_vote-write_vote none = refl
read_vote-write_vote (some v) = refl

instance abbrev number_codec : Codec (Persisted ℕ)
number_codec = record {
  encode = write_state;
  decode = read_state;
  decode-encode = λ p. rw (read_vote-write_vote p.voted_for, read_log-write_log p.log) refl;
  encode_nonempty = λ p. omega arith;
}

abbrev clock : Clock
clock = record { now = 1000; rand = 12345 }

abbrev entry : ℕ → ℕ → LogEntry ℕ
entry term command = record { term = term; index = 0; command = command }

abbrev peer_zero : Raft ℕ
peer_zero = record {
  peers = 3;
  me = 0;
  persister = record { raftstate = []; snapshot = [] };
  dead = false;
  current_term = 2;
  voted_for = none;
  log = entry 1 10 ∷ entry 1 11 ∷ entry 2 12 ∷ [];
  commit_index = 2;
  last_applied = 1;
  last_included_index = 0;
  last_included_term = 0;
  server_state = leader;
  next_index = 4 ∷ 2 ∷ 4 ∷ [];
  match_index = 3 ∷ 3 ∷ 0 ∷ [];
  election_deadline = none;
  votes_received = 0;
}

abbrev peer_one : Raft ℕ
peer_one = record peer_zero {
  me = 1;
  log = entry 1 10 ∷ entry 1 99 ∷ [];
  commit_index = 1;
  server_state = follower;
}

abbrev request : AppendEntriesArgs ℕ
request = record {
  term = 2;
  prev_log_index = 1;
  prev_log_term = 1;
  entries = entry 1 11 ∷ entry 2 12 ∷ [];
  leader_commit = 2;
}

abbrev early_request : AppendEntriesArgs ℕ
early_request = record request { prev_log_index = 9 }

peer_zero-InBounds : InBounds peer_zero
peer_zero-InBounds = record {
  compacted = omega arith;
  applied = omega arith;
  committed = omega arith;
  nexts = refl;
  matches = refl;
  member = omega arith;
}

append_entries-Accepted_example :
    Returns (Accepted peer_one request) (append_entries clock peer_one request)
append_entries-Accepted_example =
    append_entries-Accepted clock peer_one request (omega arith) (omega arith, refl)

append_entries-Refused_example :
    Returns (Refused peer_one early_request) (append_entries clock peer_one early_request)
append_entries-Refused_example =
    append_entries-Refused clock peer_one early_request (omega arith)
      (λ (low, e). ground (arith, e))

outgoing-replicates_example :
    Returns
      (λ (out : Raft ℕ × AppendEntriesReply).
        (out.1.success ≡ true)
        × (last_log_index out.0 ≡ 3)
        × ((i : ℕ) → 1 < i → entry_at out.0 i ≡ entry_at peer_zero i))
      (append_entries clock peer_one request)
unfolding outgoing log_from load
outgoing-replicates_example =
    outgoing-replicates clock peer_zero peer_one 1 2 request refl (omega arith) refl (omega arith)
      (omega arith) refl

outgoing-Sends_example : Returns (Sends peer_zero 1 2) (outgoing peer_zero 1)
outgoing-Sends_example = outgoing-Sends peer_zero 1 2 refl (omega arith)

advance_commit-AdvancedTo_example : Returns (AdvancedTo peer_zero 3) (advance_commit peer_zero)
advance_commit-AdvancedTo_example = advance_commit-AdvancedTo peer_zero (omega arith) refl

first_of_term-BeginsRun_example : Returns (BeginsRun peer_zero 1 2) (first_of_term peer_zero 1 2)
first_of_term-BeginsRun_example =
    first_of_term-BeginsRun peer_zero 1 2 (omega arith) (omega arith) refl

append_entries-InBounds_example :
    Returns
      (λ (out : Raft ℕ × AppendEntriesReply). InBounds out.0)
      (append_entries clock peer_zero early_request)
append_entries-InBounds_example =
    append_entries-InBounds clock peer_zero early_request peer_zero-InBounds

abbrev ballot : RequestVoteArgs
ballot = record { term = 3; candidate_id = 2; last_log_index = 3; last_log_term = 2 }

request_vote-Grants_example : Grants clock peer_zero ballot
unfolding request_vote last_log_term last_term
request_vote-Grants_example = request_vote-Grants clock peer_zero ballot refl

Grants-request_vote_example : (request_vote clock peer_zero ballot).1.vote_granted ≡ true
unfolding last_log_term last_term
Grants-request_vote_example = Grants-request_vote clock peer_zero ballot (record {
  current = omega arith;
  unbound = λ e v voted. absurd (ground arith);
  newest = inr (refl, omega arith);
})

abbrev first_ballot : RequestVoteArgs
first_ballot = record { term = 1; candidate_id = 2; last_log_index = 0; last_log_term = 0 }

votes-once_example : first_ballot.candidate_id ≡ 2
unfolding request_vote make make_persister last_log_term last_term read_persist
votes-once_example =
    votes-once {C = ℕ} 3 0 clock clock first_ballot first_ballot here refl here refl refl

abbrev newborn : Raft ℕ
newborn = (make 3 0 make_persister).0

abbrev voter : Raft ℕ
voter = (request_vote clock newborn first_ballot).0

Reach-recovers_example : persisted (make voter.peers voter.me voter.persister).0 ≡ persisted voter
Reach-recovers_example = Reach-recovers 3 0 (next here (on_request_vote clock first_ballot))

Reach-TermVote_example : TermVote newborn voter
Reach-TermVote_example = Reach-TermVote 3 0 here (next here (on_request_vote clock first_ballot))

snapshot-Trimmed_example : Returns (Trimmed peer_zero 1 (7 ∷ [])) (snapshot peer_zero 1 (7 ∷ []))
snapshot-Trimmed_example =
    snapshot-Trimmed peer_zero 1 (7 ∷ []) peer_zero-InBounds (omega arith) (omega arith)

abbrev offer : ℕ → InstallSnapshotArgs
offer index = record {
  term = 2;
  leader_id = 2;
  last_included_index = index;
  last_included_term = 1;
  snapshot = 7 ∷ [];
}

-- A peer takes a snapshot and is then restarted.
abbrev supplied : Raft ℕ
supplied = (install_snapshot newborn (offer 2)).0

Reach-Progress_example :
    Progress supplied (make supplied.peers supplied.me supplied.persister).0 (7 ∷ [])
Reach-Progress_example =
    Reach-Progress 3 0 (7 ∷ []) (next here (on_install_snapshot (offer 2))) (next here on_restart)

install_snapshot-InBounds_example : InBounds (install_snapshot peer_zero (offer 2)).0
install_snapshot-InBounds_example =
    install_snapshot-InBounds peer_zero (offer 2) peer_zero-InBounds (omega arith)

abbrev applied_further : Raft ℕ
applied_further = record peer_zero { last_applied = 2 }

install_snapshot-snapshot-panic_example :
    snapshot (install_snapshot applied_further (offer 1)).0 2 [] ≡ panic
install_snapshot-snapshot-panic_example =
    install_snapshot-snapshot-panic applied_further (offer 1) 2 [] (omega arith) (omega arith)
      (omega arith) (omega arith)

apply_step-Delivers_example : Returns (Delivers peer_zero) (apply_step peer_zero)
apply_step-Delivers_example = apply_step-Delivers peer_zero peer_zero-InBounds refl (omega arith)
