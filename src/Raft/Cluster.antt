-- ===== src/Raft/Cluster.antt =====
-- src/raft/raft.go: the peers of one group with the RequestVote calls between them. Each goroutine
-- of doElection is a call with its own state; a message may take any time, be lost on the way, or
-- reach a peer whose reply is lost, and peers crash and restart at any moment.
pub mod Alone
pub mod Ballots
pub mod Changes
pub mod Elections
pub mod Moves
pub mod Safety
use distributed_systems_labs.Base.{
  ℕ, zero, suc, ◌+◌, ◌-◌, ◌*◌, ◌/◌, ◌%◌, ◌^◌, ◌≤◌, ◌<◌, min, ◌≡◌, refl, sym, ap, ◌∙◌, ◌≢◌, ◌↔◌, ◌⊎◌,
  inl, inr, Bool, true, false, ◌&&◌, ◌||◌, not, Option, none, some, List, [], ◌∷◌, ◌++◌, map, arith,
  ltb, leb, ◌==◌, if◌then◌else◌, ltb→lt, lt→ltb, le→ltb, lt→leb, ltb→le, leb→le, leb→lt, ==→eq,
  ==→ne, Bool-cases, Option-cases, le_suc-cases, length, get_elem?, set, take, drop, replicate,
  length-append, length-set, length-take, length-drop, length-replicate, get_elem?_total,
  get_elem?_bound, get_elem?-none, get_elem?-set, get_elem?-append_left, get_elem?-append_right,
  get_elem?-take, get_elem?-drop, take_all, length_zero, take-suc, Run, ok, panic, ◌>>=◌, or_panic,
  Returns, returns, Returns-bind, Returns-map, Returns-if, Returns-inv, Returns-eq, Yields,
  Yields-bind, Yields-then, Yields-if, Yields-eq, Yields-map, Returns-Yields, one, occ, elem,
  count_in, sum_over, IsDistinct, insert, sort, occ-append, occ-sort, length-sort, elem→occ,
  occ→elem, elem-false, elem-of_occ, occ-set, count_in-set, count_in-le, sum_over-add, sum_over-occ,
}
use distributed_systems_labs.Raft.Types.{
  Bytes, Codec, Clock, random_election_timeout, deadline, ServerState, follower, leader, candidate,
  LogEntry, ApplyMsg, committed, snapshot_msg, Persister, Raft, RequestVoteArgs, RequestVoteReply,
  AppendEntriesArgs, AppendEntriesReply, InstallSnapshotArgs, InstallSnapshotReply, Persisted,
  last_log_index, InBounds,
}
use distributed_systems_labs.Raft.Persist.{
  make_persister, save_raft_state, save_snapshot, raft_state_size, persisted, restore, blank,
  persist, read_persist, make,
}
use distributed_systems_labs.Raft.Log.{
  load, store, entry_at, term_of, term_at, last_term, last_log_term, rearm, adopt_term, step_down,
}
use distributed_systems_labs.Raft.Append.{
  refusal, first_of_term, term_conflict, prev_conflict, spliced, follow_commit, accept,
  append_current, append_entries,
}
use distributed_systems_labs.Raft.Leader.{
  is_leader, count_agree, fill, Outgoing, append_to, snapshot_to, of_current_term, advance_from,
  advance_commit, last_of_term, backed_up, record_match, back_up, init_leader_index, log_from,
  outgoing, broadcast, heartbeat, process_append_entries_reply, Started, start,
}
use distributed_systems_labs.Raft.Election.{
  is_candidate, may_vote, get_state, up_to_date, count_vote, tick_follower, request_vote, stand,
  do_election, on_vote_reply,
}
use distributed_systems_labs.Raft.Compaction.{
  raft_size, kill, apply_step, snapshot_args, snapshot, install_snapshot, snapshot_acknowledged,
  on_snapshot_reply,
}
use distributed_systems_labs.Raft.Steps.{
  Step, on_append_entries, on_request_vote, on_install_snapshot, on_tick, on_election, on_vote,
  on_append_reply, on_install_reply, on_snapshot, on_start, on_apply, on_kill, on_restart, Reach,
  here, next,
}

-- One call of sendRequestVote, with the goroutine that waits for it.
pub data Call : Type 0 where
  idle : Call
  asked : RequestVoteArgs → Call
  answered : RequestVoteReply → Call
  finished : (granted : Bool) → Call

-- A call that the voter granted, as far as anyone can still tell.
abbrev pub backs : Call → Bool
backs (answered reply) = reply.vote_granted
backs (finished granted) = granted
backs _ = false

-- A call that returned with a vote.
abbrev pub returned : Call → Bool
returned (finished granted) = granted
returned _ = false

abbrev pub IsOpen : Call → Type 0
IsOpen (asked args) = Unit
IsOpen (answered reply) = Unit
IsOpen _ = ⊥

-- The calls of each candidate, in each term, to each peer.
pub record Cluster (C : Type 0) : Type 0 where
  pub peers : ℕ → Raft C
  pub calls : ℕ → ℕ → ℕ → Call

module _ {C : Type 0} where
  unfoldable pub with_peer : Cluster C → ℕ → Raft C → Cluster C
  with_peer c i rf = record c { peers = λ k. if k == i then rf else c.peers k }

  unfoldable pub with_call : Cluster C → ℕ → ℕ → ℕ → Call → Cluster C
  with_call c i term v call = record c {
    calls = λ k t w. if k == i && (t == term && w == v) then call else c.calls k t w;
  }

  -- The loop of doElection: one goroutine for every peer but the candidate, which has its own vote.
  unfoldable pub ask_all : Cluster C → ℕ → ℕ → RequestVoteArgs → Cluster C
  ask_all c n i args = record c {
    calls = λ k t w.
        if k == i && (t == args.term && ltb w n)
        then (if w == i then finished true else asked args)
        else c.calls k t w;
  }

module _ {C : Type 0} ⦃gob : Codec (Persisted C)⦄ where
  -- What doElection does with its first locked section: no calls, or one to each other peer.
  unfoldable pub begin : ℕ → ℕ → Cluster C → Raft C × Option RequestVoteArgs → Cluster C
  unfolding ask_all with_peer
  begin n i c (rf, none) = with_peer c i rf
  begin n i c (rf, some args) = ask_all (with_peer c i rf) n i args

  unfoldable pub elect : Clock → ℕ → ℕ → Cluster C → Cluster C
  unfolding do_election begin
  elect t n i c = begin n i c (do_election t (c.peers i))

  -- The request of call (i, term, v) reaches peer v.
  unfoldable pub deliver : Clock → ℕ → ℕ → ℕ → RequestVoteArgs → Cluster C → Cluster C
  unfolding request_vote with_peer with_call
  deliver t i term v args c =
      let out = request_vote t (c.peers v) args in
      with_call (with_peer c v out.0) i term v (answered out.1)

  -- A fresh group of `n` peers.
  unfoldable pub boot : ℕ → Cluster C
  unfolding make make_persister
  boot n = record { peers = λ k. (make n k make_persister).0; calls = λ k t w. idle }

  -- A step of one peer that is neither an election nor a reply to one of its calls. A request for a
  -- vote is one whose reply gets lost.
  abbrev pub IsLocal : {rf rf' : Raft C} → Step rf rf' → Type 0
  IsLocal (on_election t) = ⊥
  IsLocal (on_vote t term sent reply e) = ⊥
  IsLocal _ = Unit

  pub data Move (n : ℕ) (c : Cluster C) : Cluster C → Type 0 where
    runs : (i : ℕ) {rf : Raft C} (s : Step (c.peers i) rf) → IsLocal s → Move n c (with_peer c i rf)
    elects : (t : Clock) (i : ℕ) → i < n → Move n c (elect t n i c)
    votes :
        (t : Clock) (i term v : ℕ) {args : RequestVoteArgs}
        → v < n
        → c.calls i term v ≡ asked args
        → Move n c (deliver t i term v args c)
    comes_back :
        (t : Clock) (i term v : ℕ) {reply : RequestVoteReply} {rf : Raft C}
        → v < n
        → c.calls i term v ≡ answered reply
        → on_vote_reply t (c.peers i) term true reply ≡ ok rf
        → Move n c (with_peer (with_call c i term v (finished reply.vote_granted)) i rf)
    fails :
        (t : Clock) (i term v : ℕ) (reply : RequestVoteReply) {rf : Raft C}
        → IsOpen (c.calls i term v)
        → on_vote_reply t (c.peers i) term false reply ≡ ok rf
        → Move n c (with_peer (with_call c i term v (finished false)) i rf)

  -- The states of the group from `c` on.
  pub data Reaches (n : ℕ) (c : Cluster C) : Cluster C → Type 0 where
    booted : Reaches n c c
    further : {d e : Cluster C} → Reaches n c d → Move n d e → Reaches n c e
