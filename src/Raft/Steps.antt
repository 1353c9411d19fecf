-- ===== src/Raft/Steps.antt =====
-- src/raft/raft.go: one peer as a state machine. A step is one section of code that runs under
-- rf.mu, or a crash followed by Make over the same persister.
pub mod Disk
pub mod Effects
pub mod Followers
pub mod Polls
pub mod Receipts
pub mod Roles
pub mod Advances
pub mod Progress
pub mod Votes
use distributed_systems_labs.Base.{
  ℕ, zero, suc, ◌+◌, ◌-◌, ◌*◌, ◌/◌, ◌%◌, ◌^◌, ◌≤◌, ◌<◌, min, ◌≡◌, refl, sym, ap, ◌∙◌, ◌≢◌, ◌↔◌, ◌⊎◌,
  inl, inr, Bool, true, false, ◌&&◌, ◌||◌, not, Option, none, some, List, [], ◌∷◌, ◌++◌, map, arith,
  ltb, leb, ◌==◌, if◌then◌else◌, ltb→lt, lt→ltb, le→ltb, ltb→le, leb→le, leb→lt, ==→eq, ==→ne,
  Bool-cases, Option-cases, le_suc-cases, length, get_elem?, set, take, drop, replicate,
  length-append, length-set, length-take, length-drop, length-replicate, get_elem?_total,
  get_elem?_bound, get_elem?-none, get_elem?-set, get_elem?-append_left, get_elem?-append_right,
  get_elem?-take, get_elem?-drop, take_all, length_zero, Run, ok, panic, ◌>>=◌, or_panic, Returns,
  returns, Returns-bind, Returns-map, Returns-if, Returns-inv, Yields, Yields-bind, Yields-then,
  Yields-if, Yields-eq, Returns-Yields,
}
use distributed_systems_labs.Raft.Types.{
  Bytes, Codec, Clock, random_election_timeout, deadline, ServerState, follower, leader, candidate,
  LogEntry, ApplyMsg, committed, snapshot_msg, Persister, Raft, RequestVoteArgs, RequestVoteReply,
  AppendEntriesArgs, AppendEntriesReply, InstallSnapshotArgs, InstallSnapshotReply, Persisted,
  last_log_index,
}
use distributed_systems_labs.Raft.Persist.{
  make_persister, save_raft_state, save_snapshot, raft_state_size, persisted, restore, blank,
  persist, read_persist, make,
}
use distributed_systems_labs.Raft.Append.{
  refusal, first_of_term, term_conflict, prev_conflict, spliced, follow_commit, accept,
  append_current, append_entries,
}
use distributed_systems_labs.Raft.Leader.{
  is_leader, count_agree, fill, Outgoing, append_to, snapshot_to, of_current_term, advance_from,
  advance_commit, last_of_term, backed_up, record_match, back_up, init_leader_index, log_from,
  outgoing, broadcast, heartbeat, process_append_entries_reply, Started, start,
}
use distributed_systems_labs.Raft.Election.{
  is_candidate, may_vote, get_state, up_to_date, count_vote, tick_follower, request_vote, stand,
  do_election, on_vote_reply,
}
use distributed_systems_labs.Raft.Compaction.{
  raft_size, kill, apply_step, snapshot_args, snapshot, install_snapshot, on_snapshot_reply,
}

module _ {C : Type 0} ⦃gob : Codec (Persisted C)⦄ where
  pub data Step (rf : Raft C) : Raft C → Type 0 where
    on_append_entries :
        (t : Clock) (args : AppendEntriesArgs C) {rf' : Raft C} {reply : AppendEntriesReply}
        → append_entries t rf args ≡ ok (rf', reply)
        → Step rf rf'
    on_request_vote : (t : Clock) (args : RequestVoteArgs) → Step rf (request_vote t rf args).0
    on_install_snapshot : (args : InstallSnapshotArgs) → Step rf (install_snapshot rf args).0
    on_tick : (t : Clock) → Step rf (tick_follower t rf).0
    on_election : (t : Clock) → Step rf (do_election t rf).0
    on_vote :
        (t : Clock) (term : ℕ) (sent : Bool) (reply : RequestVoteReply) {rf' : Raft C}
        → on_vote_reply t rf term sent reply ≡ ok rf'
        → Step rf rf'
    on_append_reply :
        (t : Clock) (peer term prev : ℕ) (ent : List (LogEntry C)) (reply : AppendEntriesReply)
        {rf' : Raft C}
        → process_append_entries_reply t rf peer term prev ent reply ≡ ok rf'
        → Step rf rf'
    on_install_reply :
        (t : Clock) (peer : ℕ) (args : InstallSnapshotArgs) (sent : Bool)
        (reply : InstallSnapshotReply) {rf' : Raft C}
        → on_snapshot_reply t rf peer args sent reply ≡ ok rf'
        → Step rf rf'
    on_snapshot :
        (index : ℕ) (bytes : Bytes) {rf' : Raft C} → snapshot rf index bytes ≡ ok rf' → Step rf rf'
    on_start :
        (command : C) {rf' : Raft C} {started : Started} {sent : List (Outgoing C)}
        → start rf command ≡ ok (rf', started, sent)
        → Step rf rf'
    on_apply :
        {rf' : Raft C} {msg : Option (ApplyMsg C)} → apply_step rf ≡ ok (rf', msg) → Step rf rf'
    on_kill : Step rf (kill rf)
    on_restart : Step rf (make rf.peers rf.me rf.persister).0

  -- The states of the peer from `rf` on.
  pub data Reach (rf : Raft C) : Raft C → Type 0 where
    here : Reach rf rf
    next : {r r' : Raft C} → Reach rf r → Step r r' → Reach rf r'
