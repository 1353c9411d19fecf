-- ===== src/Raft/Leader.antt =====
-- src/raft/raft.go: the leader's side: Start, the heartbeats of ticker, advanceCommit,
-- processAppendEntriesReply and initLeaderIndex.
pub mod Commit
pub mod Messages
use distributed_systems_labs.Base.{
  ℕ, zero, suc, ◌+◌, ◌-◌, ◌/◌, Bool, true, false, Option, none, some, List, [], ◌∷◌, ◌++◌, Run, ok,
  panic, or_panic, ◌>>=◌, ltb, leb, ◌==◌, if◌then◌else◌, length, drop, get_elem?,
}
use distributed_systems_labs.Raft.Types.{
  Codec, Clock, Raft, Persisted, LogEntry, ServerState, leader, AppendEntriesArgs,
  AppendEntriesReply, last_log_index,
}
use distributed_systems_labs.Raft.Persist.{persist}
use distributed_systems_labs.Raft.Log.{load, store, step_down}

abbrev pub is_leader : ServerState → Bool
is_leader leader = true
is_leader _ = false

-- The `for i := range rf.peers` loop that counts matchIndex[i] >= n over the first `i` peers.
unfoldable pub count_agree : ℕ → List ℕ → ℕ → Run ℕ
count_agree zero matches n = ok 0
count_agree (suc i) matches n = do
  k ← count_agree i matches n
  m ← or_panic (get_elem? matches i)
  ok (if leb n m then k + 1 else k)

-- The loop of initLeaderIndex over one of the two slices, for the first `j` peers.
unfoldable pub fill : ℕ → List ℕ → ℕ → Run (List ℕ)
fill zero xs v = ok xs
fill (suc j) xs v = do ys ← fill j xs v; store ys j v

-- What a goroutine that Start or ticker starts will send to `peer`.
pub data Outgoing (C : Type 0) : Type 0 where
  append_to : (peer : ℕ) → AppendEntriesArgs C → Outgoing C
  snapshot_to : (peer : ℕ) → Outgoing C

module _ {C : Type 0} where
  -- Whether the entry at Raft index `n` is of the current term.
  unfoldable pub of_current_term : Raft C → ℕ → Run Bool
  of_current_term rf n =
      if leb n rf.last_included_index
      then ok (rf.last_included_term == rf.current_term)
      else load rf n >>= λ e. ok (e.term == rf.current_term)

  -- The loop of advanceCommit, from `n` down.
  unfoldable pub advance_from : ℕ → Raft C → Run (Raft C)
  advance_from zero rf = ok rf
  advance_from (suc n) rf =
      let rest = advance_from n rf in
      let counted = count_agree rf.peers rf.match_index (suc n) >>= λ k.
      if ltb (rf.peers / 2) k then ok (record rf { commit_index = suc n }) else rest in
      let step = of_current_term rf (suc n) >>= λ current. if current then counted else rest in
      if ltb rf.commit_index (suc n) then step else ok rf

  unfoldable pub advance_commit : Raft C → Run (Raft C)
  unfolding advance_from
  advance_commit rf = advance_from (last_log_index rf) rf

  -- The search for XTerm from slice position `i` down to 1.
  unfoldable pub last_of_term : List (LogEntry C) → ℕ → ℕ → Run (Option ℕ)
  last_of_term log x_term zero = ok none
  last_of_term log x_term (suc i) =
      let rest = last_of_term log x_term i in
      or_panic (get_elem? log (suc i)) >>= λ e.
      if e.term == x_term then ok (some (suc i + 1)) else rest

  -- nextIndex[peer] after a refusal, before it is raised to 1.
  unfoldable pub backed_up : Raft C → AppendEntriesReply → Run ℕ
  unfolding last_of_term
  backed_up rf reply = elim reply.x_term [
    | none ↦ ok reply.x_len
    | some t ↦ last_of_term rf.log t (length rf.log - 1) >>= λ found. elim found [
      | none ↦ ok reply.x_index
      | some next ↦ ok next
    ]
  ]

  -- reply.Success: matchIndex grows, nextIndex follows the reply, and the commit index is tried.
  unfoldable pub record_match : Raft C → ℕ → ℕ → Run (Raft C)
  record_match rf peer new_match = do
    m ← or_panic (get_elem? rf.match_index peer)
    matches ← if ltb m new_match then store rf.match_index peer new_match else ok rf.match_index
    nexts ← store rf.next_index peer (new_match + 1)
    advance_commit (record rf { match_index = matches; next_index = nexts })

  unfoldable pub back_up : Raft C → ℕ → AppendEntriesReply → Run (Raft C)
  back_up rf peer reply = do
    next ← backed_up rf reply
    nexts ← store rf.next_index peer (if ltb next 1 then 1 else next)
    ok (record rf { next_index = nexts })

  unfoldable pub init_leader_index : Raft C → Run (Raft C)
  init_leader_index rf = do
    nexts ← fill rf.peers rf.next_index (last_log_index rf + 1)
    zeros ← fill rf.peers rf.match_index 0
    matches ← store zeros rf.me (last_log_index rf)
    ok (record rf { next_index = nexts; match_index = matches })

  -- rf.log[i:]: it panics if `i` is past the end.
  unfoldable pub log_from : Raft C → ℕ → Run (List (LogEntry C))
  log_from rf i = if ltb (length rf.log) i then panic else ok (drop i rf.log)

  -- The body of the `for i := range rf.peers` loops of Start and ticker, for a peer other than me.
  unfoldable pub outgoing : Raft C → ℕ → Run (Outgoing C)
  outgoing rf peer = do
    next ← or_panic (get_elem? rf.next_index peer)
    if leb next rf.last_included_index then ok (snapshot_to peer) else (do
      let prev = next - 1
      prev_term ←
          if ltb rf.last_included_index prev
          then (load rf prev >>= λ e. ok e.term)
          else ok rf.last_included_term
      entries ← log_from rf (next - rf.last_included_index - 1)
      ok (
          append_to peer (record {
            term = rf.current_term;
            prev_log_index = prev;
            prev_log_term = prev_term;
            entries = entries;
            leader_commit = rf.commit_index;
          })))

  -- The messages to the first `n` peers, in order.
  unfoldable pub broadcast : ℕ → Raft C → Run (List (Outgoing C))
  broadcast zero rf = ok []
  broadcast (suc i) rf = broadcast i rf >>= λ before.
      if i == rf.me then ok before else outgoing rf i >>= λ m. ok (before ++ m ∷ [])

  -- One round of ticker's leader branch.
  unfoldable pub heartbeat : Raft C → Run (List (Outgoing C))
  unfolding broadcast
  heartbeat rf = if is_leader rf.server_state then broadcast rf.peers rf else ok []

-- The results of Start: the index (-1 is `none`), the term, and whether this is the leader.
pub record Started : Type 0 where
  pub index : Option ℕ
  pub term : ℕ
  pub leads : Bool

module _ {C : Type 0} ⦃gob : Codec (Persisted C)⦄ where
  unfoldable pub process_append_entries_reply :
      Clock → Raft C → ℕ → ℕ → ℕ → List (LogEntry C) → AppendEntriesReply → Run (Raft C)
  unfolding step_down
  process_append_entries_reply t rf peer rpc_term prev ent reply =
      if rf.current_term == rpc_term
      then (if is_leader rf.server_state
          then (if ltb rf.current_term reply.term
              then ok (step_down t rf reply.term)
              else if reply.success
              then record_match rf peer (prev + length ent)
              else back_up rf peer reply)
          else ok rf)
      else ok rf

  unfoldable pub start : Raft C → C → Run (Raft C × Started × List (Outgoing C))
  unfolding persist
  start rf command =
      if is_leader rf.server_state
      then (do
        let entry : LogEntry C = record { term = rf.current_term; index = 0; command = command }
        let r = record rf { log = rf.log ++ entry ∷ [] }
        let index = last_log_index r
        matches ← store r.match_index r.me index
        let led = record r { match_index = matches }
        sent ← broadcast led.peers led
        ok (
          persist led,
          record { index = some index; term = led.current_term; leads = true },
          sent,
        ))
      else ok (rf, record { index = none; term = rf.current_term; leads = false }, [])
