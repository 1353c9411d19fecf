-- ===== src/Raft/Steps/Advances.antt =====
-- src/raft/raft.go: lastApplied and the end of the snapshot in the handlers of replies, ticks and votes.
pub mod Followers
use distributed_systems_labs.Base.{
  ℕ, zero, suc, ◌+◌, ◌/◌, ◌≤◌, ◌≡◌, refl, inl, inr, Bool, true, false, ◌&&◌, none, List, arith, ltb,
  ◌==◌, if◌then◌else◌, Bool-cases, Option-cases, length, get_elem?, ok, or_panic, Yields,
  Yields-bind, Yields-then, Yields-if,
}
use distributed_systems_labs.Raft.Types.{
  Codec, Clock, follower, LogEntry, Raft, RequestVoteArgs, RequestVoteReply, AppendEntriesReply,
  InstallSnapshotArgs, InstallSnapshotReply, Persisted, last_log_index,
}
use distributed_systems_labs.Raft.Log.{store, step_down}
use distributed_systems_labs.Raft.Leader.{
  is_leader, count_agree, fill, of_current_term, advance_from, advance_commit, backed_up,
  record_match, back_up, process_append_entries_reply, init_leader_index,
}
use distributed_systems_labs.Raft.Election.{
  is_candidate, may_vote, up_to_date, count_vote, tick_follower, request_vote, do_election,
  on_vote_reply,
}
use distributed_systems_labs.Raft.Compaction.{snapshot_acknowledged, on_snapshot_reply}

-- The snapshot's end does not fall, and if lastApplied was no lower than it, it is so afterwards.
pub record Advances {C : Type 0} (rf rf' : Raft C) : Type 0 where
  pub forward : rf.last_included_index ≤ rf'.last_included_index
  pub covered :
      rf.last_included_index ≤ rf.last_applied → rf'.last_included_index ≤ rf'.last_applied

pub still :
    {C : Type 0} {rf rf' : Raft C}
    → rf'.last_included_index ≡ rf.last_included_index
    → rf'.last_applied ≡ rf.last_applied
    → Advances rf rf'
still a b = record { forward = omega (arith, a); covered = λ h. omega (arith, a, b, h) }

pub Advances-trans :
    {C : Type 0} {rf r rf' : Raft C} → Advances rf r → Advances r rf' → Advances rf rf'
Advances-trans a b = record {
  forward = omega (arith, a.forward, b.forward);
  covered = λ h. b.covered (a.covered h);
}

module _ {C : Type 0} ⦃gob : Codec (Persisted C)⦄ where
  pub step_down-Advances : (t : Clock) (rf : Raft C) (term : ℕ) → Advances rf (step_down t rf term)
  unfolding step_down
  step_down-Advances t rf term = still refl refl

  pub tick-Advances : (t : Clock) (rf : Raft C) → Advances rf (tick_follower t rf).0
  unfolding tick_follower
  tick-Advances t rf = elim (Option-cases rf.election_deadline) [
    | inl unset ↦ rw (unset, tick_follower) (still refl refl)
    | inr (at, is_set) ↦ rw (is_set, tick_follower) (still refl refl)
  ]

  advance_from-Advances :
      (n : ℕ) (rf r : Raft C) → Advances rf r → Yields (Advances rf) (advance_from n r)
  unfolding advance_from
  advance_from-Advances zero rf r h = h
  advance_from-Advances (suc n) rf r h =
      Yields-if (Advances rf) (ltb r.commit_index (suc n)) _ _
        (λ _. Yields-then (Advances rf) (of_current_term r (suc n)) _ λ current.
          Yields-if (Advances rf) current _ _
            (λ _. Yields-then (Advances rf) (count_agree r.peers r.match_index (suc n)) _ λ k.
              Yields-if (Advances rf) (ltb (r.peers / 2) k) _ _
                (λ _. Advances-trans h (still refl refl)) (λ _. advance_from-Advances n rf r h))
            (λ _. advance_from-Advances n rf r h))
        (λ _. h)

  advance_commit-Advances :
      (rf r : Raft C) → Advances rf r → Yields (Advances rf) (advance_commit r)
  unfolding advance_commit
  advance_commit-Advances rf r h = advance_from-Advances (last_log_index r) rf r h

  record_match-Advances :
      (rf : Raft C) (peer new_match : ℕ) → Yields (Advances rf) (record_match rf peer new_match)
  unfolding record_match
  record_match-Advances rf peer new_match =
      Yields-then (Advances rf) (or_panic (get_elem? rf.match_index peer)) _ λ m.
        Yields-then (Advances rf)
          (if ltb m new_match then store rf.match_index peer new_match else ok rf.match_index) _
          λ matches. Yields-then (Advances rf) (store rf.next_index peer (new_match + 1)) _ λ nexts.
            advance_commit-Advances rf (record rf { match_index = matches; next_index = nexts })
              (still refl refl)

  back_up-Advances :
      (rf : Raft C) (peer : ℕ) (reply : AppendEntriesReply)
      → Yields (Advances rf) (back_up rf peer reply)
  unfolding back_up
  back_up-Advances rf peer reply = Yields-then (Advances rf) (backed_up rf reply) _ λ next.
      Yields-then (Advances rf) (store rf.next_index peer (if ltb next 1 then 1 else next)) _
        λ nexts. still refl refl

  snapshot_acknowledged-Advances :
      (rf : Raft C) (peer : ℕ) (args : InstallSnapshotArgs)
      → Yields (Advances rf) (snapshot_acknowledged rf peer args)
  unfolding snapshot_acknowledged
  snapshot_acknowledged-Advances rf peer args =
      Yields-then (Advances rf) (or_panic (get_elem? rf.match_index peer)) _ λ m.
        Yields-then (Advances rf) _ _ λ matches.
          Yields-then (Advances rf) (or_panic (get_elem? rf.next_index peer)) _ λ n.
            Yields-then (Advances rf) _ _ λ nexts.
              let r = record rf { match_index = matches; next_index = nexts } in
              Yields-bind (Advances rf) (Advances rf) (advance_commit r) _
                (advance_commit-Advances rf r (still refl refl))
                λ r' e. Advances-trans e (still refl refl)

  pub process_append_entries_reply-Advances :
      (t : Clock) (rf : Raft C) (peer term prev : ℕ) (ent : List (LogEntry C))
      (reply : AppendEntriesReply)
      → Yields (Advances rf) (process_append_entries_reply t rf peer term prev ent reply)
  unfolding process_append_entries_reply
  process_append_entries_reply-Advances t rf peer term prev ent reply =
      Yields-if (Advances rf) (rf.current_term == term) _ _
        (λ _.
          Yields-if (Advances rf) (is_leader rf.server_state) _ _
            (λ _.
              Yields-if (Advances rf) (ltb rf.current_term reply.term) _ _
                (λ newer. step_down-Advances t rf reply.term)
                (λ _.
                  Yields-if (Advances rf) reply.success _ _
                    (λ _. record_match-Advances rf peer (prev + length ent))
                    (λ _. back_up-Advances rf peer reply)))
            (λ _. still refl refl))
        (λ _. still refl refl)

  pub on_snapshot_reply-Advances :
      (t : Clock) (rf : Raft C) (peer : ℕ) (args : InstallSnapshotArgs) (sent : Bool)
      (reply : InstallSnapshotReply)
      → Yields (Advances rf) (on_snapshot_reply t rf peer args sent reply)
  unfolding on_snapshot_reply
  on_snapshot_reply-Advances t rf peer args false reply = still refl refl
  on_snapshot_reply-Advances t rf peer args true reply =
      Yields-if (Advances rf) (rf.current_term == args.term) _ _
        (λ _.
          Yields-if (Advances rf) (is_leader rf.server_state) _ _
            (λ _.
              Yields-if (Advances rf) (ltb rf.current_term reply.term) _ _
                (λ newer. step_down-Advances t rf reply.term)
                (λ _.
                  Yields-if (Advances rf) (ltb reply.term rf.current_term) _ _
                    (λ _. still refl refl) (λ _. snapshot_acknowledged-Advances rf peer args)))
            (λ _. still refl refl))
        (λ _. still refl refl)

  pub request_vote-Advances :
      (t : Clock) (rf : Raft C) (args : RequestVoteArgs) → Advances rf (request_vote t rf args).0
  unfolding request_vote
  request_vote-Advances t rf args = elim (Bool-cases (ltb args.term rf.current_term)) [
    | inl stale ↦ rw stale (still refl refl)
    | inr fresh ↦ elim (Bool-cases (ltb rf.current_term args.term)) [
      | inl newer ↦
          rw (fresh, newer)
            (elim (Bool-cases (
              up_to_date
                (record rf { current_term = args.term; voted_for = none; server_state = follower })
                args)) [
                  | inl grants ↦ rw grants (still refl refl)
                  | inr refuses ↦ rw refuses (still refl refl)
                ])
      | inr equal ↦
          rw (fresh, equal)
            (elim (Bool-cases (may_vote rf.voted_for args.candidate_id && up_to_date rf args)) [
              | inl grants ↦ rw grants (still refl refl)
              | inr refuses ↦ rw refuses (still refl refl)
            ])
    ]
  ]

  pub do_election-Advances : (t : Clock) (rf : Raft C) → Advances rf (do_election t rf).0
  unfolding do_election
  do_election-Advances t rf = elim (Bool-cases (is_leader rf.server_state)) [
    | inl leads ↦ rw leads (still refl refl)
    | inr not_leading ↦ elim (Option-cases rf.election_deadline) [
      | inl unset ↦ simp (not_leading, unset) (still refl refl)
      | inr (at, is_set) ↦ elim (Bool-cases (ltb at t.now)) [
        | inl passed ↦ simp (not_leading, is_set, passed) (still refl refl)
        | inr waiting ↦ simp (not_leading, is_set, waiting) (still refl refl)
      ]
    ]
  ]

  init_leader_index-Advances :
      (rf r : Raft C) → Advances rf r → Yields (Advances rf) (init_leader_index r)
  unfolding init_leader_index
  init_leader_index-Advances rf r h =
      Yields-then (Advances rf) (fill r.peers r.next_index (last_log_index r + 1)) _ λ nexts.
        Yields-then (Advances rf) (fill r.peers r.match_index 0) _ λ zeros.
          Yields-then (Advances rf) (store zeros r.me (last_log_index r)) _
            λ matches. Advances-trans h (still refl refl)

  pub on_vote_reply-Advances :
      (t : Clock) (rf : Raft C) (term : ℕ) (sent : Bool) (reply : RequestVoteReply)
      → Yields (Advances rf) (on_vote_reply t rf term sent reply)
  unfolding on_vote_reply count_vote
  on_vote_reply-Advances t rf term sent reply =
      Yields-if (Advances rf) (rf.current_term == term && is_candidate rf.server_state) _ _
        (λ _.
          Yields-if (Advances rf) (sent && ltb rf.current_term reply.term) _ _
            (λ _. step_down-Advances t rf reply.term)
            (λ _.
              Yields-if (Advances rf) (sent && reply.vote_granted) _ _
                (λ _.
                  Yields-if (Advances rf) (ltb (rf.peers / 2) (rf.votes_received + 1)) _ _
                    (λ _. init_leader_index-Advances rf _ (still refl refl)) (λ _. still refl refl))
                (λ _. still refl refl)))
        (λ _. still refl refl)
