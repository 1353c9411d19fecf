-- ===== src/Raft/Steps/Effects.antt =====
-- The effect on the disk of each handler and goroutine.
use distributed_systems_labs.Base.{
  ℕ, zero, suc, ◌+◌, ◌/◌, ◌<◌, ◌≡◌, refl, inl, inr, Bool, true, false, ◌&&◌, Option, none, some,
  List, arith, ltb, ◌==◌, if◌then◌else◌, ltb→lt, Bool-cases, Option-cases, length, get_elem?, ok,
  or_panic, Yields, Yields-bind, Yields-then, Yields-if,
}
use distributed_systems_labs.Raft.Types.{
  Codec, Clock, follower, leader, LogEntry, Raft, RequestVoteArgs, RequestVoteReply,
  AppendEntriesReply, InstallSnapshotArgs, InstallSnapshotReply, Persisted, last_log_index,
}
use distributed_systems_labs.Raft.Log.{store, adopt_term, step_down}
use distributed_systems_labs.Raft.Leader.{
  is_leader, count_agree, fill, of_current_term, advance_from, advance_commit, backed_up,
  record_match, back_up, init_leader_index, process_append_entries_reply,
}
use distributed_systems_labs.Raft.Election.{
  is_candidate, may_vote, up_to_date, count_vote, tick_follower, request_vote, do_election,
  on_vote_reply,
}
use distributed_systems_labs.Raft.Compaction.{snapshot_acknowledged, on_snapshot_reply}
use distributed_systems_labs.Raft.Steps.Disk.{Effect, kept, stored, later, again, Effect-trans}

may_vote-same :
    (v : Option ℕ) (id w : ℕ) (b : Bool)
    → (may_vote v id && b) ≡ true
    → v ≡ some w
    → some id ≡ some w
may_vote-same none id w b h e = cc
may_vote-same (some v) id w b h e = ground arith

and-ltb : (b : Bool) (m n : ℕ) → (b && ltb m n) ≡ true → m < n
and-ltb b m n h = ground arith

module _ {C : Type 0} ⦃gob : Codec (Persisted C)⦄ where
  pub tick-Effect : (t : Clock) (rf : Raft C) → Effect rf (tick_follower t rf).0
  unfolding tick_follower
  tick-Effect t rf = elim (Option-cases rf.election_deadline) [
    | inl unset ↦ rw (unset, tick_follower) (kept refl refl)
    | inr (at, is_set) ↦ rw (is_set, tick_follower) (kept refl refl)
  ]

  pub step_down-Effect :
      (t : Clock) (rf : Raft C) (term : ℕ)
      → rf.current_term < term
      → Effect rf (step_down t rf term)
  unfolding step_down
  step_down-Effect t rf term h = later h refl

  pub adopt_term-Effect : (rf : Raft C) (term : ℕ) → Effect rf (adopt_term rf term)
  unfolding adopt_term
  adopt_term-Effect rf term = elim (Bool-cases (ltb rf.current_term term)) [
    | inl newer ↦ rw newer (later (ltb→lt _ _ newer) refl)
    | inr old ↦ rw old (kept refl refl)
  ]

  pub request_vote-Effect :
      (t : Clock) (rf : Raft C) (args : RequestVoteArgs) → Effect rf (request_vote t rf args).0
  unfolding request_vote
  request_vote-Effect t rf args = elim (Bool-cases (ltb args.term rf.current_term)) [
    | inl stale ↦ rw stale (kept refl refl)
    | inr fresh ↦ elim (Bool-cases (ltb rf.current_term args.term)) [
      | inl newer ↦
          rw (fresh, newer)
            (elim (Bool-cases (
              up_to_date
                (record rf { current_term = args.term; voted_for = none; server_state = follower })
                args)) [
                  | inl grants ↦ rw grants (later (ltb→lt _ _ newer) refl)
                  | inr refuses ↦ rw refuses (later (ltb→lt _ _ newer) refl)
                ])
      | inr equal ↦
          rw (fresh, equal)
            (elim (Bool-cases (may_vote rf.voted_for args.candidate_id && up_to_date rf args)) [
              | inl grants ↦ rw grants (
                  stored
                    (record {
                      grows = omega arith;
                      steady = λ _ v voted.
                          may_vote-same rf.voted_for args.candidate_id v (up_to_date rf args) grants
                            voted;
                    })
                    refl)
              | inr refuses ↦ rw refuses (again refl refl refl)
            ])
    ]
  ]

  pub do_election-Effect : (t : Clock) (rf : Raft C) → Effect rf (do_election t rf).0
  unfolding do_election
  do_election-Effect t rf = elim (Bool-cases (is_leader rf.server_state)) [
    | inl leads ↦ rw leads (kept refl refl)
    | inr not_leading ↦ elim (Option-cases rf.election_deadline) [
      | inl unset ↦ simp (not_leading, unset) (kept refl refl)
      | inr (at, is_set) ↦ elim (Bool-cases (ltb at t.now)) [
        | inl passed ↦ simp (not_leading, is_set, passed) (later (omega arith) refl)
        | inr waiting ↦ simp (not_leading, is_set, waiting) (kept refl refl)
      ]
    ]
  ]

  init_leader_index-Effect :
      (rf r : Raft C) → Effect rf r → Yields (Effect rf) (init_leader_index r)
  unfolding init_leader_index
  init_leader_index-Effect rf r h =
      Yields-then (Effect rf) (fill r.peers r.next_index (last_log_index r + 1)) _ λ nexts.
        Yields-then (Effect rf) (fill r.peers r.match_index 0) _ λ zeros.
          Yields-then (Effect rf) (store zeros r.me (last_log_index r)) _
            λ matches. Effect-trans h (kept refl refl)

  pub count_vote-Effect : (rf : Raft C) → Yields (Effect rf) (count_vote rf)
  unfolding count_vote
  count_vote-Effect rf =
      Yields-if (Effect rf) (ltb (rf.peers / 2) (rf.votes_received + 1)) _ _
        (λ _.
          init_leader_index-Effect rf
            (record rf { votes_received = rf.votes_received + 1; server_state = leader })
            (kept refl refl))
        (λ _. kept refl refl)

  pub on_vote_reply-Effect :
      (t : Clock) (rf : Raft C) (term : ℕ) (sent : Bool) (reply : RequestVoteReply)
      → Yields (Effect rf) (on_vote_reply t rf term sent reply)
  unfolding on_vote_reply
  on_vote_reply-Effect t rf term sent reply =
      Yields-if (Effect rf) (rf.current_term == term && is_candidate rf.server_state) _ _
        (λ _.
          Yields-if (Effect rf) (sent && ltb rf.current_term reply.term) _ _
            (λ newer. later (and-ltb sent _ _ newer) refl)
            (λ _.
              Yields-if (Effect rf) (sent && reply.vote_granted) _ _ (λ _. count_vote-Effect rf)
                (λ _. kept refl refl)))
        (λ _. kept refl refl)

  advance_from-Effect :
      (n : ℕ) (rf r : Raft C) → Effect rf r → Yields (Effect rf) (advance_from n r)
  unfolding advance_from
  advance_from-Effect zero rf r h = h
  advance_from-Effect (suc n) rf r h =
      Yields-if (Effect rf) (ltb r.commit_index (suc n)) _ _
        (λ _. Yields-then (Effect rf) (of_current_term r (suc n)) _ λ current.
          Yields-if (Effect rf) current _ _
            (λ _. Yields-then (Effect rf) (count_agree r.peers r.match_index (suc n)) _ λ k.
              Yields-if (Effect rf) (ltb (r.peers / 2) k) _ _ (λ _. Effect-trans h (kept refl refl))
                (λ _. advance_from-Effect n rf r h))
            (λ _. advance_from-Effect n rf r h))
        (λ _. h)

  advance_commit-Effect : (rf r : Raft C) → Effect rf r → Yields (Effect rf) (advance_commit r)
  unfolding advance_commit
  advance_commit-Effect rf r h = advance_from-Effect (last_log_index r) rf r h

  record_match-Effect :
      (rf : Raft C) (peer new_match : ℕ) → Yields (Effect rf) (record_match rf peer new_match)
  unfolding record_match
  record_match-Effect rf peer new_match =
      Yields-then (Effect rf) (or_panic (get_elem? rf.match_index peer)) _ λ m.
        Yields-then (Effect rf)
          (if ltb m new_match then store rf.match_index peer new_match else ok rf.match_index) _
          λ matches. Yields-then (Effect rf) (store rf.next_index peer (new_match + 1)) _ λ nexts.
            advance_commit-Effect rf (record rf { match_index = matches; next_index = nexts })
              (kept refl refl)

  back_up-Effect :
      (rf : Raft C) (peer : ℕ) (reply : AppendEntriesReply)
      → Yields (Effect rf) (back_up rf peer reply)
  unfolding back_up
  back_up-Effect rf peer reply = Yields-then (Effect rf) (backed_up rf reply) _ λ next.
      Yields-then (Effect rf) (store rf.next_index peer (if ltb next 1 then 1 else next)) _
        λ nexts. kept refl refl

  snapshot_acknowledged-Effect :
      (rf : Raft C) (peer : ℕ) (args : InstallSnapshotArgs)
      → Yields (Effect rf) (snapshot_acknowledged rf peer args)
  unfolding snapshot_acknowledged
  snapshot_acknowledged-Effect rf peer args =
      Yields-then (Effect rf) (or_panic (get_elem? rf.match_index peer)) _ λ m.
        Yields-then (Effect rf) _ _ λ matches.
          Yields-then (Effect rf) (or_panic (get_elem? rf.next_index peer)) _ λ n.
            Yields-then (Effect rf) _ _ λ nexts.
              let r = record rf { match_index = matches; next_index = nexts } in
              Yields-bind (Effect rf) (Effect rf) (advance_commit r) _
                (advance_commit-Effect rf r (kept refl refl))
                λ r' e. Effect-trans e (again refl refl refl)

  pub process_append_entries_reply-Effect :
      (t : Clock) (rf : Raft C) (peer term prev : ℕ) (ent : List (LogEntry C))
      (reply : AppendEntriesReply)
      → Yields (Effect rf) (process_append_entries_reply t rf peer term prev ent reply)
  unfolding process_append_entries_reply
  process_append_entries_reply-Effect t rf peer term prev ent reply =
      Yields-if (Effect rf) (rf.current_term == term) _ _
        (λ _.
          Yields-if (Effect rf) (is_leader rf.server_state) _ _
            (λ _.
              Yields-if (Effect rf) (ltb rf.current_term reply.term) _ _
                (λ newer. later (ltb→lt _ _ newer) refl)
                (λ _.
                  Yields-if (Effect rf) reply.success _ _
                    (λ _. record_match-Effect rf peer (prev + length ent))
                    (λ _. back_up-Effect rf peer reply)))
            (λ _. kept refl refl))
        (λ _. kept refl refl)

  pub on_snapshot_reply-Effect :
      (t : Clock) (rf : Raft C) (peer : ℕ) (args : InstallSnapshotArgs) (sent : Bool)
      (reply : InstallSnapshotReply)
      → Yields (Effect rf) (on_snapshot_reply t rf peer args sent reply)
  unfolding on_snapshot_reply
  on_snapshot_reply-Effect t rf peer args false reply = kept refl refl
  on_snapshot_reply-Effect t rf peer args true reply =
      Yields-if (Effect rf) (rf.current_term == args.term) _ _
        (λ _.
          Yields-if (Effect rf) (is_leader rf.server_state) _ _
            (λ _.
              Yields-if (Effect rf) (ltb rf.current_term reply.term) _ _
                (λ newer. later (ltb→lt _ _ newer) refl)
                (λ _.
                  Yields-if (Effect rf) (ltb reply.term rf.current_term) _ _ (λ _. kept refl refl)
                    (λ _. snapshot_acknowledged-Effect rf peer args)))
            (λ _. kept refl refl))
        (λ _. kept refl refl)
