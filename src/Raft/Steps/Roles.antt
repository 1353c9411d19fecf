-- ===== src/Raft/Steps/Roles.antt =====
-- src/raft/raft.go: which sections of code can make a peer a candidate or a leader.
use distributed_systems_labs.Base.{
  ℕ, zero, suc, ◌+◌, ◌/◌, ◌≡◌, refl, ◌∙◌, inl, inr, Bool, true, false, List, ltb, ◌==◌,
  if◌then◌else◌, Option-cases, length, get_elem?, ok, or_panic, Yields, Yields-bind, Yields-then,
  Yields-if,
}
use distributed_systems_labs.Raft.Types.{
  Codec, Clock, follower, LogEntry, Raft, AppendEntriesReply, InstallSnapshotArgs,
  InstallSnapshotReply, Persisted, last_log_index,
}
use distributed_systems_labs.Raft.Log.{store, step_down}
use distributed_systems_labs.Raft.Leader.{
  is_leader, count_agree, of_current_term, advance_from, advance_commit, backed_up, record_match,
  back_up, process_append_entries_reply,
}
use distributed_systems_labs.Raft.Election.{tick_follower}
use distributed_systems_labs.Raft.Compaction.{snapshot_acknowledged, on_snapshot_reply}

-- The peer is a follower afterwards, or its role, term and number of votes are as before.
pub data Keeps {C : Type 0} (rf rf' : Raft C) : Type 0 where
  down : rf'.me ≡ rf.me → rf'.peers ≡ rf.peers → rf'.server_state ≡ follower → Keeps rf rf'
  same :
      rf'.me ≡ rf.me
      → rf'.peers ≡ rf.peers
      → rf'.server_state ≡ rf.server_state
      → rf'.current_term ≡ rf.current_term
      → rf'.votes_received ≡ rf.votes_received
      → Keeps rf rf'

pub Keeps-trans : {C : Type 0} {rf r rf' : Raft C} → Keeps rf r → Keeps r rf' → Keeps rf rf'
Keeps-trans (down a b c) (same d e f g h) = down (d ∙ a) (e ∙ b) (f ∙ c)
Keeps-trans (same a b c d e) (same f g h i j) = same (f ∙ a) (g ∙ b) (h ∙ c) (i ∙ d) (j ∙ e)
Keeps-trans (down a b c) (down d e f) = down (d ∙ a) (e ∙ b) f
Keeps-trans (same a b c d e) (down f g h) = down (f ∙ a) (g ∙ b) h

module _ {C : Type 0} ⦃gob : Codec (Persisted C)⦄ where
  pub step_down-Keeps : (t : Clock) (rf : Raft C) (term : ℕ) → Keeps rf (step_down t rf term)
  unfolding step_down
  step_down-Keeps t rf term = down refl refl refl

  pub tick-Keeps : (t : Clock) (rf : Raft C) → Keeps rf (tick_follower t rf).0
  unfolding tick_follower
  tick-Keeps t rf = elim (Option-cases rf.election_deadline) [
    | inl unset ↦ rw (unset, tick_follower) (same refl refl refl refl refl)
    | inr (at, is_set) ↦ rw (is_set, tick_follower) (same refl refl refl refl refl)
  ]

  advance_from-Keeps : (n : ℕ) (rf r : Raft C) → Keeps rf r → Yields (Keeps rf) (advance_from n r)
  unfolding advance_from
  advance_from-Keeps zero rf r h = h
  advance_from-Keeps (suc n) rf r h =
      Yields-if (Keeps rf) (ltb r.commit_index (suc n)) _ _
        (λ _. Yields-then (Keeps rf) (of_current_term r (suc n)) _ λ current.
          Yields-if (Keeps rf) current _ _
            (λ _. Yields-then (Keeps rf) (count_agree r.peers r.match_index (suc n)) _ λ k.
              Yields-if (Keeps rf) (ltb (r.peers / 2) k) _ _
                (λ _. Keeps-trans h (same refl refl refl refl refl))
                (λ _. advance_from-Keeps n rf r h))
            (λ _. advance_from-Keeps n rf r h))
        (λ _. h)

  advance_commit-Keeps : (rf r : Raft C) → Keeps rf r → Yields (Keeps rf) (advance_commit r)
  unfolding advance_commit
  advance_commit-Keeps rf r h = advance_from-Keeps (last_log_index r) rf r h

  record_match-Keeps :
      (rf : Raft C) (peer new_match : ℕ) → Yields (Keeps rf) (record_match rf peer new_match)
  unfolding record_match
  record_match-Keeps rf peer new_match =
      Yields-then (Keeps rf) (or_panic (get_elem? rf.match_index peer)) _ λ m.
        Yields-then (Keeps rf)
          (if ltb m new_match then store rf.match_index peer new_match else ok rf.match_index) _
          λ matches. Yields-then (Keeps rf) (store rf.next_index peer (new_match + 1)) _ λ nexts.
            advance_commit-Keeps rf (record rf { match_index = matches; next_index = nexts })
              (same refl refl refl refl refl)

  back_up-Keeps :
      (rf : Raft C) (peer : ℕ) (reply : AppendEntriesReply)
      → Yields (Keeps rf) (back_up rf peer reply)
  unfolding back_up
  back_up-Keeps rf peer reply = Yields-then (Keeps rf) (backed_up rf reply) _ λ next.
      Yields-then (Keeps rf) (store rf.next_index peer (if ltb next 1 then 1 else next)) _
        λ nexts. same refl refl refl refl refl

  snapshot_acknowledged-Keeps :
      (rf : Raft C) (peer : ℕ) (args : InstallSnapshotArgs)
      → Yields (Keeps rf) (snapshot_acknowledged rf peer args)
  unfolding snapshot_acknowledged
  snapshot_acknowledged-Keeps rf peer args =
      Yields-then (Keeps rf) (or_panic (get_elem? rf.match_index peer)) _ λ m.
        Yields-then (Keeps rf) _ _ λ matches.
          Yields-then (Keeps rf) (or_panic (get_elem? rf.next_index peer)) _ λ n.
            Yields-then (Keeps rf) _ _ λ nexts.
              let r = record rf { match_index = matches; next_index = nexts } in
              Yields-bind (Keeps rf) (Keeps rf) (advance_commit r) _
                (advance_commit-Keeps rf r (same refl refl refl refl refl))
                λ r' e. Keeps-trans e (same refl refl refl refl refl)

  pub process_append_entries_reply-Keeps :
      (t : Clock) (rf : Raft C) (peer term prev : ℕ) (ent : List (LogEntry C))
      (reply : AppendEntriesReply)
      → Yields (Keeps rf) (process_append_entries_reply t rf peer term prev ent reply)
  unfolding process_append_entries_reply
  process_append_entries_reply-Keeps t rf peer term prev ent reply =
      Yields-if (Keeps rf) (rf.current_term == term) _ _
        (λ _.
          Yields-if (Keeps rf) (is_leader rf.server_state) _ _
            (λ _.
              Yields-if (Keeps rf) (ltb rf.current_term reply.term) _ _
                (λ newer. step_down-Keeps t rf reply.term)
                (λ _.
                  Yields-if (Keeps rf) reply.success _ _
                    (λ _. record_match-Keeps rf peer (prev + length ent))
                    (λ _. back_up-Keeps rf peer reply)))
            (λ _. same refl refl refl refl refl))
        (λ _. same refl refl refl refl refl)

  pub on_snapshot_reply-Keeps :
      (t : Clock) (rf : Raft C) (peer : ℕ) (args : InstallSnapshotArgs) (sent : Bool)
      (reply : InstallSnapshotReply)
      → Yields (Keeps rf) (on_snapshot_reply t rf peer args sent reply)
  unfolding on_snapshot_reply
  on_snapshot_reply-Keeps t rf peer args false reply = same refl refl refl refl refl
  on_snapshot_reply-Keeps t rf peer args true reply =
      Yields-if (Keeps rf) (rf.current_term == args.term) _ _
        (λ _.
          Yields-if (Keeps rf) (is_leader rf.server_state) _ _
            (λ _.
              Yields-if (Keeps rf) (ltb rf.current_term reply.term) _ _
                (λ newer. step_down-Keeps t rf reply.term)
                (λ _.
                  Yields-if (Keeps rf) (ltb reply.term rf.current_term) _ _
                    (λ _. same refl refl refl refl refl)
                    (λ _. snapshot_acknowledged-Keeps rf peer args)))
            (λ _. same refl refl refl refl refl))
        (λ _. same refl refl refl refl refl)
