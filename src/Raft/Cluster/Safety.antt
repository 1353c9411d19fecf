-- ===== src/Raft/Cluster/Safety.antt =====
-- The leaders of a group of peers, over all its runs.
use distributed_systems_labs.Base.{
  ℕ, ◌/◌, ◌<◌, ◌≡◌, refl, ap, inl, inr, true, arith, ◌==◌, ==→eq, ==→ne, Bool-cases, Yields-eq,
}
use distributed_systems_labs.Raft.Types.{Codec, leader, Raft, Persisted}
use distributed_systems_labs.Raft.Persist.{make_persister, make}
use distributed_systems_labs.Raft.Compaction.{kill}
use distributed_systems_labs.Raft.Steps.{
  Step, on_append_entries, on_request_vote, on_install_snapshot, on_tick, on_election, on_vote,
  on_append_reply, on_install_reply, on_snapshot, on_start, on_apply, on_kill, on_restart,
}
use distributed_systems_labs.Raft.Cluster.{
  returned, IsLocal, Cluster, with_peer, deliver, boot, Move, runs, elects, votes, comes_back,
  fails, Reaches, booted, further,
}
use distributed_systems_labs.Raft.Cluster.Ballots.{
  count_below_mono, count_below-apart, votes_of, Fair, returned-backs, IsOpen-returned,
}
use distributed_systems_labs.Raft.Steps.Roles.{
  Keeps, same, tick-Keeps, process_append_entries_reply-Keeps, on_snapshot_reply-Keeps,
}
use distributed_systems_labs.Raft.Steps.Followers.{
  append_entries-Keeps, install_snapshot-Keeps, snapshot-Keeps, start-Keeps, apply_step-Keeps,
  make-Keeps,
}
use distributed_systems_labs.Raft.Steps.Polls.{request_vote-Keeps}
use distributed_systems_labs.Raft.Cluster.Changes.{step-Fair}
use distributed_systems_labs.Raft.Cluster.Moves.{
  with_call-returned, elect-returned, elect-Fair, deliver-Fair, comes_back-Fair, fails-Fair,
}
use distributed_systems_labs.Raft.Steps.Votes.{Step-Effect, fresh-IsDurable}

module _ {C : Type 0} ⦃gob : Codec (Persisted C)⦄ where
  pub Step-Keeps : {rf rf' : Raft C} (s : Step rf rf') → IsLocal s → Keeps rf rf'
  unfolding kill
  Step-Keeps {rf} (on_append_entries t args e) _ =
      Yields-eq (λ out. Keeps rf out.0) (append_entries-Keeps t rf args) e
  Step-Keeps {rf} (on_request_vote t args) _ = request_vote-Keeps t rf args
  Step-Keeps {rf} (on_install_snapshot args) _ = install_snapshot-Keeps rf args
  Step-Keeps {rf} (on_tick t) _ = tick-Keeps t rf
  Step-Keeps (on_election t) local = absurd local
  Step-Keeps (on_vote t term sent reply e) local = absurd local
  Step-Keeps {rf} (on_append_reply t peer term prev ent reply e) _ =
      Yields-eq (Keeps rf) (process_append_entries_reply-Keeps t rf peer term prev ent reply) e
  Step-Keeps {rf} (on_install_reply t peer args sent reply e) _ =
      Yields-eq (Keeps rf) (on_snapshot_reply-Keeps t rf peer args sent reply) e
  Step-Keeps {rf} (on_snapshot index bytes e) _ =
      Yields-eq (Keeps rf) (snapshot-Keeps rf index bytes) e
  Step-Keeps {rf} (on_start command e) _ =
      Yields-eq (λ out. Keeps rf out.0) (start-Keeps rf command) e
  Step-Keeps {rf} (on_apply e) _ = Yields-eq (λ out. Keeps rf out.0) (apply_step-Keeps rf) e
  Step-Keeps on_kill _ = same refl refl refl refl refl
  Step-Keeps {rf} on_restart _ = make-Keeps rf

  Move-Fair : {n : ℕ} {c d : Cluster C} → Move n c d → Fair n c → Fair n d
  Move-Fair (runs i s local) h =
      step-Fair i h (Step-Effect (h.standing i).durable s) (Step-Keeps s local)
  Move-Fair (elects t i lt) h = elect-Fair t i lt h
  Move-Fair (votes t i term v lt e) h = deliver-Fair t i term v e h
  Move-Fair (comes_back t i term v lt e r) h = comes_back-Fair t i term v lt e r h
  Move-Fair (fails t i term v reply live r) h = fails-Fair t i term v reply live r h

  boot-Fair : (n : ℕ) → Fair n (boot {C = C} n)
  unfolding boot make make_persister
  boot-Fair n = record {
    standing = λ k. record {
      named = refl;
      sized = refl;
      durable = fresh-IsDurable n k;
      unstarted = λ t _ v. refl;
      tallied = λ s. absurd (ground arith);
      elected = λ s. absurd (ground arith);
    };
    truthful = λ i term v. record {
      asks = λ a e. absurd (ground arith);
      reached = λ b. absurd (ground arith);
      voted = λ b. absurd (ground arith);
    };
    once = λ i j term v b. absurd (ground arith);
  }

  Reaches-Fair : {n : ℕ} {c d : Cluster C} → Reaches n c d → Fair n c → Fair n d
  Reaches-Fair booted h = h
  Reaches-Fair (further r m) h = Move-Fair m (Reaches-Fair r h)

  -- A vote that came back stays so.
  Move-returned :
      {n : ℕ} {c d : Cluster C} (i term v : ℕ)
      → Fair n c
      → Move n c d
      → returned (c.calls i term v) ≡ true
      → returned (d.calls i term v) ≡ true
  unfolding with_peer deliver
  Move-returned i term v h (runs k s local) b = b
  Move-returned i term v h (elects t k lt) b = elect-returned t k i term v h b
  Move-returned {c} i term v h (votes t k q w lt e) b =
      with_call-returned c k q w _ i term v (ap returned e) b
  Move-returned {c} i term v h (comes_back t k q w lt e r) b =
      with_call-returned c k q w _ i term v (ap returned e) b
  Move-returned {c} i term v h (fails t k q w reply live r) b =
      with_call-returned c k q w _ i term v (IsOpen-returned (c.calls k q w) live) b

  Reaches-returned :
      {n : ℕ} {c d : Cluster C} (i term v : ℕ)
      → Fair n c
      → Reaches n c d
      → returned (c.calls i term v) ≡ true
      → returned (d.calls i term v) ≡ true
  Reaches-returned i term v h booted b = b
  Reaches-returned i term v h (further r m) b =
      Move-returned i term v (Reaches-Fair r h) m (Reaches-returned i term v h r b)

  -- In every run of a group of peers from empty persisters, with crashes, restarts, lost and late
  -- messages, two peers that lead in the same term, at the same time or one after the other, are
  -- the same.
  pub one_leader :
      {n : ℕ} {c d : Cluster C} (i j : ℕ)
      → Reaches n (boot n) c
      → Reaches n c d
      → (c.peers i).server_state ≡ leader
      → (d.peers j).server_state ≡ leader
      → (c.peers i).current_term ≡ (d.peers j).current_term
      → i ≡ j
  one_leader {n} {c} {d} i j run more lead_i lead_j term = elim (Bool-cases (i == j)) [
    | inl equal ↦ ==→eq i j equal
    | inr differ ↦
        let t = (c.peers i).current_term in
        let hc = Reaches-Fair run (boot-Fair n) in
        let hd = Reaches-Fair more hc in
        let first = (hc.standing i).elected lead_i in
        let second : n / 2 < votes_of n (d.calls j t) = rw term ((hd.standing j).elected lead_j) in
        let still =
          count_below_mono n {f = λ v. returned (c.calls i t v)} {g = λ v. returned (d.calls i t v)}
            (λ v. Reaches-returned i t v hc more) in
        let apart =
          count_below-apart n {f = λ v. returned (d.calls i t v)}
            {g = λ v. returned (d.calls j t v)}
            (λ v a b. ==→ne i j differ (
              hd.once i j t v (returned-backs (d.calls i t v) a)
                (returned-backs (d.calls j t v) b))) in
        absurd (omega arith)
  ]
