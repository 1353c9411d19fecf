-- ===== src/Raft/Leader/Commit.antt =====
-- src/raft/raft.go: advanceCommit, and the indices that a leader may commit.
use distributed_systems_labs.Base.{
  ℕ, zero, suc, ◌+◌, ◌/◌, ◌≤◌, ◌<◌, ◌≡◌, refl, ◌≢◌, inl, inr, Option, some, List, [], ◌∷◌, ◌++◌,
  arith, ltb, leb, ◌==◌, if◌then◌else◌, ltb→lt, lt→leb, ltb→le, ==→eq, ==→ne, le_suc-cases, length,
  take, get_elem?_total, take_all, take-suc, ok, Returns, returns, Returns-map, Returns-if,
}
use distributed_systems_labs.Raft.Types.{Raft, last_log_index}
use distributed_systems_labs.Raft.Log.{term_at}
use distributed_systems_labs.Raft.Log.Reads.{load-ok}
use distributed_systems_labs.Raft.Leader.{
  count_agree, of_current_term, advance_from, advance_commit,
}

-- How many of the match indices reach `n`.
abbrev pub supporters : ℕ → List ℕ → ℕ
supporters n [] = 0
supporters n (m ∷ ms) = (if leb n m then 1 else 0) + supporters n ms

supporters-append :
    (n : ℕ) (xs ys : List ℕ) → supporters n (xs ++ ys) ≡ supporters n xs + supporters n ys
supporters-append n [] ys = omega arith
supporters-append n (x ∷ xs) ys = omega (arith, supporters-append n xs ys)

-- The loop over the peers counts the supporters among the first `i`.
count_agree-take :
    (i : ℕ) (ms : List ℕ) (n : ℕ)
    → i ≤ length ms
    → count_agree i ms n ≡ ok (supporters n (take i ms))
unfolding count_agree
count_agree-take zero ms n h = refl
count_agree-take (suc i) ms n h =
    let (m, found) = get_elem?_total ms i (omega arith) in
    rw
      (
        count_agree-take i ms n (omega arith),
        found,
        take-suc i ms m found,
        supporters-append n (take i ms) (m ∷ []),
      )
      (ground arith)

pub count_agree-supporters :
    (ms : List ℕ) (n : ℕ) → count_agree (length ms) ms n ≡ ok (supporters n ms)
count_agree-supporters ms n =
    rw (count_agree-take (length ms) ms n (omega arith), take_all (length ms) ms (omega arith))

other_term : {o : Option ℕ} {a b : ℕ} → a ≢ b → o ≡ some a → o ≡ some b → ⊥
other_term ne p q = ground arith

module _ {C : Type 0} (rf : Raft C) where
  -- Index `n` holds an entry of the current term, and a strict majority of the peers has it.
  abbrev pub Committable : ℕ → Type 0
  Committable n =
      (term_at rf n ≡ some rf.current_term) × (rf.peers / 2 < supporters n rf.match_index)

  -- The state with commit index `c`, where no index above `c` and up to `n` can be committed.
  pub record AdvancedTo (n : ℕ) (rf' : Raft C) : Type 0 where
    pub only : rf' ≡ record rf { commit_index = rf'.commit_index }
    pub grows : rf.commit_index ≤ rf'.commit_index
    pub earned :
        rf.commit_index < rf'.commit_index → (rf'.commit_index ≤ n) × Committable rf'.commit_index
    pub largest : (m : ℕ) → rf'.commit_index < m → m ≤ n → ¬ Committable m

  -- The loop passes over an index that cannot be committed.
  widen : (n : ℕ) (rf' : Raft C) → ¬ Committable (suc n) → AdvancedTo n rf' → AdvancedTo (suc n) rf'
  widen n rf' refused a = record {
    only = a.only;
    grows = a.grows;
    earned = λ lt. (omega (arith, (a.earned lt).0), (a.earned lt).1);
    largest = λ m lo hi c. elim (le_suc-cases m n hi) [
      | inl old ↦ a.largest m lo old c
      | inr new ↦ refused (rw new at c)
    ];
  }

  module _ (covered : rf.last_included_index ≤ rf.commit_index)
      (sized : length rf.match_index ≡ rf.peers) where
    counted : (n : ℕ) → count_agree rf.peers rf.match_index n ≡ ok (supporters n rf.match_index)
    counted n = rw sized at (count_agree-supporters rf.match_index n)

    advance_from-AdvancedTo :
        (n : ℕ) → n ≤ last_log_index rf → Returns (AdvancedTo n) (advance_from n rf)
    unfolding advance_from of_current_term
    advance_from-AdvancedTo zero h = returns (record {
      only = refl;
      grows = omega arith;
      earned = λ lt. absurd (omega arith);
      largest = λ m lo hi. absurd (omega arith);
    })
    advance_from-AdvancedTo (suc n) h =
        Returns-if (ltb rf.commit_index (suc n))
          (λ above.
            let lt = ltb→lt _ _ above in
            let (e, loaded, _, term) = load-ok rf (suc n) (omega arith) h in
            rw (lt→leb (suc n) rf.last_included_index (omega arith), loaded)
              (Returns-if (e.term == rf.current_term)
                (λ current. rw (counted (suc n)) (
                  Returns-if (ltb (rf.peers / 2) (supporters (suc n) rf.match_index))
                    (λ majority. returns (record {
                      only = refl;
                      grows = omega arith;
                      earned =
                          λ _. (omega arith, (rw (← ==→eq _ _ current) term, ltb→lt _ _ majority));
                      largest = λ m lo hi. absurd (omega arith);
                    }))
                    (λ few.
                      Returns-map (advance_from-AdvancedTo n (omega arith))
                        (λ r. widen n r (λ c. omega (arith, ltb→le _ _ few, c.1))))))
                (λ older.
                  Returns-map (advance_from-AdvancedTo n (omega arith))
                    (λ r. widen n r (λ c. other_term (==→ne _ _ older) term c.0)))))
          (λ stop. returns (record {
            only = refl;
            grows = omega arith;
            earned = λ lt. absurd (omega arith);
            largest = λ m lo hi. absurd (omega (arith, ltb→le _ _ stop));
          }))

    -- If the snapshot of a peer is committed and it has a match index for each peer, advanceCommit
    -- returns and changes the commit index only: it does not fall, a new one is in the log, of the
    -- current term and reached by the match indices of a strict majority, and no higher index of
    -- the log is so.
    pub advance_commit-AdvancedTo : Returns (AdvancedTo (last_log_index rf)) (advance_commit rf)
    unfolding advance_commit
    advance_commit-AdvancedTo = advance_from-AdvancedTo (last_log_index rf) (omega arith)
