-- ===== src/Raft/Cluster/Elections.antt =====
-- What an election, a request for a vote and its reply leave true of a group.
use distributed_systems_labs.Base.{
  ℕ, zero, suc, ◌+◌, ◌≤◌, ◌<◌, ◌≡◌, refl, sym, ap, ◌∙◌, inl, inr, Bool, true, false, ◌&&◌, some,
  arith, ltb, ◌==◌, if◌then◌else◌, ==→eq, Bool-cases,
}
use distributed_systems_labs.Raft.Types.{Codec, candidate, Raft, RequestVoteArgs, Persisted}
use distributed_systems_labs.Raft.Steps.Disk.{Effect, Effect-TermVote, Effect-IsDurable}
use distributed_systems_labs.Raft.Cluster.{
  Call, asked, finished, backs, returned, Cluster, with_peer, ask_all,
}
use distributed_systems_labs.Raft.Cluster.Ballots.{
  count_below, count_below-more, votes_of, Fair, Truthful-TermVote,
}
use distributed_systems_labs.Raft.Cluster.Changes.{Standing-calls}

none_below : (n : ℕ) → count_below n (λ w. false) ≡ 0
none_below zero = refl
none_below (suc n) = omega (arith, none_below n)

pub both : (k t i term : ℕ) (b : Bool) → (k == i && (t == term && b)) ≡ true → (k ≡ i) × (t ≡ term)
both k t i term b h = (ground arith, ground arith)

own_vote :
    (own : Bool) (args : RequestVoteArgs)
    → backs (if own then finished true else asked args) ≡ true
    → own ≡ true
own_vote true args h = refl
own_vote false args h = h

-- The candidate's own vote counts at once.
own_call :
    (n i : ℕ) (args : RequestVoteArgs) (f : ℕ → Call) {votes term : ℕ}
    → i < n
    → term ≡ args.term
    → votes ≡ 1
    → votes
      ≤ votes_of n (λ w.
        if i == i && (term == args.term && ltb w n)
        then (if w == i then finished true else asked args)
        else f w)
own_call n i args f {votes} {term} lt e one_vote =
    let ask : ℕ → Call = λ w.
      if i == i && (term == args.term && ltb w n)
      then (if w == i then finished true else asked args)
      else f w in
    let same_term : (term == args.term) ≡ true = ground arith in
    let inside : ltb i n ≡ true = ground arith in
    let self : (i == i) ≡ true = ground arith in
    let mine : returned (ask i) ≡ true = rw (same_term, inside, self) refl in
    omega (
      arith,
      none_below n,
      count_below-more n i {f = λ w. false} {g = λ w. returned (ask w)} lt
          (λ w h. absurd (ground arith)) refl mine,
    )

module _ {C : Type 0} ⦃gob : Codec (Persisted C)⦄ where
  -- A peer stands in a term in which it has no calls yet, and asks every other peer.
  pub ask_all-Fair :
      {n : ℕ} {c : Cluster C} (i : ℕ) {rf : Raft C} (args : RequestVoteArgs)
      → i < n
      → Fair n c
      → Effect (c.peers i) rf
      → rf.me ≡ i
      → rf.peers ≡ n
      → rf.server_state ≡ candidate
      → rf.votes_received ≡ 1
      → rf.voted_for ≡ some i
      → rf.current_term ≡ (c.peers i).current_term + 1
      → args.term ≡ (c.peers i).current_term + 1
      → args.candidate_id ≡ i
      → Fair n (ask_all (with_peer c i rf) n i args)
  unfolding ask_all with_peer
  ask_all-Fair {n} {c} i {rf} args lt h e me sized role one_vote own now term id =
      let at_i = h.standing i in
      let fresh : (j w : ℕ) → (w == i) ≡ true → backs (c.calls j args.term w) ≡ true → ⊥ =
        λ j w at b.
          let reached = (h.truthful j args.term w).reached b in
          let same_peer : (c.peers w).current_term ≡ (c.peers i).current_term =
            ap (λ p. (c.peers p).current_term) (==→eq w i at) in
          omega arith in
      record {
        standing = λ k. elim (Bool-cases (k == i)) [
          | inl at ↦ rw at (
              rw (==→eq k i at) (record {
                named = me;
                sized = sized;
                durable = Effect-IsDurable e at_i.durable;
                unstarted = λ t later v.
                    let miss : (i == i && (t == args.term && ltb v n)) ≡ false = ground arith in
                    rw miss (at_i.unstarted t (omega arith) v);
                tallied =
                    λ _. own_call n i args (c.calls i rf.current_term) lt (now ∙ sym term) one_vote;
                elected = λ s. absurd (ground arith);
              }))
          | inr off ↦
              let miss : (t w : ℕ) → (k == i && (t == args.term && ltb w n)) ≡ false =
                λ t w. ground arith in
              rw off (
                Standing-calls (h.standing k) (λ t w free. rw (miss t w) free)
                  (λ t w back. rw (miss t w) back))
        ];
        truthful = λ j t w. elim (Bool-cases (j == i && (t == args.term && ltb w n))) [
          | inl asked_now ↦
              let (ej, et) = both j t i args.term (ltb w n) asked_now in
              elim (Bool-cases (w == i)) [
                | inl at ↦
                    rw (asked_now, at, ej, et)
                      (record {
                        asks = λ a q. absurd (ground arith);
                        reached = λ _. omega arith;
                        voted = λ _ _. own;
                      })
                | inr other ↦
                    rw (asked_now, other, ej, et)
                      (record {
                        asks = λ a q. (ground arith, ground arith);
                        reached = λ b. absurd (ground arith);
                        voted = λ b. absurd (ground arith);
                      })
              ]
          | inr off ↦ rw off (elim (Bool-cases (w == i)) [
            | inl at ↦
                rw at (Truthful-TermVote (rw (==→eq w i at) (h.truthful j t i)) (Effect-TermVote e))
            | inr other ↦ rw other (h.truthful j t w)
          ])
        ];
        once = λ j k t w. elim (Bool-cases (j == i && (t == args.term && ltb w n))) [
          | inl at ↦ elim (Bool-cases (k == i && (t == args.term && ltb w n))) [
            | inl also ↦ λ _ _.
                (both j t i args.term (ltb w n) at).0 ∙ sym (both k t i args.term (ltb w n) also).0
            | inr off ↦
                rw (at, off)
                  λ a b. absurd (
                    fresh k w (own_vote (w == i) args a) (
                      ap (λ x. backs (c.calls k x w)) (sym (both j t i args.term (ltb w n) at).1)
                      ∙ b))
          ]
          | inr off ↦ elim (Bool-cases (k == i && (t == args.term && ltb w n))) [
            | inl at ↦
                rw (off, at)
                  λ a b. absurd (
                    fresh j w (own_vote (w == i) args b) (
                      ap (λ x. backs (c.calls j x w)) (sym (both k t i args.term (ltb w n) at).1)
                      ∙ a))
            | inr neither ↦ rw (off, neither) (h.once j k t w)
          ]
        ];
      }
