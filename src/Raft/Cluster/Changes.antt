-- ===== src/Raft/Cluster/Changes.antt =====
-- What a change of one peer, or of one call, leaves true of a group.
use distributed_systems_labs.Base.{
  ℕ, ◌≡◌, refl, sym, ap, ◌∙◌, ◌≢◌, inl, inr, true, ◌&&◌, arith, ◌==◌, ==→eq, Bool-cases,
}
use distributed_systems_labs.Raft.Types.{Codec, Raft, Persisted}
use distributed_systems_labs.Raft.Steps.Disk.{TermVote, Effect, Effect-TermVote, Effect-IsDurable}
use distributed_systems_labs.Raft.Cluster.{
  Call, idle, backs, returned, Cluster, with_peer, with_call,
}
use distributed_systems_labs.Raft.Cluster.Ballots.{
  count_below_mono, Standing, Truthful, Fair, Truthful-TermVote,
}
use distributed_systems_labs.Raft.Steps.Roles.{Keeps, down, same}

pub all_three :
    (k i t term w v : ℕ) → (k == i && (t == term && w == v)) ≡ true → (k ≡ i) × (t ≡ term) × (w ≡ v)
all_three k i t term w v h = (ground arith, ground arith, ground arith)

pub cell :
    (f : ℕ → ℕ → ℕ → Call) {k i t term w v : ℕ} → k ≡ i → t ≡ term → w ≡ v → f k t w ≡ f i term v
cell f a b c = cc

module _ {C : Type 0} ⦃gob : Codec (Persisted C)⦄ where
  -- A peer that keeps its role and its votes, or turns follower, stands as before.
  pub Standing-Keeps :
      {n k : ℕ} {calls : ℕ → ℕ → Call} {rf rf' : Raft C}
      → Standing n calls k rf
      → Effect rf rf'
      → Keeps rf rf'
      → Standing n calls k rf'
  Standing-Keeps {calls} h e (down a b c) = record {
    named = a ∙ h.named;
    sized = b ∙ h.sized;
    durable = Effect-IsDurable e h.durable;
    unstarted = λ t lt. h.unstarted t (omega (arith, (Effect-TermVote e).grows));
    tallied = λ s. absurd (ground arith);
    elected = λ s. absurd (ground arith);
  }
  Standing-Keeps {n} {calls} h e (same a b c d v) = record {
    named = a ∙ h.named;
    sized = b ∙ h.sized;
    durable = Effect-IsDurable e h.durable;
    unstarted = λ t lt. h.unstarted t (omega (arith, (Effect-TermVote e).grows));
    tallied = λ s. rw (d, v) (h.tallied (sym c ∙ s));
    elected = λ s. rw d (h.elected (sym c ∙ s));
  }

  -- A change of one peer, which stands as it should and takes no vote back.
  pub with_peer-Fair :
      {n : ℕ} {c : Cluster C} (i : ℕ) {rf : Raft C}
      → Fair n c
      → Standing n (c.calls i) i rf
      → TermVote (c.peers i) rf
      → Fair n (with_peer c i rf)
  unfolding with_peer
  with_peer-Fair {n} {c} i {rf} h st tv = record {
    standing = λ k. elim (Bool-cases (k == i)) [
      | inl at ↦ rw at (rw (==→eq k i at) st)
      | inr off ↦ rw off (h.standing k)
    ];
    truthful = λ j term v. elim (Bool-cases (v == i)) [
      | inl at ↦ rw at (Truthful-TermVote (rw (==→eq v i at) (h.truthful j term i)) tv)
      | inr off ↦ rw off (h.truthful j term v)
    ];
    once = h.once;
  }

  pub step-Fair :
      {n : ℕ} {c : Cluster C} (i : ℕ) {rf : Raft C}
      → Fair n c
      → Effect (c.peers i) rf
      → Keeps (c.peers i) rf
      → Fair n (with_peer c i rf)
  step-Fair i h e k = with_peer-Fair i h (Standing-Keeps (h.standing i) e k) (Effect-TermVote e)

  -- The calls of a peer may change, if no later term starts and no vote that came back goes.
  pub Standing-calls :
      {n k : ℕ} {f g : ℕ → ℕ → Call} {rf : Raft C}
      → Standing n f k rf
      → ((t v : ℕ) → f t v ≡ idle → g t v ≡ idle)
      → ((t v : ℕ) → returned (f t v) ≡ true → returned (g t v) ≡ true)
      → Standing n g k rf
  Standing-calls {n} {rf} h unstarted kept' = record {
    named = h.named;
    sized = h.sized;
    durable = h.durable;
    unstarted = λ t lt v. unstarted t v (h.unstarted t lt v);
    tallied = λ s. omega (arith, h.tallied s, count_below_mono n (λ v. kept' rf.current_term v));
    elected = λ s. omega (arith, h.elected s, count_below_mono n (λ v. kept' rf.current_term v));
  }

  -- A change of one call, to one that its voter stands by.
  pub with_call-Fair :
      {n : ℕ} {c : Cluster C} (i term v : ℕ) {call : Call}
      → Fair n c
      → c.calls i term v ≢ idle
      → (returned (c.calls i term v) ≡ true → returned call ≡ true)
      → Truthful i term call (c.peers v)
      → ((j : ℕ) → backs call ≡ true → backs (c.calls j term v) ≡ true → i ≡ j)
      → Fair n (with_call c i term v call)
  unfolding with_call
  with_call-Fair {n} {c} i term v {call} h busy kept' told alone = record {
    standing = λ k.
        Standing-calls (h.standing k)
          (λ t w free. elim (Bool-cases (k == i && (t == term && w == v))) [
            | inl at ↦
                let (ek, et, ew) = all_three k i t term w v at in
                absurd (busy (sym (cell (c.calls) ek et ew) ∙ free))
            | inr off ↦ rw off free
          ])
          (λ t w back. elim (Bool-cases (k == i && (t == term && w == v))) [
            | inl at ↦
                let (ek, et, ew) = all_three k i t term w v at in
                rw at (kept' (ap returned (sym (cell (c.calls) ek et ew)) ∙ back))
            | inr off ↦ rw off back
          ]);
    truthful = λ j t w. elim (Bool-cases (j == i && (t == term && w == v))) [
      | inl at ↦ let (ej, et, ew) = all_three j i t term w v at in rw (at, ej, et, ew) told
      | inr off ↦ rw off (h.truthful j t w)
    ];
    once = λ j k t w. elim (Bool-cases (j == i && (t == term && w == v))) [
      | inl at ↦
          let (ej, et, ew) = all_three j i t term w v at in
          elim (Bool-cases (k == i && (t == term && w == v))) [
            | inl also ↦ λ _ _. let (ek, _, _) = all_three k i t term w v also in ej ∙ sym ek
            | inr off ↦
                rw (at, off) λ a b. ej ∙ alone k a (ap backs (sym (cell (c.calls) refl et ew)) ∙ b)
          ]
      | inr off ↦ elim (Bool-cases (k == i && (t == term && w == v))) [
        | inl at ↦
            rw (off, at)
              λ a b.
                let (ek, et, ew) = all_three k i t term w v at in
                sym (ek ∙ alone j b (ap backs (sym (cell (c.calls) refl et ew)) ∙ a))
        | inr neither ↦ rw (off, neither) (h.once j k t w)
      ]
    ];
  }
