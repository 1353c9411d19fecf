-- ===== src/Raft/Cluster/Ballots.antt =====
-- The votes of a group: how they are counted, and what holds of each peer and of each call.
use distributed_systems_labs.Base.{
  ℕ, zero, suc, ◌+◌, ◌/◌, ◌≤◌, ◌<◌, ◌≡◌, refl, sym, ap, ◌∙◌, inl, inr, Bool, true, false, some,
  arith, ◌==◌, ==→eq, ==→ne, Bool-cases, one,
}
use distributed_systems_labs.Raft.Types.{Codec, leader, candidate, Raft, RequestVoteArgs, Persisted}
use distributed_systems_labs.Raft.Steps.Disk.{TermVote, IsDurable}
use distributed_systems_labs.Raft.Cluster.{
  Call, idle, asked, answered, finished, backs, returned, IsOpen, Cluster,
}

-- How many of the first `n` numbers pass the test.
abbrev pub count_below : ℕ → (ℕ → Bool) → ℕ
count_below zero f = 0
count_below (suc n) f = one (f n) + count_below n f

one_mono : {a b : Bool} → (a ≡ true → b ≡ true) → one a ≤ one b
one_mono {a = false} {b = b} h = omega arith
one_mono {a = true} {b = b} h = rw (h refl) (omega arith)

pub count_below_mono :
    (n : ℕ) {f g : ℕ → Bool}
    → ((v : ℕ) → f v ≡ true → g v ≡ true)
    → count_below n f ≤ count_below n g
count_below_mono zero h = omega arith
count_below_mono (suc n) h = omega (arith, one_mono (h n), count_below_mono n h)

one_less : {a b : Bool} → a ≡ false → b ≡ true → one a + 1 ≤ one b
one_less h k = rw (h, k) (omega arith)

pub count_below-more :
    (n v : ℕ) {f g : ℕ → Bool}
    → v < n
    → ((w : ℕ) → f w ≡ true → g w ≡ true)
    → f v ≡ false
    → g v ≡ true
    → count_below n f + 1 ≤ count_below n g
count_below-more zero v lt h no' yes' = absurd (omega arith)
count_below-more (suc n) v {f} {g} lt h no' yes' = elim (Bool-cases (v == n)) [
  | inl last ↦
      let e = ==→eq v n last in
      omega (arith, one_less (ap f (sym e) ∙ no') (ap g (sym e) ∙ yes'), count_below_mono n h)
  | inr before ↦
      let ne = ==→ne v n before in
      let lt' : v < n = ground arith in
      omega (arith, one_mono (h n), count_below-more n v lt' h no' yes')
]

one_apart : {a b : Bool} → (a ≡ true → b ≡ true → ⊥) → one a + one b ≤ 1
one_apart {a = false} {b = false} h = omega arith
one_apart {a = false} {b = true} h = omega arith
one_apart {a = true} {b = false} h = omega arith
one_apart {a = true} {b = true} h = absurd (h refl refl)

pub count_below-apart :
    (n : ℕ) {f g : ℕ → Bool}
    → ((v : ℕ) → f v ≡ true → g v ≡ true → ⊥)
    → count_below n f + count_below n g ≤ n
count_below-apart zero h = omega arith
count_below-apart (suc n) h = omega (arith, one_apart (h n), count_below-apart n h)

-- The votes that came back to a candidate from the calls of one term.
abbrev pub votes_of : ℕ → (ℕ → Call) → ℕ
votes_of n calls = count_below n (λ v. returned (calls v))

pub returned-backs : (call : Call) → returned call ≡ true → backs call ≡ true
returned-backs (finished granted) h = h
returned-backs (answered reply) h = absurd (ground arith)
returned-backs idle h = absurd (ground arith)
returned-backs (asked args) h = absurd (ground arith)

pub IsOpen-returned : (call : Call) → IsOpen call → returned call ≡ false
IsOpen-returned (asked args) o = refl
IsOpen-returned (answered reply) o = refl
IsOpen-returned idle o = refl
IsOpen-returned (finished b) o = absurd o

module _ {C : Type 0} ⦃gob : Codec (Persisted C)⦄ where
  -- What holds of peer `k`, whose calls are `calls`.
  pub record Standing (n : ℕ) (calls : ℕ → ℕ → Call) (k : ℕ) (rf : Raft C) : Type 0 where
    pub named : rf.me ≡ k
    pub sized : rf.peers ≡ n
    pub durable : IsDurable rf
    pub unstarted : (t : ℕ) → rf.current_term < t → (v : ℕ) → calls t v ≡ idle
    pub tallied :
        rf.server_state ≡ candidate → rf.votes_received ≤ votes_of n (calls rf.current_term)
    pub elected : rf.server_state ≡ leader → n / 2 < votes_of n (calls rf.current_term)

  -- What holds of the call of candidate `i` in a term, to the peer `rf`.
  pub record Truthful (i term : ℕ) (call : Call) (rf : Raft C) : Type 0 where
    pub asks :
        (args : RequestVoteArgs) → call ≡ asked args → (args.term ≡ term) × (args.candidate_id ≡ i)
    pub reached : backs call ≡ true → term ≤ rf.current_term
    pub voted : backs call ≡ true → rf.current_term ≡ term → rf.voted_for ≡ some i

  pub record Fair (n : ℕ) (c : Cluster C) : Type 0 where
    pub standing : (k : ℕ) → Standing n (c.calls k) k (c.peers k)
    pub truthful : (i term v : ℕ) → Truthful i term (c.calls i term v) (c.peers v)
    pub once :
        (i j term v : ℕ) → backs (c.calls i term v) ≡ true → backs (c.calls j term v) ≡ true → i ≡ j

  -- A call stays truthful when its voter moves on without taking its vote back.
  pub Truthful-TermVote :
      {i term : ℕ} {call : Call} {rf rf' : Raft C}
      → Truthful i term call rf
      → TermVote rf rf'
      → Truthful i term call rf'
  Truthful-TermVote {i} h v = record {
    asks = h.asks;
    reached = λ b. omega (arith, h.reached b, v.grows);
    voted = λ b e.
        let now : _ ≡ _ = omega (arith, h.reached b, v.grows) in
        v.steady now i (h.voted b (omega (arith, h.reached b, v.grows)));
  }
