-- ===== src/Raft/Cluster/Alone.antt =====
-- A group of one peer.
use distributed_systems_labs.Base.{
  ℕ, ◌<◌, ◌≡◌, sym, ◌∙◌, ◌≢◌, inl, inr, true, ◌&&◌, Option, none, some, arith, ltb, ◌==◌,
  Bool-cases,
}
use distributed_systems_labs.Raft.Types.{Codec, Clock, leader, Raft, RequestVoteArgs, Persisted}
use distributed_systems_labs.Raft.Persist.{make_persister, make}
use distributed_systems_labs.Raft.Election.{do_election}
use distributed_systems_labs.Raft.Cluster.{
  IsOpen, Cluster, with_peer, ask_all, begin, elect, boot, Move, runs, elects, votes, comes_back,
  fails, Reaches, booted, further,
}
use distributed_systems_labs.Raft.Cluster.Safety.{Step-Keeps}
use distributed_systems_labs.Raft.Steps.Roles.{Keeps, down, same}
use distributed_systems_labs.Raft.Steps.Polls.{Elects, waits, stands, do_election-Elects}

module _ {C : Type 0} ⦃gob : Codec (Persisted C)⦄ where
  -- No call is under way, and no peer leads.
  record Quiet (c : Cluster C) : Type 0 where
    closed : (i term v : ℕ) → IsOpen (c.calls i term v) → ⊥
    unled : (k : ℕ) → (c.peers k).server_state ≢ leader

  Keeps-unled :
      {rf rf' : Raft C} → Keeps rf rf' → rf.server_state ≢ leader → rf'.server_state ≢ leader
  Keeps-unled (down _ _ f) h e = absurd (ground arith)
  Keeps-unled (same _ _ s _ _) h e = h (sym s ∙ e)

  with_peer-Quiet :
      {c : Cluster C} (i : ℕ) (rf : Raft C)
      → rf.server_state ≢ leader
      → Quiet c
      → Quiet (with_peer c i rf)
  unfolding with_peer
  with_peer-Quiet {c} i rf h q = record {
    closed = q.closed;
    unled = λ k. elim (Bool-cases (k == i)) [ inl at ↦ rw at h | inr off ↦ rw off (q.unled k) ];
  }

  -- The only peer asks no other.
  ask_all-Quiet :
      {c : Cluster C} (i : ℕ) (args : RequestVoteArgs)
      → i < 1
      → Quiet c
      → Quiet (ask_all c 1 i args)
  unfolding ask_all
  ask_all-Quiet {c} i args lt q = record {
    closed = λ k t w o. elim (Bool-cases (k == i && (t == args.term && ltb w 1))) [
      | inl hit ↦ let own : (w == i) ≡ true = ground arith in absurd (rw own at (rw hit at o))
      | inr off ↦ q.closed k t w (rw off at o)
    ];
    unled = q.unled;
  }

  elect-Quiet : {c : Cluster C} (t : Clock) (i : ℕ) → i < 1 → Quiet c → Quiet (elect t 1 i c)
  unfolding elect begin
  elect-Quiet {c} t i lt q = go (do_election t (c.peers i)) (do_election-Elects t (c.peers i))
    where
      go :
          (out : Raft C × Option RequestVoteArgs)
          → Elects t (c.peers i) out
          → Quiet (begin 1 i c out)
      go (rf, none) (waits k) = with_peer-Quiet i rf (Keeps-unled k (q.unled i)) q
      go (rf, some args) (stands _ _ role _ _ _ _ _) =
          ask_all-Quiet i args lt (with_peer-Quiet i rf (λ e. absurd (ground arith)) q)

  Move-Quiet : {c d : Cluster C} → Move 1 c d → Quiet c → Quiet d
  Move-Quiet {c} (runs i {rf} s local) q =
      with_peer-Quiet i rf (Keeps-unled (Step-Keeps s local) (q.unled i)) q
  Move-Quiet (elects t i lt) q = elect-Quiet t i lt q
  Move-Quiet {c} (votes t i term v lt e) q = absurd (q.closed i term v (rw e tt))
  Move-Quiet {c} (comes_back t i term v lt e r) q = absurd (q.closed i term v (rw e tt))
  Move-Quiet (fails t i term v reply live r) q = absurd (q.closed i term v live)

  boot-Quiet : Quiet (boot {C = C} 1)
  unfolding boot make make_persister
  boot-Quiet = record { closed = λ i t v o. o; unled = λ k e. absurd (ground arith) }

  Reaches-Quiet : {c : Cluster C} → Reaches 1 (boot 1) c → Quiet c
  Reaches-Quiet booted = boot-Quiet
  Reaches-Quiet (further r m) = Move-Quiet m (Reaches-Quiet r)

  -- In no run of a group of one peer does the peer lead: it stands for election, but the majority
  -- is tested only when a reply comes in, and there is no other peer to ask.
  pub one_peer-unled :
      {c : Cluster C} (k : ℕ) → Reaches 1 (boot 1) c → (c.peers k).server_state ≢ leader
  one_peer-unled k run = (Reaches-Quiet run).unled k
