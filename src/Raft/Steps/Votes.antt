-- ===== src/Raft/Steps/Votes.antt =====
-- src/raft/raft.go: the vote, the term and the saved state of a peer in a run of steps, with crashes
-- and restarts.
use distributed_systems_labs.Raft.Election.Grants.{request_vote-Grants, granted-voted}
use distributed_systems_labs.Base.{ℕ, ◌≡◌, refl, ◌∙◌, true, arith, Yields-eq}
use distributed_systems_labs.Raft.Types.{Codec, Clock, Raft, RequestVoteArgs, Persisted}
use distributed_systems_labs.Raft.Persist.{make_persister, persisted, make}
use distributed_systems_labs.Raft.Election.{request_vote}
use distributed_systems_labs.Raft.Compaction.{kill}
use distributed_systems_labs.Raft.Steps.Disk.{
  TermVote, TermVote-trans, TermVote-of_eq, Effect, kept, Effect-TermVote, IsDurable,
  Effect-IsDurable, make-recovers,
}
use distributed_systems_labs.Raft.Steps.Effects.{
  tick-Effect, request_vote-Effect, do_election-Effect, on_vote_reply-Effect,
  process_append_entries_reply-Effect, on_snapshot_reply-Effect,
}
use distributed_systems_labs.Raft.Steps.Receipts.{
  append_entries-Effect, install_snapshot-Effect, snapshot-Effect, start-Effect, apply_step-Effect,
  make-Effect,
}
use distributed_systems_labs.Raft.Steps.{
  Step, on_append_entries, on_request_vote, on_install_snapshot, on_tick, on_election, on_vote,
  on_append_reply, on_install_reply, on_snapshot, on_start, on_apply, on_kill, on_restart, Reach,
  here, next,
}

module _ {C : Type 0} ⦃gob : Codec (Persisted C)⦄ where
  pub Step-Effect : {rf rf' : Raft C} → IsDurable rf → Step rf rf' → Effect rf rf'
  unfolding kill
  Step-Effect {rf} d (on_append_entries t args e) =
      Yields-eq (λ out. Effect rf out.0) (append_entries-Effect t rf args) e
  Step-Effect {rf} d (on_request_vote t args) = request_vote-Effect t rf args
  Step-Effect {rf} d (on_install_snapshot args) = install_snapshot-Effect rf args
  Step-Effect {rf} d (on_tick t) = tick-Effect t rf
  Step-Effect {rf} d (on_election t) = do_election-Effect t rf
  Step-Effect {rf} d (on_vote t term sent reply e) =
      Yields-eq (Effect rf) (on_vote_reply-Effect t rf term sent reply) e
  Step-Effect {rf} d (on_append_reply t peer term prev ent reply e) =
      Yields-eq (Effect rf) (process_append_entries_reply-Effect t rf peer term prev ent reply) e
  Step-Effect {rf} d (on_install_reply t peer args sent reply e) =
      Yields-eq (Effect rf) (on_snapshot_reply-Effect t rf peer args sent reply) e
  Step-Effect {rf} d (on_snapshot index bytes e) =
      Yields-eq (Effect rf) (snapshot-Effect rf index bytes) e
  Step-Effect {rf} d (on_start command e) =
      Yields-eq (λ out. Effect rf out.0) (start-Effect rf command) e
  Step-Effect {rf} d (on_apply e) = Yields-eq (λ out. Effect rf out.0) (apply_step-Effect rf) e
  Step-Effect d on_kill = kept refl refl
  Step-Effect {rf} d on_restart = make-Effect rf d

  -- From a durable state every reachable state is durable, in a later term or with the vote kept.
  pub Reach-Effect :
      {rf rf' : Raft C} → IsDurable rf → Reach rf rf' → TermVote rf rf' × IsDurable rf'
  Reach-Effect d here = (TermVote-of_eq refl, d)
  Reach-Effect d (next r s) =
      let (v, d') = Reach-Effect d r in
      let e = Step-Effect d' s in (TermVote-trans v (Effect-TermVote e), Effect-IsDurable e d')

  pub fresh-IsDurable : (peers me : ℕ) → IsDurable (make {C = C} peers me make_persister).0
  unfolding make make_persister
  fresh-IsDurable peers me = refl

  -- In every state that a peer reaches from an empty persister, crashes and restarts included,
  -- Make on its persister gives back its vote, term, log and snapshot indices.
  pub Reach-recovers :
      (peers me : ℕ) {rf : Raft C}
      → Reach (make peers me make_persister).0 rf
      → persisted (make rf.peers rf.me rf.persister).0 ≡ persisted rf
  Reach-recovers peers me {rf} run =
      make-recovers rf.peers rf.me rf.persister ∙ (Reach-Effect (fresh-IsDurable peers me) run).1

  -- In every run of a peer from an empty persister, crashes and restarts included, the term of a
  -- later state is no lower, and if it is the same a vote that was given stays.
  pub Reach-TermVote :
      (peers me : ℕ) {rf rf' : Raft C}
      → Reach (make peers me make_persister).0 rf
      → Reach rf rf'
      → TermVote rf rf'
  Reach-TermVote peers me run more =
      (Reach-Effect (Reach-Effect (fresh-IsDurable peers me) run).1 more).0

  -- In every run of a peer from an empty persister, crashes and restarts included, two requests
  -- for votes of the same term that the peer grants, one after the other, name the same candidate.
  pub votes-once :
      (peers me : ℕ) {rf rf' : Raft C} (t t' : Clock) (a b : RequestVoteArgs)
      → Reach (make peers me make_persister).0 rf
      → (request_vote t rf a).1.vote_granted ≡ true
      → Reach (request_vote t rf a).0 rf'
      → (request_vote t' rf' b).1.vote_granted ≡ true
      → a.term ≡ b.term
      → a.candidate_id ≡ b.candidate_id
  votes-once peers me {rf} {rf'} t t' a b run first more second same =
      let (at, voted) = granted-voted t rf a first in
      let v = Reach-TermVote peers me (next run (on_request_vote t a)) more in
      let g = request_vote-Grants t' rf' b second in
      g.unbound (omega (arith, v.grows, g.current)) a.candidate_id
        (v.steady (omega (arith, v.grows, g.current)) a.candidate_id voted)
