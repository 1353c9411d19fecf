-- ===== src/Raft/Cluster/Moves.antt =====
-- What each move of a group leaves true of it.
use distributed_systems_labs.Base.{
  ℕ, ◌+◌, ◌≤◌, ◌<◌, ◌≡◌, refl, sym, ap, ◌∙◌, inl, inr, true, false, ◌&&◌, Option, some, arith, ltb,
  ◌==◌, Bool-cases, ok, Yields-eq,
}
use distributed_systems_labs.Raft.Types.{
  Codec, Clock, Raft, RequestVoteArgs, RequestVoteReply, Persisted,
}
use distributed_systems_labs.Raft.Election.{request_vote, do_election, on_vote_reply}
use distributed_systems_labs.Raft.Steps.Disk.{Effect, Effect-TermVote, Effect-IsDurable}
use distributed_systems_labs.Raft.Election.Grants.{granted-voted}
use distributed_systems_labs.Raft.Cluster.{
  Call, asked, answered, finished, backs, returned, IsOpen, Cluster, with_peer, with_call, ask_all,
  begin, elect, deliver,
}
use distributed_systems_labs.Raft.Cluster.Ballots.{
  count_below-more, votes_of, Truthful, Fair, IsOpen-returned,
}
use distributed_systems_labs.Raft.Steps.Polls.{
  request_vote-Keeps, Elects, waits, stands, do_election-Elects, Polls, quiet, counts,
  on_vote_reply-Polls,
}
use distributed_systems_labs.Raft.Cluster.Changes.{
  all_three, cell, with_peer-Fair, step-Fair, with_call-Fair,
}
use distributed_systems_labs.Raft.Steps.Effects.{
  request_vote-Effect, do_election-Effect, on_vote_reply-Effect,
}
use distributed_systems_labs.Raft.Cluster.Elections.{both, ask_all-Fair}

some_inj : {i j : ℕ} → some i ≡ some j → i ≡ j
some_inj e = ground arith

module _ {C : Type 0} ⦃gob : Codec (Persisted C)⦄ where
  pub elect-Fair :
      {n : ℕ} {c : Cluster C} (t : Clock) (i : ℕ) → i < n → Fair n c → Fair n (elect t n i c)
  unfolding elect begin
  elect-Fair {n} {c} t i lt h =
      go (do_election t (c.peers i)) (do_election-Effect t (c.peers i))
        (do_election-Elects t (c.peers i))
    where
      go :
          (out : Raft C × Option RequestVoteArgs)
          → Effect (c.peers i) out.0
          → Elects t (c.peers i) out
          → Fair n (begin n i c out)
      go _ e (waits k) = step-Fair i h e k
      go (rf, some args) e (stands me peers role now one_vote own term id) =
          let named = (h.standing i).named in
          ask_all-Fair i args lt h e (me ∙ named) (peers ∙ (h.standing i).sized) role one_vote
            (own ∙ ap some named) now term (id ∙ named)

  told_granted :
      {i term : ℕ} {reply : RequestVoteReply} {rf : Raft C}
      → Truthful i term (answered reply) rf
      → Truthful i term (finished reply.vote_granted) rf
  told_granted h = record {
    asks = λ args e. absurd (ground arith);
    reached = h.reached;
    voted = h.voted;
  }

  pub deliver-Fair :
      {n : ℕ} {c : Cluster C} (t : Clock) (i term v : ℕ) {args : RequestVoteArgs}
      → c.calls i term v ≡ asked args
      → Fair n c
      → Fair n (deliver t i term v args c)
  unfolding deliver with_peer
  deliver-Fair {n} {c} t i term v {args} open' h =
      let out = request_vote t (c.peers v) args in
      let moved =
        step-Fair v h (request_vote-Effect t (c.peers v) args)
          (request_vote-Keeps t (c.peers v) args) in
      let (same_term, same_id) = (h.truthful i term v).asks args open' in
      let here' : (with_peer c v out.0).peers v ≡ out.0 =
        let self : (v == v) ≡ true = ground arith in rw self refl in
      let voted : out.1.vote_granted ≡ true
          → (out.0.current_term ≡ term) × (out.0.voted_for ≡ some i) =
        λ g.
          let (a, b) = granted-voted t (c.peers v) args g in (a ∙ same_term, b ∙ ap some same_id) in
      with_call-Fair i term v moved (λ e. absurd (ground (arith, open', e)))
        (λ e. absurd (ground (arith, ap returned open', e)))
        (rw here' (record {
          asks = λ a e. absurd (ground arith);
          reached = λ g. omega (arith, (voted g).0);
          voted = λ g _. (voted g).1;
        }))
        (λ j g b.
          let other = (rw here' at (moved.truthful j term v)).voted b (voted g).0 in
          some_inj (sym (voted g).1 ∙ other))

  finish-Fair :
      {n : ℕ} {c : Cluster C} (i term v : ℕ) {reply : RequestVoteReply}
      → c.calls i term v ≡ answered reply
      → Fair n c
      → Fair n (with_call c i term v (finished reply.vote_granted))
  finish-Fair {c} i term v {reply} e h =
      with_call-Fair i term v h (λ q. absurd (ground (arith, e, q)))
        (λ q. absurd (ground (arith, ap returned e, q)))
        (told_granted (rw e at (h.truthful i term v)))
        (λ j g b. h.once i j term v (ap backs e ∙ g) b)

  -- A granted vote that comes back is one more.
  with_call-more :
      (n : ℕ) (c : Cluster C) (i term v : ℕ) (reply : RequestVoteReply)
      → v < n
      → c.calls i term v ≡ answered reply
      → reply.vote_granted ≡ true
      → votes_of n (c.calls i term) + 1
        ≤ votes_of n ((with_call c i term v (finished reply.vote_granted)).calls i term)
  unfolding with_call
  with_call-more n c i term v reply lt e granted =
      count_below-more n v lt
        (λ w back. elim (Bool-cases (i == i && (term == term && w == v))) [
          | inl at ↦ rw at granted
          | inr off ↦ rw off back
        ])
        (ap returned e)
        (let self : (i == i && (term == term && v == v)) ≡ true = ground arith in rw self granted)

  pub comes_back-Fair :
      {n : ℕ} {c : Cluster C} (t : Clock) (i term v : ℕ) {reply : RequestVoteReply} {rf : Raft C}
      → v < n
      → c.calls i term v ≡ answered reply
      → on_vote_reply t (c.peers i) term true reply ≡ ok rf
      → Fair n c
      → Fair n (with_peer (with_call c i term v (finished reply.vote_granted)) i rf)
  unfolding with_call
  comes_back-Fair {n} {c} t i term v {reply} {rf} lt e r h =
      let fin = finish-Fair i term v e h in
      let ef =
        Yields-eq (Effect (c.peers i)) (on_vote_reply-Effect t (c.peers i) term true reply) r in
      let st = fin.standing i in
      let row = (with_call c i term v (finished reply.vote_granted)).calls i in
      elim (Yields-eq (Polls term true reply (c.peers i))
        (on_vote_reply-Polls t (c.peers i) term true reply) r) [
          | quiet k ↦ step-Fair i fin ef k
          | counts me peers role now later' granted more most ↦
              let before : (c.peers i).votes_received ≤ votes_of n (c.calls i term) =
                rw now at ((h.standing i).tallied role) in
              let after : rf.votes_received ≤ votes_of n (row rf.current_term) =
                rw later' (omega (arith, with_call-more n c i term v reply lt e granted)) in
              with_peer-Fair i fin
                (record {
                  named = me ∙ st.named;
                  sized = peers ∙ st.sized;
                  durable = Effect-IsDurable ef st.durable;
                  unstarted = λ t lt. st.unstarted t (omega arith);
                  tallied = λ s. after;
                  elected = λ s. omega (arith, most s, st.sized);
                })
                (Effect-TermVote ef)
        ]

  pub fails-Fair :
      {n : ℕ} {c : Cluster C} (t : Clock) (i term v : ℕ) (reply : RequestVoteReply) {rf : Raft C}
      → IsOpen (c.calls i term v)
      → on_vote_reply t (c.peers i) term false reply ≡ ok rf
      → Fair n c
      → Fair n (with_peer (with_call c i term v (finished false)) i rf)
  unfolding with_call
  fails-Fair {n} {c} t i term v reply {rf} live r h =
      let none_back = IsOpen-returned (c.calls i term v) live in
      let fin =
        with_call-Fair i term v {call = finished false} h (λ q. rw q at live)
          (λ q. sym none_back ∙ q)
          (record {
            asks = λ args e. absurd (ground arith);
            reached = λ b. absurd (ground arith);
            voted = λ b. absurd (ground arith);
          })
          (λ j g. absurd (ground arith)) in
      let ef =
        Yields-eq (Effect (c.peers i)) (on_vote_reply-Effect t (c.peers i) term false reply) r in
      elim (Yields-eq (Polls term false reply (c.peers i))
        (on_vote_reply-Polls t (c.peers i) term false reply) r) [
          | quiet k ↦ step-Fair i fin ef k
          | counts _ _ _ _ _ granted _ _ ↦ absurd (ground arith)
        ]

  -- A vote that came back stays so, whatever another call becomes.
  pub with_call-returned :
      (c : Cluster C) (k q w : ℕ) (call : Call) (i term v : ℕ)
      → returned (c.calls k q w) ≡ false
      → returned (c.calls i term v) ≡ true
      → returned ((with_call c k q w call).calls i term v) ≡ true
  unfolding with_call
  with_call-returned c k q w call i term v out b =
      elim (Bool-cases (i == k && (term == q && v == w))) [
        | inl at ↦
            let (ei, et, ev) = all_three i k term q v w at in
            absurd (ground (arith, out, ap returned (cell c.calls ei et ev), b))
        | inr off ↦ rw off b
      ]

  pub elect-returned :
      {n : ℕ} {c : Cluster C} (t : Clock) (k i term v : ℕ)
      → Fair n c
      → returned (c.calls i term v) ≡ true
      → returned ((elect t n k c).calls i term v) ≡ true
  unfolding elect begin ask_all with_peer
  elect-returned {n} {c} t k i term v h b =
      go (do_election t (c.peers k)) (do_election-Elects t (c.peers k))
    where
      go :
          (out : Raft C × Option RequestVoteArgs)
          → Elects t (c.peers k) out
          → returned ((begin n k c out).calls i term v) ≡ true
      go _ (waits keeps) = b
      go (rf, some args) (stands me peers role now one_vote own later' id) =
          elim (Bool-cases (i == k && (term == args.term && ltb v n))) [
            | inl at ↦
                let (ei, et) = both i term k args.term (ltb v n) at in
                let free = (h.standing k).unstarted args.term (omega arith) v in
                absurd (ground (arith, ap returned (cell c.calls ei et refl ∙ free), b))
            | inr off ↦ rw off b
          ]
