-- ===== src/Raft/Append/Outcome.antt =====
-- src/raft/raft.go: AppendEntries, its effect on the log and its reply.
use mathlib.Core.List.{append-nil}
use distributed_systems_labs.Base.{
  ℕ, suc, ◌+◌, ◌-◌, ◌≤◌, ◌<◌, min, ◌≡◌, refl, ap, inl, inr, true, false, Option, List, [], ◌++◌,
  arith, ltb, lt→ltb, le→ltb, ltb→le, Bool-cases, length, get_elem?, take, length-append,
  length-take, get_elem?-append_left, get_elem?-append_right, get_elem?-take, take_all, length_zero,
  Returns, returns, Returns-bind,
}
use distributed_systems_labs.Raft.Types.{
  Codec, Clock, follower, LogEntry, Raft, AppendEntriesArgs, AppendEntriesReply, Persisted,
  last_log_index,
}
use distributed_systems_labs.Raft.Log.{entry_at, adopt_term}
use distributed_systems_labs.Raft.Append.{refusal, spliced, accept, append_current, append_entries}
use distributed_systems_labs.Raft.Append.Conflict.{
  HintFor, too_short, compacted, conflict, Consistent, Hint, prev_conflict-none, prev_conflict-some,
  term_at-in_range,
}

-- The state and the reply after an accepted request, where `old` is the log before, after `base`.
pub record AcceptedOver {C : Type 0} (base commit : ℕ) (old : ℕ → Option (LogEntry C))
    (args : AppendEntriesArgs C) (out : Raft C × AppendEntriesReply) : Type 0 where
  pub answered : out.1.success ≡ true
  pub reply_term : out.1.term ≡ args.term
  pub adopted : out.0.current_term ≡ args.term
  pub follows : out.0.server_state ≡ follower
  pub snapshot_kept : out.0.last_included_index ≡ base
  pub ends : last_log_index out.0 ≡ args.prev_log_index + length args.entries
  pub keeps : (i : ℕ) → base < i → i ≤ args.prev_log_index → entry_at out.0 i ≡ old i
  pub adds :
      (i : ℕ)
      → i < length args.entries
      → entry_at out.0 (args.prev_log_index + suc i) ≡ get_elem? args.entries i
  pub commits :
      (out.0.commit_index ≤ last_log_index out.0)
      × (min commit (last_log_index out.0) ≤ out.0.commit_index)

-- The state and the reply after a refusal for the log: only the term, the vote and the role change.
pub record RefusedOver {C : Type 0} (commit : ℕ) (log : List (LogEntry C))
    (hint : AppendEntriesReply → Type 0) (term : ℕ) (out : Raft C × AppendEntriesReply)
    : Type 0 where
  pub answered : out.1.success ≡ false
  pub adopted : out.0.current_term ≡ term
  pub follows : out.0.server_state ≡ follower
  pub log_kept : out.0.log ≡ log
  pub commit_kept : out.0.commit_index ≡ commit
  pub hinted : hint out.1

Hint-success :
    {C : Type 0} {base last : ℕ} {terms : ℕ → Option ℕ} {args : AppendEntriesArgs C}
    {reply r : AppendEntriesReply}
    → HintFor base last terms args reply r
    → reply.success ≡ false
    → r.success ≡ false
Hint-success (too_short h) e = e
Hint-success (compacted h) e = e
Hint-success (conflict d x ne run) e = e

module _ {C : Type 0} (rf : Raft C) (args : AppendEntriesArgs C) where
  abbrev pub Accepted : Raft C × AppendEntriesReply → Type 0
  Accepted = AcceptedOver rf.last_included_index rf.commit_index (entry_at rf) args

  abbrev pub Refused : Raft C × AppendEntriesReply → Type 0
  Refused = RefusedOver rf.commit_index rf.log (Hint rf args (refusal rf.current_term)) args.term

  abbrev kept : List (LogEntry C)
  kept = take (args.prev_log_index - rf.last_included_index) rf.log

  abbrev grafted : Raft C
  grafted = record rf { log = kept ++ args.entries }

  module _ (above : rf.last_included_index ≤ args.prev_log_index)
      (below : args.prev_log_index ≤ last_log_index rf) where
    -- In range, the three branches of the truncation come to one.
    spliced-grafted : spliced rf args ≡ grafted
    unfolding spliced
    spliced-grafted = elim (Bool-cases (ltb 0 (length args.entries))) [
      | inl some_entries ↦ rw some_entries
      | inr empty ↦
          let bare : args.entries ≡ [] = length_zero _ (ltb→le _ _ empty) in
          elim (Bool-cases (ltb args.prev_log_index (last_log_index rf))) [
            | inl longer ↦ rw (empty, longer, bare, append-nil)
            | inr same ↦ rw (
              empty,
              same,
              bare,
              append-nil,
              take_all (args.prev_log_index - rf.last_included_index) rf.log
                  (omega (arith, ltb→le _ _ same)),
            )
          ]
    ]

    length-kept : length kept ≡ args.prev_log_index - rf.last_included_index
    length-kept = omega (arith, length-take (args.prev_log_index - rf.last_included_index) rf.log)

    grafted-ends : last_log_index grafted ≡ args.prev_log_index + length args.entries
    grafted-ends = omega (arith, length-kept, length-append kept args.entries)

    grafted-keeps :
        (i : ℕ)
        → rf.last_included_index < i
        → i ≤ args.prev_log_index
        → entry_at grafted i ≡ entry_at rf i
    grafted-keeps i lo hi = rw (
      lt→ltb _ _ lo,
      get_elem?-append_left kept args.entries (i - rf.last_included_index - 1)
          (omega (arith, length-kept)),
      get_elem?-take (args.prev_log_index - rf.last_included_index) rf.log
          (i - rf.last_included_index - 1) (omega arith),
    )

    grafted-adds :
        (i : ℕ)
        → i < length args.entries
        → entry_at grafted (args.prev_log_index + suc i) ≡ get_elem? args.entries i
    grafted-adds i h =
        rw
          (
            lt→ltb rf.last_included_index (args.prev_log_index + suc i) (omega arith),
            get_elem?-append_right kept args.entries
                (args.prev_log_index + suc i - rf.last_included_index - 1)
                (omega (arith, length-kept)),
          )
          (ap (get_elem? args.entries) (omega (arith, length-kept)))

    accept-Accepted :
        ⦃gob : Codec (Persisted C)⦄ (t : Clock)
        → rf.current_term ≡ args.term
        → rf.server_state ≡ follower
        → Accepted (accept t rf args)
    unfolding accept
    accept-Accepted t term role = rw spliced-grafted (record {
      answered = refl;
      reply_term = term;
      adopted = term;
      follows = role;
      snapshot_kept = refl;
      ends = grafted-ends;
      keeps = grafted-keeps;
      adds = grafted-adds;
      commits = (ground arith, ground arith);
    })

module _ {C : Type 0} ⦃gob : Codec (Persisted C)⦄ (t : Clock) (rf : Raft C)
    (args : AppendEntriesArgs C) where
  current-Accepted :
      (reply : AppendEntriesReply)
      → rf.current_term ≡ args.term
      → rf.server_state ≡ follower
      → Consistent rf args
      → Returns (Accepted rf args) (append_current t rf args reply)
  unfolding append_current
  current-Accepted reply term role (above, same) =
      let below = term_at-in_range rf args args.prev_log_index args.prev_log_term same in
      rw (prev_conflict-none rf args reply (above, same))
        (returns (accept-Accepted rf args above below t term role))

  current-Refused :
      (reply : AppendEntriesReply)
      → reply.success ≡ false
      → rf.current_term ≡ args.term
      → rf.server_state ≡ follower
      → ¬ Consistent rf args
      → Returns
          (RefusedOver rf.commit_index rf.log (Hint rf args reply) args.term)
          (append_current t rf args reply)
  unfolding append_current
  current-Refused reply no_success term role differs =
      Returns-bind (prev_conflict-some rf args reply differs) λ o (r, e, h). rw e (
        returns (record {
          answered = Hint-success h no_success;
          adopted = term;
          follows = role;
          log_kept = refl;
          commit_kept = refl;
          hinted = h;
        }))

module _ {C : Type 0} ⦃gob : Codec (Persisted C)⦄ (t : Clock) (rf : Raft C)
    (args : AppendEntriesArgs C) where
  -- If a request is of no older term than the peer and the peer has the entry before it (inside
  -- its log or as the end of its snapshot), AppendEntries returns success: the peer follows in the
  -- term of the request, keeps its entries up to PrevLogIndex, has exactly the entries of the
  -- request after it and nothing beyond, and its commit index is within the log and no lower than
  -- before unless the log is shorter.
  pub append_entries-Accepted :
      rf.current_term ≤ args.term
      → Consistent rf args
      → Returns (Accepted rf args) (append_entries t rf args)
  unfolding append_entries adopt_term
  append_entries-Accepted fresh same =
      rw (le→ltb _ _ fresh) (elim (Bool-cases (ltb rf.current_term args.term)) [
        | inl newer ↦ rw newer (current-Accepted t _ args (refusal rf.current_term) refl refl same)
        | inr equal ↦ rw equal (
            current-Accepted t _ args (refusal rf.current_term) (omega (arith, ltb→le _ _ equal))
              refl same)
      ])

  -- If a request is of no older term than the peer and the peer lacks the entry before it,
  -- AppendEntries returns without success: the peer follows in the term of the request, keeps its
  -- log and commit index, and the reply has the hint of the case (log too short, index in the
  -- snapshot, or the first index of the conflicting term).
  pub append_entries-Refused :
      rf.current_term ≤ args.term
      → ¬ Consistent rf args
      → Returns (Refused rf args) (append_entries t rf args)
  unfolding append_entries adopt_term
  append_entries-Refused fresh differs =
      rw (le→ltb _ _ fresh) (elim (Bool-cases (ltb rf.current_term args.term)) [
        | inl newer ↦
            rw newer (current-Refused t _ args (refusal rf.current_term) refl refl refl differs)
        | inr equal ↦ rw equal (
            current-Refused t _ args (refusal rf.current_term) refl
              (omega (arith, ltb→le _ _ equal)) refl differs)
      ])
