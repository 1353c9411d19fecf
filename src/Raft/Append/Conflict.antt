-- ===== src/Raft/Append/Conflict.antt =====
-- src/raft/raft.go: the consistency check of AppendEntries, and the hint of a refusal.
use distributed_systems_labs.Base.{
  ℕ, zero, suc, ◌+◌, ◌-◌, ◌≤◌, ◌<◌, ◌≡◌, refl, ◌≢◌, ◌⊎◌, inl, inr, Option, none, some, arith, ltb,
  leb, ◌==◌, ltb→lt, le→ltb, ltb→le, leb→le, leb→lt, ==→eq, ==→ne, Bool-cases, le_suc-cases,
  get_elem?-none, ok, Returns, returns, Returns-bind, Returns-map, Returns-if,
}
use distributed_systems_labs.Raft.Types.{
  Raft, AppendEntriesArgs, AppendEntriesReply, last_log_index,
}
use distributed_systems_labs.Raft.Log.{term_at}
use distributed_systems_labs.Raft.Log.Reads.{load-ok, prev_term-ok}
use distributed_systems_labs.Raft.Append.{first_of_term, term_conflict, prev_conflict}

-- `x` begins the run of indices of term `t` that ends at `i`, in a log that begins after `base`.
pub record RunStart (base : ℕ) (terms : ℕ → Option ℕ) (t i x : ℕ) : Type 0 where
  pub below : x ≤ i
  pub above : base < x
  pub run : (j : ℕ) → x ≤ j → j ≤ i → terms j ≡ some t
  pub first : (x ≡ base + 1) ⊎ (terms (x - 1) ≢ some t)

-- The three forms of a refusal: the log is too short, the index lies in the snapshot, or the term
-- differs and the hint is the first index of the conflicting run.
pub data HintFor {C : Type 0} (base last : ℕ) (terms : ℕ → Option ℕ) (args : AppendEntriesArgs C)
    (reply : AppendEntriesReply) : AppendEntriesReply → Type 0 where
  too_short :
      last < args.prev_log_index
      → HintFor base last terms args reply (record reply { x_term = none; x_len = last + 1 })
  compacted : args.prev_log_index ≤ base → HintFor base last terms args reply reply
  conflict :
      (d x : ℕ)
      → d ≢ args.prev_log_term
      → RunStart base terms d args.prev_log_index x
      → HintFor base last terms args reply (record reply { x_term = some d; x_index = x })

module _ {C : Type 0} (rf : Raft C) where
  abbrev pub BeginsRun : ℕ → ℕ → ℕ → Type 0
  BeginsRun = RunStart rf.last_included_index (term_at rf)

  extend : (t i x : ℕ) → BeginsRun t i x → term_at rf (suc i) ≡ some t → BeginsRun t (suc i) x
  extend t i x b e = record {
    below = omega (arith, b.below);
    above = b.above;
    run = λ j lo hi. elim (le_suc-cases j i hi) [ inl old ↦ b.run j lo old | inr new ↦ rw new e ];
    first = b.first;
  }

  single :
      (t i : ℕ)
      → rf.last_included_index < i
      → term_at rf i ≡ some t
      → (i ≡ rf.last_included_index + 1) ⊎ (term_at rf (i - 1) ≢ some t)
      → BeginsRun t i i
  single t i above e first = record {
    below = omega arith;
    above = above;
    run = λ j lo hi. let same : j ≡ i = omega arith in rw same e;
    first = first;
  }

  -- For an index in the log with a term t, the search for XIndex returns, without a panic, the
  -- first index of the run of entries of term t that ends there.
  pub first_of_term-BeginsRun :
      (t i : ℕ)
      → rf.last_included_index < i
      → i ≤ last_log_index rf
      → term_at rf i ≡ some t
      → Returns (BeginsRun t i) (first_of_term rf t i)
  unfolding first_of_term
  first_of_term-BeginsRun t zero above below e = absurd (omega arith)
  first_of_term-BeginsRun t (suc i) above below e =
      elim (Bool-cases (ltb (rf.last_included_index + 1) (suc i))) [
        | inr last ↦ rw last (returns (single t (suc i) above e (inl (ground arith))))
        | inl more ↦
            let (d, loaded, at, term) = load-ok rf i (ground arith) (omega arith) in
            rw (more, loaded)
              (elim (Bool-cases (d.term == t)) [
                | inl same ↦ rw same (
                    Returns-map
                      (first_of_term-BeginsRun t i (ground arith) (omega arith) (ground arith))
                      (λ x b. extend t i x b e))
                | inr other ↦ rw other (returns (single t (suc i) above e (inr (ground arith))))
              ])
      ]

module _ {C : Type 0} (rf : Raft C) (args : AppendEntriesArgs C) where
  -- The follower has, at PrevLogIndex, an entry (or the end of its snapshot) of PrevLogTerm.
  abbrev pub Consistent : Type 0
  Consistent =
      (rf.last_included_index ≤ args.prev_log_index)
      × (term_at rf args.prev_log_index ≡ some args.prev_log_term)

  abbrev pub Hint : AppendEntriesReply → AppendEntriesReply → Type 0
  Hint = HintFor rf.last_included_index (last_log_index rf) (term_at rf) args

  abbrev pub Refuses : AppendEntriesReply → Option AppendEntriesReply → Type 0
  Refuses reply o = (r : AppendEntriesReply) × (o ≡ some r) × Hint reply r

  pub term_at-in_range : (i d : ℕ) → term_at rf i ≡ some d → i ≤ last_log_index rf
  term_at-in_range i d h = ground (arith, get_elem?-none rf.log (i - rf.last_included_index - 1))

  pub prev_conflict-none :
      (reply : AppendEntriesReply) → Consistent → prev_conflict rf args reply ≡ ok none
  unfolding prev_conflict
  prev_conflict-none reply (above, same) =
      let below = term_at-in_range args.prev_log_index args.prev_log_term same in
      let (d, read, term) = prev_term-ok rf args.prev_log_index above below in
      let hit : d ≡ args.prev_log_term = ground arith in
      rw (le→ltb _ _ below, le→ltb _ _ above, read, hit) (ground arith)

  pub prev_conflict-some :
      (reply : AppendEntriesReply)
      → ¬ Consistent
      → Returns (Refuses reply) (prev_conflict rf args reply)
  unfolding prev_conflict term_conflict
  prev_conflict-some reply differs =
      Returns-if (ltb (last_log_index rf) args.prev_log_index)
        (λ long. returns (_, refl, too_short (ltb→lt _ _ long)))
        λ short.
          Returns-if (ltb args.prev_log_index rf.last_included_index)
            (λ low. returns (_, refl, compacted (omega (arith, ltb→lt _ _ low))))
            λ high.
              let above = ltb→le _ _ high in
              let below = ltb→le _ _ short in
              let (d, read, term) = prev_term-ok rf args.prev_log_index above below in
              rw read (
                Returns-if (d == args.prev_log_term)
                  (λ same. absurd (differs (above, rw (← ==→eq _ _ same) term)))
                  λ other.
                    Returns-if (leb args.prev_log_index rf.last_included_index)
                      (λ at. returns (_, refl, compacted (leb→le _ _ at)))
                      λ more.
                        let (e, loaded, _, term') =
                          load-ok rf args.prev_log_index (leb→lt _ _ more) below in
                        let same : e.term ≡ d = ground arith in
                        rw loaded (
                          Returns-bind
                            (first_of_term-BeginsRun rf e.term args.prev_log_index (leb→lt _ _ more)
                              below term')
                            λ x b.
                              returns (_, refl, conflict e.term x (rw same (==→ne _ _ other)) b)))
