-- ===== src/Raft/Compaction/Install.antt =====
-- src/raft/raft.go: InstallSnapshot, the state and the message that it leaves.
use Prim.Native.Nat.{max}
use distributed_systems_labs.Raft.Persist.{persisted, read_persist, make}
use distributed_systems_labs.Raft.Steps.Disk.{recovered, recovered-encode, make-recovers}
use distributed_systems_labs.Raft.Append.Bounds.{adopt_term-InBounds}
use distributed_systems_labs.Base.{
  ℕ, ◌≤◌, ◌<◌, ◌≡◌, refl, ap, inl, inr, Option, none, some, [], arith, ltb, leb, ◌∙◌, Option-cases,
  ltb→lt, ltb→le, leb→le, leb→lt, ◌==◌, le→ltb, lt→leb, Bool-cases, length, panic,
}
use distributed_systems_labs.Raft.Types.{
  Bytes, Codec, follower, snapshot_msg, Persister, Raft, InstallSnapshotArgs, InstallSnapshotReply,
  Persisted, InBounds,
}
use distributed_systems_labs.Raft.Log.{adopt_term}
use distributed_systems_labs.Raft.Compaction.{snapshot, install_snapshot}
use distributed_systems_labs.Raft.Compaction.Trim.{snapshot-past_end}

module _ {C : Type 0} ⦃gob : Codec (Persisted C)⦄ where
  -- Only the term, the vote and the saved state change when a term is adopted.
  pub adopt_term-rest :
      (rf : Raft C) (term : ℕ)
      → ((adopt_term rf term).last_included_index ≡ rf.last_included_index)
        × ((adopt_term rf term).last_applied ≡ rf.last_applied)
        × ((adopt_term rf term).commit_index ≡ rf.commit_index)
        × ((adopt_term rf term).log ≡ rf.log)
  unfolding adopt_term
  adopt_term-rest rf term = elim (Bool-cases (ltb rf.current_term term)) [
    | inl newer ↦ rw newer (refl, refl, refl, refl)
    | inr old ↦ rw old (refl, refl, refl, refl)
  ]

  adopt_term-term :
      (rf : Raft C) (term : ℕ) → rf.current_term ≤ term → (adopt_term rf term).current_term ≡ term
  unfolding adopt_term
  adopt_term-term rf term h = ground arith

  adopt_term-vote :
      (rf : Raft C) (term : ℕ)
      → rf.current_term ≡ term
      → (adopt_term rf term).voted_for ≡ rf.voted_for
  unfolding adopt_term
  adopt_term-vote rf term h = ground arith

  -- The message that Make sends.
  make-message :
      (peers me : ℕ) (ps : Persister)
      → (make {C = C} peers me ps).1
        ≡ snapshot_msg (recovered {C = C} ps.raftstate).last_included_index ps.snapshot
  unfolding make
  make-message peers me ps = elim (Bool-cases (length ps.raftstate == 0)) [
    | inl empty ↦ rw (empty, read_persist)
    | inr full ↦ elim (Option-cases (gob.decode ps.raftstate)) [
      | inl bad ↦ rw (full, bad, read_persist)
      | inr (p, good) ↦ rw (full, good, read_persist)
    ]
  ]

module _ {C : Type 0} ⦃gob : Codec (Persisted C)⦄ (rf : Raft C) (args : InstallSnapshotArgs) where
  -- After a snapshot that is newer than the peer's: the state, the reply and the snapshot to send,
  -- and what a restart from the disk would begin with.
  pub record Installed (out : Raft C × InstallSnapshotReply × Option Bytes) : Type 0 where
    pub term : (out.0.current_term ≡ args.term) × (out.1.term ≡ args.term)
    pub role : out.0.server_state ≡ follower
    pub vote : rf.current_term ≡ args.term → out.0.voted_for ≡ rf.voted_for
    pub cut :
        (out.0.last_included_index ≡ args.last_included_index)
        × (out.0.last_included_term ≡ args.last_included_term)
    pub emptied : out.0.log ≡ []
    pub applied : out.0.last_applied ≡ max rf.last_applied args.last_included_index
    pub committed : out.0.commit_index ≡ max rf.commit_index args.last_included_index
    pub to_send : out.2 ≡ some args.snapshot
    pub restarted :
        persisted (make {C = C} out.0.peers out.0.me out.0.persister).0 ≡ persisted out.0
    pub redelivered :
        (make {C = C} out.0.peers out.0.me out.0.persister).1
        ≡ snapshot_msg args.last_included_index args.snapshot

  -- What InstallSnapshot does in each of its cases.
  pub data Outcome (out : Raft C × InstallSnapshotReply × Option Bytes) : Type 0 where
    stale :
        args.term < rf.current_term
        → out ≡ (rf, record { term = rf.current_term }, none)
        → Outcome out
    already :
        rf.current_term ≤ args.term
        → args.last_included_index ≤ rf.last_included_index
        → (out.0.current_term ≡ args.term) × (out.0.server_state ≡ follower)
        → (rf.current_term ≡ args.term → out.0.voted_for ≡ rf.voted_for)
        → (out.0.log ≡ rf.log)
          × (out.0.last_included_index ≡ rf.last_included_index)
          × (out.0.last_applied ≡ rf.last_applied)
          × (out.0.commit_index ≡ rf.commit_index)
        → out.2 ≡ none
        → Outcome out
    installed :
        rf.current_term ≤ args.term
        → rf.last_included_index < args.last_included_index
        → Installed out
        → Outcome out

  pub install_snapshot-newer :
      rf.current_term ≤ args.term
      → rf.last_included_index < args.last_included_index
      → Installed (install_snapshot rf args)
  unfolding install_snapshot
  install_snapshot-newer fresh newer =
      let a = adopt_term rf args.term in
      let (lii, applied, commit, log) = adopt_term-rest rf args.term in
      let term = adopt_term-term rf args.term fresh in
      rw (le→ltb _ _ fresh, lt→leb args.last_included_index a.last_included_index (omega arith))
        (record {
          term = (term, term);
          role = refl;
          vote = adopt_term-vote rf args.term;
          cut = (refl, refl);
          emptied = refl;
          applied = ground (arith, applied);
          committed = ground (arith, commit);
          to_send = refl;
          restarted = make-recovers _ _ _ ∙ recovered-encode _;
          redelivered =
              make-message _ _ _
              ∙ ap (λ (p : Persisted C). snapshot_msg p.last_included_index args.snapshot)
                  (recovered-encode _);
        })

  pub install_snapshot-Outcome : Outcome (install_snapshot rf args)
  unfolding install_snapshot
  install_snapshot-Outcome = elim (Bool-cases (ltb args.term rf.current_term)) [
    | inl old_term ↦ rw old_term (stale (ltb→lt _ _ old_term) refl)
    | inr fresh ↦
        elim (Bool-cases
          (leb args.last_included_index (adopt_term rf args.term).last_included_index)) [
            | inl old ↦
                let (lii, applied, commit, log) = adopt_term-rest rf args.term in
                let le = ltb→le _ _ fresh in
                rw (fresh, old)
                  (already le (omega (arith, leb→le _ _ old, lii))
                    (adopt_term-term rf args.term le, refl) (adopt_term-vote rf args.term)
                    (log, lii, applied, commit) refl)
            | inr newer ↦
                let (lii, applied, commit, log) = adopt_term-rest rf args.term in
                let le = ltb→le _ _ fresh in
                let lt : rf.last_included_index < args.last_included_index =
                  omega (arith, leb→lt _ _ newer, lii) in
                installed le lt (install_snapshot-newer le lt)
          ]
  ]

  -- If the indices of a peer are in order and its commit index is within the snapshot, its indices
  -- are in order after InstallSnapshot.
  pub install_snapshot-InBounds :
      InBounds rf
      → rf.commit_index ≤ args.last_included_index
      → InBounds (install_snapshot rf args).0
  unfolding install_snapshot
  install_snapshot-InBounds b fits =
      let r = adopt_term rf args.term in
      let a = adopt_term-InBounds rf args.term b in
      let (_, _, commit, _) = adopt_term-rest rf args.term in
      elim (Bool-cases (ltb args.term rf.current_term)) [
        | inl below ↦ rw below b
        | inr fresh ↦ elim (Bool-cases (leb args.last_included_index r.last_included_index)) [
          | inl old ↦
              rw (fresh, old)
                (record {
                  compacted = a.compacted;
                  applied = a.applied;
                  committed = a.committed;
                  nexts = a.nexts;
                  matches = a.matches;
                  member = a.member;
                })
          | inr newer ↦
              rw (fresh, newer)
                (record {
                  compacted = ground arith;
                  applied = ground (arith, a.applied);
                  committed = ground (arith, a.applied);
                  nexts = a.nexts;
                  matches = a.matches;
                  member = a.member;
                })
        ]
      ]

  -- If a peer gets a snapshot of no older term that reaches further than its own but less far than
  -- an index it has applied, then after InstallSnapshot a call of Snapshot at that index panics.
  pub install_snapshot-snapshot-panic :
      (index : ℕ) (bytes : Bytes)
      → rf.current_term ≤ args.term
      → rf.last_included_index < args.last_included_index
      → args.last_included_index < index
      → index ≤ rf.last_applied
      → snapshot (install_snapshot rf args).0 index bytes ≡ panic
  install_snapshot-snapshot-panic index bytes fresh newer above below =
      let r = install_snapshot-newer fresh newer in
      let empty = ap length r.emptied in
      snapshot-past_end (install_snapshot rf args).0 index bytes (omega (arith, r.cut.0))
        (omega (arith, r.applied)) (omega (arith, r.cut.0, empty))
