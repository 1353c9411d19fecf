-- ===== src/Raft/Steps/Disk.antt =====
-- src/raft/raft.go: the persistent fields and the saved state of a peer, before and after a step.
use distributed_systems_labs.Base.{
  ℕ, ◌≤◌, ◌<◌, ◌≡◌, refl, sym, ap, ◌∙◌, inl, inr, false, some, arith, ◌==◌, Bool-cases,
  Option-cases, length,
}
use distributed_systems_labs.Raft.Types.{Bytes, Codec, Persister, Raft, Persisted}
use distributed_systems_labs.Raft.Persist.{make_persister, persisted, blank, read_persist, make}

-- Terms do not fall, and within a term a vote stays.
pub record TermVote {C : Type 0} (rf rf' : Raft C) : Type 0 where
  pub grows : rf.current_term ≤ rf'.current_term
  pub steady :
      rf.current_term ≡ rf'.current_term → (v : ℕ) → rf.voted_for ≡ some v → rf'.voted_for ≡ some v

pub TermVote-trans :
    {C : Type 0} {rf r rf' : Raft C} → TermVote rf r → TermVote r rf' → TermVote rf rf'
TermVote-trans {rf} {r} {rf'} a b = record {
  grows = omega (arith, a.grows, b.grows);
  steady = λ same v voted.
      b.steady (omega (arith, a.grows, b.grows)) v
        (a.steady (omega (arith, a.grows, b.grows)) v voted);
}

pub TermVote-of_eq : {C : Type 0} {rf r : Raft C} → persisted r ≡ persisted rf → TermVote rf r
TermVote-of_eq {rf} {r} e = record {
  grows = omega (arith, ap (λ (p : Persisted _). p.current_term) e);
  steady = λ same v voted. ap (λ (p : Persisted _). p.voted_for) e ∙ voted;
}

module _ {C : Type 0} ⦃gob : Codec (Persisted C)⦄ where
  -- What the section of code from `rf` to `rf'` did to the disk.
  pub data Effect (rf rf' : Raft C) : Type 0 where
    kept :
        persisted rf' ≡ persisted rf
        → rf'.persister.raftstate ≡ rf.persister.raftstate
        → Effect rf rf'
    stored : TermVote rf rf' → rf'.persister.raftstate ≡ gob.encode (persisted rf') → Effect rf rf'

  -- A later term, saved.
  pub later :
      {rf rf' : Raft C}
      → rf.current_term < rf'.current_term
      → rf'.persister.raftstate ≡ gob.encode (persisted rf')
      → Effect rf rf'
  later h s = stored (record { grows = omega arith; steady = λ same. absurd (omega arith) }) s

  -- The same term and the same vote, saved.
  pub again :
      {rf rf' : Raft C}
      → rf.current_term ≡ rf'.current_term
      → rf'.voted_for ≡ rf.voted_for
      → rf'.persister.raftstate ≡ gob.encode (persisted rf')
      → Effect rf rf'
  again h e s = stored (record { grows = omega arith; steady = λ _ v voted. e ∙ voted }) s

  pub Effect-TermVote : {rf rf' : Raft C} → Effect rf rf' → TermVote rf rf'
  Effect-TermVote (kept e _) = TermVote-of_eq e
  Effect-TermVote (stored v _) = v

  pub Effect-trans : {rf r rf' : Raft C} → Effect rf r → Effect r rf' → Effect rf rf'
  Effect-trans (kept a b) (kept c d) = kept (c ∙ a) (d ∙ b)
  Effect-trans (stored v s) (kept c d) =
      stored (TermVote-trans v (TermVote-of_eq c)) (d ∙ s ∙ ap gob.encode (sym c))
  Effect-trans a (stored w u) = stored (TermVote-trans (Effect-TermVote a) w) u

  -- The persistent fields that Make reads back from a saved state.
  abbrev pub recovered : Bytes → Persisted C
  recovered state = persisted (read_persist (blank 0 0 make_persister) state)

  -- A crash now would lose none of the persistent fields.
  abbrev pub IsDurable : Raft C → Type 0
  IsDurable rf = recovered rf.persister.raftstate ≡ persisted rf

  pub recovered-encode : (p : Persisted C) → recovered (gob.encode p) ≡ p
  unfolding read_persist
  recovered-encode p =
      let e = gob.encode_nonempty p in
      let some_bytes : (length (gob.encode p) == 0) ≡ false = ground arith in
      rw (some_bytes, gob.decode-encode p) refl

  pub Effect-IsDurable : {rf rf' : Raft C} → Effect rf rf' → IsDurable rf → IsDurable rf'
  Effect-IsDurable (kept a b) d = rw b (d ∙ sym a)
  Effect-IsDurable {rf'} (stored v s) d = rw s (recovered-encode (persisted rf'))

  -- Make reads back what the saved state holds.
  pub make-recovers :
      (peers me : ℕ) (ps : Persister) → persisted (make peers me ps).0 ≡ recovered ps.raftstate
  unfolding make
  make-recovers peers me ps = elim (Bool-cases (length ps.raftstate == 0)) [
    | inl empty ↦ rw (empty, read_persist)
    | inr full ↦ elim (Option-cases (gob.decode ps.raftstate)) [
      | inl bad ↦ rw (full, bad, read_persist)
      | inr (p, good) ↦ rw (full, good, read_persist)
    ]
  ]

  pub make-persister :
      (rf : Raft C) → (make {C = C} rf.peers rf.me rf.persister).0.persister ≡ rf.persister
  unfolding make
  make-persister rf = elim (Bool-cases (length rf.persister.raftstate == 0)) [
    | inl empty ↦ rw (empty, read_persist)
    | inr full ↦ elim (Option-cases (gob.decode rf.persister.raftstate)) [
      | inl bad ↦ rw (full, bad, read_persist)
      | inr (p, good) ↦ rw (full, good, read_persist)
    ]
  ]
