-- ===== src/ShardMaster/Rebalance/Receipt.antt =====
-- src/shardmaster/server.go: step 4 of Rebalance, the groups below their target.
use distributed_systems_labs.Base.{
  ℕ, zero, suc, ◌+◌, ◌≤◌, ◌≡◌, refl, ap, ◌≢◌, inl, inr, true, false, List, [], ◌∷◌, ◌++◌, arith,
  ltb, ltb→le, Bool-cases, length, length-append, one, occ, elem, count_in, IsDistinct, occ-append,
  elem→occ,
}
use distributed_systems_labs.ShardMaster.Rebalance.{target, update, receive_loop, receive}
use distributed_systems_labs.ShardMaster.Rebalance.Donation.{Below}

-- Each group of the list has its target.
abbrev pub Exactly : ℕ → ℕ → List ℕ → (ℕ → ℕ) → Type 0
Exactly n i [] count = Unit {0}
Exactly n i (g ∷ gs) count = (count g ≡ target n i) × Exactly n (suc i) gs count

Below-same :
    (n i : ℕ) (gs : List ℕ) (c c' : ℕ → ℕ)
    → ((g : ℕ) → elem g gs ≡ true → c' g ≡ c g)
    → Below n i gs c
    → Below n i gs c'
Below-same n i [] c c' h b = tt
Below-same n i (g ∷ gs) c c' h (own, rest) = (
  omega (arith, h g (ground arith)),
  Below-same n (suc i) gs c c' (λ j e. h j (ground arith)) rest,
)

module _ (gids : List ℕ) where
  record Received (gid t : ℕ) (before after : (ℕ → ℕ) × List ℕ) : Type 0 where
    others : (g : ℕ) → g ≢ gid → after.0 g ≡ before.0 g
    filled : after.0 gid ≡ t
    needs : (g : ℕ) → after.0 g + occ g before.1 ≡ before.0 g + occ g after.1
    members : count_in gids after.1 + length before.1 ≡ length after.1 + count_in gids before.1

  count_in-append :
      (xs ys : List ℕ) → count_in gids (xs ++ ys) ≡ count_in gids xs + count_in gids ys
  count_in-append [] ys = omega arith
  count_in-append (x ∷ xs) ys = omega (arith, count_in-append xs ys)

  receive_loop-Received :
      (fuel gid t : ℕ) (state : (ℕ → ℕ) × List ℕ)
      → elem gid gids ≡ true
      → state.0 gid ≤ t
      → t ≤ state.0 gid + fuel
      → Received gid t state (receive_loop fuel gid t state)
  unfolding receive_loop
  receive_loop-Received zero gid t state inside below enough = record {
    others = λ g ne. refl;
    filled = omega arith;
    needs = λ g. omega arith;
    members = omega arith;
  }
  receive_loop-Received (suc fuel) gid t (count, need) inside below enough =
      elim (Bool-cases (ltb (count gid) t)) [
        | inr full ↦ rw full (record {
          others = λ g ne. refl;
          filled = omega (arith, ltb→le _ _ full);
          needs = λ g. omega arith;
          members = omega arith;
        })
        | inl more ↦
            let r =
              receive_loop-Received fuel gid t (update count gid (count gid + 1), need ++ gid ∷ [])
                inside (ground arith) (ground arith) in
            rw more (record {
              others = λ g ne. ground (arith, r.others g ne);
              filled = r.filled;
              needs = λ g. ground (arith, r.needs g, occ-append g need (gid ∷ []));
              members = omega (
                arith,
                r.members,
                length-append need (gid ∷ []),
                count_in-append need (gid ∷ []),
                ap one inside,
              );
            })
      ]

  pub record AllReceived (n i : ℕ) (gs : List ℕ) (before after : (ℕ → ℕ) × List ℕ) : Type 0 where
    pub others : (g : ℕ) → elem g gs ≡ false → after.0 g ≡ before.0 g
    pub exact : Exactly n i gs after.0
    pub needs : (g : ℕ) → after.0 g + occ g before.1 ≡ before.0 g + occ g after.1
    pub members : count_in gids after.1 + length before.1 ≡ length after.1 + count_in gids before.1

  -- After step 4 each group has its target, counting the shards that it is listed for in `need`.
  pub receive-AllReceived :
      (n i : ℕ) (gs : List ℕ) (state : (ℕ → ℕ) × List ℕ)
      → ((g : ℕ) → elem g gs ≡ true → elem g gids ≡ true)
      → IsDistinct gs
      → Below n i gs state.0
      → AllReceived n i gs state (receive n i gs state)
  unfolding receive
  receive-AllReceived n i [] state inside d b = record {
    others = λ g e. refl;
    exact = tt;
    needs = λ g. omega arith;
    members = omega arith;
  }
  receive-AllReceived n i (gid ∷ gs) state inside d (own, rest) =
      let t = target n i in
      let s = receive_loop-Received t gid t state (inside gid (ground arith)) own (omega arith) in
      let mid = receive_loop t gid t state in
      let alone : elem gid gs ≡ false = ground (arith, d gid, elem→occ gid gs) in
      let r =
        receive-AllReceived n (suc i) gs mid (λ g e. inside g (ground arith))
          (λ g. omega (arith, d g))
          (Below-same n (suc i) gs state.0 mid.0 (λ g e. s.others g (λ same. ground arith)) rest) in
      record {
        others = λ g e. ground (arith, r.others g, s.others g);
        exact = (omega (arith, r.others gid alone, s.filled), r.exact);
        needs = λ g. omega (arith, r.needs g, s.needs g);
        members = omega (arith, r.members, s.members);
      }
