-- ===== src/ShardMaster/Rebalance/Donation.antt =====
-- src/shardmaster/server.go: step 3 of Rebalance, the groups above their target.
use distributed_systems_labs.Base.{
  some-inj, ℕ, zero, suc, ◌-◌, ◌≤◌, ◌<◌, ◌≡◌, refl, sym, ap, ◌∙◌, ◌≢◌, inl, inr, true, false, none,
  some, List, [], ◌∷◌, arith, ltb, ◌==◌, if◌then◌else◌, ltb→lt, ltb→le, ==→eq, ==→ne, Bool-cases,
  Option-cases, le_suc-cases, length, get_elem?, length-append, length-set, get_elem?_bound, one,
  occ, elem, occ-append, occ-set, count_in-set,
}
use distributed_systems_labs.ShardMaster.Types.{n_shards}
use distributed_systems_labs.ShardMaster.Rebalance.{
  Balance, target, find_last, donate_one, donate_loop, donate,
}
use distributed_systems_labs.ShardMaster.Rebalance.Pool.{free_at-taken, free_at-set, Tally}

find_last-found :
    (gid s : ℕ) (xs : List ℕ) (j : ℕ) → find_last gid s xs ≡ some j → get_elem? xs j ≡ some gid
unfolding find_last
find_last-found gid zero xs j h = cc
find_last-found gid (suc s) xs j h = elim (Option-cases (get_elem? xs s)) [
  | inl out ↦ find_last-found gid s xs j (rw (out, find_last) at h)
  | inr (g, at) ↦ elim (Bool-cases (g == gid)) [
    | inl hit ↦ ground (arith, at)
    | inr miss ↦ find_last-found gid s xs j (rw (at, miss, find_last) at h)
  ]
]

-- The search fails only if no index below `s` holds `gid`.
find_last-none :
    (gid s : ℕ) (xs : List ℕ)
    → find_last gid s xs ≡ none
    → (j : ℕ) → j < s
    → get_elem? xs j ≢ some gid
unfolding find_last
find_last-none gid zero xs h j lt = absurd (omega arith)
find_last-none gid (suc s) xs h j lt = elim (Option-cases (get_elem? xs s)) [
  | inl out ↦ last_is (λ at. cc) (find_last-none gid s xs (rw (out, find_last) at h))
  | inr (g, here) ↦ elim (Bool-cases (g == gid)) [
    | inl hit ↦ absurd (ground (arith, here))
    | inr miss ↦
        last_is (λ at. ==→ne _ _ miss (some-inj (sym here ∙ at)))
          (find_last-none gid s xs (rw (here, miss, find_last) at h))
  ]
]
  where
    last_is :
        get_elem? xs s ≢ some gid
        → ((i : ℕ) → i < s → get_elem? xs i ≢ some gid)
        → get_elem? xs j ≢ some gid
    last_is top rest = elim (le_suc-cases (suc j) s lt) [
      | inl lower ↦ rest j lower
      | inr same ↦ let e : j ≡ s = omega arith in rw e top
    ]

occ-zero :
    (g : ℕ) (xs : List ℕ) → ((j : ℕ) → j < length xs → get_elem? xs j ≢ some g) → occ g xs ≡ 0
occ-zero g [] h = refl
occ-zero g (x ∷ xs) h = elim (Bool-cases (x == g)) [
  | inl hit ↦ absurd (h 0 (omega arith) (ap some (==→eq _ _ hit)))
  | inr miss ↦ omega (arith, ap one miss, occ-zero g xs (λ j lt. h (suc j) (omega arith)))
]

find_last-total :
    (gid : ℕ) (xs : List ℕ)
    → length xs ≡ n_shards
    → 1 ≤ occ gid xs
    → (j : ℕ) × (find_last gid n_shards xs ≡ some j)
find_last-total gid xs sized held = elim (Option-cases (find_last gid n_shards xs)) [
  | inr found ↦ found
  | inl out ↦
      let zero' = occ-zero gid xs (λ j lt. find_last-none gid n_shards xs out j (omega arith)) in
      absurd (omega arith)
]

module _ (gids : List ℕ) (unused : elem 0 gids ≡ false) where
  -- One donated shard: the pool and the counts still agree, and the group's count is one less.
  donate_one-Tally :
      (gid : ℕ) (b : Balance)
      → elem gid gids ≡ true
      → 1 ≤ b.count gid
      → Tally gids b
      → Tally gids (donate_one gid b)
        × ((g : ℕ) → (donate_one gid b).count g ≡ (if g == gid then b.count gid - 1 else b.count g))
  unfolding donate_one
  donate_one-Tally gid b inside held t =
      let (s, found) = find_last-total gid b.shards t.sized (omega (arith, t.counts gid inside)) in
      let at = find_last-found gid n_shards b.shards s found in
      let lt = get_elem?_bound b.shards s at in
      rw found (
        record {
          sized = length-set b.shards s 0 ∙ t.sized;
          counts =
              λ g e. ground (arith, t.counts g e, occ-set g b.shards s 0 at, t.counts gid inside);
          free = λ j. ground (
            arith,
            t.free j,
            occ-append j b.pool (s ∷ []),
            free_at-set gids b.shards s j 0 lt,
            free_at-taken gids b.shards s gid at inside,
          );
          total = omega (
            arith,
            t.total,
            length-append b.pool (s ∷ []),
            count_in-set gids b.shards s 0 at,
            ap one inside,
            ap one unused,
          );
        },
        λ g. refl,
      )

  -- The state after some rounds: counts only fall, and no count but those of donors changes.
  record Donated (gid t : ℕ) (b b' : Balance) : Type 0 where
    tally : Tally gids b'
    falls : (g : ℕ) → b'.count g ≤ b.count g
    within : b'.count gid ≤ t

  donate_loop-Donated :
      (fuel gid t : ℕ) (b : Balance)
      → elem gid gids ≡ true
      → b.count gid ≤ fuel
      → Tally gids b
      → Donated gid t b (donate_loop fuel gid t b)
  unfolding donate_loop
  donate_loop-Donated zero gid t b inside enough tally = record {
    tally = tally;
    falls = λ g. omega arith;
    within = omega arith;
  }
  donate_loop-Donated (suc fuel) gid t b inside enough tally =
      elim (Bool-cases (ltb t (b.count gid))) [
        | inr done ↦
            rw done (record { tally = tally; falls = λ g. omega arith; within = ltb→le _ _ done })
        | inl more ↦
            let (tally', counts) =
              donate_one-Tally gid b inside (omega (arith, ltb→lt _ _ more)) tally in
            let r =
              donate_loop-Donated fuel gid t (donate_one gid b) inside (ground (arith, counts gid))
                tally' in
            rw more (record {
              tally = r.tally;
              falls = λ g. ground (arith, r.falls g, counts g);
              within = r.within;
            })
      ]

-- Each group of the list is within its target.
abbrev pub Below : ℕ → ℕ → List ℕ → (ℕ → ℕ) → Type 0
Below n i [] count = Unit {0}
Below n i (g ∷ gs) count = (count g ≤ target n i) × Below n (suc i) gs count

Below-falls :
    (n i : ℕ) (gs : List ℕ) (c c' : ℕ → ℕ)
    → ((g : ℕ) → c' g ≤ c g)
    → Below n i gs c
    → Below n i gs c'
Below-falls n i [] c c' h b = tt
Below-falls n i (g ∷ gs) c c' h (own, rest) =
    (omega (arith, h g), Below-falls n (suc i) gs c c' h rest)

module _ (gids : List ℕ) (unused : elem 0 gids ≡ false) where
  pub record AllDonated (n i : ℕ) (gs : List ℕ) (b b' : Balance) : Type 0 where
    pub tally : Tally gids b'
    pub falls : (g : ℕ) → b'.count g ≤ b.count g
    pub below : Below n i gs b'.count

  -- After step 3 the counts and the pool agree, and every group is within its target.
  pub donate-AllDonated :
      (n i : ℕ) (gs : List ℕ) (b : Balance)
      → ((g : ℕ) → elem g gs ≡ true → elem g gids ≡ true)
      → Tally gids b
      → AllDonated n i gs b (donate n i gs b)
  unfolding donate
  donate-AllDonated n i [] b inside tally = record {
    tally = tally;
    falls = λ g. omega arith;
    below = tt;
  }
  donate-AllDonated n i (gid ∷ gs) b inside tally =
      let d =
        donate_loop-Donated gids unused (b.count gid) gid (target n i) b (inside gid (ground arith))
          (omega arith) tally in
      let b' = donate_loop (b.count gid) gid (target n i) b in
      let r = donate-AllDonated n (suc i) gs b' (λ g e. inside g (ground arith)) d.tally in
      record {
        tally = r.tally;
        falls = λ g. omega (arith, r.falls g, d.falls g);
        below = (omega (arith, r.falls gid, d.within), r.below);
      }
