-- ===== src/ShardMaster/Rebalance/Balanced.antt =====
-- src/shardmaster/server.go: step 5 of Rebalance, and Rebalance as a whole.
use native.Mathlib.Nat.{div-add-mod, mod-lt}
use distributed_systems_labs.Base.{
  ℕ, zero, suc, ◌+◌, ◌*◌, ◌/◌, ◌%◌, ◌≤◌, ◌<◌, min, ◌≡◌, refl, sym, ap, ◌∙◌, inl, inr, true, false,
  some, List, [], ◌∷◌, arith, ◌==◌, lt→ltb, ==→eq, Bool-cases, length, get_elem?, set, length-set,
  get_elem?_bound, get_elem?-set, Returns, returns, Returns-bind, Returns-map, Returns-if, one, occ,
  elem, count_in, sum_over, IsDistinct, sort, occ-sort, length-sort, elem-of_occ, occ-set,
  count_in-le, sum_over-add, sum_over-occ,
}
use distributed_systems_labs.ShardMaster.Types.{n_shards, Config, keys}
use distributed_systems_labs.ShardMaster.Rebalance.{
  Balance, target, donate, receive, assign, reassign, rebalance,
}
use distributed_systems_labs.ShardMaster.Rebalance.Pool.{
  free_at, free_at-le, free_at-some, free_at-set, Tally, surveyed, surveyed-Tally,
}
use distributed_systems_labs.ShardMaster.Rebalance.Donation.{donate-AllDonated}
use distributed_systems_labs.ShardMaster.Rebalance.Receipt.{
  Exactly, AllReceived, receive-AllReceived,
}

-- A list from which nothing is missing.
count_in-get :
    (gs xs : List ℕ) (s : ℕ)
    → ((j : ℕ) → free_at gs xs j ≡ 0)
    → s < length xs
    → (g : ℕ) × (get_elem? xs s ≡ some g) × (elem g gs ≡ true)
count_in-get gs [] s h lt = absurd (omega arith)
count_in-get gs (x ∷ xs) zero h lt = (x, refl, ground (arith, h 0))
count_in-get gs (x ∷ xs) (suc s) h lt = count_in-get gs xs s (λ j. h (suc j)) (omega arith)

module _ (gids : List ℕ) where
  -- Every pooled shard gets the next group of `need`, and the shards of groups stay.
  record Assigned (need shards r : List ℕ) : Type 0 where
    sized : length r ≡ length shards
    shares : (g : ℕ) → elem g gids ≡ true → occ g r ≡ occ g shards + occ g need
    owned : (s : ℕ) → free_at gids r s ≡ 0
    stays : (s g : ℕ) → get_elem? shards s ≡ some g → elem g gids ≡ true → get_elem? r s ≡ some g

  assign-Assigned :
      (pool need shards : List ℕ)
      → length need ≡ length pool
      → count_in gids need ≡ length need
      → ((s : ℕ) → occ s pool ≡ free_at gids shards s)
      → Returns (Assigned need shards) (assign pool need shards)
  unfolding assign
  assign-Assigned [] [] shards same members free = returns (record {
    sized = refl;
    shares = λ g e. omega arith;
    owned = λ s. sym (free s);
    stays = λ s g at e. at;
  })
  assign-Assigned [] (g ∷ need) shards same members free = absurd (omega arith)
  assign-Assigned (s ∷ pool) [] shards same members free = absurd (omega arith)
  assign-Assigned (s ∷ pool) (g ∷ need) shards same members free =
      let (x, at, outside) = free_at-some gids shards s (ground (arith, free s)) in
      let lt = get_elem?_bound shards s at in
      let inside : elem g gids ≡ true = ground (arith, count_in-le gids need) in
      rw (lt→ltb _ _ lt) (
        Returns-map
          (assign-Assigned pool need (set shards s g) (omega arith) (omega (arith, ap one inside))
            (λ j.
              ground (arith, free j, free_at-set gids shards s j g lt, free_at-le gids shards j)))
          λ r a. record {
            sized = a.sized ∙ length-set shards s g;
            shares = λ j e. ground (arith, a.shares j e, occ-set j shards s g at);
            owned = a.owned;
            stays =
                λ j h old e. a.stays j h (ground (arith, get_elem?-set shards s j g lt, at, old)) e;
          })

-- The targets of all groups add up to the number of shards.
Exactly-sum :
    (n i : ℕ) (gs : List ℕ) (c : ℕ → ℕ)
    → Exactly n i gs c
    → sum_over gs c + min i (n_shards % n)
      ≡ length gs * (n_shards / n) + min (i + length gs) (n_shards % n)
unfolding target
Exactly-sum n i [] c e = omega arith
Exactly-sum n i (g ∷ gs) c (own, rest) = ground (arith, Exactly-sum n (suc i) gs c rest)

Exactly-total :
    (gs : List ℕ) (c : ℕ → ℕ)
    → 0 < length gs
    → Exactly (length gs) 0 gs c
    → sum_over gs c ≡ n_shards
Exactly-total gs c h e =
    omega
      (arith, Exactly-sum (length gs) 0 gs c e, div-add-mod n_shards (length gs), mod-lt n_shards h)

Exactly-same :
    (n i : ℕ) (gs : List ℕ) (c c' : ℕ → ℕ)
    → ((g : ℕ) → elem g gs ≡ true → c' g ≡ c g)
    → Exactly n i gs c
    → Exactly n i gs c'
Exactly-same n i [] c c' h e = tt
Exactly-same n i (g ∷ gs) c c' h (own, rest) = (
  omega (arith, h g (ground arith), own),
  Exactly-same n (suc i) gs c c' (λ j e. h j (ground arith)) rest,
)

sum_over-same :
    (gs : List ℕ) (c c' : ℕ → ℕ)
    → ((g : ℕ) → elem g gs ≡ true → c' g ≡ c g)
    → sum_over gs c' ≡ sum_over gs c
sum_over-same [] c c' h = refl
sum_over-same (g ∷ gs) c c' h =
    omega (arith, h g (ground arith), sum_over-same gs c c' (λ j e. h j (ground arith)))

-- Every shard has a group of `gids`, and group number i of `gids` has target(i) shards.
pub record Balanced (gids shards : List ℕ) : Type 0 where
  pub sized : length shards ≡ n_shards
  pub owned :
      (s : ℕ) → s < n_shards → (g : ℕ) × (get_elem? shards s ≡ some g) × (elem g gids ≡ true)
  pub exact : Exactly (length gids) 0 gids (λ g. occ g shards)

module _ (gids : List ℕ) (distinct : IsDistinct gids) where
  -- The shards that are missing are as many as the shards in the pool.
  needed :
      (b : Balance) (count : ℕ → ℕ) (need : List ℕ)
      → 0 < length gids
      → Tally gids b
      → AllReceived gids (length gids) 0 gids (b.count, []) (count, need)
      → length need ≡ length b.pool
  needed b count need h t r =
      let held : sum_over gids (λ g. occ g b.shards) ≡ count_in gids b.shards =
        sum_over-occ gids b.shards distinct in
      let asked : sum_over gids (λ g. occ g need) ≡ count_in gids need =
        sum_over-occ gids need distinct in
      let both = sum_over-add gids (λ g. occ g b.shards) (λ g. occ g need) in
      let same =
        sum_over-same gids (λ g. occ g b.shards + occ g need) count
          (λ g e. omega (arith, r.needs g, t.counts g e)) in
      omega (arith, held, asked, both, same, Exactly-total gids count h r.exact, t.total, r.members)

  reassign-Balanced :
      (xs : List ℕ)
      → 0 < length gids
      → elem 0 gids ≡ false
      → length xs ≡ n_shards
      → Returns (Balanced gids) (reassign gids xs)
  unfolding reassign
  reassign-Balanced xs h unused sized =
      let n = length gids in
      let d =
        donate-AllDonated gids unused n 0 gids (surveyed gids xs) (λ g e. e)
          (surveyed-Tally gids xs sized) in
      let b = donate n 0 gids (surveyed gids xs) in
      let t = d.tally in
      let r = receive-AllReceived gids n 0 gids (b.count, []) (λ g e. e) distinct d.below in
      let (count, need) = receive n 0 gids (b.count, []) in
      Returns-map
        (assign-Assigned gids (sort b.pool) need b.shards
          (needed b count need h t r ∙ sym (length-sort b.pool)) (omega (arith, r.members))
          (λ s. occ-sort s b.pool ∙ t.free s))
        λ shards a. record {
          sized = a.sized ∙ t.sized;
          owned = λ s lt. count_in-get gids shards s a.owned (omega (arith, a.sized, t.sized));
          exact =
              Exactly-same n 0 gids count (λ g. occ g shards)
                (λ g e. omega (arith, a.shares g e, r.needs g, t.counts g e)) r.exact;
        }

-- The configuration that Rebalance is to give: only the shards change, and they are balanced
-- over the sorted ids of the groups.
pub record Rebalanced (before after : Config) : Type 0 where
  pub num : after.num ≡ before.num
  pub groups : after.groups ≡ before.groups
  pub balanced : Balanced (sort (keys before.groups)) after.shards

-- If a configuration has 10 shards and at least one group, its groups have distinct ids, and none
-- is 0, Rebalance returns: it keeps the number and the groups, gives every shard to one of the
-- groups, and gives group number i in the order of the ids exactly target(i) shards.
pub rebalance-Rebalanced :
    (config : Config)
    → length config.shards ≡ n_shards
    → IsDistinct (keys config.groups)
    → elem 0 (keys config.groups) ≡ false
    → 0 < length (keys config.groups)
    → Returns (Rebalanced config) (rebalance config)
unfolding rebalance
rebalance-Rebalanced config sized distinct unused some_group =
    let gids = sort (keys config.groups) in
    let same : length gids ≡ length (keys config.groups) = length-sort (keys config.groups) in
    Returns-if (length (keys config.groups) == 0) (λ none'. absurd (ground arith))
      (λ some'.
        Returns-bind
          (reassign-Balanced gids (λ g. omega (arith, occ-sort g (keys config.groups), distinct g))
            config.shards (omega arith)
            (elem-of_occ 0 gids (keys config.groups) (occ-sort 0 (keys config.groups)) ∙ unused)
            sized)
          λ shards b. returns (record { num = refl; groups = refl; balanced = b }))

Exactly-range :
    (n i : ℕ) (gs : List ℕ) (c : ℕ → ℕ) (g : ℕ)
    → Exactly n i gs c
    → elem g gs ≡ true
    → (n_shards / n ≤ c g) × (c g ≤ n_shards / n + 1)
unfolding target
Exactly-range n i [] c g e h = absurd (ground arith)
Exactly-range n i (x ∷ gs) c g (own, rest) h = elim (Bool-cases (x == g)) [
  | inl hit ↦ rw (sym (==→eq _ _ hit)) (ground (arith, own))
  | inr miss ↦ Exactly-range n (suc i) gs c g rest (ground arith)
]

-- When every group has its target, the numbers of shards of any two groups differ by at most 1.
pub Balanced-even :
    (gids shards : List ℕ) (g h : ℕ)
    → Balanced gids shards
    → elem g gids ≡ true
    → elem h gids ≡ true
    → occ g shards ≤ occ h shards + 1
Balanced-even gids shards g h b inside other =
    let (low, high) = Exactly-range (length gids) 0 gids (λ j. occ j shards) g b.exact inside in
    let (low', high') = Exactly-range (length gids) 0 gids (λ j. occ j shards) h b.exact other in
    omega arith
