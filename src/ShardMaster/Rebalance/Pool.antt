-- ===== src/ShardMaster/Rebalance/Pool.antt =====
-- The pool of Rebalance: the indices of the shards whose group is not among `gids`. The survey
-- collects it, and a donation adds the donated shard.
use distributed_systems_labs.Base.{
  ℕ, zero, suc, ◌+◌, ◌≤◌, ◌<◌, ◌≡◌, refl, ap, inl, inr, true, false, not, some, List, [], ◌∷◌, ◌++◌,
  arith, ◌==◌, if◌then◌else◌, Bool-cases, length, get_elem?, set, length-append, one, occ, elem,
  count_in, occ-append,
}
use distributed_systems_labs.ShardMaster.Types.{n_shards}
use distributed_systems_labs.ShardMaster.Rebalance.{Balance, update, survey}

-- 1 if the shard at an index is of none of the groups.
abbrev pub free_at : List ℕ → List ℕ → ℕ → ℕ
free_at gids [] s = 0
free_at gids (x ∷ xs) zero = one (not (elem x gids))
free_at gids (x ∷ xs) (suc s) = free_at gids xs s

pub free_at-le : (gids xs : List ℕ) (s : ℕ) → free_at gids xs s ≤ 1
free_at-le gids [] s = omega arith
free_at-le gids (x ∷ xs) zero = ground arith
free_at-le gids (x ∷ xs) (suc s) = free_at-le gids xs s

-- A free index is in range, and its group is not among `gids`.
pub free_at-some :
    (gids xs : List ℕ) (s : ℕ)
    → 1 ≤ free_at gids xs s
    → (x : ℕ) × (get_elem? xs s ≡ some x) × (elem x gids ≡ false)
free_at-some gids [] s h = absurd (omega arith)
free_at-some gids (x ∷ xs) zero h = (x, refl, ground arith)
free_at-some gids (x ∷ xs) (suc s) h = free_at-some gids xs s h

pub free_at-taken :
    (gids xs : List ℕ) (s x : ℕ)
    → get_elem? xs s ≡ some x
    → elem x gids ≡ true
    → free_at gids xs s ≡ 0
free_at-taken gids [] s x h e = refl
free_at-taken gids (y ∷ xs) zero x h e = ground arith
free_at-taken gids (y ∷ xs) (suc s) x h e = free_at-taken gids xs s x h e

pub free_at-set :
    (gids xs : List ℕ) (s j v : ℕ)
    → s < length xs
    → free_at gids (set xs s v) j ≡ (if s == j then one (not (elem v gids)) else free_at gids xs j)
free_at-set gids [] s j v h = absurd (omega arith)
free_at-set gids (x ∷ xs) zero zero v h = refl
free_at-set gids (x ∷ xs) zero (suc j) v h = ground arith
free_at-set gids (x ∷ xs) (suc s) zero v h = ground arith
free_at-set gids (x ∷ xs) (suc s) (suc j) v h = ground (arith, free_at-set gids xs s j v)

-- If no index is free, every shard is of one of the groups.
pub none_free :
    (gids xs : List ℕ) → ((s : ℕ) → free_at gids xs s ≡ 0) → count_in gids xs ≡ length xs
none_free gids [] h = refl
none_free gids (x ∷ xs) h = ground (arith, h 0, none_free gids xs (λ s. h (suc s)))

module _ (gids : List ℕ) where
  -- The counts, the pool and the shards agree.
  pub record Tally (b : Balance) : Type 0 where
    pub sized : length b.shards ≡ n_shards
    pub counts : (g : ℕ) → elem g gids ≡ true → b.count g ≡ occ g b.shards
    pub free : (s : ℕ) → occ s b.pool ≡ free_at gids b.shards s
    pub total : length b.pool + count_in gids b.shards ≡ n_shards

  -- The effect of the survey from index `s` on the counts and the pool.
  record Surveyed (s : ℕ) (xs : List ℕ) (before after : (ℕ → ℕ) × List ℕ) : Type 0 where
    counts : (g : ℕ) → elem g gids ≡ true → after.0 g ≡ before.0 g + occ g xs
    low : (j : ℕ) → j < s → occ j after.1 ≡ occ j before.1
    high : (j i : ℕ) → i ≡ s + j → occ i after.1 ≡ occ i before.1 + free_at gids xs j
    total : length after.1 + count_in gids xs ≡ length before.1 + length xs

  -- A shard of a group is counted; any other goes to the pool.
  Surveyed-inside :
      (s x : ℕ) (xs : List ℕ) (count : ℕ → ℕ) (pool : List ℕ) (after : (ℕ → ℕ) × List ℕ)
      → elem x gids ≡ true
      → Surveyed (suc s) xs (update count x (count x + 1), pool) after
      → Surveyed s (x ∷ xs) (count, pool) after
  Surveyed-inside s x xs count pool after inside r = record {
    counts = λ g e. ground (arith, r.counts g e);
    low = λ j h. r.low j (omega arith);
    high = high;
    total = omega (arith, r.total, ap one inside);
  }
    where
      high : (j i : ℕ) → i ≡ s + j → occ i after.1 ≡ occ i pool + free_at gids (x ∷ xs) j
      high zero i e = omega (arith, r.low i (omega arith), ap (λ b. one (not b)) inside)
      high (suc j) i e = r.high j i (omega arith)

  Surveyed-outside :
      (s x : ℕ) (xs : List ℕ) (count : ℕ → ℕ) (pool : List ℕ) (after : (ℕ → ℕ) × List ℕ)
      → elem x gids ≡ false
      → Surveyed (suc s) xs (count, pool ++ s ∷ []) after
      → Surveyed s (x ∷ xs) (count, pool) after
  Surveyed-outside s x xs count pool after outside r = record {
    counts = λ g e. ground (arith, r.counts g e);
    low = λ j h. ground (arith, r.low j, occ-append j pool (s ∷ []));
    high = high;
    total = omega (arith, r.total, length-append pool (s ∷ []), ap one outside);
  }
    where
      high : (j i : ℕ) → i ≡ s + j → occ i after.1 ≡ occ i pool + free_at gids (x ∷ xs) j
      high zero i e = ground (arith, r.low i, occ-append i pool (s ∷ []), outside)
      high (suc j) i e = ground (arith, r.high j i, occ-append i pool (s ∷ []))

  survey-Surveyed :
      (s : ℕ) (xs : List ℕ) (found : (ℕ → ℕ) × List ℕ)
      → Surveyed s xs found (survey gids s xs found)
  unfolding survey
  survey-Surveyed s [] found = record {
    counts = λ g e. omega arith;
    low = λ j h. refl;
    high = λ j i e. omega arith;
    total = omega arith;
  }
  survey-Surveyed s (x ∷ xs) (count, pool) = elim (Bool-cases (elem x gids)) [
    | inl inside ↦ rw inside (
        Surveyed-inside s x xs count pool _ inside
          (survey-Surveyed (suc s) xs (update count x (count x + 1), pool)))
    | inr outside ↦ rw outside (
        Surveyed-outside s x xs count pool _ outside
          (survey-Surveyed (suc s) xs (count, pool ++ s ∷ [])))
  ]

  -- The counts and the pool with which the donations start.
  abbrev pub surveyed : List ℕ → Balance
  surveyed xs =
      let (count, pool) = survey gids 0 xs ((λ _. 0), []) in
      record { shards = xs; count = count; pool = pool }

  pub surveyed-Tally : (xs : List ℕ) → length xs ≡ n_shards → Tally (surveyed xs)
  surveyed-Tally xs sized =
      let r = survey-Surveyed 0 xs ((λ _. 0), []) in
      record {
        sized = sized;
        counts = λ g e. omega (arith, r.counts g e);
        free = λ s. omega (arith, r.high s s (omega arith));
        total = omega (arith, r.total);
      }
