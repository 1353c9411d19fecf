-- ===== src/ShardMaster/Rebalance.antt =====
-- src/shardmaster/server.go: Rebalance, step by step as numbered in the source.
pub mod Pool
pub mod Donation
pub mod Receipt
pub mod Balanced
use distributed_systems_labs.Base.{
  ℕ, zero, suc, ◌+◌, ◌-◌, ◌/◌, ◌%◌, Bool, Option, none, some, List, [], ◌∷◌, ◌++◌, Run, ok, panic,
  ◌>>=◌, ltb, ◌==◌, if◌then◌else◌, length, get_elem?, set, replicate, elem, sort,
}
use distributed_systems_labs.ShardMaster.Types.{n_shards, Config, keys}

-- The variables of Rebalance that the loops change: config.Shards, count and pool.
pub record Balance : Type 0 where
  pub shards : List ℕ
  pub count : ℕ → ℕ
  pub pool : List ℕ

-- target(i), for `n` groups.
unfoldable pub target : ℕ → ℕ → ℕ
target n i = if ltb i (n_shards % n) then n_shards / n + 1 else n_shards / n

-- count[gid] = v
abbrev pub update : (ℕ → ℕ) → ℕ → ℕ → ℕ → ℕ
update count gid v g = if g == gid then v else count g

-- 2. The loop over the shards from index `s`.
unfoldable pub survey : List ℕ → ℕ → List ℕ → (ℕ → ℕ) × List ℕ → (ℕ → ℕ) × List ℕ
survey gids s [] found = found
survey gids s (gid ∷ rest) (count, pool) =
    survey gids (suc s) rest
      (if elem gid gids then (update count gid (count gid + 1), pool) else (count, pool ++ s ∷ []))

-- The search of step 3 for a shard of `gid` below index `s`, from the high end.
unfoldable pub find_last : ℕ → ℕ → List ℕ → Option ℕ
find_last gid zero shards = none
find_last gid (suc s) shards = elim (get_elem? shards s) [
  | some g ↦ if g == gid then some s else find_last gid s shards
  | none ↦ find_last gid s shards
]

-- config.Shards[s] = 0; pool = append(pool, s), if the search found `s`.
unfoldable pub give_up : Balance → Option ℕ → Balance
give_up b none = b
give_up b (some s) = record b { shards = set b.shards s 0; pool = b.pool ++ s ∷ [] }

-- One round of the donation loop.
unfoldable pub donate_one : ℕ → Balance → Balance
unfolding give_up
donate_one gid b =
    give_up (record b { count = update b.count gid (b.count gid - 1) })
      (find_last gid n_shards b.shards)

-- 3. for count[gid] > target: each round takes one from the count, so the count is fuel enough.
unfoldable pub donate_loop : ℕ → ℕ → ℕ → Balance → Balance
donate_loop zero gid t b = b
donate_loop (suc fuel) gid t b =
    let rest = donate_loop fuel gid t (donate_one gid b) in if ltb t (b.count gid) then rest else b

unfoldable pub donate : ℕ → ℕ → List ℕ → Balance → Balance
donate n i [] b = b
donate n i (gid ∷ gids) b = donate n (suc i) gids (donate_loop (b.count gid) gid (target n i) b)

-- 4. for count[gid] < target: the target is fuel enough.
unfoldable pub receive_loop : ℕ → ℕ → ℕ → (ℕ → ℕ) × List ℕ → (ℕ → ℕ) × List ℕ
receive_loop zero gid t state = state
receive_loop (suc fuel) gid t (count, need) =
    let rest = receive_loop fuel gid t (update count gid (count gid + 1), need ++ gid ∷ []) in
    if ltb (count gid) t then rest else (count, need)

unfoldable pub receive : ℕ → ℕ → List ℕ → (ℕ → ℕ) × List ℕ → (ℕ → ℕ) × List ℕ
receive n i [] state = state
receive n i (gid ∷ gids) state =
    receive n (suc i) gids (receive_loop (target n i) gid (target n i) state)

-- 5. config.Shards[s] = need[i] for each pooled shard.
unfoldable pub assign : List ℕ → List ℕ → List ℕ → Run (List ℕ)
assign [] need shards = ok shards
assign (s ∷ pool) [] shards = panic
assign (s ∷ pool) (g ∷ need) shards =
    let rest = assign pool need (set shards s g) in if ltb s (length shards) then rest else panic

-- Steps 1 to 5, for the sorted ids of the groups.
unfoldable pub reassign : List ℕ → List ℕ → Run (List ℕ)
reassign gids shards =
    let n = length gids in
    let (count, pool) = survey gids 0 shards ((λ _. 0), []) in
    let b = donate n 0 gids (record { shards = shards; count = count; pool = pool }) in
    let (count', need) = receive n 0 gids (b.count, []) in assign (sort b.pool) need b.shards

unfoldable pub rebalance : Config → Run Config
rebalance config =
    if length (keys config.groups) == 0
    then ok (record config { shards = replicate n_shards 0 })
    else reassign (sort (keys config.groups)) config.shards >>= λ shards.
        ok (record config { shards = shards })
