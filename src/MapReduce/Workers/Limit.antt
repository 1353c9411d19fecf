-- ===== src/MapReduce/Workers/Limit.antt =====
-- How many connections a worker serves.
use distributed_systems_labs.Base.{
  Text, ℕ, zero, suc, ◌+◌, ◌-◌, ◌≡◌, refl, ◌∙◌, Bool, true, false, leb, ltb, if◌then◌else◌, ok,
  replicate, arith,
}
use distributed_systems_labs.ShardMaster.Types.{ℤ, pos, negsuc}
use distributed_systems_labs.MapReduce.Types.{DoTaskArgs, Json, SortSlice}
use distributed_systems_labs.MapReduce.Files.{Files}
use distributed_systems_labs.MapReduce.Workers.{
  Worker, begin_task, end_task, work, do_task, serve, connects, is_zero, decrement,
}

-- A limit of n on the connections, or no limit if it is negative.
abbrev pub reached : ℤ → ℕ → Bool
reached (pos n) k = leb n k
reached (negsuc n) k = false

is_zero-reached : (z : ℤ) → is_zero z ≡ reached z 0
is_zero-reached (pos zero) = refl
is_zero-reached (pos (suc n)) = ground arith
is_zero-reached (negsuc n) = refl

decrement-reached :
    (z : ℤ) (k : ℕ) (wk : Worker) (rest : Worker × Bool)
    → rest.1 ≡ reached (decrement z) k
    → (if is_zero z then (wk, true) else rest).1 ≡ reached z (suc k)
decrement-reached (pos zero) k wk rest h = ground arith
decrement-reached (pos (suc n)) k wk rest h = h ∙ ground arith
decrement-reached (negsuc n) k wk rest h = h

-- After k connections the loop of RunWorker has ended exactly if its limit nRPC is not negative
-- and at most k.
pub serve-reached : (k : ℕ) (wk : Worker) → (serve (replicate k connects) wk).1 ≡ reached wk.n_rpc k
unfolding serve
serve-reached zero wk = is_zero-reached wk.n_rpc
serve-reached (suc k) wk =
    decrement-reached wk.n_rpc k wk _ (serve-reached k (record wk { n_rpc = decrement wk.n_rpc }))

-- A worker between tasks carries out a task that can be carried out: the task counts, and the
-- worker is between tasks again.
module _ (json : Json) (sum32 : Text → ℕ) (sorting : SortSlice) where
  pub do_task-idle :
      (wk : Worker) (arg : DoTaskArgs) (fs fs' : Files)
      → wk.concurrent ≡ 0
      → work json sum32 sorting wk arg fs ≡ ok fs'
      → (wk' : Worker) × (do_task json sum32 sorting wk arg fs ≡ ok (wk', fs'))
        × (wk'.concurrent ≡ 0)
        × (wk'.n_tasks ≡ wk.n_tasks + 1)
  unfolding do_task begin_task end_task work
  do_task-idle wk arg fs fs' idle done =
      let free : ltb 1 (wk.concurrent + 1) ≡ false = ground arith in
      (
        record wk { n_tasks = wk.n_tasks + 1; concurrent = (wk.concurrent + 1) - 1 },
        rw (free, done) refl,
        omega arith,
        refl,
      )
