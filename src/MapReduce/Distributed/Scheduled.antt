-- ===== src/MapReduce/Distributed/Scheduled.antt =====
-- A distributed job whose phases are given out by schedule.
use distributed_systems_labs.Base.{
  ℕ, ◌+◌, ◌≤◌, ◌<◌, ◌≡◌, ap, inl, inr, Bool, true, some, List, [], ◌∷◌, arith, ◌==◌, ==→eq,
  Bool-cases, length, get_elem?_bound, ok, returns, one, occ,
}
use distributed_systems_labs.Base.{Text}
use distributed_systems_labs.MapReduce.Types.{Sorted, KeyValue, Json, SortSlice}
use distributed_systems_labs.MapReduce.Names.{result_name}
use distributed_systems_labs.MapReduce.Files.{Files}
use distributed_systems_labs.MapReduce.Reduce.Task.{concat_below, Reduced}
use distributed_systems_labs.MapReduce.Job.{Master, lines}
use distributed_systems_labs.MapReduce.Job.Phases.{task_pairs, mapped, Present}
use distributed_systems_labs.MapReduce.Workers.{Worker}
use distributed_systems_labs.MapReduce.Schedule.{
  Schedule, begin, forward, receive, call_returns, forwards, receives, returns, Reach, started,
  further, all_done,
}
use distributed_systems_labs.MapReduce.Schedule.Finish.{successes, Reach-Counted, Reach-finished}
use distributed_systems_labs.MapReduce.Distributed.{distributed}
use distributed_systems_labs.MapReduce.Distributed.Retries.{Covers, distributed-Reduced}

-- The calls for a task, whether they came through or not.
abbrev pub attempts : ℕ → List (ℕ × Text × Bool) → ℕ
attempts task [] = 0
attempts task ((t, worker, came_through) ∷ calls) = one (t == task) + attempts task calls

-- The tasks that the workers carried out, in order: at least those whose calls came through, and
-- none that was not called for.
pub record CarriedOut (s : Schedule) (tasks : List ℕ) : Type 0 where
  pub if_through : (t : ℕ) → 1 ≤ successes t s.calls → 1 ≤ occ t tasks
  pub if_called : (t : ℕ) → 1 ≤ occ t tasks → 1 ≤ attempts t s.calls

attempts-below : {n : ℕ} {s : Schedule} (t : ℕ) → Reach n s → 1 ≤ attempts t s.calls → t < n
unfolding begin forward receive call_returns
attempts-below t started h = absurd (omega arith)
attempts-below t (further r (forwards w)) h = attempts-below t r h
attempts-below t (further r (receives task w before after idle e)) h = attempts-below t r h
attempts-below t (further {s} r (returns task w came_through e)) h = elim (Bool-cases (task == t)) [
  | inl here ↦
      let inside = get_elem?_bound s.tasks task e in
      let all' = (Reach-Counted r).sized in let same = ==→eq task t here in omega arith
  | inr other ↦ attempts-below t r (omega (arith, ap one other))
]

Reach-Covers :
    {n : ℕ} {s : Schedule} (tasks : List ℕ)
    → Reach n s
    → all_done s.tasks ≡ true
    → CarriedOut s tasks
    → Covers n tasks
Reach-Covers tasks r over c = record {
  all_in = λ t lt. c.if_through t (omega (arith, Reach-finished t r over lt));
  none_else = λ t h. attempts-below t r (c.if_called t h);
}

module _ (json : Json) (sum32 : Text → ℕ) (sorting : SortSlice) (wk : Worker) where
  -- Let schedule give out both phases of a job with at least one reduce task, whose input files
  -- exist and are not called like intermediate files, until both waits are over, and let the
  -- workers carry out every task whose call came through, perhaps some whose call failed, in any
  -- order and more than once. Then the job ends, and the final file has, in the order of the keys,
  -- a line for each key that mapF gave for any file and for no other, with reduceF of all the
  -- values of that key in some order.
  pub schedule-Reduced :
      (mr : Master) (maps reduces : Schedule) (map_tasks reduce_tasks : List ℕ) (fs : Files)
      → 0 < mr.n_reduce
      → Present json sum32 sorting wk.map' wk.reduce mr.job_name fs mr.files
      → Reach (length mr.files) maps
      → all_done maps.tasks ≡ true
      → CarriedOut maps map_tasks
      → Reach mr.n_reduce reduces
      → all_done reduces.tasks ≡ true
      → CarriedOut reduces reduce_tasks
      → (fs' : Files) × (kvs : List KeyValue) × (distributed json sum32 sorting wk mr map_tasks
            reduce_tasks fs
          ≡ ok fs')
        × (fs' (result_name mr.job_name) ≡ some (lines kvs))
        × Sorted kvs
        × Reduced wk.reduce
            (concat_below
              (length mr.files)
              (task_pairs (mapped json sum32 sorting wk.map' wk.reduce fs mr.files)))
            kvs
  schedule-Reduced mr maps reduces map_tasks reduce_tasks fs some_task present r over c r' over'
        c' =
      distributed-Reduced json sum32 sorting wk mr map_tasks reduce_tasks fs some_task
        (Reach-Covers map_tasks r over c) (Reach-Covers reduce_tasks r' over' c') present
