-- ===== src/MapReduce/Distributed.antt =====
-- src/mapreduce/master.go: Distributed, as the tasks that its workers carry out. A task whose call
-- fails may have been carried out all the same, and is given out again: the lists of the tasks of a
-- phase, in the order in which they are carried out, may have repetitions.
pub mod Maps
pub mod Retries
pub mod Scheduled
use distributed_systems_labs.Base.{ℕ, List, [], ◌∷◌, Text, Run, ok, panic, ◌>>=◌}
use distributed_systems_labs.MapReduce.Types.{
  JobPhase, map_phase, reduce_phase, KeyValue, DoTaskArgs, Json, SortSlice,
}
use distributed_systems_labs.MapReduce.Files.{Files}
use distributed_systems_labs.MapReduce.Job.{Master, merge}
use distributed_systems_labs.MapReduce.Workers.{Worker, work}
use distributed_systems_labs.MapReduce.Schedule.{task_args}

module _ (json : Json) (sum32 : Text → ℕ) (sorting : SortSlice) where
  -- The tasks of one phase, with the arguments that schedule sends.
  unfoldable pub carry_out : Worker → Master → JobPhase → List ℕ → Files → Run Files
  unfolding task_args work
  carry_out wk mr phase [] fs = ok fs
  carry_out wk mr phase (task ∷ tasks) fs = do
    arg ← task_args mr.job_name mr.files mr.n_reduce phase task
    done ← work json sum32 sorting wk arg fs
    carry_out wk mr phase tasks done

  -- The run of Distributed: both phases and merge.
  unfoldable pub distributed : Worker → Master → List ℕ → List ℕ → Files → Run Files
  unfolding carry_out merge
  distributed wk mr map_tasks reduce_tasks fs = do
    mapped ← carry_out wk mr map_phase map_tasks fs
    reduced ← carry_out wk mr reduce_phase reduce_tasks mapped
    merge json mr reduced
