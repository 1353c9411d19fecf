-- ===== src/MapReduce/Workers.antt =====
-- src/mapreduce/worker.go and master.go: the worker's RPC handlers and its loop over connections,
-- and the master's Register and killWorkers.
pub mod Limit
use distributed_systems_labs.Base.{
  ℕ, zero, suc, ◌+◌, ◌-◌, Bool, true, false, Option, none, some, List, [], ◌∷◌, ◌++◌, Text, ltb,
  if◌then◌else◌, Run, ok, panic, ◌>>=◌,
}
use distributed_systems_labs.ShardMaster.Types.{ℤ, pos, negsuc}
use distributed_systems_labs.MapReduce.Types.{
  JobPhase, map_phase, reduce_phase, KeyValue, DoTaskArgs, Json, SortSlice,
}
use distributed_systems_labs.MapReduce.Names.{merge_name}
use distributed_systems_labs.MapReduce.Files.{Files}
use distributed_systems_labs.MapReduce.Map.{do_map}
use distributed_systems_labs.MapReduce.Reduce.{do_reduce}
use distributed_systems_labs.MapReduce.Job.{Master}

pub record Worker : Type 0 where
  pub name : Text
  pub map' : Text → Text → List KeyValue
  pub reduce : Text → List Text → Text
  pub n_rpc : ℤ
  pub n_tasks : ℕ
  pub concurrent : ℕ

-- The locked section at the start of DoTask: another task under way is fatal.
unfoldable pub begin_task : Worker → Run Worker
begin_task wk =
    let r = record wk { n_tasks = wk.n_tasks + 1; concurrent = wk.concurrent + 1 } in
    if ltb 1 r.concurrent then panic else ok r

unfoldable pub end_task : Worker → Worker
end_task wk = record wk { concurrent = wk.concurrent - 1 }

module _ (json : Json) (sum32 : Text → ℕ) (sorting : SortSlice) where
  -- The part of DoTask that does the work.
  unfoldable pub work : Worker → DoTaskArgs → Files → Run Files
  unfolding do_map do_reduce merge_name
  work wk arg fs = elim arg.phase [
    | map_phase ↦
        do_map json sum32 arg.job_name arg.task_number arg.file arg.num_other_phase wk.map' fs
    | reduce_phase ↦
        do_reduce json sorting arg.job_name arg.task_number
          (merge_name arg.job_name arg.task_number) arg.num_other_phase wk.reduce fs
  ]

  unfoldable pub do_task : Worker → DoTaskArgs → Files → Run (Worker × Files)
  unfolding begin_task work end_task
  do_task wk arg fs = do
    started ← begin_task wk
    done ← work started arg fs
    ok (end_task started, done)

-- Worker.Shutdown, with Ntasks of the reply.
unfoldable pub shutdown : Worker → Worker × ℕ
shutdown wk = (record wk { n_rpc = pos 1 }, wk.n_tasks)

-- wk.nRPC--
abbrev pub decrement : ℤ → ℤ
decrement (pos zero) = negsuc 0
decrement (pos (suc n)) = pos n
decrement (negsuc n) = negsuc (suc n)

-- wk.nRPC == 0
abbrev pub is_zero : ℤ → Bool
is_zero (pos zero) = true
is_zero _ = false

-- What Accept of the listener returns, or a Shutdown that runs while the loop waits in Accept.
pub data ListenEvent : Type 0 where
  connects fails shuts_down : ListenEvent

-- The loop of RunWorker over what happens at the listener, and whether it has ended.
unfoldable pub serve : List ListenEvent → Worker → Worker × Bool
unfolding shutdown
serve [] wk = (wk, is_zero wk.n_rpc)
serve (e ∷ events) wk =
    let next = serve events (elim e [
      | connects ↦ record wk { n_rpc = decrement wk.n_rpc }
      | fails ↦ wk
      | shuts_down ↦ (shutdown wk).0
    ]) in
    if is_zero wk.n_rpc
    then (wk, true)
    else (elim e [ connects ↦ next | fails ↦ (wk, true) | shuts_down ↦ next ])

-- Master.Register
unfoldable pub register : Master → Text → Master
register mr worker = record mr { workers = mr.workers ++ worker ∷ [] }

-- killWorkers: `call` gives the reply of a worker to Worker.Shutdown, if the RPC comes through.
unfoldable pub kill_workers : (Text → Option ℕ) → List Text → List ℕ
kill_workers call [] = []
kill_workers call (w ∷ workers) = elim (call w) [
  | none ↦ kill_workers call workers
  | some n_tasks ↦ n_tasks ∷ kill_workers call workers
]

-- forwardRegistrations, from worker `i` on: the names that it sends on the channel.
unfoldable pub forward_registrations : ℕ → List Text → List Text
forward_registrations zero workers = workers
forward_registrations (suc i) [] = []
forward_registrations (suc i) (w ∷ workers) = forward_registrations i workers
