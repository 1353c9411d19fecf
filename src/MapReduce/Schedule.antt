-- ===== src/MapReduce/Schedule.antt =====
-- src/mapreduce/schedule.go: schedule, with one goroutine for each task and the workers that wait
-- on registerChan. A step is what one goroutine does between two blocking operations.
pub mod Finish
use distributed_systems_labs.Base.{
  ℕ, zero, suc, ◌+◌, ◌≡◌, Bool, true, false, ◌&&◌, Option, none, some, List, [], ◌∷◌, ◌++◌, Text,
  if◌then◌else◌, ◌==◌, Run, ok, panic, ◌>>=◌, or_panic, length, get_elem?, set, replicate,
}
use distributed_systems_labs.MapReduce.Types.{JobPhase, map_phase, reduce_phase, DoTaskArgs}

-- ntasks and n_other.
unfoldable pub task_counts : List Text → ℕ → JobPhase → ℕ × ℕ
task_counts map_files n_reduce map_phase = (length map_files, n_reduce)
task_counts map_files n_reduce reduce_phase = (n_reduce, length map_files)

-- The arguments of the call for one task.
unfoldable pub task_args : Text → List Text → ℕ → JobPhase → ℕ → Run DoTaskArgs
unfolding task_counts
task_args job_name map_files n_reduce phase task = do
  file ← (elim phase [ map_phase ↦ or_panic (get_elem? map_files task) | reduce_phase ↦ ok [] ])
  ok (record {
    job_name = job_name;
    file = file;
    phase = phase;
    task_number = task;
    num_other_phase = (task_counts map_files n_reduce phase).1;
  })

-- The goroutine of a task: at the channel, in the call, or done.
pub data TaskState : Type 0 where
  waiting : TaskState
  calling : Text → TaskState
  done : TaskState

-- `offered` are the workers that goroutines try to send on registerChan, `calls` the calls that
-- returned, the last first: the task, the worker and whether the call came through.
pub record Schedule : Type 0 where
  pub tasks : List TaskState
  pub offered : List Text
  pub registered : List Text
  pub calls : List (ℕ × Text × Bool)

unfoldable pub begin : ℕ → Schedule
begin ntasks = record {
  tasks = replicate ntasks waiting;
  offered = [];
  registered = [];
  calls = [];
}

-- forwardRegistrations sends a worker that has registered.
unfoldable pub forward : Text → Schedule → Schedule
forward worker s = record s { offered = worker ∷ s.offered; registered = worker ∷ s.registered }

-- The goroutine of the task receives a worker; the others that are offered remain.
unfoldable pub receive : ℕ → Text → List Text → Schedule → Schedule
receive task worker others s = record s {
  tasks = set s.tasks task (calling worker);
  offered = others;
}

-- The call of the task returns: the worker is offered again, and the goroutine ends or goes on.
unfoldable pub call_returns : ℕ → Text → Bool → Schedule → Schedule
call_returns task worker came_through s = record s {
  tasks = set s.tasks task (if came_through then done else waiting);
  offered = worker ∷ s.offered;
  calls = (task, worker, came_through) ∷ s.calls;
}

pub data Step (s : Schedule) : Schedule → Type 0 where
  forwards : (worker : Text) → Step s (forward worker s)
  receives :
      (task : ℕ) (worker : Text) (before after : List Text)
      → get_elem? s.tasks task ≡ some waiting
      → s.offered ≡ before ++ (worker ∷ after)
      → Step s (receive task worker (before ++ after) s)
  returns :
      (task : ℕ) (worker : Text) (came_through : Bool)
      → get_elem? s.tasks task ≡ some (calling worker)
      → Step s (call_returns task worker came_through s)

pub data Reach (ntasks : ℕ) : Schedule → Type 0 where
  started : Reach ntasks (begin ntasks)
  further : {s s' : Schedule} → Reach ntasks s → Step s s' → Reach ntasks s'

abbrev pub is_done : TaskState → Bool
is_done done = true
is_done _ = false

-- wg.Wait() returns: every goroutine has called wg.Done().
abbrev pub all_done : List TaskState → Bool
all_done [] = true
all_done (t ∷ tasks) = is_done t && all_done tasks
