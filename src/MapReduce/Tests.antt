-- ===== src/MapReduce/Tests.antt =====
-- The map/reduce library at concrete inputs: two files, a map function that gives a pair for each
-- character, and a reduce function that counts.
mod Libraries
use mathlib.Core.List.{Perm}
use distributed_systems_labs.Base.{
  ℕ, zero, suc, ◌+◌, ◌<◌, ◌≤◌, ◌≢◌, ◌≡◌, refl, Bool, true, false, Option, none, some, List, [], ◌∷◌,
  ◌++◌, Text, Run, ok, arith, length, inr, replicate, same_text,
}
use distributed_systems_labs.ShardMaster.Types.{pos}
use distributed_systems_labs.MapReduce.Types.{Sorted, KeyValue}
use distributed_systems_labs.MapReduce.Names.{reduce_name, result_name, itoa, digits}
use distributed_systems_labs.MapReduce.Files.{Files, encode_all, save}
use distributed_systems_labs.MapReduce.Reduce.{do_reduce}
use distributed_systems_labs.MapReduce.Reduce.Task.{
  Holds, Output, concat_below, Reduced, do_reduce-Output,
}
use distributed_systems_labs.MapReduce.Distributed.{distributed}
use distributed_systems_labs.MapReduce.Distributed.Scheduled.{CarriedOut, schedule-Reduced}
use distributed_systems_labs.MapReduce.Job.{new_master, Master, lines, sequential}
use distributed_systems_labs.MapReduce.Job.Phases.{task_pairs, mapped, Present}
use distributed_systems_labs.MapReduce.Job.Answer.{sequential-Reduced}
use distributed_systems_labs.MapReduce.Workers.{Worker, serve, connects}
use distributed_systems_labs.MapReduce.Workers.Limit.{serve-reached}
use distributed_systems_labs.MapReduce.Schedule.{
  Schedule, begin, forward, receive, call_returns, Step, forwards, receives, returns, Reach,
  started, further,
}
use distributed_systems_labs.MapReduce.Schedule.Finish.{
  successes, callers, Reach-finished, Reach-one_call,
}
use distributed_systems_labs.MapReduce.Tests.Libraries.{lengths_json, insertion_sort_slice}

abbrev each_character : Text → Text → List KeyValue
each_character file [] = []
each_character file (c ∷ text) = record { key = c ∷ []; value = file } ∷ each_character file text

abbrev count_values : Text → List Text → Text
count_values key vals = length vals ∷ []

-- In place of FNV-1a, the sum of the characters.
abbrev character_sum : Text → ℕ
character_sum [] = 0
character_sum (c ∷ text) = c + character_sum text

abbrev first_file : Text
first_file = 65 ∷ []

abbrev second_file : Text
second_file = 66 ∷ []

abbrev disk : Files
disk = save (save (λ name. none) first_file (97 ∷ 98 ∷ 97 ∷ [])) second_file (98 ∷ 99 ∷ [])

abbrev job : Text
job = 106 ∷ []

abbrev inputs : List Text
inputs = first_file ∷ second_file ∷ []

-- What two map tasks left for one reduce task.
abbrev left_over : ℕ → List KeyValue
left_over zero = each_character first_file (97 ∷ 98 ∷ 97 ∷ [])
left_over (suc m) = each_character second_file (98 ∷ 99 ∷ [])

abbrev mapped_disk : Files
mapped_disk =
    save (save disk (reduce_name job 0 0) (encode_all lengths_json (left_over 0)))
      (reduce_name job 1 0) (encode_all lengths_json (left_over 1))

abbrev answer_file : Text
answer_file = 67 ∷ []

left_over-Holds :
    (m : ℕ) → m < 2 → Holds lengths_json mapped_disk (reduce_name job m 0) (left_over m)
unfolding save reduce_name itoa digits
left_over-Holds zero lt = inr refl
left_over-Holds (suc zero) lt = inr refl
left_over-Holds (suc (suc m)) lt = absurd (omega arith)

do_reduce-Output_example :
    (fs' : Files) × (do_reduce lengths_json insertion_sort_slice job 0 answer_file 2 count_values
        mapped_disk
      ≡ ok fs')
    × Output lengths_json count_values answer_file (concat_below 2 left_over) mapped_disk fs'
do_reduce-Output_example =
    do_reduce-Output lengths_json insertion_sort_slice job 0 answer_file 2 count_values mapped_disk
      left_over left_over-Holds

not_intermediate : (c : ℕ) (m r : ℕ) → c ≢ 109 → (c ∷ []) ≢ reduce_name job m r
unfolding reduce_name
not_intermediate c m r h e = h (ground arith)

sequential-Reduced_example :
    (mr : Master) × (fs' : Files) × (kvs : List KeyValue) × (sequential lengths_json character_sum
        insertion_sort_slice each_character count_values job inputs 2 disk
      ≡ ok (mr, fs'))
    × (fs' (result_name job) ≡ some (lines kvs))
    × Sorted kvs
    × Reduced count_values
        (concat_below 2 (
          task_pairs (
            mapped lengths_json character_sum insertion_sort_slice each_character count_values disk
              inputs)))
        kvs
unfolding save
sequential-Reduced_example =
    sequential-Reduced lengths_json character_sum insertion_sort_slice each_character count_values
      job inputs 2 disk (omega arith)
      (
        (97 ∷ 98 ∷ 97 ∷ [], refl),
        (λ m r. not_intermediate 65 m r (omega arith)),
        ((98 ∷ 99 ∷ [], refl), (λ m r. not_intermediate 66 m r (omega arith)), tt),
      )

abbrev limited : Worker
limited = record {
  name = 119 ∷ [];
  map' = each_character;
  reduce = count_values;
  n_rpc = pos 3;
  n_tasks = 0;
  concurrent = 0;
}

serve-reached_example : (serve (replicate 2 connects) limited).1 ≡ false
serve-reached_example = serve-reached 2 limited

abbrev worker : Text
worker = 119 ∷ []

-- One task: its first call fails, the second comes through.
abbrev retried : Schedule
retried = call_returns 0 worker true (
    receive 0 worker []
      (call_returns 0 worker false (receive 0 worker [] (forward worker (begin 1)))))

retried-Reach : Reach 1 retried
unfolding begin forward receive call_returns
retried-Reach =
    further
      (further
        (further (further (further started (forwards worker)) (receives 0 worker [] [] refl refl))
          (returns 0 worker false refl))
        (receives 0 worker [] [] refl refl))
      (returns 0 worker true refl)

Reach-finished_example : successes 0 retried.calls ≡ 1
unfolding begin forward receive call_returns
Reach-finished_example = Reach-finished 0 retried-Reach refl (omega arith)

Reach-one_call_example : callers worker retried.tasks ≤ 1
unfolding begin forward receive call_returns
Reach-one_call_example = Reach-one_call worker retried-Reach (omega arith)

-- A job with one file and one reduce task, both tasks of which are carried out twice.
abbrev one_file_job : Master
one_file_job = record (new_master (109 ∷ [])) {
  job_name = job;
  files = first_file ∷ [];
  n_reduce = 1;
}

retried-CarriedOut : CarriedOut retried (0 ∷ 0 ∷ [])
unfolding begin forward receive call_returns
retried-CarriedOut = record { if_through = λ t h. ground arith; if_called = λ t h. ground arith }

schedule-Reduced_example :
    (fs' : Files) × (kvs : List KeyValue) × (distributed lengths_json character_sum
        insertion_sort_slice limited one_file_job
        (0 ∷ 0 ∷ [])
        (0 ∷ 0 ∷ [])
        disk
      ≡ ok fs')
    × (fs' (result_name job) ≡ some (lines kvs))
    × Sorted kvs
    × Reduced count_values
        (concat_below 1 (
          task_pairs (
            mapped lengths_json character_sum insertion_sort_slice each_character count_values disk
              (first_file ∷ []))))
        kvs
unfolding save new_master begin forward receive call_returns
schedule-Reduced_example =
    schedule-Reduced lengths_json character_sum insertion_sort_slice limited one_file_job retried
      retried (0 ∷ 0 ∷ []) (0 ∷ 0 ∷ []) disk (omega arith)
      ((97 ∷ 98 ∷ 97 ∷ [], refl), (λ m r. not_intermediate 65 m r (omega arith)), tt) retried-Reach
      refl retried-CarriedOut retried-Reach refl retried-CarriedOut
