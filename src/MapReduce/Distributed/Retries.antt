-- ===== src/MapReduce/Distributed/Retries.antt =====
-- A distributed job in which tasks are carried out in any order and any number of times.
use distributed_systems_labs.Base.{
  ℕ, ◌≤◌, ◌<◌, ◌≡◌, refl, sym, ap, ◌∙◌, ◌⊎◌, inl, inr, some, List, [], ◌∷◌, arith, ◌==◌, ==→eq,
  ==→ne, Bool-cases, length, ok, one, occ,
}
use mathlib.Core.Path.{subst}
use distributed_systems_labs.Base.{Text}
use distributed_systems_labs.MapReduce.Job.Sorting.{sort_keys-Sorted}
use distributed_systems_labs.MapReduce.Types.{Sorted, reduce_phase, KeyValue, Json, SortSlice}
use distributed_systems_labs.MapReduce.Names.{reduce_name, merge_name, result_name}
use distributed_systems_labs.MapReduce.Names.Distinct.{merge_name_injective, merge_name≢reduce_name}
use distributed_systems_labs.MapReduce.Files.{Files, save, save-same, encode_all}
use distributed_systems_labs.MapReduce.Map.Partition.{differ, partition}
use distributed_systems_labs.MapReduce.Reduce.Task.{concat_below, Reduced, Holds, do_reduce-Output}
use distributed_systems_labs.MapReduce.Job.{Master, merge, lines, sort_keys}
use distributed_systems_labs.MapReduce.Job.Phases.{task_pairs, mapped, Present, Holds-same}
use distributed_systems_labs.MapReduce.Job.Answer.{gather-Merged, parts-apart, Merged-Reduced}
use distributed_systems_labs.MapReduce.Workers.{Worker, work}
use distributed_systems_labs.MapReduce.Distributed.{carry_out, distributed}
use distributed_systems_labs.MapReduce.Distributed.Maps.{first_in, carry_out-Mapped}

-- Every task below `n` is in the list, and no other number.
pub record Covers (n : ℕ) (tasks : List ℕ) : Type 0 where
  pub all_in : (t : ℕ) → t < n → 1 ≤ occ t tasks
  pub none_else : (t : ℕ) → 1 ≤ occ t tasks → t < n

module _ (json : Json) (sum32 : Text → ℕ) (sorting : SortSlice) (wk : Worker) where
  -- Reduce task `r` has written its output.
  abbrev Done : Master → (ℕ → List KeyValue) → Files → ℕ → Type 0
  Done mr parts fs r =
      (out : List KeyValue) × (fs (merge_name mr.job_name r) ≡ some (encode_all json out))
      × Reduced wk.reduce (parts r) out

  Done-same :
      (mr : Master) (parts : ℕ → List KeyValue) (fs fs' : Files) (r : ℕ)
      → fs' (merge_name mr.job_name r) ≡ fs (merge_name mr.job_name r)
      → Done mr parts fs r
      → Done mr parts fs' r
  Done-same mr parts fs fs' r e (out, written, reduced) = (out, e ∙ written, reduced)

  -- The reduce tasks in the list have written their outputs, if the map tasks left their parts.
  carry_out-Done :
      (mr : Master) (part : ℕ → ℕ → List KeyValue) (tasks : List ℕ) (fs : Files)
      → ((m r : ℕ)
          → m < length mr.files
          → 1 ≤ occ r tasks
          → Holds json fs (reduce_name mr.job_name m r) (part r m))
      → (fs' : Files) × (carry_out json sum32 sorting wk mr reduce_phase tasks fs ≡ ok fs')
        × ((r : ℕ)
            → (1 ≤ occ r tasks) ⊎ Done mr (λ r. concat_below (length mr.files) (part r)) fs r
            → Done mr (λ r. concat_below (length mr.files) (part r)) fs' r)
  unfolding carry_out work
  carry_out-Done mr part [] fs h =
      (fs, refl, λ r o. elim o [ inl none' ↦ absurd (omega arith) | inr done ↦ done ])
  carry_out-Done mr part (task ∷ tasks) fs h =
      let parts : ℕ → List KeyValue = λ r. concat_below (length mr.files) (part r) in
      let (fs1, run1, o) =
        do_reduce-Output json sorting mr.job_name task (merge_name mr.job_name task)
          (length mr.files) wk.reduce fs (part task) (λ m lt. h m task lt (first_in task tasks)) in
      let still : (m r : ℕ)
          → m < length mr.files
          → 1 ≤ occ r tasks
          → Holds json fs1 (reduce_name mr.job_name m r) (part r m) =
        λ m r lt more.
          Holds-same json sum32 sorting wk.map' wk.reduce fs fs1 (reduce_name mr.job_name m r)
            (o.untouched (reduce_name mr.job_name m r)
              (differ (λ e. merge_name≢reduce_name mr.job_name task m r (sym e))))
            (h m r lt (omega arith)) in
      let (fs2, run2, rest) = carry_out-Done mr part tasks fs1 still in
      (
        fs2,
        rw run1 run2,
        λ r before. rest r (elim (Bool-cases (task == r)) [
          | inl here ↦
              inr (subst (Done mr parts fs1) (==→eq task r here) (o.out, o.written, o.reduced))
          | inr other ↦ elim before [
            | inl later ↦ inl (omega (arith, ap one other))
            | inr done ↦ inr (
                Done-same mr parts fs fs1 r
                  (o.untouched (merge_name mr.job_name r) (
                    differ
                      (λ e. ==→ne task r other (sym (merge_name_injective mr.job_name r task e)))))
                  done)
          ]
        ]),
      )

  -- If the workers carry out every map task and then every reduce task of a job, in any order and as
  -- often as they like, the job ends, and the final file has a line for each key that mapF gave.
  pub distributed-Reduced :
      (mr : Master) (map_tasks reduce_tasks : List ℕ) (fs : Files)
      → 0 < mr.n_reduce
      → Covers (length mr.files) map_tasks
      → Covers mr.n_reduce reduce_tasks
      → Present json sum32 sorting wk.map' wk.reduce mr.job_name fs mr.files
      → (fs' : Files) × (kvs : List KeyValue) × (distributed json sum32 sorting wk mr map_tasks
            reduce_tasks fs
          ≡ ok fs')
        × (fs' (result_name mr.job_name) ≡ some (lines kvs))
        × Sorted kvs
        × Reduced wk.reduce
            (concat_below
              (length mr.files)
              (task_pairs (mapped json sum32 sorting wk.map' wk.reduce fs mr.files)))
            kvs
  unfolding distributed merge
  distributed-Reduced mr map_tasks reduce_tasks fs some_task maps reduces present =
      let pairs = task_pairs (mapped json sum32 sorting wk.map' wk.reduce fs mr.files) in
      let part : ℕ → ℕ → List KeyValue = λ r m. partition json sum32 mr.n_reduce r (pairs m) in
      let parts : ℕ → List KeyValue = λ r. concat_below (length mr.files) (part r) in
      let (fs1, run1, a) =
        carry_out-Mapped json sum32 sorting wk mr pairs map_tasks fs some_task maps.none_else
          present (λ m. refl) in
      let (fs2, run2, b) = carry_out-Done mr part reduce_tasks fs1 (λ m r lt in_tasks.
        inr (a.shares m r (inl (maps.all_in m lt)) (reduces.none_else r in_tasks))) in
      let (kvs, run3, g) =
        gather-Merged json sum32 wk.reduce mr.n_reduce mr.job_name mr.n_reduce fs2 parts
          (parts-apart json sum32 (length mr.files) mr.n_reduce pairs)
          (λ r lt. b r (inl (reduces.all_in r lt))) in
      (
        save fs2 (result_name mr.job_name) (lines (sort_keys kvs)),
        sort_keys kvs,
        rw run1 (rw run2 (rw run3 refl)),
        save-same fs2 (result_name mr.job_name) _,
        sort_keys-Sorted kvs,
        Merged-Reduced json sum32 wk.reduce (length mr.files) mr.n_reduce pairs kvs some_task g,
      )
