-- ===== src/MapReduce/Job/Answer.antt =====
-- The result of a sequential job.
use mathlib.Core.List.{Perm}
use mathlib.Core.List.Perm
use mathlib.Core.Path.{subst}
use distributed_systems_labs.Base.{
  length-append, ℕ, zero, suc, ◌+◌, ◌%◌, ◌<◌, ◌≤◌, ◌≡◌, ◌≢◌, refl, sym, ap, ◌∙◌, some, List, [],
  ◌∷◌, Text, ok, ◌==◌, arith, Bool-cases, inl, inr, length, ==→eq, ==→ne,
}
use distributed_systems_labs.MapReduce.Job.Sorting.{sort_keys-Sorted}
use distributed_systems_labs.MapReduce.Types.{Sorted, KeyValue, Json, SortSlice}
use distributed_systems_labs.MapReduce.Names.{reduce_name, merge_name, result_name}
use distributed_systems_labs.MapReduce.Files.{Files, save, save-same, encode_all}
use distributed_systems_labs.MapReduce.Map.{ihash}
use distributed_systems_labs.MapReduce.Map.Partition.{partition}
use distributed_systems_labs.MapReduce.Reduce.Groups.{values_of, result_of}
use distributed_systems_labs.MapReduce.Reduce.Task.{concat_below, Reduced}
use distributed_systems_labs.MapReduce.Job.Phases.{
  task_pairs, mapped, Present, map_each-AfterMap, reduce_each-AfterReduce,
}
use distributed_systems_labs.MapReduce.Job.{
  Master, new_master, put_all, sort_keys, lines, decode_until, gather, merge, one_by_one,
  sequential,
}
use distributed_systems_labs.MapReduce.Job.Values.{
  values_of-put_none, values_of-put_one, values_of-sort_keys, values_of-concat, concat-none,
  values_of-partition, values_of-elsewhere,
}

module _ (json : Json) (sum32 : Text → ℕ) where
  decode_until-encode_all :
      (kvs : List KeyValue) (fuel : ℕ)
      → length (encode_all json kvs) < fuel
      → decode_until json fuel (encode_all json kvs) ≡ kvs
  unfolding decode_until
  decode_until-encode_all kvs zero h = absurd (omega arith)
  decode_until-encode_all [] (suc fuel) h = rw (json.decode-empty, decode_until) refl
  decode_until-encode_all (kv ∷ kvs) (suc fuel) h =
      let less : length (encode_all json kvs) < fuel =
        omega
          (arith, json.encode_nonempty kv, length-append (json.encode kv) (encode_all json kvs)) in
      rw (json.decode-encode kv (encode_all json kvs), decode_until)
        (ap (λ rest. kv ∷ rest) (decode_until-encode_all kvs fuel less))

  module _ (reduce_f : Text → List Text → Text) (n_reduce : ℕ) where
    -- The map of merge after the outputs of the first `i` tasks: it has the keys of these tasks.
    pub record Merged (i : ℕ) (parts : ℕ → List KeyValue) (kvs : List KeyValue) : Type 0 where
      pub done :
          (key : Text)
          → ihash sum32 key % n_reduce < i
          → (vals : List Text) × Perm vals (values_of key (parts (ihash sum32 key % n_reduce)))
            × (values_of key kvs ≡ result_of reduce_f key vals)
      pub todo : (key : Text) → i ≤ ihash sum32 key % n_reduce → values_of key kvs ≡ []

    -- A key that a task has no pairs of is not in its output.
    absent :
        (key : Text) (part out : List KeyValue)
        → Reduced reduce_f part out
        → values_of key part ≡ []
        → values_of key out ≡ []
    absent key part out r none' =
        let (vals, p, e) = r key in
        e ∙ ap (result_of reduce_f key) (Perm.eq-nil (subst (λ vs. Perm vals vs) none' p))

    put_all-result :
        (key : Text) (vals : List Text) (out kvs : List KeyValue)
        → values_of key out ≡ result_of reduce_f key vals
        → values_of key kvs ≡ []
        → values_of key (put_all out kvs) ≡ result_of reduce_f key vals
    put_all-result key [] out kvs e free = values_of-put_none key out kvs e ∙ free
    put_all-result key (v ∷ vs) out kvs e free =
        values_of-put_one key (reduce_f key (v ∷ vs)) out kvs e free

    pub gather-Merged :
        (job : Text) (i : ℕ) (fs : Files) (parts : ℕ → List KeyValue)
        → ((key : Text) (r : ℕ) → ihash sum32 key % n_reduce ≢ r → values_of key (parts r) ≡ [])
        → ((r : ℕ)
            → r < i
            → (out : List KeyValue) × (fs (merge_name job r) ≡ some (encode_all json out))
              × Reduced reduce_f (parts r) out)
        → (kvs : List KeyValue) × (gather json job i fs ≡ ok kvs) × Merged i parts kvs
    unfolding gather
    gather-Merged job zero fs parts apart h =
        ([], refl, record { done = λ key lt. absurd (omega arith); todo = λ key _. refl })
    gather-Merged job (suc i) fs parts apart h =
        let (kvs, run, m) = gather-Merged job i fs parts apart (λ r lt. h r (omega arith)) in
        let (out, written, reduced) = h i (omega arith) in
        let read = decode_until-encode_all out (suc (length (encode_all json out))) (omega arith) in
        (
          put_all out kvs,
          rw (run, written, read) refl,
          record {
            done = λ key lt. elim (Bool-cases (ihash sum32 key % n_reduce == i)) [
              | inl last ↦
                  let e = ==→eq (ihash sum32 key % n_reduce) i last in
                  let (vals, p, res) = reduced key in
                  (vals, rw e p, put_all-result key vals out kvs res (m.todo key (omega arith)))
              | inr before ↦
                  let ne = ==→ne (ihash sum32 key % n_reduce) i before in
                  let (vals, p, res) = m.done key (ground arith) in
                  (
                    vals,
                    p,
                    values_of-put_none key out kvs
                          (absent key (parts i) out reduced (apart key i ne))
                        ∙ res,
                  )
            ];
            todo = λ key le.
                values_of-put_none key out kvs
                  (absent key (parts i) out reduced (apart key i (λ e. far i _ le (sym e))))
                ∙ m.todo key (omega arith);
          },
        )
      where
        far : (a b : ℕ) → suc a ≤ b → a ≢ b
        far a b le e = absurd (omega arith)

  -- Keys of another reduce task have no pairs in the part of a task.
  pub parts-apart :
      (n_map n_reduce : ℕ) (pairs : ℕ → List KeyValue) (key : Text) (r : ℕ)
      → ihash sum32 key % n_reduce ≢ r
      → values_of key (concat_below n_map (λ m. partition json sum32 n_reduce r (pairs m))) ≡ []
  parts-apart n_map n_reduce pairs key r ne =
      values_of-concat key n_map (λ m. partition json sum32 n_reduce r (pairs m)) (λ m. [])
        (λ m. values_of-elsewhere json sum32 key n_reduce r (pairs m) ne)
      ∙ concat-none key n_map

  -- What merge has gathered from all the reduce tasks is the reduction of all the pairs.
  pub Merged-Reduced :
      (reduce_f : Text → List Text → Text) (n_map n_reduce : ℕ) (pairs : ℕ → List KeyValue)
      (kvs : List KeyValue)
      → 0 < n_reduce
      → Merged reduce_f n_reduce n_reduce
          (λ r. concat_below n_map (λ m. partition json sum32 n_reduce r (pairs m)))
          kvs
      → Reduced reduce_f (concat_below n_map pairs) (sort_keys kvs)
  Merged-Reduced reduce_f n_map n_reduce pairs kvs some_task g key =
      let (vals, p, res) = g.done key (ground arith) in
      (
        vals,
        subst (λ vs. Perm vals vs)
            (values_of-concat key n_map
              (λ m. partition json sum32 n_reduce (ihash sum32 key % n_reduce) (pairs m)) pairs
              (λ m. values_of-partition json sum32 key n_reduce (pairs m)))
            p,
        values_of-sort_keys key kvs ∙ res,
      )

  -- If there is at least one reduce task, every input file exists and none is called like an
  -- intermediate file, a sequential job ends, and the final file has, in the order of the keys, a
  -- line for each key that mapF gave for any file and for no other, with reduceF of all the values
  -- of that key in some order.
  pub sequential-Reduced :
      (sorting : SortSlice) (map_f : Text → Text → List KeyValue)
      (reduce_f : Text → List Text → Text) (job : Text) (files : List Text) (n_reduce : ℕ)
      (fs : Files)
      → 0 < n_reduce
      → Present json sum32 sorting map_f reduce_f job fs files
      → (mr : Master) × (fs' : Files) × (kvs : List KeyValue) × (sequential json sum32 sorting map_f
            reduce_f job files n_reduce fs
          ≡ ok (mr, fs'))
        × (fs' (result_name job) ≡ some (lines kvs))
        × Sorted kvs
        × Reduced reduce_f
            (concat_below
              (length files)
              (task_pairs (mapped json sum32 sorting map_f reduce_f fs files)))
            kvs
  unfolding sequential one_by_one merge new_master
  sequential-Reduced sorting map_f reduce_f job files n_reduce fs some_task present =
      let mr : Master = record (new_master (109 ∷ 97 ∷ 115 ∷ 116 ∷ 101 ∷ 114 ∷ [])) {
        job_name = job;
        files = files;
        n_reduce = n_reduce;
      } in
      let pairs = mapped json sum32 sorting map_f reduce_f fs files in
      let part : ℕ → ℕ → List KeyValue =
        λ r m. partition json sum32 n_reduce r (task_pairs pairs m) in
      let parts : ℕ → List KeyValue = λ r. concat_below (length files) (part r) in
      let (fs1, run1, a) =
        map_each-AfterMap json sum32 sorting map_f reduce_f mr 0 files fs some_task present in
      let (fs2, run2, b) =
        reduce_each-AfterReduce json sum32 sorting map_f reduce_f mr n_reduce fs1 part
          (λ m r lt in_range.
            let first : m ≡ 0 + m = omega arith in
            inr (ap (λ k. fs1 (reduce_name job k r)) first ∙ a.parts m r lt in_range)) in
      let (kvs, run3, g) =
        gather-Merged reduce_f n_reduce job n_reduce fs2 parts
          (parts-apart (length files) n_reduce (task_pairs pairs)) (λ r lt. b.outputs r lt) in
      (
        record mr { stats = (length files + n_reduce) ∷ [] },
        save fs2 (result_name job) (lines (sort_keys kvs)),
        sort_keys kvs,
        rw (run1, run2, run3) refl,
        save-same fs2 (result_name job) _,
        sort_keys-Sorted kvs,
        Merged-Reduced reduce_f (length files) n_reduce (task_pairs pairs) kvs some_task g,
      )
