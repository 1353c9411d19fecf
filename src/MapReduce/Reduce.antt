-- ===== src/MapReduce/Reduce.antt =====
-- src/mapreduce/common_reduce.go: doReduce.
pub mod Groups
pub mod Task
use distributed_systems_labs.Base.{
  ℕ, zero, suc, ◌+◌, none, some, List, [], ◌∷◌, ◌++◌, Text, same_text, if◌then◌else◌, Run, ok,
  panic, ◌>>=◌, length,
}
use distributed_systems_labs.MapReduce.Types.{KeyValue, Json, SortSlice}
use distributed_systems_labs.MapReduce.Names.{reduce_name}
use distributed_systems_labs.MapReduce.Files.{Files, save, append, decode_all}

-- The inner loops: the values of the run of pairs with this key, and the pairs from j on.
unfoldable pub take_run : Text → List KeyValue → List Text × List KeyValue
take_run key [] = ([], [])
take_run key (kv ∷ kvs) =
    let (vals, rest) = take_run key kvs in
    if same_text kv.key key then (kv.value ∷ vals, rest) else ([], kv ∷ kvs)

-- The outer loop: the pairs that go to the output. Each turn takes a pair at least, so the number
-- of pairs is fuel enough.
unfoldable pub reduce_loop : (Text → List Text → Text) → ℕ → List KeyValue → List KeyValue
unfolding take_run
reduce_loop reduce_f zero kvs = []
reduce_loop reduce_f (suc fuel) [] = []
reduce_loop reduce_f (suc fuel) (kv ∷ kvs) =
    let run = take_run kv.key kvs in
    let rest = reduce_loop reduce_f fuel run.1 in
    record { key = kv.key; value = reduce_f kv.key (kv.value ∷ run.0) } ∷ rest

module _ (json : Json) where
  -- The pairs of the files (0, task) to (n_map - 1, task); a file that cannot be opened is skipped.
  unfoldable pub read_all : Text → ℕ → ℕ → Files → Run (List KeyValue)
  unfolding reduce_name decode_all
  read_all job_name reduce_task zero fs = ok []
  read_all job_name reduce_task (suc mi) fs = do
    before ← read_all job_name reduce_task mi fs
    elim (fs (reduce_name job_name mi reduce_task)) [
      | none ↦ ok before
      | some text ↦ (decode_all json text >>= λ kvs. ok (before ++ kvs))
    ]

  -- enc.Encode for each result.
  unfoldable pub write_each : Text → List KeyValue → Files → Files
  unfolding append
  write_each out_file [] fs = fs
  write_each out_file (kv ∷ kvs) fs = write_each out_file kvs (append fs out_file (json.encode kv))

  unfoldable pub do_reduce :
      SortSlice → Text → ℕ → Text → ℕ → (Text → List Text → Text) → Files → Run Files
  unfolding read_all save write_each reduce_loop
  do_reduce sorting job_name reduce_task out_file n_map reduce_f fs = do
    kvs ← read_all job_name reduce_task n_map fs
    let sorted = sorting.sort_slice kvs in
        ok (write_each out_file (reduce_loop reduce_f (length sorted) sorted) (save fs out_file []))
