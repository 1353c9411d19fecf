-- ===== src/MapReduce/Map.antt =====
-- src/mapreduce/common_map.go: doMap and ihash.
pub mod Partition
use distributed_systems_labs.Base.{
  ℕ, zero, suc, ◌%◌, ◌^◌, none, some, List, [], ◌∷◌, Text, if◌then◌else◌, Run, ok, panic, ◌==◌,
}
use distributed_systems_labs.MapReduce.Types.{KeyValue, Json}
use distributed_systems_labs.MapReduce.Names.{reduce_name}
use distributed_systems_labs.MapReduce.Files.{Files, save, append}

-- `sum32` is Sum32 of the FNV-1a hash of hash/fnv.
unfoldable pub ihash : (Text → ℕ) → Text → ℕ
ihash sum32 key = sum32 key % 2 ^ 31

-- The first loop: one new file for every reduce task.
unfoldable pub create_all : Text → ℕ → ℕ → Files → Files
unfolding reduce_name save
create_all job_name map_task zero fs = fs
create_all job_name map_task (suc r) fs =
    save (create_all job_name map_task r fs) (reduce_name job_name map_task r) []

module _ (json : Json) (sum32 : Text → ℕ) where
  -- The second loop. Go panics on a remainder by zero.
  unfoldable pub encode_each : Text → ℕ → ℕ → List KeyValue → Files → Run Files
  unfolding ihash reduce_name append
  encode_each job_name map_task n_reduce [] fs = ok fs
  encode_each job_name map_task n_reduce (kv ∷ kvs) fs =
      if n_reduce == 0
      then panic
      else encode_each job_name map_task n_reduce kvs (
          append fs (reduce_name job_name map_task (ihash sum32 kv.key % n_reduce))
            (json.encode kv))

  unfoldable pub do_map : Text → ℕ → Text → ℕ → (Text → Text → List KeyValue) → Files → Run Files
  unfolding create_all encode_each
  do_map job_name map_task in_file n_reduce map_f fs = elim (fs in_file) [
    | none ↦ panic
    | some data' ↦
        encode_each job_name map_task n_reduce (map_f in_file data')
          (create_all job_name map_task n_reduce fs)
  ]
