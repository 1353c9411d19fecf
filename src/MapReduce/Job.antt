-- ===== src/MapReduce/Job.antt =====
-- src/mapreduce/master.go and master_splitmerge.go: the Master, run with the schedule of
-- Sequential, merge and CleanupFiles.
pub mod Phases
pub mod Sorting
pub mod Values
pub mod Answer
use distributed_systems_labs.Base.{
  ℕ, zero, suc, ◌+◌, none, some, List, [], ◌∷◌, ◌++◌, map, Text, same_text, less_text,
  if◌then◌else◌, Run, ok, panic, ◌>>=◌, length,
}
use distributed_systems_labs.MapReduce.Types.{
  JobPhase, map_phase, reduce_phase, KeyValue, Json, SortSlice, item, eof, bad,
}
use distributed_systems_labs.MapReduce.Names.{reduce_name, merge_name, result_name}
use distributed_systems_labs.MapReduce.Files.{Files, save, delete}
use distributed_systems_labs.MapReduce.Map.{do_map}
use distributed_systems_labs.MapReduce.Reduce.{do_reduce}

-- The fields of Master that the calls of a job use; the lock, the condition variable and the
-- channels are in the order of the steps.
pub record Master : Type 0 where
  pub address : Text
  pub workers : List Text
  pub job_name : Text
  pub files : List Text
  pub n_reduce : ℕ
  pub stats : List ℕ

unfoldable pub new_master : Text → Master
new_master master = record {
  address = master;
  workers = [];
  job_name = [];
  files = [];
  n_reduce = 0;
  stats = [];
}

-- kvs[key] = value
unfoldable pub put : Text → Text → List KeyValue → List KeyValue
put key value [] = record { key = key; value = value } ∷ []
put key value (kv ∷ kvs) =
    if same_text kv.key key
    then record { key = key; value = value } ∷ kvs
    else kv ∷ put key value kvs

unfoldable pub put_all : List KeyValue → List KeyValue → List KeyValue
unfolding put
put_all [] kvs = kvs
put_all (kv ∷ more) kvs = put_all more (put kv.key kv.value kvs)

-- sort.Strings on the keys of the map: they are distinct, so their order is known.
unfoldable pub insert_key : KeyValue → List KeyValue → List KeyValue
insert_key kv [] = kv ∷ []
insert_key kv (other ∷ kvs) =
    if less_text other.key kv.key then other ∷ insert_key kv kvs else kv ∷ other ∷ kvs

unfoldable pub sort_keys : List KeyValue → List KeyValue
unfolding insert_key
sort_keys [] = []
sort_keys (kv ∷ kvs) = insert_key kv (sort_keys kvs)

-- fmt.Fprintf(w, "%s: %s\n", k, kvs[k]) for each key.
unfoldable pub lines : List KeyValue → Text
lines [] = []
lines (kv ∷ kvs) = kv.key ++ (58 ∷ 32 ∷ (kv.value ++ (10 ∷ lines kvs)))

module _ (json : Json) where
  -- The loop of merge over dec.Decode, which ends with the first error of any kind.
  unfoldable pub decode_until : ℕ → Text → List KeyValue
  decode_until zero text = []
  decode_until (suc fuel) text = elim (json.decode text) [
    | item kv rest ↦ kv ∷ decode_until fuel rest
    | eof ↦ []
    | bad ↦ []
  ]

  -- The map that merge fills from the outputs of the first `n` reduce tasks.
  unfoldable pub gather : Text → ℕ → Files → Run (List KeyValue)
  unfolding merge_name decode_until put_all
  gather job_name zero fs = ok []
  gather job_name (suc i) fs = do
    kvs ← gather job_name i fs
    elim (fs (merge_name job_name i)) [
      | none ↦ panic
      | some text ↦ ok (put_all (decode_until (suc (length text)) text) kvs)
    ]

  unfoldable pub merge : Master → Files → Run Files
  unfolding gather lines sort_keys result_name save
  merge mr fs = do
    kvs ← gather mr.job_name mr.n_reduce fs
    ok (save fs (result_name mr.job_name) (lines (sort_keys kvs)))

  module _ (sum32 : Text → ℕ) (sorting : SortSlice) (map_f : Text → Text → List KeyValue)
      (reduce_f : Text → List Text → Text) where
    -- The loop over mr.files, from task `i` on.
    unfoldable pub map_each : Master → ℕ → List Text → Files → Run Files
    unfolding do_map
    map_each mr i [] fs = ok fs
    map_each mr i (f ∷ files) fs = do
      done ← do_map json sum32 mr.job_name i f mr.n_reduce map_f fs
      map_each mr (suc i) files done

    -- The reduce tasks before `n`, in order.
    unfoldable pub reduce_each : Master → ℕ → Files → Run Files
    unfolding do_reduce merge_name
    reduce_each mr zero fs = ok fs
    reduce_each mr (suc i) fs = do
      done ← reduce_each mr i fs
      do_reduce json sorting mr.job_name i (merge_name mr.job_name i) (length mr.files) reduce_f
          done

    -- The schedule of Sequential.
    unfoldable pub one_by_one : Master → JobPhase → Files → Run Files
    unfolding map_each reduce_each
    one_by_one mr map_phase fs = map_each mr 0 mr.files fs
    one_by_one mr reduce_phase fs = reduce_each mr mr.n_reduce fs

    -- Sequential up to the message on doneChannel: run, with its own schedule and finish.
    unfoldable pub sequential : Text → List Text → ℕ → Files → Run (Master × Files)
    unfolding new_master one_by_one merge
    sequential job_name files n_reduce fs = do
      let mr = record (new_master (109 ∷ 97 ∷ 115 ∷ 116 ∷ 101 ∷ 114 ∷ [])) {
        job_name = job_name;
        files = files;
        n_reduce = n_reduce;
      }
      mapped ← one_by_one mr map_phase fs
      reduced ← one_by_one mr reduce_phase mapped
      let done = record mr { stats = (length files + n_reduce) ∷ [] }
      merged ← merge done reduced
      ok (done, merged)

-- removeFile: a file that is not there is fatal.
unfoldable pub remove_file : Files → Text → Run Files
unfolding delete
remove_file fs name = elim (fs name) [ none ↦ panic | some text ↦ ok (delete fs name) ]

-- The intermediate files of one map task, for the reduce tasks before `n`.
unfoldable pub remove_row : Text → ℕ → ℕ → Files → Run Files
unfolding remove_file reduce_name
remove_row job_name i zero fs = ok fs
remove_row job_name i (suc j) fs =
    remove_row job_name i j fs >>= λ done. remove_file done (reduce_name job_name i j)

unfoldable pub remove_rows : Text → ℕ → ℕ → Files → Run Files
unfolding remove_row
remove_rows job_name zero n_reduce fs = ok fs
remove_rows job_name (suc i) n_reduce fs =
    remove_rows job_name i n_reduce fs >>= λ done. remove_row job_name i n_reduce done

unfoldable pub remove_outputs : Text → ℕ → Files → Run Files
unfolding remove_file merge_name
remove_outputs job_name zero fs = ok fs
remove_outputs job_name (suc i) fs =
    remove_outputs job_name i fs >>= λ done. remove_file done (merge_name job_name i)

unfoldable pub cleanup_files : Master → Files → Run Files
unfolding remove_rows remove_outputs remove_file result_name
cleanup_files mr fs = do
  no_parts ← remove_rows mr.job_name (length mr.files) mr.n_reduce fs
  no_outputs ← remove_outputs mr.job_name mr.n_reduce no_parts
  remove_file no_outputs (result_name mr.job_name)
