-- ===== src/MapReduce/Distributed/Maps.antt =====
-- The map tasks of a distributed job, carried out in any order and any number of times.
use distributed_systems_labs.Base.{
  ℕ, zero, suc, ◌≤◌, ◌<◌, ◌≡◌, refl, sym, ap, ◌∙◌, ◌≢◌, ◌⊎◌, inl, inr, some, List, [], ◌∷◌, arith,
  ◌==◌, ==→eq, ==→ne, Bool-cases, length, get_elem?, ok, one, occ,
}
use mathlib.Core.Path.{subst}
use distributed_systems_labs.Base.{Text}
use distributed_systems_labs.MapReduce.Types.{map_phase, KeyValue, Json, SortSlice}
use distributed_systems_labs.MapReduce.Names.{reduce_name}
use distributed_systems_labs.MapReduce.Names.Distinct.{reduce_name_injective}
use distributed_systems_labs.MapReduce.Files.{Files, contents, encode_all}
use distributed_systems_labs.MapReduce.Map.Partition.{partition, do_map-Partitioned}
use distributed_systems_labs.MapReduce.Job.{Master}
use distributed_systems_labs.MapReduce.Job.Phases.{task_pairs, mapped, Present, Present-same}
use distributed_systems_labs.MapReduce.Workers.{Worker, work}
use distributed_systems_labs.MapReduce.Schedule.{task_args, task_counts}
use distributed_systems_labs.MapReduce.Distributed.{carry_out}

pub first_in : (t : ℕ) (tasks : List ℕ) → 1 ≤ occ t (t ∷ tasks)
first_in t tasks = ground arith

map_args :
    (mr : Master) (task : ℕ) {file : Text}
    → get_elem? mr.files task ≡ some file
    → task_args mr.job_name mr.files mr.n_reduce map_phase task
      ≡ ok (record {
        job_name = mr.job_name;
        file = file;
        phase = map_phase;
        task_number = task;
        num_other_phase = mr.n_reduce;
      })
unfolding task_args task_counts
map_args mr task e = rw e refl

module _ (json : Json) (sum32 : Text → ℕ) (sorting : SortSlice) (wk : Worker) where
  -- The input of one map task.
  record Input (job : Text) (fs : Files) (files : List Text) (m : ℕ) : Type 0 where
    file : Text
    text : Text
    listed : get_elem? files m ≡ some file
    there : fs file ≡ some text
    away : (k r : ℕ) → file ≢ reduce_name job k r
    pairs : task_pairs (mapped json sum32 sorting wk.map' wk.reduce fs files) m ≡ wk.map' file text

  Present-Input :
      (job : Text) (fs : Files) (files : List Text) (m : ℕ)
      → Present json sum32 sorting wk.map' wk.reduce job fs files
      → m < length files
      → Input job fs files m
  Present-Input job fs [] m p lt = absurd (omega arith)
  Present-Input job fs (f ∷ files) zero ((text, e), away, p) lt = record {
    file = f;
    text = text;
    listed = refl;
    there = e;
    away = away;
    pairs = ap (λ o. wk.map' f (contents o)) e;
  }
  Present-Input job fs (f ∷ files) (suc m) (_, _, p) lt =
      let i = Present-Input job fs files m p (omega arith) in
      record {
        file = i.file;
        text = i.text;
        listed = i.listed;
        there = i.there;
        away = i.away;
        pairs = i.pairs;
      }

  -- The map tasks in the list have left their shares; nothing but intermediate files has changed.
  pub record Mapped (mr : Master) (pairs : ℕ → List KeyValue) (tasks : List ℕ) (fs fs' : Files)
      : Type 0 where
    pub shares :
        (m r : ℕ)
        → (1 ≤ occ m tasks)
          ⊎ (fs (reduce_name mr.job_name m r)
              ≡ some (encode_all json (partition json sum32 mr.n_reduce r (pairs m))))
        → r < mr.n_reduce
        → fs' (reduce_name mr.job_name m r)
          ≡ some (encode_all json (partition json sum32 mr.n_reduce r (pairs m)))
    kept : (name : Text) → ((m r : ℕ) → name ≢ reduce_name mr.job_name m r) → fs' name ≡ fs name

  pub carry_out-Mapped :
      (mr : Master) (pairs : ℕ → List KeyValue) (tasks : List ℕ) (fs : Files)
      → 0 < mr.n_reduce
      → ((m : ℕ) → 1 ≤ occ m tasks → m < length mr.files)
      → Present json sum32 sorting wk.map' wk.reduce mr.job_name fs mr.files
      → ((m : ℕ) → task_pairs (mapped json sum32 sorting wk.map' wk.reduce fs mr.files) m ≡ pairs m)
      → (fs' : Files) × (carry_out json sum32 sorting wk mr map_phase tasks fs ≡ ok fs')
        × Mapped mr pairs tasks fs fs'
  unfolding carry_out work
  carry_out-Mapped mr pairs [] fs some_task within present same_pairs = (
    fs,
    refl,
    record {
      shares = λ m r h lt. elim h [ inl none' ↦ absurd (omega arith) | inr e ↦ e ];
      kept = λ name far. refl;
    },
  )
  carry_out-Mapped mr pairs (task ∷ tasks) fs some_task within present same_pairs =
      let i =
        Present-Input mr.job_name fs mr.files task present (within task (first_in task tasks)) in
      let (fs1, run1, d) =
        do_map-Partitioned json sum32 mr.job_name task mr.n_reduce i.file wk.map' fs i.text
          some_task i.there in
      let (present1, same1) =
        Present-same json sum32 sorting wk.map' wk.reduce mr.job_name mr.files
          (λ name far. d.untouched name (far task)) present in
      let (fs2, run2, rest) =
        carry_out-Mapped mr pairs tasks fs1 some_task (λ m h. within m (omega arith)) present1
          (λ m. ap (λ ps. task_pairs ps m) same1 ∙ same_pairs m) in
      (
        fs2,
        rw (map_args mr task i.listed) (rw run1 run2),
        record {
          shares = λ m r h lt.
              rest.shares m r
                (elim (Bool-cases (task == m)) [
                  | inl here ↦ inr (
                      subst
                        (λ k.
                          fs1 (reduce_name mr.job_name k r)
                          ≡ some (encode_all json (partition json sum32 mr.n_reduce r (pairs k))))
                        (==→eq task m here)
                        (d.written r lt
                          ∙ ap
                              (λ ps. some (encode_all json (partition json sum32 mr.n_reduce r ps)))
                              (sym i.pairs ∙ same_pairs task)))
                  | inr other ↦ elim h [
                    | inl later ↦ inl (omega (arith, ap one other))
                    | inr before ↦ inr (
                        d.untouched (reduce_name mr.job_name m r) (λ k e.
                          ==→ne task m other
                            (sym (reduce_name_injective mr.job_name m r task k e).0))
                        ∙ before)
                  ]
                ])
                lt;
          kept = λ name far. rest.kept name far ∙ d.untouched name (far task);
        },
      )
