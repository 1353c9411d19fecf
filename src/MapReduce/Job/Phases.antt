-- ===== src/MapReduce/Job/Phases.antt =====
-- The files after the map phase and after the reduce phase of a sequential job.
use distributed_systems_labs.Base.{
  ℕ, zero, suc, ◌+◌, ◌<◌, ◌≤◌, ◌≡◌, ◌≢◌, refl, sym, ap, ◌∙◌, some, List, [], ◌∷◌, Text, ok, ◌==◌,
  arith, Bool-cases, inl, inr, length, ==→eq, ==→ne,
}
use distributed_systems_labs.MapReduce.Types.{KeyValue, Json, SortSlice}
use distributed_systems_labs.MapReduce.Names.{reduce_name, merge_name}
use distributed_systems_labs.MapReduce.Names.Distinct.{
  reduce_name_injective, merge_name_injective, merge_name≢reduce_name,
}
use distributed_systems_labs.MapReduce.Files.{Files, contents, encode_all}
use distributed_systems_labs.MapReduce.Map.Partition.{differ, partition, do_map-Partitioned}
use distributed_systems_labs.MapReduce.Reduce.Task.{concat_below, Reduced, Holds, do_reduce-Output}
use distributed_systems_labs.MapReduce.Job.{Master, map_each, reduce_each}

-- List element `i`, or no pairs.
abbrev pub task_pairs : List (List KeyValue) → ℕ → List KeyValue
task_pairs [] i = []
task_pairs (kvs ∷ rest) zero = kvs
task_pairs (kvs ∷ rest) (suc i) = task_pairs rest i

module _ (json : Json) (sum32 : Text → ℕ) (sorting : SortSlice)
    (map_f : Text → Text → List KeyValue) (reduce_f : Text → List Text → Text) where
  -- What mapF gives for each input file.
  abbrev pub mapped : Files → List Text → List (List KeyValue)
  mapped fs [] = []
  mapped fs (f ∷ files) = map_f f (contents (fs f)) ∷ mapped fs files

  -- Each input file is there, and none has the name of an intermediate file.
  abbrev pub Present : Text → Files → List Text → Type 0
  Present job fs [] = Unit
  Present job fs (f ∷ files) =
      ((text : Text) × (fs f ≡ some text))
      × ((m r : ℕ) → f ≢ reduce_name job m r)
      × Present job fs files

  pub Present-same :
      (job : Text) {fs fs' : Files} (files : List Text)
      → ((name : Text) → ((m r : ℕ) → name ≢ reduce_name job m r) → fs' name ≡ fs name)
      → Present job fs files
      → Present job fs' files × (mapped fs' files ≡ mapped fs files)
  Present-same job [] h p = (tt, refl)
  Present-same job {fs} {fs'} (f ∷ files) h ((text, e), away, p) =
      let (q, s) = Present-same job files h p in
      let same_file = h f away in
      (((text, same_file ∙ e), away, q), cons_mapped (ap (λ o. map_f f (contents o)) same_file) s)
    where
      cons_mapped :
          {a b : List KeyValue} {xs ys : List (List KeyValue)}
          → a ≡ b
          → xs ≡ ys
          → (a ∷ xs) ≡ (b ∷ ys)
      cons_mapped p q = cc

  far_apart : (a b : ℕ) → suc a ≤ b → a ≢ b
  far_apart a b le e = absurd (omega arith)

  pub Holds-same :
      (fs fs' : Files) (name : Text) {kvs : List KeyValue}
      → fs' name ≡ fs name
      → Holds json fs name kvs
      → Holds json fs' name kvs
  Holds-same fs fs' name e (inl (a, b)) = inl (e ∙ a, b)
  Holds-same fs fs' name e (inr a) = inr (e ∙ a)

  pub record AfterMap (mr : Master) (first : ℕ) (files : List Text) (pairs : List (List KeyValue))
      (fs fs' : Files) : Type 0 where
    pub parts :
        (m r : ℕ)
        → m < length files
        → r < mr.n_reduce
        → fs' (reduce_name mr.job_name (first + m) r)
          ≡ some (encode_all json (partition json sum32 mr.n_reduce r (task_pairs pairs m)))
    pub kept :
        (name : Text)
        → ((m r : ℕ) → first ≤ m → name ≢ reduce_name mr.job_name m r)
        → fs' name ≡ fs name

  pub map_each-AfterMap :
      (mr : Master) (first : ℕ) (files : List Text) (fs : Files)
      → 0 < mr.n_reduce
      → Present mr.job_name fs files
      → (fs' : Files) × (map_each json sum32 sorting map_f reduce_f mr first files fs ≡ ok fs')
        × AfterMap mr first files (mapped fs files) fs fs'
  unfolding map_each
  map_each-AfterMap mr first [] fs some_task p =
      (fs, refl, record { parts = λ m r lt. absurd (omega arith); kept = λ name _. refl })
  map_each-AfterMap mr first (f ∷ files) fs some_task ((text, e), away, p) =
      let (fs1, run1, d) =
        do_map-Partitioned json sum32 mr.job_name first mr.n_reduce f map_f fs text some_task e in
      let (p1, same_pairs) =
        Present-same mr.job_name files (λ name far. d.untouched name (far first)) p in
      let (fs2, run2, a) = map_each-AfterMap mr (suc first) files fs1 some_task p1 in
      (
        fs2,
        rw run1 run2,
        record {
          parts = λ m r lt in_range.
              elim m
                  as (λ m.
                    m < suc (length files)
                    → fs2 (reduce_name mr.job_name (first + m) r)
                      ≡ some (
                          encode_all json (
                            partition json sum32 mr.n_reduce r
                              (task_pairs (mapped fs (f ∷ files)) m)))) [
                                | zero ↦ λ _.
                                    let at : first + 0 ≡ first = omega arith in
                                    ap (λ k. fs2 (reduce_name mr.job_name k r)) at
                                    ∙ a.kept (reduce_name mr.job_name first r) (λ m q le same.
                                      far_apart first m le
                                        (reduce_name_injective mr.job_name first r m q same).0)
                                    ∙ d.written r in_range
                                    ∙ ap
                                        (λ o. some (
                                          encode_all json (
                                            partition json sum32 mr.n_reduce r
                                              (map_f f (contents o)))))
                                        (sym e)
                                | suc m ↦ λ lt.
                                    let at : first + suc m ≡ suc first + m = omega arith in
                                    ap (λ k. fs2 (reduce_name mr.job_name k r)) at
                                    ∙ a.parts m r (omega arith) in_range
                                    ∙ ap
                                        (λ ps. some (
                                          encode_all json
                                            (partition json sum32 mr.n_reduce r (task_pairs ps m))))
                                        same_pairs
                              ]
                lt;
          kept = λ name far.
              a.kept name (λ m r le. far m r (omega arith))
              ∙ d.untouched name (λ r. far first r (omega arith));
        },
      )

  -- The first `n` reduce tasks have written their outputs.
  pub record AfterReduce (mr : Master) (n : ℕ) (parts : ℕ → List KeyValue) (fs fs' : Files)
      : Type 0 where
    pub outputs :
        (r : ℕ)
        → r < n
        → (out : List KeyValue) × (fs' (merge_name mr.job_name r) ≡ some (encode_all json out))
          × Reduced reduce_f (parts r) out
    pub kept : (name : Text) → ((r : ℕ) → name ≢ merge_name mr.job_name r) → fs' name ≡ fs name

  pub reduce_each-AfterReduce :
      (mr : Master) (n : ℕ) (fs : Files) (parts : ℕ → ℕ → List KeyValue)
      → ((m r : ℕ)
          → m < length mr.files
          → r < n
          → Holds json fs (reduce_name mr.job_name m r) (parts r m))
      → (fs' : Files) × (reduce_each json sum32 sorting map_f reduce_f mr n fs ≡ ok fs')
        × AfterReduce mr n (λ r. concat_below (length mr.files) (parts r)) fs fs'
  unfolding reduce_each
  reduce_each-AfterReduce mr zero fs parts h =
      (fs, refl, record { outputs = λ r lt. absurd (omega arith); kept = λ name _. refl })
  reduce_each-AfterReduce mr (suc n) fs parts h =
      let (fs1, run1, a) =
        reduce_each-AfterReduce mr n fs parts (λ m r lt lt'. h m r lt (omega arith)) in
      let still : (m : ℕ)
          → m < length mr.files
          → Holds json fs1 (reduce_name mr.job_name m n) (parts n m) =
        λ m lt.
          Holds-same fs fs1 (reduce_name mr.job_name m n)
            (a.kept (reduce_name mr.job_name m n)
              (λ r q. merge_name≢reduce_name mr.job_name r m n (sym q)))
            (h m n lt (omega arith)) in
      let (fs2, run2, o) =
        do_reduce-Output json sorting mr.job_name n (merge_name mr.job_name n) (length mr.files)
          reduce_f fs1 (parts n) still in
      (
        fs2,
        rw run1 run2,
        record {
          outputs = λ r lt. elim (Bool-cases (r == n)) [
            | inl last ↦ rw (==→eq r n last) (o.out, o.written, o.reduced)
            | inr before ↦
                let ne = ==→ne r n before in
                let (out, written, reduced) = a.outputs r (ground arith) in
                (
                  out,
                  o.untouched (merge_name mr.job_name r)
                        (differ (λ q. ne (merge_name_injective mr.job_name r n q)))
                      ∙ written,
                  reduced,
                )
          ];
          kept = λ name far. o.untouched name (differ (far n)) ∙ a.kept name far;
        },
      )
