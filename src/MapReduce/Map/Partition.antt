-- ===== src/MapReduce/Map/Partition.antt =====
-- What a map task leaves in its intermediate files.
use mathlib.Core.List.{append_assoc, append-nil}
use distributed_systems_labs.Base.{
  ℕ, zero, suc, ◌%◌, ◌<◌, ◌≡◌, ◌≢◌, refl, sym, ap, ◌∙◌, Bool, true, false, some, List, [], ◌∷◌,
  ◌++◌, Text, same_text, same_text→eq, if◌then◌else◌, ok, ◌==◌, arith, Bool-cases, inl, inr, ==→eq,
  ==→ne,
}
use distributed_systems_labs.MapReduce.Types.{KeyValue, Json}
use distributed_systems_labs.MapReduce.Names.{reduce_name}
use distributed_systems_labs.MapReduce.Names.Distinct.{reduce_name_injective}
use distributed_systems_labs.MapReduce.Files.{
  Files, append, contents, save-same, save-other, encode_all,
}
use distributed_systems_labs.MapReduce.Map.{ihash, create_all, encode_each, do_map}

pub differ : {s t : Text} → s ≢ t → same_text s t ≡ false
differ {s} {t} h = elim (Bool-cases (same_text s t)) [
  | inl equal ↦ absurd (h (same_text→eq s t equal))
  | inr other ↦ other
]

create_all_self :
    (job : Text) (m n r : ℕ) (fs : Files)
    → r < n
    → create_all job m n fs (reduce_name job m r) ≡ some []
unfolding create_all
create_all_self job m zero r fs h = absurd (omega arith)
create_all_self job m (suc n) r fs h = elim (Bool-cases (r == n)) [
  | inl last ↦ rw (==→eq r n last) (save-same (create_all job m n fs) (reduce_name job m n) [])
  | inr before ↦
      let ne = ==→ne r n before in
      save-other (create_all job m n fs) (reduce_name job m n) [] (reduce_name job m r)
        (differ (λ e. ne (reduce_name_injective job m r m n e).1))
      ∙ create_all_self job m n r fs (ground arith)
]

create_all_other :
    (job : Text) (m n : ℕ) (fs : Files) (name : Text)
    → ((r : ℕ) → name ≢ reduce_name job m r)
    → create_all job m n fs name ≡ fs name
unfolding create_all
create_all_other job m zero fs name h = refl
create_all_other job m (suc n) fs name h =
    save-other (create_all job m n fs) _ [] name (differ (h n)) ∙ create_all_other job m n fs name h

module _ (json : Json) (sum32 : Text → ℕ) where
  -- The pairs of a list that belong to reduce task `r` of `n`, in order.
  abbrev pub partition : ℕ → ℕ → List KeyValue → List KeyValue
  partition n r [] = []
  partition n r (kv ∷ kvs) =
      if ihash sum32 kv.key % n == r then kv ∷ partition n r kvs else partition n r kvs

  -- The files of the task have what they had, and then their share of the pairs.
  record Shared (job : Text) (m n : ℕ) (kvs : List KeyValue) (fs fs' : Files) : Type 0 where
    share :
        (r : ℕ) (text : Text)
        → fs (reduce_name job m r) ≡ some text
        → fs' (reduce_name job m r) ≡ some (text ++ encode_all json (partition n r kvs))
    others : (name : Text) → ((r : ℕ) → name ≢ reduce_name job m r) → fs' name ≡ fs name

  append_self :
      (job : Text) (m r s : ℕ) (fs : Files) (more : Text) {text : Text}
      → fs (reduce_name job m r) ≡ some text
      → append fs (reduce_name job m s) more (reduce_name job m r)
        ≡ some (text ++ (if s == r then more else []))
  unfolding append
  append_self job m r s fs more {text} e = elim (Bool-cases (s == r)) [
    | inl here ↦ rw here (
        rw (==→eq s r here)
          (save-same fs (reduce_name job m r) _ ∙ ap (λ o. some (contents o ++ more)) e))
    | inr away ↦ rw away (
        save-other fs _ _ _
          (differ (λ q. ==→ne s r away (sym (reduce_name_injective job m r m s q).1)))
        ∙ e
        ∙ ap some (sym (append-nil text)))
  ]

  add_share :
      (text : Text) (mine : Bool) (kv : KeyValue) (rest : List KeyValue)
      → (text ++ (if mine then json.encode kv else [])) ++ encode_all json rest
        ≡ text ++ encode_all json (if mine then kv ∷ rest else rest)
  add_share text true kv rest = append_assoc text (json.encode kv) (encode_all json rest)
  add_share text false kv rest = ap (λ t. t ++ encode_all json rest) (append-nil text)

  encode_each-Shared :
      (job : Text) (m n : ℕ) (kvs : List KeyValue) (fs : Files)
      → 0 < n
      → (fs' : Files) × (encode_each json sum32 job m n kvs fs ≡ ok fs') × Shared job m n kvs fs fs'
  unfolding encode_each append
  encode_each-Shared job m n [] fs h = (
    fs,
    refl,
    record { share = λ r text e. e ∙ ap some (sym (append-nil text)); others = λ name _. refl },
  )
  encode_each-Shared job m n (kv ∷ kvs) fs h =
      let nonzero : (n == 0) ≡ false = ground arith in
      let task = ihash sum32 kv.key % n in
      let (fs', run, s) =
        encode_each-Shared job m n kvs (append fs (reduce_name job m task) (json.encode kv)) h in
      (
        fs',
        rw nonzero run,
        record {
          share = λ r text e.
              s.share r (text ++ (if task == r then json.encode kv else []))
                (append_self job m r task fs (json.encode kv) e)
              ∙ ap some (add_share text (task == r) kv (partition n r kvs));
          others = λ name away.
              s.others name away
              ∙ save-other fs (reduce_name job m task) _ name (differ (away task));
        },
      )

  -- The intermediate files of a map task, when its input is `text`.
  pub record Partitioned (job : Text) (m n : ℕ) (kvs : List KeyValue) (fs fs' : Files)
      : Type 0 where
    pub written :
        (r : ℕ) → r < n → fs' (reduce_name job m r) ≡ some (encode_all json (partition n r kvs))
    pub untouched : (name : Text) → ((r : ℕ) → name ≢ reduce_name job m r) → fs' name ≡ fs name

  pub do_map-Partitioned :
      (job : Text) (m n : ℕ) (in_file : Text) (map_f : Text → Text → List KeyValue) (fs : Files)
      (text : Text)
      → 0 < n
      → fs in_file ≡ some text
      → (fs' : Files) × (do_map json sum32 job m in_file n map_f fs ≡ ok fs')
        × Partitioned job m n (map_f in_file text) fs fs'
  unfolding do_map
  do_map-Partitioned job m n in_file map_f fs text some_task e =
      let made = create_all job m n fs in
      let (fs', run, s) = encode_each-Shared job m n (map_f in_file text) made some_task in
      (
        fs',
        rw (e, do_map) run,
        record {
          written = λ r lt. s.share r [] (create_all_self job m n r fs lt);
          untouched = λ name away. s.others name away ∙ create_all_other job m n fs name away;
        },
      )
