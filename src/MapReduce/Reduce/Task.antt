-- ===== src/MapReduce/Reduce/Task.antt =====
-- What a reduce task writes, from what the map tasks left for it.
use mathlib.Core.List.{
  append_assoc, append-nil, Perm, filter_map, filter_map-cons-none, filter_map-cons-some,
}
use mathlib.Core.List.Perm
use distributed_systems_labs.Base.{
  ℕ, zero, suc, ◌<◌, ◌≡◌, refl, sym, ap, ◌∙◌, ◌⊎◌, false, Option, none, some, List, [], ◌∷◌, ◌++◌,
  Text, same_text, if◌then◌else◌, ok, arith, Bool-cases, inl, inr, length,
}
use distributed_systems_labs.MapReduce.Types.{KeyValue, Json, SortSlice}
use distributed_systems_labs.MapReduce.Names.{reduce_name}
use distributed_systems_labs.MapReduce.Files.{
  Files, save, append, contents, save-same, save-other, encode_all, decode_all-encode_all,
}
use distributed_systems_labs.MapReduce.Reduce.{reduce_loop, read_all, write_each, do_reduce}
use distributed_systems_labs.MapReduce.Reduce.Groups.{values_of, result_of, reduce_loop-values}

-- The lists of the first `n` tasks, one after the other.
abbrev pub concat_below : ℕ → (ℕ → List KeyValue) → List KeyValue
concat_below zero parts = []
concat_below (suc n) parts = concat_below n parts ++ parts n

abbrev at_key : Text → KeyValue → Option Text
at_key key kv = if same_text kv.key key then some kv.value else none

filter_map_nil : (key : Text) → [] ≡ filter_map (at_key key) []
unfolding filter_map
filter_map_nil key = refl

values_of-filter_map :
    (key : Text) (kvs : List KeyValue) → values_of key kvs ≡ filter_map (at_key key) kvs
values_of-filter_map key [] = filter_map_nil key
values_of-filter_map key (kv ∷ kvs) = elim (Bool-cases (same_text kv.key key)) [
  | inl equal ↦ rw equal (
      ap (λ vs. kv.value ∷ vs) (values_of-filter_map key kvs)
      ∙ sym (filter_map-cons-some (at_key key) kv kvs (rw equal refl)))
  | inr other ↦ rw other (
      values_of-filter_map key kvs ∙ sym (filter_map-cons-none (at_key key) kv kvs (rw other refl)))
]

pub values_of-Perm :
    (key : Text) {xs ys : List KeyValue} → Perm xs ys → Perm (values_of key xs) (values_of key ys)
values_of-Perm key {xs} {ys} p =
    rw (values_of-filter_map key xs, values_of-filter_map key ys) (Perm.filter_map (at_key key) p)

-- `out` has, for each key of `kvs`, what reduceF makes of the values of the key in some order, and
-- nothing else.
abbrev pub Reduced : (Text → List Text → Text) → List KeyValue → List KeyValue → Type 0
Reduced reduce_f kvs out =
    (key : Text)
    → (vals : List Text) × Perm vals (values_of key kvs)
      × (values_of key out ≡ result_of reduce_f key vals)

module _ (json : Json) where
  -- The file is missing and stands for no pairs, or it holds the JSON of the pairs.
  abbrev pub Holds : Files → Text → List KeyValue → Type 0
  Holds fs name kvs = ((fs name ≡ none) × (kvs ≡ [])) ⊎ (fs name ≡ some (encode_all json kvs))

  read_all-concat :
      (job : Text) (r n : ℕ) (fs : Files) (parts : ℕ → List KeyValue)
      → ((m : ℕ) → m < n → Holds fs (reduce_name job m r) (parts m))
      → read_all json job r n fs ≡ ok (concat_below n parts)
  unfolding read_all
  read_all-concat job r zero fs parts h = refl
  read_all-concat job r (suc n) fs parts h =
      let before = read_all-concat job r n fs parts (λ m lt. h m (omega arith)) in
      elim (h n (omega arith)) [
        | inl (missing, empty) ↦
            rw (before, missing, empty) (ap ok (sym (append-nil (concat_below n parts))))
        | inr full ↦ rw (before, full, decode_all-encode_all json (parts n)) refl
      ]

  write_each_self :
      (out_file : Text) (kvs : List KeyValue) (fs : Files) (text : Text)
      → fs out_file ≡ some text
      → write_each json out_file kvs fs out_file ≡ some (text ++ encode_all json kvs)
  unfolding write_each append
  write_each_self out_file [] fs text e = e ∙ ap some (sym (append-nil text))
  write_each_self out_file (kv ∷ kvs) fs text e =
      write_each_self out_file kvs (append fs out_file (json.encode kv)) (text ++ json.encode kv)
        (save-same fs out_file _ ∙ ap (λ o. some (contents o ++ json.encode kv)) e)
      ∙ ap some (append_assoc text (json.encode kv) (encode_all json kvs))

  write_each-other :
      (out_file : Text) (kvs : List KeyValue) (fs : Files) (name : Text)
      → same_text name out_file ≡ false
      → write_each json out_file kvs fs name ≡ fs name
  unfolding write_each append
  write_each-other out_file [] fs name h = refl
  write_each-other out_file (kv ∷ kvs) fs name h =
      write_each-other out_file kvs (append fs out_file (json.encode kv)) name h
      ∙ save-other fs out_file _ name h

  -- The output of a reduce task, when the map tasks left `kvs` for it.
  pub record Output (reduce_f : Text → List Text → Text) (out_file : Text) (kvs : List KeyValue)
      (fs fs' : Files) : Type 0 where
    pub out : List KeyValue
    pub written : fs' out_file ≡ some (encode_all json out)
    pub reduced : Reduced reduce_f kvs out
    pub untouched : (name : Text) → same_text name out_file ≡ false → fs' name ≡ fs name

  -- If each intermediate file of a reduce task is missing or holds the JSON of the pairs that its
  -- map task left there, doReduce returns, its output file then holds the JSON of one pair for
  -- each key that occurs in them, whose value is reduceF of all the values of that key in some
  -- order, and no other file has changed.
  pub do_reduce-Output :
      (sorting : SortSlice) (job : Text) (r : ℕ) (out_file : Text) (n : ℕ)
      (reduce_f : Text → List Text → Text) (fs : Files) (parts : ℕ → List KeyValue)
      → ((m : ℕ) → m < n → Holds fs (reduce_name job m r) (parts m))
      → (fs' : Files) × (do_reduce json sorting job r out_file n reduce_f fs ≡ ok fs')
        × Output reduce_f out_file (concat_below n parts) fs fs'
  unfolding do_reduce
  do_reduce-Output sorting job r out_file n reduce_f fs parts h =
      let kvs = concat_below n parts in
      let sorted = sorting.sort_slice kvs in
      let out = reduce_loop reduce_f (length sorted) sorted in
      let opened = save fs out_file [] in
      (
        write_each json out_file out opened,
        rw (read_all-concat job r n fs parts h) refl,
        record {
          out = out;
          written = write_each_self out_file out opened [] (save-same fs out_file []);
          reduced = λ key. (
            values_of key sorted,
            values_of-Perm key (sorting.sort_slice-Perm kvs),
            reduce_loop-values reduce_f (length sorted) sorted (omega arith)
                (sorting.sort_slice-Sorted kvs) key,
          );
          untouched = λ name away.
              write_each-other out_file out opened name away ∙ save-other fs out_file [] name away;
        },
      )
