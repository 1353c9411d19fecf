-- ===== src/MapReduce/Tests/Libraries.antt =====
-- A stream of pairs with the length of each text before it, and the insertion sort by key: one way
-- in which the library's demands on encoding/json and sort are met.
use mathlib.Core.List.{append_assoc, Perm}
use mathlib.Core.List.Perm
use distributed_systems_labs.Base.{
  ℕ, zero, suc, ◌≡◌, refl, ap, ◌∙◌, List, [], ◌∷◌, ◌++◌, Text, less_text, arith, inl, inr,
  Bool-cases, length,
}
use distributed_systems_labs.MapReduce.Job.{insert_key, sort_keys}
use distributed_systems_labs.MapReduce.Job.Sorting.{sort_keys-Sorted}
use distributed_systems_labs.MapReduce.Types.{KeyValue, Decoded, item, eof, bad, Json, SortSlice}

abbrev cut : ℕ → Text → Text × Text
cut zero text = ([], text)
cut (suc n) [] = ([], [])
cut (suc n) (c ∷ text) = (c ∷ (cut n text).0, (cut n text).1)

cut-append : (s t : Text) → cut (length s) (s ++ t) ≡ (s, t)
cut-append [] t = refl
cut-append (c ∷ s) t = ap (λ (p : Text × Text). (c ∷ p.0, p.1)) (cut-append s t)

abbrev put_lengths : KeyValue → Text
put_lengths kv = length kv.key ∷ length kv.value ∷ (kv.key ++ kv.value)

abbrev after_lengths : ℕ → Text × Text → Decoded
after_lengths n (key, rest) = item (record { key = key; value = (cut n rest).0 }) (cut n rest).1

abbrev get_lengths : Text → Decoded
get_lengths [] = eof
get_lengths (k ∷ []) = bad
get_lengths (k ∷ v ∷ text) = after_lengths v (cut k text)

pub get_lengths-put_lengths :
    (kv : KeyValue) (rest : Text) → get_lengths (put_lengths kv ++ rest) ≡ item kv rest
get_lengths-put_lengths kv rest =
    ap (λ t. after_lengths (length kv.value) (cut (length kv.key) t))
      (append_assoc kv.key kv.value rest)
    ∙ ap (after_lengths (length kv.value)) (cut-append kv.key (kv.value ++ rest))
    ∙ ap (λ (p : Text × Text). item (record { key = kv.key; value = p.0 }) p.1)
        (cut-append kv.value rest)

abbrev pub lengths_json : Json
lengths_json = record {
  encode = put_lengths;
  decode = get_lengths;
  decode-empty = refl;
  decode-encode = get_lengths-put_lengths;
  encode_nonempty = λ kv. omega arith;
}

insert_key-Perm : (kv : KeyValue) (kvs : List KeyValue) → Perm (insert_key kv kvs) (kv ∷ kvs)
unfolding insert_key
insert_key-Perm kv [] = Perm.refl (kv ∷ [])
insert_key-Perm kv (other ∷ kvs) = elim (Bool-cases (less_text other.key kv.key)) [
  | inl less ↦
      rw less (Perm.trans (Perm.cons other (insert_key-Perm kv kvs)) (Perm.swap kv other kvs))
  | inr first ↦ rw first (Perm.refl (kv ∷ other ∷ kvs))
]

pub sort_keys-Perm : (kvs : List KeyValue) → Perm (sort_keys kvs) kvs
unfolding sort_keys
sort_keys-Perm [] = Perm.refl []
sort_keys-Perm (kv ∷ kvs) =
    Perm.trans (insert_key-Perm kv (sort_keys kvs)) (Perm.cons kv (sort_keys-Perm kvs))

abbrev pub insertion_sort_slice : SortSlice
insertion_sort_slice = record {
  sort_slice = sort_keys;
  sort_slice-Perm = sort_keys-Perm;
  sort_slice-Sorted = sort_keys-Sorted;
}
