-- ===== src/MapReduce/Job/Sorting.antt =====
-- The order of the keys that merge writes.
use distributed_systems_labs.Base.{
  ◌≡◌, false, List, [], ◌∷◌, Text, less_text, less_text_trans, less_text_asymmetric, inl, inr,
  Bool-cases,
}
use distributed_systems_labs.MapReduce.Types.{KeyValue, NoneBefore, Sorted}
use distributed_systems_labs.MapReduce.Job.{insert_key, sort_keys}

NoneBefore-less :
    (s t : Text) (kvs : List KeyValue) → less_text t s ≡ false → NoneBefore t kvs → NoneBefore s kvs
NoneBefore-less s t [] h n = tt
NoneBefore-less s t (kv ∷ kvs) h (a, n) =
    (less_text_trans s t kv.key h a, NoneBefore-less s t kvs h n)

NoneBefore-insert_key :
    (key : Text) (kv : KeyValue) (kvs : List KeyValue)
    → less_text kv.key key ≡ false
    → NoneBefore key kvs
    → NoneBefore key (insert_key kv kvs)
unfolding insert_key
NoneBefore-insert_key key kv [] h n = (h, tt)
NoneBefore-insert_key key kv (other ∷ kvs) h (a, n) =
    elim (Bool-cases (less_text other.key kv.key)) [
      | inl less ↦ rw less (a, NoneBefore-insert_key key kv kvs h n)
      | inr first ↦ rw first (h, (a, n))
    ]

insert_key-Sorted : (kv : KeyValue) (kvs : List KeyValue) → Sorted kvs → Sorted (insert_key kv kvs)
unfolding insert_key
insert_key-Sorted kv [] s = (tt, tt)
insert_key-Sorted kv (other ∷ kvs) (n, s) = elim (Bool-cases (less_text other.key kv.key)) [
  | inl less ↦ rw less (
    NoneBefore-insert_key other.key kv kvs (less_text_asymmetric other.key kv.key less) n,
    insert_key-Sorted kv kvs s,
  )
  | inr first ↦ rw first ((first, NoneBefore-less kv.key other.key kvs first n), (n, s))
]

pub sort_keys-Sorted : (kvs : List KeyValue) → Sorted (sort_keys kvs)
unfolding sort_keys
sort_keys-Sorted [] = tt
sort_keys-Sorted (kv ∷ kvs) = insert_key-Sorted kv (sort_keys kvs) (sort_keys-Sorted kvs)
