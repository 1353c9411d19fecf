-- ===== src/MapReduce/Types.antt =====
-- src/mapreduce/common.go and common_rpc.go: key/value pairs, the phases and the RPC messages; and
-- what the library takes from encoding/json, sort and hash/fnv. A string is valid UTF-8 here, as
-- the list of its code points: encoding/json replaces what is not.
use distributed_systems_labs.Base.{ℕ, ◌<◌, ◌≡◌, false, List, [], ◌∷◌, ◌++◌, length, Text, less_text}
use mathlib.Core.List.{Perm}

pub data JobPhase : Type 0 where
  map_phase reduce_phase : JobPhase

pub record KeyValue : Type 0 where
  pub key : Text
  pub value : Text

pub record DoTaskArgs : Type 0 where
  pub job_name : Text
  pub file : Text
  pub phase : JobPhase
  pub task_number : ℕ
  pub num_other_phase : ℕ

-- What Decode of encoding/json makes of the unread part of a stream.
pub data Decoded : Type 0 where
  item : KeyValue → Text → Decoded
  eof bad : Decoded

-- A stream of JSON values: an encoder adds a value at the end, a decoder takes one off the front.
-- The white space around a value counts as part of it.
pub record Json : Type 0 where
  pub encode : KeyValue → Text
  pub decode : Text → Decoded
  pub decode-empty : decode [] ≡ eof
  pub decode-encode : (kv : KeyValue) (rest : Text) → decode (encode kv ++ rest) ≡ item kv rest
  pub encode_nonempty : (kv : KeyValue) → 0 < length (encode kv)

-- No key of the list is less than `key`.
abbrev pub NoneBefore : Text → List KeyValue → Type 0
NoneBefore key [] = Unit
NoneBefore key (kv ∷ kvs) = (less_text kv.key key ≡ false) × NoneBefore key kvs

abbrev pub Sorted : List KeyValue → Type 0
Sorted [] = Unit
Sorted (kv ∷ kvs) = NoneBefore kv.key kvs × Sorted kvs

-- sort.Slice with the less function of doReduce. The order of pairs with equal keys is not known.
pub record SortSlice : Type 0 where
  pub sort_slice : List KeyValue → List KeyValue
  pub sort_slice-Perm : (kvs : List KeyValue) → Perm (sort_slice kvs) kvs
  pub sort_slice-Sorted : (kvs : List KeyValue) → Sorted (sort_slice kvs)
