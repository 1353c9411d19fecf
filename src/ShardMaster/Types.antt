-- ===== src/ShardMaster/Types.antt =====
-- src/shardmaster/common.go and server.go: configurations, operations and the server's state.
-- A Go map is an association list; a group's id is a number, 0 for no group.
use Prim.Native.String.{String}
use distributed_systems_labs.Base.{ℕ, Option, none, some, List, [], ◌∷◌, ◌==◌, if◌then◌else◌}

-- An `int` that may be negative: the number of a query and the index of a shard.
pub data ℤ : Type 0 where
  pos : ℕ → ℤ
  negsuc : ℕ → ℤ

abbrev pub n_shards : ℕ
n_shards = 10

abbrev pub Groups : Type 0
Groups = List (ℕ × List String)

pub record Config : Type 0 where
  pub num : ℕ
  pub shards : List ℕ
  pub groups : Groups

pub data OpType : Type 0 where
  join leave move query : OpType

pub record Op : Type 0 where
  pub type' : OpType
  pub req_id : ℕ
  pub me : ℕ
  pub servers : Groups
  pub gids : List ℕ
  pub shard : ℤ
  pub gid : ℕ
  pub num : ℤ
  pub config : Config

-- The keys of a map, in the order of the list.
abbrev pub keys {ℓ} : {V : Type ℓ} → List (ℕ × V) → List ℕ
keys [] = []
keys ((k, v) ∷ m) = k ∷ keys m

-- m[k] = v
unfoldable pub put {ℓ} : {V : Type ℓ} → ℕ → V → List (ℕ × V) → List (ℕ × V)
put k v [] = (k, v) ∷ []
put k v ((j, w) ∷ m) = if j == k then (k, v) ∷ m else (j, w) ∷ put k v m

-- delete(m, k)
unfoldable pub remove {ℓ} : {V : Type ℓ} → ℕ → List (ℕ × V) → List (ℕ × V)
remove k [] = []
remove k ((j, w) ∷ m) = if j == k then remove k m else (j, w) ∷ remove k m

unfoldable pub find {ℓ} : {V : Type ℓ} → ℕ → List (ℕ × V) → Option V
find k [] = none
find k ((j, w) ∷ m) = if j == k then some w else find k m
