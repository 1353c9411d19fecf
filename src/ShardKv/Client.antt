-- ===== src/ShardKv/Client.antt =====
-- src/shardkv/client.go and common.go: the clerk, which asks the servers of the group that its
-- configuration names for the key's shard, and the shard master between the passes.
use Prim.Native.String.{String}
use distributed_systems_labs.Base.{
  ℕ, zero, suc, ◌+◌, ◌-◌, ◌*◌, ◌/◌, ◌%◌, ◌^◌, ◌≤◌, ◌<◌, min, ◌≡◌, refl, sym, ap, ◌∙◌, ◌≢◌, ◌↔◌, ◌⊎◌,
  inl, inr, Bool, true, false, ◌&&◌, ◌||◌, not, Option, none, some, List, [], ◌∷◌, ◌++◌, map, arith,
  ltb, leb, ◌==◌, if◌then◌else◌, ltb→lt, lt→ltb, le→ltb, lt→leb, ltb→le, leb→le, leb→lt, ==→eq,
  ==→ne, Bool-cases, Option-cases, le_suc-cases, length, get_elem?, set, take, drop, replicate,
  length-append, length-set, length-take, length-drop, length-replicate, get_elem?_total,
  get_elem?_bound, get_elem?-none, get_elem?-set, get_elem?-append_left, get_elem?-append_right,
  get_elem?-take, get_elem?-drop, take_all, length_zero, take-suc, Run, ok, panic, ◌>>=◌, or_panic,
  Returns, returns, Returns-bind, Returns-map, Returns-if, Returns-inv, Returns-eq, Yields,
  Yields-bind, Yields-then, Yields-if, Yields-eq, Yields-map, Returns-Yields, one, occ, elem,
  count_in, sum_over, IsDistinct, insert, sort, occ-append, occ-sort, length-sort, elem→occ,
  occ→elem, elem-false, elem-of_occ, occ-set, count_in-set, count_in-le, sum_over-add, sum_over-occ,
}
use distributed_systems_labs.ShardMaster.Types.{n_shards, Config, find}
use distributed_systems_labs.KvRaft.Types.{Text}
pub mod Routing

pub data Err : Type 0 where
  no_error err_no_key err_wrong_group : Err
  other_err : Text → Err

pub record GetReply : Type 0 where
  pub wrong_leader : Bool
  pub err : Err
  pub value : Text

pub record PutAppendReply : Type 0 where
  pub wrong_leader : Bool
  pub err : Err

-- The first byte of the key, modulo the number of shards.
unfoldable pub key2shard : Text → ℕ
key2shard [] = 0 % n_shards
key2shard (b ∷ key) = b % n_shards

-- How the clerk takes the reply of one server: it ends with a result, leaves the group, or goes on
-- with the next server.
pub data Verdict (A : Type 0) : Type 0 where
  done : A → Verdict A
  leave_group next_server : Verdict A

abbrev pub is_wrong_group : Err → Bool
is_wrong_group err_wrong_group = true
is_wrong_group e = false

abbrev is_ok : Err → Bool
is_ok no_error = true
is_ok e = false

abbrev is_no_key : Err → Bool
is_no_key err_no_key = true
is_no_key e = false

unfoldable pub judge_get : Option GetReply → Verdict Text
judge_get none = next_server
judge_get (some r) =
    if not r.wrong_leader && (is_ok r.err || is_no_key r.err)
    then done r.value
    else if is_wrong_group r.err
    then leave_group
    else next_server

unfoldable pub judge_put_append : Option PutAppendReply → Verdict Bool
judge_put_append none = next_server
judge_put_append (some r) =
    if not r.wrong_leader && is_ok r.err
    then done true
    else if is_wrong_group r.err
    then leave_group
    else next_server

-- The loop over the servers of the group; `ask` judges the reply of a server.
module _ {A : Type 0} where
  unfoldable pub ask_group : List String → (String → Verdict A) → Option A
  ask_group [] ask = none
  ask_group (srv ∷ servers) ask =
      let rest = ask_group servers ask in
      elim (ask srv) [ done a ↦ some a | leave_group ↦ none | next_server ↦ rest ]

  -- One pass: the group of the shard in the configuration, if the configuration has the group.
  unfoldable pub ask_shard : Config → ℕ → (String → Verdict A) → Option A
  unfolding ask_group
  ask_shard config shard ask = elim (get_elem? config.shards shard) [
    | none ↦ none
    | some gid ↦ elim (find gid config.groups) [
      | none ↦ none
      | some servers ↦ ask_group servers ask
    ]
  ]

  -- The outer loop, on fuel: `configs` are the answers of the shard master after each pass.
  unfoldable pub ask_until : ℕ → ℕ → (ℕ → Config) → ℕ → (ℕ → String → Verdict A) → Option A
  unfolding ask_shard
  ask_until zero pass configs shard ask = none
  ask_until (suc fuel) pass configs shard ask =
      let rest = ask_until fuel (suc pass) configs shard ask in
      elim (ask_shard (configs pass) shard (ask pass)) [ some a ↦ some a | none ↦ rest ]

unfoldable pub get : ℕ → (ℕ → Config) → (ℕ → String → Option GetReply) → Text → Option Text
unfolding ask_until key2shard judge_get
get fuel configs call key =
    ask_until fuel 0 configs (key2shard key) (λ pass srv. judge_get (call pass srv))

unfoldable pub put_append :
    ℕ → (ℕ → Config) → (ℕ → String → Option PutAppendReply) → Text → Option Bool
unfolding ask_until key2shard judge_put_append
put_append fuel configs call key =
    ask_until fuel 0 configs (key2shard key) (λ pass srv. judge_put_append (call pass srv))
