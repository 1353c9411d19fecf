-- ===== src/ShardMaster/Server.antt =====
-- src/shardmaster/server.go: the state machine that applies committed operations. `results` maps a
-- log index to the buffer of its channel, which holds one operation at most.
use distributed_systems_labs.Base.{
  ℕ, zero, suc, ◌+◌, ◌-◌, ◌*◌, ◌/◌, ◌%◌, ◌^◌, ◌≤◌, ◌<◌, min, ◌≡◌, refl, sym, ap, ◌∙◌, ◌≢◌, ◌↔◌, ◌⊎◌,
  inl, inr, Bool, true, false, ◌&&◌, ◌||◌, not, Option, none, some, List, [], ◌∷◌, ◌++◌, map, arith,
  ltb, leb, ◌==◌, if◌then◌else◌, ltb→lt, lt→ltb, le→ltb, lt→leb, ltb→le, leb→le, leb→lt, ==→eq,
  ==→ne, Bool-cases, Option-cases, le_suc-cases, length, get_elem?, set, take, drop, replicate,
  length-append, length-set, length-take, length-drop, length-replicate, get_elem?_total,
  get_elem?_bound, get_elem?-none, get_elem?-set, get_elem?-append_left, get_elem?-append_right,
  get_elem?-take, get_elem?-drop, take_all, length_zero, take-suc, Run, ok, panic, ◌>>=◌, or_panic,
  Returns, returns, Returns-bind, Returns-map, Returns-if, Returns-inv, Returns-eq, Yields,
  Yields-bind, Yields-then, Yields-if, Yields-eq, Yields-map, Returns-Yields, one, occ, elem,
  count_in, sum_over, IsDistinct, insert, sort, occ-append, occ-sort, length-sort, elem→occ,
  occ→elem, elem-false, elem-of_occ, occ-set, count_in-set, count_in-le, sum_over-add, sum_over-occ,
}
use distributed_systems_labs.ShardMaster.Types.{
  ℤ, pos, negsuc, n_shards, Groups, Config, OpType, join, leave, move, query, Op, keys, put, remove,
  find,
}
use distributed_systems_labs.Raft.Types.{
  Codec, Clock, Persister, Raft, ApplyMsg, committed, snapshot_msg, Persisted,
}
use distributed_systems_labs.Raft.Persist.{make}
use distributed_systems_labs.Raft.Leader.{Outgoing, Started, start}
use distributed_systems_labs.Raft.Compaction.{kill}
use distributed_systems_labs.ShardMaster.Rebalance.{rebalance}
pub mod Configs
pub mod Execute
pub mod Apply
pub mod Replay
pub mod Answers

pub record ShardMaster : Type 0 where
  pub me : ℕ
  pub rf : Raft Op
  pub last_applied : List (ℕ × ℕ)
  pub last_included_index : ℕ
  pub results : List (ℕ × Option Op)
  pub configs : List Config

-- Config.Copy: lists are not shared, so the copy has the fields of the original.
unfoldable pub copy : Config → Config
copy c = record { num = c.num; shards = c.shards; groups = c.groups }

abbrev pub same_type : OpType → OpType → Bool
same_type join join = true
same_type leave leave = true
same_type move move = true
same_type query query = true
same_type a b = false

unfoldable pub is_same_op : Op → Op → Bool
is_same_op op1 op2 =
    same_type op1.type' op2.type' && (op1.req_id == op2.req_id) && (op1.me == op2.me)

-- sm.configs[len(sm.configs)-1]
abbrev pub last_config : List Config → Run Config
last_config configs = or_panic (get_elem? configs (length configs - 1))

-- The loops of handleJoin and handleLeave.
unfoldable pub join_groups : Groups → Groups → Groups
join_groups [] groups = groups
join_groups ((gid, server) ∷ servers) groups = join_groups servers (put gid server groups)

unfoldable pub leave_groups : List ℕ → Groups → Groups
leave_groups [] groups = groups
leave_groups (id ∷ gids) groups = leave_groups gids (remove id groups)

unfoldable pub handle_join : ShardMaster → Op → Run Config
unfolding copy
handle_join sm op = last_config sm.configs >>= λ prev.
    ok (record (copy prev) { groups = join_groups op.servers (copy prev).groups })

unfoldable pub handle_leave : ShardMaster → Op → Run Config
unfolding copy
handle_leave sm op = last_config sm.configs >>= λ prev.
    ok (record (copy prev) { groups = leave_groups op.gids (copy prev).groups })

-- newConfig.Shards[currShard] = swapGroup, on an array of 10.
unfoldable pub move_shard : Config → ℤ → ℕ → Run Config
move_shard c (negsuc n) gid = panic
move_shard c (pos s) gid =
    if ltb s n_shards then ok (record c { shards = set c.shards s gid }) else panic

unfoldable pub handle_move : ShardMaster → Op → Run Config
unfolding copy
handle_move sm op = last_config sm.configs >>= λ prev. move_shard (copy prev) op.shard op.gid

-- The configuration that handleQuery picks.
unfoldable pub config_at : List Config → ℤ → Run Config
config_at configs (negsuc n) = last_config configs
config_at configs (pos n) =
    if leb (length configs) n then last_config configs else or_panic (get_elem? configs n)

unfoldable pub handle_query : ShardMaster → Op → Run Op
unfolding copy
handle_query sm op = config_at sm.configs op.num >>= λ c. ok (record op { config = copy c })

-- The result, and the state with the operation noted if it is fresh.
unfoldable pub is_duplicate_op : ShardMaster → Op → ℕ → Bool × ShardMaster
is_duplicate_op sm op idx =
    let noted = record sm {
      last_applied = put op.me op.req_id sm.last_applied;
      last_included_index = idx;
    } in
    elim (find op.me sm.last_applied) [
      | none ↦ (false, noted)
      | some last_idx ↦ if ltb last_idx op.req_id then (false, noted) else (true, sm)
    ]

-- A send that does not wait: to the channel of `idx`, if there is one and its buffer is empty.
unfoldable pub offer : ℕ → Op → List (ℕ × Option Op) → List (ℕ × Option Op)
offer idx op [] = []
offer idx op ((j, none) ∷ m) = if j == idx then (j, some op) ∷ m else (j, none) ∷ offer idx op m
offer idx op ((j, some a) ∷ m) = if j == idx then (j, some a) ∷ m else (j, some a) ∷ offer idx op m

unfoldable pub notify : ShardMaster → ℕ → Op → ShardMaster
unfolding offer
notify sm idx op = record sm { results = offer idx op sm.results }

-- newConfig.Num = last number + 1, and the append to sm.configs.
unfoldable pub renumber : ShardMaster → Config → Run Config
renumber sm c = last_config sm.configs >>= λ prev. ok (record c { num = prev.num + 1 })

abbrev pub add_config : ShardMaster → Config → ShardMaster
add_config sm c = record sm { configs = sm.configs ++ c ∷ [] }

-- The branches of ApplyRoutine on op.Type.
unfoldable pub execute : ShardMaster → Op → Run (ShardMaster × Op)
execute sm op = elim op.type' [
  | join ↦ handle_join sm op >>= λ c.
      renumber sm c >>= λ d. rebalance d >>= λ e. ok (add_config sm e, op)
  | leave ↦ handle_leave sm op >>= λ c.
      renumber sm c >>= λ d. rebalance d >>= λ e. ok (add_config sm e, op)
  | move ↦ handle_move sm op >>= λ c. renumber sm c >>= λ d. ok (add_config sm d, op)
  | query ↦ handle_query sm op >>= λ answer. ok (sm, answer)
]

abbrev pub is_query : OpType → Bool
is_query query = true
is_query t = false

-- A committed operation: a duplicate that is not a query is only reported to its waiter.
unfoldable pub apply_op : ShardMaster → ℕ → Op → Run ShardMaster
unfolding notify
apply_op sm idx op =
    let (duplicate, noted) = if is_query op.type' then (false, sm) else is_duplicate_op sm op idx in
    if duplicate
    then ok (notify noted idx op)
    else execute noted op >>= λ (done, answer). ok (notify done idx answer)

-- One round of ApplyRoutine.
unfoldable pub apply_msg : ShardMaster → ApplyMsg Op → Run ShardMaster
apply_msg sm (snapshot_msg idx data') = ok sm
apply_msg sm (committed idx op) = apply_op sm idx op

unfoldable pub apply_all : ShardMaster → List (ApplyMsg Op) → Run ShardMaster
apply_all sm [] = ok sm
apply_all sm (m ∷ msgs) = apply_msg sm m >>= λ sm'. apply_all sm' msgs

abbrev pub no_config : Config
no_config = record { num = 0; shards = replicate n_shards 0; groups = [] }

-- StartServer, with the message that Make sends.
module _ ⦃gob : Codec (Persisted Op)⦄ where
  unfoldable pub start_server : ℕ → ℕ → Persister → ShardMaster × ApplyMsg Op
  start_server servers me persister =
      let (rf, msg) = make servers me persister in
      (
        record {
          me = me;
          rf = rf;
          last_applied = [];
          last_included_index = 0;
          results = [];
          configs = no_config ∷ [];
        },
        msg,
      )
