-- ===== src/ShardMaster/Server/Execute.antt =====
-- src/shardmaster/server.go: the branches of ApplyRoutine, what each operation does to the list of configurations.
use distributed_systems_labs.Base.{
  ℕ, ◌+◌, ◌-◌, ◌≤◌, ◌<◌, ◌≡◌, refl, ◌∙◌, ◌≢◌, inl, inr, some, List, [], ◌∷◌, ◌++◌, arith, leb,
  lt→ltb, leb→lt, Bool-cases, length, get_elem?, set, length-set, get_elem?_total, ok, ◌>>=◌,
  Returns, returns, Returns-bind, Returns-map,
}
use distributed_systems_labs.ShardMaster.Types.{
  ℤ, pos, negsuc, n_shards, Groups, Config, OpType, join, leave, move, query, Op,
}
use distributed_systems_labs.ShardMaster.Server.{
  ShardMaster, copy, is_same_op, join_groups, leave_groups, handle_join, handle_leave, move_shard,
  handle_move, config_at, handle_query, renumber, add_config, execute,
}
use distributed_systems_labs.ShardMaster.Rebalance.{rebalance}
use distributed_systems_labs.ShardMaster.Maps.{Ids}
use distributed_systems_labs.ShardMaster.Server.Configs.{
  Sound, Numbered, Spread, ValidAs, IsValid, join_groups-Ids, leave_groups-Ids, Merged, Dropped,
  join_groups-Merged, leave_groups-Dropped, add-Numbered, rebalance-Spread,
}

-- What one executed operation does to the configurations, given the last one before it.
pub data Change (op : Op) (prev : Config) (configs : List Config) : List Config → Type 0 where
  queried : op.type' ≡ query → Change op prev configs configs
  joined :
      (c : Config)
      → op.type' ≡ join
      → Merged op.servers prev.groups c.groups
      → Spread c
      → Change op prev configs (configs ++ c ∷ [])
  left :
      (c : Config)
      → op.type' ≡ leave
      → Dropped op.gids prev.groups c.groups
      → Spread c
      → Change op prev configs (configs ++ c ∷ [])
  moved :
      (c : Config) (s : ℕ)
      → op.type' ≡ move
      → op.shard ≡ pos s
      → c.groups ≡ prev.groups
      → c.shards ≡ set prev.shards s op.gid
      → Change op prev configs (configs ++ c ∷ [])

-- The configuration that a query is to get: the one of its number, or the latest one.
pub data Picked (configs : List Config) (num : ℤ) (c : Config) : Type 0 where
  numbered : (n : ℕ) → num ≡ pos n → get_elem? configs n ≡ some c → Picked configs num c
  latest :
      ((n : ℕ) → num ≡ pos n → length configs ≤ n)
      → get_elem? configs (length configs - 1) ≡ some c
      → Picked configs num c

config_at-Picked :
    (configs : List Config) (num : ℤ)
    → 0 < length configs
    → Returns (Picked configs num) (config_at configs num)
unfolding config_at
config_at-Picked configs (negsuc n) h =
    let (c, at) = get_elem?_total configs (length configs - 1) (omega arith) in
    rw at (returns (latest (λ j e. absurd cc) at))
config_at-Picked configs (pos n) h = elim (Bool-cases (leb (length configs) n)) [
  | inl out ↦
      let (c, at) = get_elem?_total configs (length configs - 1) (omega arith) in
      rw (out, at) (returns (latest (λ j e. ground arith) at))
  | inr inside ↦
      let (c, at) = get_elem?_total configs n (leb→lt _ _ inside) in
      rw (inside, at) (returns (numbered n refl at))
]

-- The state after an operation: the list is in order, and extended as the operation says.
pub record Executed (op : Op) (before after : ShardMaster) (answer : Op) : Type 0 where
  pub numbered : Numbered after.configs
  pub seen : after.last_applied ≡ before.last_applied
  pub change :
      (prev : Config) × (get_elem? before.configs (length before.configs - 1) ≡ some prev)
      × Change op prev before.configs after.configs
  pub picked : op.type' ≡ query → Picked before.configs op.num answer.config
  pub same_op : is_same_op op answer ≡ is_same_op op op

module _ (sm : ShardMaster) (op : Op) (n : Numbered sm.configs) where
  -- The end of the branches for join and leave.
  regrouped :
      (prev : Config) (groups : Groups)
      → get_elem? sm.configs (length sm.configs - 1) ≡ some prev
      → Sound (length sm.configs - 1) prev
      → Ids groups
      → op.type' ≢ query
      → ((d : Config)
          → d.groups ≡ groups
          → Spread d
          → Change op prev sm.configs (sm.configs ++ d ∷ []))
      → Returns
          (λ (done : ShardMaster × Op). Executed op sm done.0 done.1)
          (renumber sm (record prev { groups = groups }) >>= λ d.
            rebalance d >>= λ e. ok (add_config sm e, op))
  unfolding renumber
  regrouped prev groups at s ids not_query change = rw at (
      Returns-bind
        (rebalance-Spread (record prev { groups = groups; num = prev.num + 1 }) s.sized ids)
        λ d (num, same, sized, spread). returns (record {
          numbered = add-Numbered sm.configs d n (record {
            num = omega (arith, num, s.num, n.nonempty);
            sized = sized;
            ids = rw same ids;
          });
          seen = refl;
          change = (prev, at, change d same spread);
          picked = λ h. absurd (not_query h);
          same_op = refl;
        }))

  execute-move :
      (prev : Config) (k : ℕ)
      → op.type' ≡ move
      → op.shard ≡ pos k
      → k < n_shards
      → get_elem? sm.configs (length sm.configs - 1) ≡ some prev
      → Sound (length sm.configs - 1) prev
      → Returns (λ (done : ShardMaster × Op). Executed op sm done.0 done.1) (execute sm op)
  unfolding execute handle_move move_shard renumber copy
  execute-move prev k e shard lt at s =
      simp (e, at, execute, handle_move, shard)
        (rw (lt→ltb _ _ lt) (
          returns (record {
            numbered = add-Numbered sm.configs _ n (record {
              num = omega (arith, s.num, n.nonempty);
              sized = length-set prev.shards k op.gid ∙ s.sized;
              ids = s.ids;
            });
            seen = refl;
            change = (prev, at, moved _ k e shard refl refl);
            picked = λ h. absurd cc;
            same_op = refl;
          })))

  execute-query :
      (prev : Config)
      → op.type' ≡ query
      → get_elem? sm.configs (length sm.configs - 1) ≡ some prev
      → Returns
          (λ (done : ShardMaster × Op).
            Executed op sm done.0 done.1 × (done.0.results ≡ sm.results))
          (execute sm op)
  unfolding execute handle_query copy is_same_op
  execute-query prev e at =
      simp (e, execute, handle_query)
        (Returns-bind
          (Returns-bind
            {Q = λ answer.
              Picked sm.configs op.num answer.config × (is_same_op op answer ≡ is_same_op op op)}
            (config_at-Picked sm.configs op.num n.nonempty)
            λ c p. returns (p, simp (e, is_same_op) refl))
          λ answer (p, same). returns (
            record {
              numbered = n;
              seen = refl;
              change = (prev, at, queried e);
              picked = λ h. p;
              same_op = same;
            },
            refl,
          ))

  execute_at :
      (t : OpType) (prev : Config)
      → op.type' ≡ t
      → get_elem? sm.configs (length sm.configs - 1) ≡ some prev
      → Sound (length sm.configs - 1) prev
      → ValidAs t op
      → Returns (λ (done : ShardMaster × Op). Executed op sm done.0 done.1) (execute sm op)
  unfolding execute handle_join handle_leave copy
  execute_at join prev e at s v =
      simp (e, at, execute, handle_join)
        (regrouped prev (join_groups op.servers prev.groups) at s
          (join_groups-Ids op.servers prev.groups v s.ids) (λ h. cc)
          (λ d same. joined d e (rw same (join_groups-Merged op.servers prev.groups))))
  execute_at leave prev e at s v =
      simp (e, at, execute, handle_leave)
        (regrouped prev (leave_groups op.gids prev.groups) at s
          (leave_groups-Ids op.gids prev.groups s.ids) (λ h. cc)
          (λ d same. left d e (rw same (leave_groups-Dropped op.gids prev.groups))))
  execute_at move prev e at s (k, shard, lt) = execute-move prev k e shard lt at s
  execute_at query prev e at s v = Returns-map (execute-query prev e at) λ done (x, same). x

  pub execute-Executed :
      IsValid op
      → Returns (λ (done : ShardMaster × Op). Executed op sm done.0 done.1) (execute sm op)
  execute-Executed v =
      let (prev, at) =
        get_elem?_total sm.configs (length sm.configs - 1) (omega (arith, n.nonempty)) in
      execute_at op.type' prev refl at (n.entry _ prev at) v

  -- A query changes no part of the state.
  pub execute-query-Executed :
      op.type' ≡ query
      → Returns
          (λ (done : ShardMaster × Op).
            Executed op sm done.0 done.1 × (done.0.results ≡ sm.results))
          (execute sm op)
  execute-query-Executed e =
      let (prev, at) =
        get_elem?_total sm.configs (length sm.configs - 1) (omega (arith, n.nonempty)) in
      execute-query prev e at
