-- ===== src/ShardMaster/Server/Configs.antt =====
-- src/shardmaster/server.go: the list of configurations, and the groups that an operation gives it.
use Prim.Native.String.{String}
use distributed_systems_labs.Base.{
  some-inj, ℕ, zero, suc, ◌-◌, ◌<◌, ◌≡◌, refl, sym, ap, ◌∙◌, inl, inr, false, Option, none, some,
  List, [], ◌∷◌, ◌++◌, arith, ltb, ◌==◌, if◌then◌else◌, ltb→lt, ltb→le, Bool-cases, length,
  get_elem?, replicate, length-append, get_elem?_bound, get_elem?-append_left,
  get_elem?-append_right, Returns, returns, Returns-map, elem, sort,
}
use distributed_systems_labs.ShardMaster.Types.{
  pos, n_shards, Groups, Config, OpType, join, leave, move, query, Op, keys, put, remove, find,
}
use distributed_systems_labs.ShardMaster.Server.{join_groups, leave_groups, no_config}
use distributed_systems_labs.ShardMaster.Rebalance.Balanced.{Balanced, rebalance-Rebalanced}
use distributed_systems_labs.ShardMaster.Rebalance.{rebalance}
use distributed_systems_labs.ShardMaster.Maps.{Ids, put-Ids, remove-Ids, find-put, find-remove}

-- Configuration number i of the list.
pub record Sound (i : ℕ) (c : Config) : Type 0 where
  pub num : c.num ≡ i
  pub sized : length c.shards ≡ n_shards
  pub ids : Ids c.groups

-- Configurations stand at their numbers, and there is at least one.
pub record Numbered (configs : List Config) : Type 0 where
  pub nonempty : 0 < length configs
  pub entry : (i : ℕ) (c : Config) → get_elem? configs i ≡ some c → Sound i c

-- The shards of a configuration without groups are all of group 0; with groups they are balanced.
pub record Spread (c : Config) : Type 0 where
  pub nobody : length (keys c.groups) ≡ 0 → c.shards ≡ replicate n_shards 0
  pub balanced : 0 < length (keys c.groups) → Balanced (sort (keys c.groups)) c.shards

-- What the clients must respect: no group has id 0, and a moved shard exists.
abbrev pub ValidAs : OpType → Op → Type 0
ValidAs join op = elem 0 (keys op.servers) ≡ false
ValidAs leave op = Unit {0}
ValidAs move op = (s : ℕ) × (op.shard ≡ pos s) × (s < n_shards)
ValidAs query op = Unit {0}

abbrev pub IsValid : Op → Type 0
IsValid op = ValidAs op.type' op

pub join_groups-Ids :
    (servers groups : Groups)
    → elem 0 (keys servers) ≡ false
    → Ids groups
    → Ids (join_groups servers groups)
unfolding join_groups
join_groups-Ids [] groups h ids = ids
join_groups-Ids ((gid, server) ∷ servers) groups h ids =
    join_groups-Ids servers (put gid server groups) (ground arith)
      (put-Ids gid server groups (λ e. ground arith) ids)

pub leave_groups-Ids :
    (gids : List ℕ) (groups : Groups) → Ids groups → Ids (leave_groups gids groups)
unfolding leave_groups
leave_groups-Ids [] groups ids = ids
leave_groups-Ids (id ∷ gids) groups ids =
    leave_groups-Ids gids (remove id groups) (remove-Ids id groups ids)

-- The servers that a join gives for a group: those of the last entry with its id.
abbrev pub given : ℕ → Groups → Option (List String)
given g [] = none
given g ((gid, server) ∷ servers) = elim (given g servers) [
  | some later ↦ some later
  | none ↦ if gid == g then some server else none
]

abbrev or_else : Option (List String) → Option (List String) → Option (List String)
or_else none old = old
or_else (some new) old = some new

-- The groups of the join have the servers it gives, and every other group is as it was.
abbrev pub Merged : Groups → Groups → Groups → Type 0
Merged servers before after = (g : ℕ) → find g after ≡ or_else (given g servers) (find g before)

-- The groups that leave are gone, and every other group is as it was.
abbrev pub Dropped : List ℕ → Groups → Groups → Type 0
Dropped gids before after = (g : ℕ) → find g after ≡ (if elem g gids then none else find g before)

pub join_groups-Merged :
    (servers groups : Groups) → Merged servers groups (join_groups servers groups)
unfolding join_groups
join_groups-Merged [] groups g = refl
join_groups-Merged ((gid, server) ∷ servers) groups g =
    ground
      (arith, join_groups-Merged servers (put gid server groups) g, find-put gid server g groups)

pub leave_groups-Dropped :
    (gids : List ℕ) (groups : Groups) → Dropped gids groups (leave_groups gids groups)
unfolding leave_groups
leave_groups-Dropped [] groups g = refl
leave_groups-Dropped (id ∷ gids) groups g =
    ground (arith, leave_groups-Dropped gids (remove id groups) g, find-remove id g groups)

-- The list with which a server starts.
pub start-Numbered : Numbered (no_config ∷ [])
start-Numbered = record { nonempty = omega arith; entry = only }
  where
    first : Sound 0 no_config
    first = record {
      num = refl;
      sized = refl;
      ids = record { distinct = λ g. omega arith; no_zero = refl };
    }

    only : (i : ℕ) (c : Config) → get_elem? (no_config ∷ []) i ≡ some c → Sound i c
    only zero c at = rw (sym (some-inj at)) first
    only (suc i) c at = absurd cc

-- An added configuration with the next number keeps the list in order.
pub add-Numbered :
    (configs : List Config) (c : Config)
    → Numbered configs
    → Sound (length configs) c
    → Numbered (configs ++ c ∷ [])
add-Numbered configs c n s = record {
  nonempty = omega (arith, length-append configs (c ∷ []));
  entry = λ i d at. elim (Bool-cases (ltb i (length configs))) [
    | inl old ↦ n.entry i d (sym (get_elem?-append_left configs (c ∷ []) i (ltb→lt _ _ old)) ∙ at)
    | inr new ↦ added i d (sym (get_elem?-append_right configs (c ∷ []) i (ltb→le _ _ new)) ∙ at) (
        omega (
          arith,
          get_elem?_bound (configs ++ c ∷ []) i at,
          length-append configs (c ∷ []),
          ltb→le _ _ new,
        ))
  ];
}
  where
    added :
        (i : ℕ) (d : Config)
        → get_elem? (c ∷ []) (i - length configs) ≡ some d
        → i ≡ length configs
        → Sound i d
    added i d at e =
        let z : i - length configs ≡ 0 = omega arith in rw (sym (some-inj (rw z at at)), e) s

pub rebalance-Spread :
    (c : Config)
    → length c.shards ≡ n_shards
    → Ids c.groups
    → Returns
        (λ d. (d.num ≡ c.num) × (d.groups ≡ c.groups) × (length d.shards ≡ n_shards) × Spread d)
        (rebalance c)
unfolding rebalance
rebalance-Spread c sized ids = elim (Bool-cases (length (keys c.groups) == 0)) [
  | inl none' ↦
      rw (none', rebalance)
        (returns
          (refl, refl, refl, record { nobody = λ e. refl; balanced = λ lt. absurd (ground arith) }))
  | inr some' ↦
      Returns-map (rebalance-Rebalanced c sized ids.distinct ids.no_zero (ground arith)) λ d r. (
        r.num,
        r.groups,
        r.balanced.sized,
        record {
          nobody = λ e. absurd (ground (arith, ap keys r.groups));
          balanced = λ lt. rw r.groups r.balanced;
        },
      )
]
