-- ===== src/ShardMaster/Server/Apply.antt =====
-- ApplyRoutine on one committed operation: duplicates, queries and changes.
use distributed_systems_labs.Base.{
  ℕ, ◌-◌, ◌≤◌, ◌<◌, ◌≡◌, refl, ◌∙◌, ◌≢◌, inl, inr, true, false, some, List, arith, ltb,
  if◌then◌else◌, ltb→le, Bool-cases, Option-cases, length, get_elem?, ok, ◌>>=◌, Returns, returns,
  Returns-bind,
}
use distributed_systems_labs.ShardMaster.Types.{Config, OpType, query, Op, put, find}
use distributed_systems_labs.ShardMaster.Server.{
  ShardMaster, is_duplicate_op, notify, is_query, execute, apply_op,
}
use distributed_systems_labs.ShardMaster.Server.Configs.{Numbered, IsValid}
use distributed_systems_labs.ShardMaster.Server.Execute.{
  Change, queried, joined, left, moved, execute-Executed,
}

-- An operation of its client with this number or a later one was applied.
abbrev pub Seen : ShardMaster → Op → Type 0
Seen sm op = (last_idx : ℕ) × (find op.me sm.last_applied ≡ some last_idx) × (op.req_id ≤ last_idx)

-- The clients' numbers after a fresh operation.
abbrev pub noted : ShardMaster → Op → List (ℕ × ℕ)
noted sm op = put op.me op.req_id sm.last_applied

is_query-true : (t : OpType) → is_query t ≡ true → t ≡ query
is_query-true query h = refl
is_query-true t h = absurd (ground arith)

is_query-false : (t : OpType) → is_query t ≡ false → t ≢ query
is_query-false t h e = ground arith

-- What ApplyRoutine does with a committed operation: a repeated one and a query keep the
-- configurations and the clients' numbers, and any other is executed once and noted.
pub data Outcome (op : Op) (before after : ShardMaster) : Type 0 where
  skipped :
      op.type' ≢ query
      → Seen before op
      → after.configs ≡ before.configs
      → after.last_applied ≡ before.last_applied
      → Outcome op before after
  answered :
      op.type' ≡ query
      → after.configs ≡ before.configs
      → after.last_applied ≡ before.last_applied
      → Outcome op before after
  executed :
      (prev : Config)
      → op.type' ≢ query
      → ((last_idx : ℕ) → find op.me before.last_applied ≡ some last_idx → last_idx < op.req_id)
      → after.last_applied ≡ noted before op
      → get_elem? before.configs (length before.configs - 1) ≡ some prev
      → Change op prev before.configs after.configs
      → Outcome op before after

pub record Applied (op : Op) (before after : ShardMaster) : Type 0 where
  pub numbered : Numbered after.configs
  pub outcome : Outcome op before after

module _ (sm : ShardMaster) (idx : ℕ) (op : Op) (n : Numbered sm.configs) (v : IsValid op) where
  fresh :
      (noted' : ShardMaster)
      → noted'.configs ≡ sm.configs
      → noted'.last_applied ≡ noted sm op
      → op.type' ≢ query
      → ((last_idx : ℕ) → find op.me sm.last_applied ≡ some last_idx → last_idx < op.req_id)
      → Returns
          (Applied op sm)
          (execute noted' op >>= λ (done, answer). ok (notify done idx answer))
  unfolding notify
  fresh noted' same seen not_query later =
      Returns-bind (execute-Executed noted' op (rw same n) v) λ (done, answer) x.
        let (prev, at, change) = x.change in
        returns (record {
          numbered = x.numbered;
          outcome =
              executed prev not_query later (x.seen ∙ seen) (rw same at at) (rw same at change);
        })

  read_only :
      op.type' ≡ query
      → Returns (Applied op sm) (execute sm op >>= λ (done, answer). ok (notify done idx answer))
  unfolding notify
  read_only e = Returns-bind (execute-Executed sm op n v) λ (done, answer) x.
      let (prev, at, change) = x.change in
      returns (record { numbered = x.numbered; outcome = answered e (unchanged e change) x.seen })
    where
      unchanged :
          {prev : Config} {configs after : List Config}
          → op.type' ≡ query
          → Change op prev configs after
          → after ≡ configs
      unchanged e (queried h) = refl
      unchanged e (joined c h a b) = absurd cc
      unchanged e (left c h a b) = absurd cc
      unchanged e (moved c s h a b d) = absurd cc

  changing :
      op.type' ≢ query
      → Returns (Applied op sm) (
          let (duplicate, noted') = is_duplicate_op sm op idx in
          if duplicate
          then ok (notify noted' idx op)
          else execute noted' op >>= λ (done, answer). ok (notify done idx answer))
  unfolding is_duplicate_op notify
  changing not_query = elim (Option-cases (find op.me sm.last_applied)) [
    | inl first ↦ rw (first, is_duplicate_op) (fresh _ refl refl not_query (λ j at. absurd cc))
    | inr (last_idx, at) ↦ elim (Bool-cases (ltb last_idx op.req_id)) [
      | inl later ↦
          rw (at, later, is_duplicate_op)
            (fresh _ refl refl not_query (λ j at'. ground (arith, at, at')))
      | inr old ↦
          rw (at, old, is_duplicate_op)
            (returns (record {
              numbered = n;
              outcome = skipped not_query (last_idx, at, ltb→le _ _ old) refl refl;
            }))
    ]
  ]

  -- For a valid operation on a list of configurations in order, the round of ApplyRoutine returns
  -- and the list stays in order. An operation of a client with no higher number than its last one,
  -- not a query, and a query leave the configurations and the clients' numbers as they are. Any
  -- other is noted under its client and appends a configuration: after a join each group has the
  -- servers that the join gives it last, or those it had; after a leave the named groups are gone
  -- and every other has the servers it had; in both the shards are balanced over the groups, or
  -- all of group 0 if none is left; after a move the groups are the same, and only the one shard
  -- has changed hands.
  pub apply_op-Applied : Returns (Applied op sm) (apply_op sm idx op)
  unfolding apply_op
  apply_op-Applied = elim (Bool-cases (is_query op.type')) [
    | inl yes' ↦ rw yes' (read_only (is_query-true op.type' yes'))
    | inr no' ↦ rw no' (changing (is_query-false op.type' no'))
  ]
