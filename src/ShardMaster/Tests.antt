-- ===== src/ShardMaster/Tests.antt =====
-- Runs of the shard master's model on two groups, with ids 3 and 1.
use distributed_systems_labs.ShardMaster.Client.{passes}
use distributed_systems_labs.ShardMaster.Client.Sweep.{Ended, passes-Ended}
use distributed_systems_labs.ShardKv.Client.Routing.{Routed, rebalance-Routed}
use distributed_systems_labs.Base.{
  ℕ, zero, suc, ◌==◌, not, Option, some, Bool, refl, true, false, none, [], ◌∷◌, arith, replicate,
  ◌>>=◌, Returns, IsDistinct,
}
use distributed_systems_labs.ShardMaster.Types.{negsuc, n_shards, Config, Op, find}
use distributed_systems_labs.ShardMaster.Server.{ShardMaster, apply_op, apply_all, no_config}
use distributed_systems_labs.ShardMaster.Server.Configs.{start-Numbered}
use distributed_systems_labs.ShardMaster.Rebalance.Balanced.{Rebalanced, rebalance-Rebalanced}
use distributed_systems_labs.Raft.Types.{committed}
use distributed_systems_labs.Raft.Persist.{blank, make_persister}
use distributed_systems_labs.ShardMaster.Rebalance.{rebalance}
use distributed_systems_labs.ShardMaster.Handlers.{join_op, query_op}
use distributed_systems_labs.ShardMaster.Server.Apply.{Applied, apply_op-Applied}
use distributed_systems_labs.ShardMaster.Server.Replay.{
  Replayed, apply_all-Replayed, Once, apply_op-Once,
}
use distributed_systems_labs.ShardMaster.Server.Answers.{Answered, query-Answered}

abbrev two_groups : Config
two_groups = record { num = 1; shards = replicate n_shards 3; groups = (3, []) ∷ (1, []) ∷ [] }

two_groups-IsDistinct : IsDistinct (3 ∷ 1 ∷ [])
two_groups-IsDistinct g = ground arith

rebalance-Rebalanced_example : Returns (Rebalanced two_groups) (rebalance two_groups)
rebalance-Rebalanced_example =
    rebalance-Rebalanced two_groups refl two_groups-IsDistinct refl (omega arith)

abbrev started : ShardMaster
started = record {
  me = 0;
  rf = blank 3 0 make_persister;
  last_applied = [];
  last_included_index = 0;
  results = (5, none) ∷ [];
  configs = no_config ∷ [];
}

abbrev joining : Op
joining = join_op (record { servers = (3, []) ∷ (1, []) ∷ []; id = 1; me = 77 })

abbrev asking : Op
asking = query_op (record { num = negsuc 0; id = 2; me = 77 })

apply_op-Applied_example : Returns (Applied joining started) (apply_op started 5 joining)
apply_op-Applied_example = apply_op-Applied started 5 joining start-Numbered refl

apply_all-Replayed_example :
    Returns
      (Replayed started)
      (apply_all started (committed 5 joining ∷ committed 6 asking ∷ committed 7 joining ∷ []))
apply_all-Replayed_example =
    apply_all-Replayed (committed 5 joining ∷ committed 6 asking ∷ committed 7 joining ∷ []) started
      start-Numbered (refl, (tt, (refl, tt)))

apply_op-Once_example :
    Returns
      (λ between. Returns (Once joining between) (apply_op between 7 joining))
      (apply_op started 5 joining >>= λ done. apply_all done (committed 6 asking ∷ []))
apply_op-Once_example =
    apply_op-Once started 5 7 joining (committed 6 asking ∷ []) start-Numbered refl (λ e. cc)
      (tt, tt)

query-Answered_example :
    Returns (Answered (no_config ∷ []) asking 5 false true) (apply_op started 5 asking)
unfolding find
query-Answered_example = query-Answered started 5 asking false true start-Numbered refl refl

-- Server 2 accepts, from the second pass on.
abbrev reply_in : ℕ → ℕ → Option Bool
reply_in zero server = none
reply_in (suc pass) server = some (not (server == 2))

passes-Ended_example : Ended (λ b. b) reply_in 3 0 1 (passes (λ b. b) 5 0 3 reply_in)
passes-Ended_example =
    passes-Ended (λ b. b) 5 0 3 2 1 reply_in (omega arith) (omega arith) (λ e. cc)

rebalance-Routed_example : Returns (λ after. Routed after (97 ∷ [])) (rebalance two_groups)
rebalance-Routed_example =
    rebalance-Routed two_groups (97 ∷ []) refl
      (record { distinct = two_groups-IsDistinct; no_zero = refl }) (omega arith)
