-- ===== src/ShardMaster/Server/Answers.antt =====
-- A waiting Query handler and the round of ApplyRoutine that applies its operation.
use distributed_systems_labs.Base.{
  ℕ, ◌≡◌, refl, ap, ◌∙◌, Bool, true, false, ◌&&◌, not, Bool-cases, inl, inr, Option, none, some,
  List, [], ◌∷◌, arith, Returns, returns, Returns-bind,
}
use distributed_systems_labs.ShardMaster.Types.{
  Config, OpType, join, leave, move, query, Op, remove, find,
}
use distributed_systems_labs.ShardMaster.Server.{
  ShardMaster, same_type, is_same_op, offer, notify, is_query, apply_op,
}
use distributed_systems_labs.ShardMaster.Server.Configs.{Numbered}
use distributed_systems_labs.ShardMaster.Server.Execute.{Picked, execute-query-Executed}
use distributed_systems_labs.ShardMaster.Handlers.{
  await_applied, answer_query, no_error, err_wrong_leader,
}
use distributed_systems_labs.ShardMaster.Maps.{find-remove}

-- A send to an empty buffer is what the waiter finds.
find-offer :
    (idx : ℕ) (op : Op) (m : List (ℕ × Option Op))
    → find idx m ≡ some none
    → find idx (offer idx op m) ≡ some (some op)
unfolding find offer
find-offer idx op [] h = cc
find-offer idx op ((j, none) ∷ m) h = ground (arith, find-offer idx op m)
find-offer idx op ((j, some a) ∷ m) h = ground (arith, find-offer idx op m)

same_type_refl : (t : OpType) → same_type t t ≡ true
same_type_refl join = refl
same_type_refl leave = refl
same_type_refl move = refl
same_type_refl query = refl

same_op_refl : (op : Op) → is_same_op op op ≡ true
unfolding is_same_op
same_op_refl op = rw (same_type_refl op.type') (ground arith)

-- The handler, whose channel has a buffer, ends its wait and gives up the channel. It succeeds if
-- the timer has not fired; if it succeeds it replies with the configuration that the number asks
-- for, and if it fails, which asks for the timer, with the error.
pub record Answered (configs : List Config) (op : Op) (idx : ℕ) (timed_out picks_channel : Bool)
    (after : ShardMaster) : Type 0 where
  pub buffer : Option Op
  pub channel : find idx after.results ≡ some buffer
  pub last : ShardMaster
  pub success : Bool
  pub result : Op
  pub waited :
      await_applied after idx op buffer timed_out picks_channel ≡ some (last, success, result)
  pub given_up : find idx last.results ≡ none
  pub in_time : timed_out ≡ false → success ≡ true
  pub replied :
      success ≡ true
      → (c : Config) × (answer_query success result
          ≡ record { wrong_leader = false; err = no_error; config = some c })
        × Picked configs op.num c
  pub failed :
      success ≡ false
      → answer_query success result
        ≡ record { wrong_leader = true; err = err_wrong_leader; config = none }

answered :
    (configs : List Config) (op answer : Op) (idx : ℕ) (timed_out picks_channel : Bool)
    (after : ShardMaster)
    → find idx after.results ≡ some (some answer)
    → is_same_op op answer ≡ true
    → Picked configs op.num answer.config
    → Answered configs op idx timed_out picks_channel after
unfolding await_applied answer_query
answered configs op answer idx timed_out picks_channel after channel same picked =
    elim (Bool-cases (timed_out && not picks_channel)) [
      | inl late ↦ record {
        buffer = some answer;
        channel = channel;
        last = record after { results = remove idx after.results };
        success = false;
        result = op;
        waited = rw (late, await_applied) refl;
        given_up = removed;
        in_time = λ e. absurd (ground arith);
        replied = λ e. absurd cc;
        failed = λ e. refl;
      }
      | inr ready ↦ record {
        buffer = some answer;
        channel = channel;
        last = record after { results = remove idx after.results };
        success = true;
        result = answer;
        waited = rw (ready, await_applied, same) refl;
        given_up = removed;
        in_time = λ e. refl;
        replied = λ e. (answer.config, refl, picked);
        failed = λ e. absurd cc;
      }
    ]
  where
    removed : find idx (remove idx after.results) ≡ none
    removed = ground (arith, find-remove idx idx after.results)

-- Let the list of configurations be in order, the Query handler of an operation wait at an index
-- with an empty channel, and the operation be committed there. The round of ApplyRoutine returns
-- and leaves an operation in the channel, so that the handler ends its wait, whether the timer has
-- fired or not and whichever ready case the select then takes, and removes the channel. If the
-- timer has not fired it succeeds; if it succeeds it replies OK with the configuration of the
-- number asked for, or the latest if there is none of that number; otherwise it replies
-- ErrWrongLeader.
pub query-Answered :
    (sm : ShardMaster) (idx : ℕ) (op : Op) (timed_out picks_channel : Bool)
    → Numbered sm.configs
    → op.type' ≡ query
    → find idx sm.results ≡ some none
    → Returns (Answered sm.configs op idx timed_out picks_channel) (apply_op sm idx op)
unfolding apply_op notify
query-Answered sm idx op timed_out picks_channel n e waiting =
    let q : is_query op.type' ≡ true = ap is_query e in
    rw q (
      Returns-bind (execute-query-Executed sm op n e) λ (done, answer) (x, same). returns (
        answered sm.configs op answer idx timed_out picks_channel _
          (find-offer idx answer done.results (rw same waiting)) (x.same_op ∙ same_op_refl op)
          (x.picked e)))
