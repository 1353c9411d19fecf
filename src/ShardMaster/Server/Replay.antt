-- ===== src/ShardMaster/Server/Replay.antt =====
-- ApplyRoutine on a sequence of messages: the history of configurations, and repeated operations.
use distributed_systems_labs.Base.{
  ℕ, ◌≡◌, refl, ap, ◌∙◌, ◌≢◌, inl, inr, some, List, [], ◌∷◌, ◌++◌, arith, ◌==◌, ==→eq, Bool-cases,
  get_elem?, get_elem?_bound, get_elem?-append_left, ◌>>=◌, Returns, returns, Returns-bind,
  Returns-map,
}
use distributed_systems_labs.ShardMaster.Types.{Config, query, Op, find}
use distributed_systems_labs.ShardMaster.Server.{ShardMaster, apply_op, apply_msg, apply_all}
use distributed_systems_labs.ShardMaster.Server.Configs.{Numbered, IsValid}
use distributed_systems_labs.ShardMaster.Server.Execute.{Change, queried, joined, left, moved}
use distributed_systems_labs.ShardMaster.Maps.{find-put}
use distributed_systems_labs.Raft.Types.{ApplyMsg, committed, snapshot_msg}
use distributed_systems_labs.ShardMaster.Server.Apply.{
  Seen, Outcome, skipped, answered, executed, apply_op-Applied,
}

abbrev pub ValidMsg : ApplyMsg Op → Type 0
ValidMsg (committed idx op) = IsValid op
ValidMsg (snapshot_msg idx data') = Unit {0}

abbrev pub ValidMsgs : List (ApplyMsg Op) → Type 0
ValidMsgs [] = Unit {0}
ValidMsgs (m ∷ msgs) = ValidMsg m × ValidMsgs msgs

-- Every configuration keeps its number and its contents.
abbrev pub Extends : List Config → List Config → Type 0
Extends old new = (i : ℕ) (c : Config) → get_elem? old i ≡ some c → get_elem? new i ≡ some c

add-Extends : (configs : List Config) (c : Config) → Extends configs (configs ++ c ∷ [])
add-Extends configs c i d at =
    get_elem?-append_left configs (c ∷ []) i (get_elem?_bound configs i at) ∙ at

Change-Extends :
    (op : Op) (prev : Config) (old new : List Config) → Change op prev old new → Extends old new
Change-Extends op prev old new (queried h) i c at = at
Change-Extends op prev old new (joined d h a b) i c at = add-Extends old d i c at
Change-Extends op prev old new (left d h a b) i c at = add-Extends old d i c at
Change-Extends op prev old new (moved d s h a b e) i c at = add-Extends old d i c at

Outcome-Extends :
    (op : Op) (before after : ShardMaster)
    → Outcome op before after
    → Extends before.configs after.configs
Outcome-Extends op before after (skipped h s same n) i c at = rw same at
Outcome-Extends op before after (answered h same n) i c at = rw same at
Outcome-Extends op before after (executed prev h later n p change) i c at =
    Change-Extends op prev before.configs after.configs change i c at

-- What was seen stays seen.
Outcome-Seen :
    (op other : Op) (before after : ShardMaster)
    → Outcome op before after
    → Seen before other
    → Seen after other
Outcome-Seen op other before after (skipped h s same n) (j, at, le) = (j, rw n at, le)
Outcome-Seen op other before after (answered h same n) (j, at, le) = (j, rw n at, le)
Outcome-Seen op other before after (executed prev h later n p change) (j, at, le) =
    elim (Bool-cases (op.me == other.me)) [
      | inl same ↦ (
        op.req_id,
        rw n (find-put op.me op.req_id other.me before.last_applied ∙ rw same refl),
        omega (arith, later j (ap (λ k. find k before.last_applied) (==→eq _ _ same) ∙ at)),
      )
      | inr differ ↦
          (j, rw n (find-put op.me op.req_id other.me before.last_applied ∙ rw differ at), le)
    ]

-- The operation itself is seen afterwards, unless it is a query.
Outcome-Seen_self :
    (op : Op) (before after : ShardMaster)
    → op.type' ≢ query
    → Outcome op before after
    → Seen after op
Outcome-Seen_self op before after h (skipped h' (j, at, le) same n) = (j, rw n at, le)
Outcome-Seen_self op before after h (answered h' same n) = absurd (h h')
Outcome-Seen_self op before after h (executed prev h' later n p change) = (
  op.req_id,
  rw n (find-put op.me op.req_id op.me before.last_applied ∙ ground arith),
  omega arith,
)

-- The state after some messages: numbered, an extension, and with nothing seen forgotten.
pub record Replayed (before after : ShardMaster) : Type 0 where
  pub numbered : Numbered after.configs
  pub history : Extends before.configs after.configs
  pub seen : (op : Op) → Seen before op → Seen after op

apply_msg-Replayed :
    (sm : ShardMaster) (m : ApplyMsg Op)
    → Numbered sm.configs
    → ValidMsg m
    → Returns (Replayed sm) (apply_msg sm m)
unfolding apply_msg
apply_msg-Replayed sm (snapshot_msg idx data') n v =
    returns (record { numbered = n; history = λ i c at. at; seen = λ op s. s })
apply_msg-Replayed sm (committed idx op) n v =
    Returns-map (apply_op-Applied sm idx op n v) λ after a. record {
      numbered = a.numbered;
      history = Outcome-Extends op sm after a.outcome;
      seen = λ other. Outcome-Seen op other sm after a.outcome;
    }

-- For every sequence of messages in which joins name no group 0 and moves name an existing shard,
-- from a list in which every configuration stands at its number, has 10 shards and groups with
-- distinct ids other than 0: ApplyRoutine returns, the list is still such a list, every earlier
-- configuration is in it unchanged, and every operation whose client had a number as high stays
-- seen.
pub apply_all-Replayed :
    (msgs : List (ApplyMsg Op)) (sm : ShardMaster)
    → Numbered sm.configs
    → ValidMsgs msgs
    → Returns (Replayed sm) (apply_all sm msgs)
unfolding apply_all
apply_all-Replayed [] sm n v =
    returns (record { numbered = n; history = λ i c at. at; seen = λ op s. s })
apply_all-Replayed (m ∷ msgs) sm n (v, rest) = Returns-bind (apply_msg-Replayed sm m n v) λ sm' r.
    Returns-map (apply_all-Replayed msgs sm' r.numbered rest) λ after r'. record {
      numbered = r'.numbered;
      history = λ i c at. r'.history i c (r.history i c at);
      seen = λ op s. r'.seen op (r.seen op s);
    }

-- A seen operation that is not a query is skipped.
Outcome-again :
    (op : Op) (before after : ShardMaster)
    → op.type' ≢ query
    → Seen before op
    → Outcome op before after
    → (after.configs ≡ before.configs) × (after.last_applied ≡ before.last_applied)
Outcome-again op before after h s (skipped h' s' same n) = (same, n)
Outcome-again op before after h s (answered h' same n) = absurd (h h')
Outcome-again op before after h (j, at, le) (executed prev h' later n p change) =
    absurd (omega (arith, later j at))

-- The state after some messages, and after `op` once more.
pub record Once (op : Op) (first : ShardMaster) (last : ShardMaster) : Type 0 where
  pub same_configs : last.configs ≡ first.configs
  pub same_numbers : last.last_applied ≡ first.last_applied

-- If a valid operation that is not a query is applied to a list of configurations in order, and
-- any valid messages follow, then all this returns, and applying the operation again returns with
-- the configurations and the clients' numbers as they were just before.
pub apply_op-Once :
    (sm : ShardMaster) (idx idx' : ℕ) (op : Op) (msgs : List (ApplyMsg Op))
    → Numbered sm.configs
    → IsValid op
    → op.type' ≢ query
    → ValidMsgs msgs
    → Returns
        (λ between. Returns (Once op between) (apply_op between idx' op))
        (apply_op sm idx op >>= λ done. apply_all done msgs)
apply_op-Once sm idx idx' op msgs n v h vs = Returns-bind (apply_op-Applied sm idx op n v) λ done a.
    Returns-map (apply_all-Replayed msgs done a.numbered vs) λ between r.
      Returns-map (apply_op-Applied between idx' op r.numbered v) λ last b.
        let (configs, numbers) =
          Outcome-again op between last h (r.seen op (Outcome-Seen_self op sm done h a.outcome))
            b.outcome in
        record { same_configs = configs; same_numbers = numbers }
