-- ===== src/ShardMaster/Client.antt =====
-- src/shardmaster/client.go: the clerk, which sweeps over the servers until one accepts. `call`
-- gives the reply of a server in a pass over the servers, or `none` for a failed call.
use distributed_systems_labs.Base.{
  ℕ, zero, suc, ◌+◌, ◌-◌, ◌*◌, ◌/◌, ◌%◌, ◌^◌, ◌≤◌, ◌<◌, min, ◌≡◌, refl, sym, ap, ◌∙◌, ◌≢◌, ◌↔◌, ◌⊎◌,
  inl, inr, Bool, true, false, ◌&&◌, ◌||◌, not, Option, none, some, List, [], ◌∷◌, ◌++◌, map, arith,
  ltb, leb, ◌==◌, if◌then◌else◌, ltb→lt, lt→ltb, le→ltb, lt→leb, ltb→le, leb→le, leb→lt, ==→eq,
  ==→ne, Bool-cases, Option-cases, le_suc-cases, length, get_elem?, set, take, drop, replicate,
  length-append, length-set, length-take, length-drop, length-replicate, get_elem?_total,
  get_elem?_bound, get_elem?-none, get_elem?-set, get_elem?-append_left, get_elem?-append_right,
  get_elem?-take, get_elem?-drop, take_all, length_zero, take-suc, Run, ok, panic, ◌>>=◌, or_panic,
  Returns, returns, Returns-bind, Returns-map, Returns-if, Returns-inv, Returns-eq, Yields,
  Yields-bind, Yields-then, Yields-if, Yields-eq, Yields-map, Returns-Yields, one, occ, elem,
  count_in, sum_over, IsDistinct, insert, sort, occ-append, occ-sort, length-sort, elem→occ,
  occ→elem, elem-false, elem-of_occ, occ-set, count_in-set, count_in-le, sum_over-add, sum_over-occ,
}
use distributed_systems_labs.ShardMaster.Types.{ℤ, Groups, Config}
use distributed_systems_labs.ShardMaster.Handlers.{
  JoinArgs, LeaveArgs, MoveArgs, QueryArgs, Reply, QueryReply,
}
pub mod Sweep

pub record Clerk : Type 0 where
  pub servers : ℕ
  pub client_id : ℕ
  pub id : ℕ

-- MakeClerk, with the number that nrand gives.
unfoldable pub make_clerk : ℕ → ℕ → Clerk
make_clerk servers nrand = record { servers = servers; client_id = nrand; id = 0 }

-- ck.id.Add(1)
abbrev next_id : Clerk → Clerk
next_id ck = record ck { id = ck.id + 1 }

module _ {R : Type 0} (wrong_leader : R → Bool) where
  -- ok && reply.WrongLeader == false
  abbrev pub accepts : Option R → Option R
  accepts none = none
  accepts (some reply) = if wrong_leader reply then none else some reply

  -- The inner loop: `n` servers are left, from server `i` on.
  unfoldable pub sweep : ℕ → ℕ → (ℕ → Option R) → Option R
  sweep zero i call = none
  sweep (suc n) i call =
      let rest = sweep n (suc i) call in
      elim (accepts (call i)) [ some reply ↦ some reply | none ↦ rest ]

  -- The outer loop, on fuel: pass after pass over all servers.
  unfoldable pub passes : ℕ → ℕ → ℕ → (ℕ → ℕ → Option R) → Option R
  unfolding sweep
  passes zero pass servers call = none
  passes (suc fuel) pass servers call =
      let rest = passes fuel (suc pass) servers call in
      elim (sweep servers 0 (call pass)) [ some reply ↦ some reply | none ↦ rest ]

unfoldable pub query :
    ℕ → (QueryArgs → ℕ → ℕ → Option QueryReply) → Clerk → ℤ → Clerk × Option QueryReply
unfolding passes
query fuel call ck num =
    let ck' = next_id ck in
    let args : QueryArgs = record { num = num; id = ck'.id; me = ck'.client_id } in
    (ck', passes (λ (r : QueryReply). r.wrong_leader) fuel 0 ck'.servers (call args))

unfoldable pub join : ℕ → (JoinArgs → ℕ → ℕ → Option Reply) → Clerk → Groups → Clerk × Option Reply
unfolding passes
join fuel call ck servers =
    let ck' = next_id ck in
    let args : JoinArgs = record { servers = servers; id = ck'.id; me = ck'.client_id } in
    (ck', passes (λ (r : Reply). r.wrong_leader) fuel 0 ck'.servers (call args))

unfoldable pub leave :
    ℕ → (LeaveArgs → ℕ → ℕ → Option Reply) → Clerk → List ℕ → Clerk × Option Reply
unfolding passes
leave fuel call ck gids =
    let ck' = next_id ck in
    let args : LeaveArgs = record { gids = gids; id = ck'.id; me = ck'.client_id } in
    (ck', passes (λ (r : Reply). r.wrong_leader) fuel 0 ck'.servers (call args))

unfoldable pub move : ℕ → (MoveArgs → ℕ → ℕ → Option Reply) → Clerk → ℤ → ℕ → Clerk × Option Reply
unfolding passes
move fuel call ck shard gid =
    let ck' = next_id ck in
    let args : MoveArgs = record { shard = shard; gid = gid; id = ck'.id; me = ck'.client_id } in
    (ck', passes (λ (r : Reply). r.wrong_leader) fuel 0 ck'.servers (call args))
