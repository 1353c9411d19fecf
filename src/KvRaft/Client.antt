-- ===== src/KvRaft/Client.antt =====
-- src/kvraft/client.go: the clerk, which asks one server after another until one answers as the
-- leader. `call` gives the reply of each attempt at a server, or `none` for a failed call.
use distributed_systems_labs.Base.{
  ℕ, zero, suc, ◌+◌, ◌-◌, ◌*◌, ◌/◌, ◌%◌, ◌^◌, ◌≤◌, ◌<◌, min, ◌≡◌, refl, sym, ap, ◌∙◌, ◌≢◌, ◌↔◌, ◌⊎◌,
  inl, inr, Bool, true, false, ◌&&◌, ◌||◌, not, Option, none, some, List, [], ◌∷◌, ◌++◌, map, arith,
  ltb, leb, ◌==◌, if◌then◌else◌, ltb→lt, lt→ltb, le→ltb, lt→leb, ltb→le, leb→le, leb→lt, ==→eq,
  ==→ne, Bool-cases, Option-cases, le_suc-cases, length, get_elem?, set, take, drop, replicate,
  length-append, length-set, length-take, length-drop, length-replicate, get_elem?_total,
  get_elem?_bound, get_elem?-none, get_elem?-set, get_elem?-append_left, get_elem?-append_right,
  get_elem?-take, get_elem?-drop, take_all, length_zero, take-suc, Run, ok, panic, ◌>>=◌, or_panic,
  Returns, returns, Returns-bind, Returns-map, Returns-if, Returns-inv, Returns-eq, Yields,
  Yields-bind, Yields-then, Yields-if, Yields-eq, Yields-map, Returns-Yields, one, occ, elem,
  count_in, sum_over, IsDistinct, insert, sort, occ-append, occ-sort, length-sort, elem→occ,
  occ→elem, elem-false, elem-of_occ, occ-set, count_in-set, count_in-le, sum_over-add, sum_over-occ,
}
use distributed_systems_labs.KvRaft.Types.{
  Text, OpType, put_op, append_op, GetArgs, GetReply, PutAppendArgs, PutAppendReply,
}
pub mod Rotation

pub record Clerk : Type 0 where
  pub servers : ℕ
  pub leader : ℕ
  pub client_id : ℕ
  pub id : ℕ

-- MakeClerk, with the number that nrand gives.
unfoldable pub make_clerk : ℕ → ℕ → Clerk
make_clerk servers nrand = record { servers = servers; leader = 0; client_id = nrand; id = 0 }

unfoldable pub rotate : Clerk → Clerk
rotate ck = record ck { leader = (ck.leader + 1) % ck.servers }

-- The retry loop, on fuel: the clerk and the reply that ended it, or `none` when the fuel is out.
module _ {R : Type 0} (wrong_leader : R → Bool) where
  abbrev pub accepts : Option R → Option R
  accepts none = none
  accepts (some reply) = if wrong_leader reply then none else some reply

  unfoldable pub retry : ℕ → (ℕ → ℕ → Option R) → ℕ → Clerk → Option (Clerk × R)
  unfolding rotate
  retry zero call attempt ck = none
  retry (suc fuel) call attempt ck =
      let rest = retry fuel call (suc attempt) (rotate ck) in
      elim (accepts (call attempt ck.leader)) [ some reply ↦ some (ck, reply) | none ↦ rest ]

abbrev next_id : Clerk → Clerk
next_id ck = record ck { id = ck.id + 1 }

unfoldable pub get : ℕ → (GetArgs → ℕ → ℕ → Option GetReply) → Clerk → Text → Option (Clerk × Text)
get fuel call ck key =
    let ck' = next_id ck in
    let args : GetArgs = record { key = key; id = ck'.id; me = ck'.client_id } in
    elim (retry (λ (r : GetReply). r.wrong_leader) fuel (call args) 0 ck') [
      | some (done, reply) ↦ some (done, reply.value)
      | none ↦ none
    ]

unfoldable pub put_append :
    ℕ
    → (PutAppendArgs → ℕ → ℕ → Option PutAppendReply)
    → Clerk
    → Text
    → Text
    → OpType
    → Option Clerk
put_append fuel call ck key value op =
    let ck' = next_id ck in
    let args : PutAppendArgs = record {
      key = key;
      value = value;
      op = op;
      id = ck'.id;
      me = ck'.client_id;
    } in
    elim (retry (λ (r : PutAppendReply). r.wrong_leader) fuel (call args) 0 ck') [
      | some (done, reply) ↦ some done
      | none ↦ none
    ]

unfoldable pub put :
    ℕ → (PutAppendArgs → ℕ → ℕ → Option PutAppendReply) → Clerk → Text → Text → Option Clerk
unfolding put_append
put fuel call ck key value = put_append fuel call ck key value put_op

unfoldable pub append :
    ℕ → (PutAppendArgs → ℕ → ℕ → Option PutAppendReply) → Clerk → Text → Text → Option Clerk
unfolding put_append
append fuel call ck key value = put_append fuel call ck key value append_op
