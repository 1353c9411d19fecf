-- ===== src/KvRaft/Tests.antt =====
-- Runs of the key/value server's model and of the clerk.
use distributed_systems_labs.KvRaft.Server.Answers.{GetAnswered, get-GetAnswered}
use distributed_systems_labs.KvRaft.Server.{apply_msg, get_request}
use distributed_systems_labs.Raft.Types.{committed}
use distributed_systems_labs.Base.{
  ℕ, zero, suc, ◌+◌, ◌-◌, ◌*◌, ◌/◌, ◌%◌, ◌^◌, ◌≤◌, ◌<◌, min, ◌≡◌, refl, sym, ap, ◌∙◌, ◌≢◌, ◌↔◌, ◌⊎◌,
  inl, inr, Bool, true, false, ◌&&◌, ◌||◌, not, Option, none, some, List, [], ◌∷◌, ◌++◌, map, arith,
  ltb, leb, ◌==◌, if◌then◌else◌, ltb→lt, lt→ltb, le→ltb, lt→leb, ltb→le, leb→le, leb→lt, ==→eq,
  ==→ne, Bool-cases, Option-cases, le_suc-cases, length, get_elem?, set, take, drop, replicate,
  length-append, length-set, length-take, length-drop, length-replicate, get_elem?_total,
  get_elem?_bound, get_elem?-none, get_elem?-set, get_elem?-append_left, get_elem?-append_right,
  get_elem?-take, get_elem?-drop, take_all, length_zero, take-suc, Run, ok, panic, ◌>>=◌, or_panic,
  Returns, returns, Returns-bind, Returns-map, Returns-if, Returns-inv, Returns-eq, Yields,
  Yields-bind, Yields-then, Yields-if, Yields-eq, Yields-map, Returns-Yields, one, occ, elem,
  count_in, sum_over, IsDistinct, insert, sort, occ-append, occ-sort, length-sort, elem→occ,
  occ→elem, elem-false, elem-of_occ, occ-set, count_in-set, count_in-le, sum_over-add, sum_over-occ,
}
use distributed_systems_labs.Raft.Types.{
  Bytes, Codec, Raft, ApplyMsg, committed, snapshot_msg, Persisted, InBounds,
}
use distributed_systems_labs.Raft.Persist.{blank, make_persister}
use distributed_systems_labs.ShardMaster.Types.{find}
use distributed_systems_labs.KvRaft.Types.{
  Text, OpType, put_op, append_op, get_op, other_op, Op, SnapshotData, RaftKv, lookup, Store,
  same_text, write, GetReply,
}
use distributed_systems_labs.KvRaft.Server.{apply_all, snapshot_data}
use distributed_systems_labs.KvRaft.Server.Service.{Service, serve, serve_all, Implements}
use distributed_systems_labs.KvRaft.Server.Refinement.{
  commits, Serves, apply_all-Serves, install-Serves,
}
use distributed_systems_labs.KvRaft.Tests.Wire.{op_codec, data_codec}
mod Wire
use distributed_systems_labs.KvRaft.Client.{Clerk, accepts, retry}
use distributed_systems_labs.KvRaft.Client.Rotation.{Found, retry-Found}

abbrev silent : Service
silent = record { read = λ k. none; latest = λ c. none }

abbrev kv_start : RaftKv
kv_start = record {
  me = 0;
  rf = record (blank 3 0 make_persister) {
    next_index = 1 ∷ 1 ∷ 1 ∷ [];
    match_index = 0 ∷ 0 ∷ 0 ∷ [];
  };
  max_raft_state = 0;
  results = [];
  store = [];
  last_applied = [];
  last_included_index = 0;
}

start-InBounds : InBounds kv_start.rf
unfolding make_persister
start-InBounds = record {
  compacted = omega arith;
  applied = omega arith;
  committed = omega arith;
  nexts = refl;
  matches = refl;
  member = omega arith;
}

start-Implements : Implements kv_start silent
unfolding find lookup
start-Implements = record { reads = λ k. refl; numbers = λ c. refl }

abbrev clerk : Clerk
clerk = record { servers = 3; leader = 0; client_id = 77; id = 1 }

-- Server 2 answers; the others are not the leader.
abbrev reply_of : ℕ → ℕ → Option Bool
reply_of attempt server = some (not (server == 2))

retry-Found_example : Found (λ b. b) reply_of 2 clerk (retry (λ b. b) 3 reply_of 0 clerk)
retry-Found_example =
    retry-Found (λ b. b) reply_of 2 3 clerk (omega arith) (omega arith) (omega arith) (λ k e. cc)

abbrev putting : Op
putting = record { type' = put_op; req_id = 1; me = 77; key = 1 ∷ []; value = 5 ∷ [] }

abbrev appending : Op
appending = record { type' = append_op; req_id = 2; me = 77; key = 1 ∷ []; value = 6 ∷ [] }

-- An append that is committed twice.
abbrev operations : List (ℕ × Op)
operations = (1, putting) ∷ (2, appending) ∷ (3, appending) ∷ []

apply_all-Serves_example :
    Returns (Serves (serve_all silent operations)) (apply_all kv_start (commits operations))
apply_all-Serves_example =
    apply_all-Serves operations kv_start silent
      (record { implements = start-Implements; ordered = start-InBounds })

-- The state of another server after the first operation.
abbrev ahead : RaftKv
ahead = record kv_start {
  store = (1 ∷ [], 5 ∷ []) ∷ [];
  last_applied = (77, 1) ∷ [];
  last_included_index = 1;
}

ahead-Implements : Implements ahead (serve silent putting)
unfolding find lookup
ahead-Implements = record { reads = λ k. refl; numbers = λ c. refl }

install-Serves_example : Returns (Serves (serve_all (serve silent putting) ((2, appending) ∷ []))) (
    apply_all kv_start
      (snapshot_msg 1 (data_codec.encode (snapshot_data ahead)) ∷ commits ((2, appending) ∷ [])))
install-Serves_example =
    install-Serves ((2, appending) ∷ []) kv_start ahead (serve silent putting) ahead-Implements
      start-InBounds (omega arith)

abbrev reading : Op
reading = get_request (record { key = 1 ∷ []; id = 3; me = 77 })

-- The server with a Get handler that waits at index 2.
abbrev waiting : RaftKv
waiting = record ahead { results = (2, none) ∷ [] }

waiting-Implements : Implements waiting (serve silent putting)
unfolding find lookup
waiting-Implements = record { reads = λ k. refl; numbers = λ c. refl }

get-GetAnswered_example :
    Returns
      (GetAnswered (serve silent putting) reading 2 false true)
      (apply_msg waiting (committed 2 reading))
unfolding find
get-GetAnswered_example =
    get-GetAnswered waiting (serve silent putting) 2 reading false true
      (record { implements = waiting-Implements; ordered = start-InBounds }) refl refl refl
