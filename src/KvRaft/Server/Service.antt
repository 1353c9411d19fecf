-- ===== src/KvRaft/Server/Service.antt =====
-- The key/value service of src/kvraft/server.go apart from logs, channels and snapshots: a map, and
-- the number of the last operation of each client.
use distributed_systems_labs.Base.{
  ℕ, ◌≡◌, refl, sym, ◌∙◌, inl, inr, Bool, true, false, ◌||◌, not, Option, none, some, List, [], ◌∷◌,
  ◌++◌, ltb, ◌==◌, if◌then◌else◌, Bool-cases, Option-cases,
}
use distributed_systems_labs.ShardMaster.Types.{find, put}
use distributed_systems_labs.ShardMaster.Maps.{find-put}
use distributed_systems_labs.KvRaft.Types.{
  Text, same_text, OpType, put_op, append_op, get_op, other_op, Op, lookup, RaftKv,
}
use distributed_systems_labs.KvRaft.Server.{
  or_empty, handle_put_append, handle_get, apply_write, is_get, execute,
}
use distributed_systems_labs.KvRaft.Server.Reads.{lookup-write}

pub record Service : Type 0 where
  pub read : Text → Option Text
  pub latest : ℕ → Option ℕ

-- The new contents of the key of an operation, if it writes.
abbrev pub new_value : Service → Op → OpType → Option Text
new_value s op put_op = some op.value
new_value s op append_op = some (or_empty (s.read op.key) ++ op.value)
new_value s op get_op = none
new_value s op (other_op name) = none

abbrev written : Service → Text → Option Text → Text → Option Text
written s key (some v) k = if same_text key k then some v else s.read k
written s key none k = s.read k

abbrev pub is_fresh : Option ℕ → ℕ → Bool
is_fresh none id = true
is_fresh (some last_idx) id = ltb last_idx id

-- An operation of a client, executed unless it is a read or one with its number or a later one was.
abbrev pub serve : Service → Op → Service
serve s op = if is_get op.type' || not (is_fresh (s.latest op.me) op.req_id) then s else record {
  read = written s op.key (new_value s op op.type');
  latest = λ c. if op.me == c then some op.req_id else s.latest c;
}

abbrev pub serve_all : Service → List (ℕ × Op) → Service
serve_all s [] = s
serve_all s ((idx, op) ∷ ops) = serve_all (serve s op) ops

-- The server's maps are the service's.
pub record Implements (kv : RaftKv) (s : Service) : Type 0 where
  pub reads : (k : Text) → lookup k kv.store ≡ s.read k
  pub numbers : (c : ℕ) → find c kv.last_applied ≡ s.latest c

-- The write of an operation, on a store that agrees with the service.
handle_put_append-written :
    (kv : RaftKv) (s : Service) (op : Op)
    → ((k : Text) → lookup k kv.store ≡ s.read k)
    → (k : Text)
    → lookup k (handle_put_append kv op).store ≡ written s op.key (new_value s op op.type') k
unfolding handle_put_append
handle_put_append-written kv s op reads k = by_type op.type' refl
  where
    by_type :
        (t : OpType)
        → op.type' ≡ t
        → lookup k (handle_put_append kv op).store ≡ written s op.key (new_value s op op.type') k
    by_type put_op e =
        simp (e, handle_put_append) (lookup-write op.key op.value k kv.store ∙ rw (reads k) refl)
    by_type append_op e =
        simp (e, handle_put_append)
          (rw (reads op.key) (
            lookup-write op.key (or_empty (s.read op.key) ++ op.value) k kv.store
            ∙ rw (reads k) refl))
    by_type get_op e = simp (e, handle_put_append) (reads k)
    by_type (other_op name) e = simp (e, handle_put_append) (reads k)

-- It writes nothing but the store.
handle_put_append-rest :
    (kv : RaftKv) (op : Op)
    → ((handle_put_append kv op).last_applied ≡ kv.last_applied)
      × ((handle_put_append kv op).rf ≡ kv.rf)
unfolding handle_put_append
handle_put_append-rest kv op = by_type op.type' refl
  where
    by_type :
        (t : OpType)
        → op.type' ≡ t
        → ((handle_put_append kv op).last_applied ≡ kv.last_applied)
          × ((handle_put_append kv op).rf ≡ kv.rf)
    by_type put_op e = simp (e, handle_put_append) (refl, refl)
    by_type append_op e = simp (e, handle_put_append) (refl, refl)
    by_type get_op e = simp (e, handle_put_append) (refl, refl)
    by_type (other_op name) e = simp (e, handle_put_append) (refl, refl)

module _ (kv : RaftKv) (s : Service) (op : Op) (i : Implements kv s) where
  abbrev numbered : RaftKv
  numbered = record kv { last_applied = put op.me op.req_id kv.last_applied }

  done-Implements :
      (idx : ℕ)
      → Implements
          (record (handle_put_append numbered op) { last_included_index = idx })
          (record {
            read = written s op.key (new_value s op op.type');
            latest = λ c. if op.me == c then some op.req_id else s.latest c;
          })
  done-Implements idx = record {
    reads = handle_put_append-written numbered s op i.reads;
    numbers = λ c.
        rw ((handle_put_append-rest numbered op).0)
          (find-put op.me op.req_id c kv.last_applied ∙ rw (i.numbers c) refl);
  }

  apply_write-Implements :
      (idx : ℕ)
      → is_get op.type' ≡ false
      → Implements (apply_write kv idx op) (serve s op) × ((apply_write kv idx op).rf ≡ kv.rf)
  unfolding apply_write
  apply_write-Implements idx writes = elim (Option-cases (find op.me kv.last_applied)) [
    | inl first ↦
        rw (writes, sym (i.numbers op.me), first, apply_write)
          (done-Implements idx, (handle_put_append-rest numbered op).1)
    | inr (last_idx, at) ↦ elim (Bool-cases (ltb last_idx op.req_id)) [
      | inl later ↦
          rw (writes, sym (i.numbers op.me), at, later, apply_write)
            (done-Implements idx, (handle_put_append-rest numbered op).1)
      | inr old ↦ rw (writes, sym (i.numbers op.me), at, old, apply_write) (i, refl)
    ]
  ]

  -- The answer to a read is the value of its key; a missing key leaves the operation as it was.
  abbrev pub Answers : Op → Type 0
  Answers answer = answer ≡ (
      if is_get op.type'
      then elim (s.read op.key) [ some v ↦ record op { value = v } | none ↦ op ]
      else op)

  pub execute-Implements :
      (idx : ℕ)
      → Implements (execute kv idx op).0 (serve s op)
        × ((execute kv idx op).0.rf ≡ kv.rf)
        × Answers (execute kv idx op).1
  unfolding execute handle_get
  execute-Implements idx = elim (Bool-cases (is_get op.type')) [
    | inl reads ↦ rw reads (i, refl, rw (sym (i.reads op.key), handle_get) refl)
    | inr writes ↦
        let (j, same) = apply_write-Implements idx writes in rw writes (rw writes at j, same, refl)
  ]
