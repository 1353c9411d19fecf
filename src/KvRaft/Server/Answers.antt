-- ===== src/KvRaft/Server/Answers.antt =====
-- src/kvraft/server.go: a waiting Get handler, and the round of ApplyRoutine that applies its operation.
use distributed_systems_labs.Base.{
  ℕ, ◌≡◌, refl, ap, ◌∙◌, inl, inr, Bool, true, false, ◌&&◌, not, Bool-cases, Option, none, some,
  List, [], ◌∷◌, arith, ◌==◌, if◌then◌else◌, Option-cases, ok, Returns, returns, Returns-bind,
  Returns-if,
}
use distributed_systems_labs.Raft.Types.{Codec, committed, Persisted, InBounds}
use distributed_systems_labs.ShardMaster.Types.{find, remove}
use distributed_systems_labs.KvRaft.Types.{
  same_text, get_op, Op, lookup, SnapshotData, RaftKv, no_error, err_wrong_leader,
}
use distributed_systems_labs.ShardMaster.Maps.{find-remove}
use distributed_systems_labs.KvRaft.Server.{
  or_empty, is_get, execute, handle_get, offer, send_snapshot, is_due, apply_msg, same_type,
  is_same_op, await_applied, get_reply,
}
use distributed_systems_labs.KvRaft.Server.Reads.{same_text_refl}
use distributed_systems_labs.KvRaft.Server.Service.{Service}
use distributed_systems_labs.KvRaft.Server.Refinement.{Serves, snapshot-InBounds}

find-offer :
    (idx : ℕ) (op : Op) (m : List (ℕ × Option Op))
    → find idx m ≡ some none
    → find idx (offer idx op m) ≡ some (some op)
unfolding find offer
find-offer idx op [] h = cc
find-offer idx op ((j, none) ∷ m) h = ground (arith, find-offer idx op m)
find-offer idx op ((j, some a) ∷ m) h = ground (arith, find-offer idx op m)

-- The operation that handleGet gives back is the one that was submitted, with the value of the key.
handle_get-value :
    (kv : RaftKv) (op : Op)
    → op.type' ≡ get_op
    → op.value ≡ []
    → (is_same_op op (handle_get kv op) ≡ true)
      × ((handle_get kv op).value ≡ or_empty (lookup op.key kv.store))
unfolding handle_get is_same_op
handle_get-value kv op e v = elim (Option-cases (lookup op.key kv.store)) [
  | inl missing ↦ rw (missing, handle_get) (same, v)
  | inr (val, at) ↦ rw (at, handle_get) (same, refl)
]
  where
    same :
        (same_type op.type' op.type'
          && (same_text op.key op.key && ((op.req_id == op.req_id) && (op.me == op.me))))
        ≡ true
    same = rw (e, same_text_refl op.key) (ground arith)

module _ ⦃gob : Codec (Persisted Op)⦄ ⦃data_gob : Codec SnapshotData⦄ where
  -- The handler, whose channel has a buffer, ends its wait and gives up the channel. It succeeds
  -- if the timer has not fired; if it succeeds it replies with the service's value of the key, and
  -- if it fails, which asks for the timer, with the error.
  pub record GetAnswered (s : Service) (op : Op) (idx : ℕ) (timed_out picks_channel : Bool)
      (after : RaftKv) : Type 0 where
    pub buffer : Option Op
    pub channel : find idx after.results ≡ some buffer
    pub last : RaftKv
    pub success : Bool
    pub result : Op
    pub waited :
        await_applied after idx op buffer timed_out picks_channel ≡ some (last, success, result)
    pub given_up : find idx last.results ≡ none
    pub in_time : timed_out ≡ false → success ≡ true
    pub replied :
        success ≡ true
        → get_reply success result
          ≡ record { wrong_leader = false; err = no_error; value = or_empty (s.read op.key) }
    pub failed :
        success ≡ false
        → get_reply success result
          ≡ record { wrong_leader = true; err = err_wrong_leader; value = [] }

  answered :
      (s : Service) (op answer : Op) (idx : ℕ) (timed_out picks_channel : Bool) (after : RaftKv)
      → find idx after.results ≡ some (some answer)
      → is_same_op op answer ≡ true
      → answer.value ≡ or_empty (s.read op.key)
      → GetAnswered s op idx timed_out picks_channel after
  unfolding await_applied get_reply
  answered s op answer idx timed_out picks_channel after channel same value =
      elim (Bool-cases (timed_out && not picks_channel)) [
        | inl late ↦ record {
          buffer = some answer;
          channel = channel;
          last = record after { results = remove idx after.results };
          success = false;
          result = op;
          waited = rw (late, await_applied) refl;
          given_up = removed;
          in_time = λ e. absurd (ground arith);
          replied = λ e. absurd cc;
          failed = λ e. refl;
        }
        | inr ready ↦ record {
          buffer = some answer;
          channel = channel;
          last = record after { results = remove idx after.results };
          success = true;
          result = answer;
          waited = rw (ready, await_applied, same) refl;
          given_up = removed;
          in_time = λ e. refl;
          replied = λ e. rw value refl;
          failed = λ e. absurd cc;
        }
      ]
    where
      removed : find idx (remove idx after.results) ≡ none
      removed = ground (arith, find-remove idx idx after.results)

  kept-results :
      (kv : RaftKv) (idx : ℕ)
      → InBounds kv.rf
      → Returns
          (λ kept. kept.results ≡ kv.results)
          (if is_due kv then send_snapshot kv idx else ok kv)
  unfolding send_snapshot
  kept-results kv idx b =
      Returns-if (is_due kv)
        (λ due. Returns-bind (snapshot-InBounds kv.rf idx _ b) λ rf b'. returns refl)
        (λ not_due. returns refl)

  -- Let a server hold the maps of the service, the indices of its Raft peer be in order, a Get
  -- handler wait at an index with an empty channel, and its operation, submitted with an empty
  -- value, be committed there. The round of ApplyRoutine returns and leaves an operation in the
  -- channel, so that the handler ends its wait, whether the timer has fired or not and whichever
  -- ready case the select then takes, and removes the channel. If the timer has not fired it
  -- succeeds; if it succeeds it replies OK with the value that the service has at the key, or the
  -- empty string if it has none; otherwise it replies ErrWrongLeader.
  pub get-GetAnswered :
      (kv : RaftKv) (s : Service) (idx : ℕ) (op : Op) (timed_out picks_channel : Bool)
      → Serves s kv
      → op.type' ≡ get_op
      → op.value ≡ []
      → find idx kv.results ≡ some none
      → Returns (GetAnswered s op idx timed_out picks_channel) (apply_msg kv (committed idx op))
  unfolding apply_msg execute
  get-GetAnswered kv s idx op timed_out picks_channel v e empty waiting =
      let q : is_get op.type' ≡ true = ap is_get e in
      let (same, value) = handle_get-value kv op e empty in
      rw q (
        Returns-bind (kept-results kv idx v.ordered) λ kept r. returns (
          answered s op (handle_get kv op) idx timed_out picks_channel _
            (find-offer idx (handle_get kv op) kept.results (rw r waiting)) same
            (value ∙ ap or_empty (v.implements.reads op.key))))
