-- ===== src/Raft/Persist.antt =====
-- src/raft/persister.go, and persist, readPersist and Make of src/raft/raft.go.

use distributed_systems_labs.Base.{ℕ, false, none, some, [], length, replicate, ◌==◌, if◌then◌else◌}
use distributed_systems_labs.Raft.Types.{
  Bytes, Codec, Persister, Raft, Persisted, ApplyMsg, snapshot_msg, follower,
}

unfoldable pub make_persister : Persister
make_persister = record { raftstate = []; snapshot = [] }

unfoldable pub save_raft_state : Persister → Bytes → Persister
save_raft_state ps state = record ps { raftstate = state }

unfoldable pub save_snapshot : Persister → Bytes → Persister
save_snapshot ps snap = record ps { snapshot = snap }

unfoldable pub raft_state_size : Persister → ℕ
raft_state_size ps = length ps.raftstate

module _ {C : Type 0} where
  abbrev pub persisted : Raft C → Persisted C
  persisted rf = record {
    voted_for = rf.voted_for;
    current_term = rf.current_term;
    log = rf.log;
    last_included_index = rf.last_included_index;
    last_included_term = rf.last_included_term;
  }

  abbrev pub restore : Raft C → Persisted C → Raft C
  restore rf p = record rf {
    voted_for = p.voted_for;
    current_term = p.current_term;
    log = p.log;
    last_included_index = p.last_included_index;
    last_included_term = p.last_included_term;
  }

  -- The fields as Make sets them before readPersist.
  abbrev pub blank : ℕ → ℕ → Persister → Raft C
  blank peers me persister = record {
    peers = peers;
    me = me;
    persister = persister;
    dead = false;
    current_term = 0;
    voted_for = none;
    log = [];
    commit_index = 0;
    last_applied = 0;
    last_included_index = 0;
    last_included_term = 0;
    server_state = follower;
    next_index = replicate peers 0;
    match_index = replicate peers 0;
    election_deadline = none;
    votes_received = 0;
  }

module _ {C : Type 0} ⦃gob : Codec (Persisted C)⦄ where
  unfoldable pub persist : Raft C → Raft C
  unfolding save_raft_state
  persist rf = record rf { persister = save_raft_state rf.persister (gob.encode (persisted rf)) }

  unfoldable pub read_persist : Raft C → Bytes → Raft C
  read_persist rf state =
      if length state == 0
      then rf
      else elim (gob.decode state) [ none ↦ rf | some p ↦ restore rf p ]

  -- Make, with the message that it sends on applyCh before the goroutines start.
  unfoldable pub make : ℕ → ℕ → Persister → Raft C × ApplyMsg C
  unfolding read_persist
  make peers me persister =
      let r = read_persist (blank peers me persister) persister.raftstate in
      let rf = record r {
        last_applied = r.last_included_index;
        commit_index = r.last_included_index;
      } in
      (rf, snapshot_msg rf.last_applied persister.snapshot)
