-- ===== src/Raft/Types.antt =====
-- src/raft/raft.go and src/raft/persister.go: the data of a Raft peer and the RPC messages.
-- The command type `C` is the `interface{}` of LogEntry; a byte slice is a list of numbers.
-- -1 for "none" (votedFor, XTerm) is `none`; the zero time.Time of electionDeadline is `none`.
use distributed_systems_labs.Base.{ℕ, ◌+◌, ◌%◌, ◌≤◌, ◌<◌, ◌≡◌, Bool, Option, List, some, length}

abbrev pub Bytes : Type 0
Bytes = List ℕ

-- encoding/gob for one type of value: what is written can be read back, and is not empty.
pub record Codec (A : Type 0) : Type 0 where
  pub encode : A → Bytes
  pub decode : Bytes → Option A
  pub decode-encode : (a : A) → decode (encode a) ≡ some a
  pub encode_nonempty : (a : A) → 0 < length (encode a)

-- The time at which a handler reads time.Now(), in milliseconds, and the number that rand.Int63 gives.
pub record Clock : Type 0 where
  pub now : ℕ
  pub rand : ℕ

unfoldable pub random_election_timeout : ℕ → ℕ
random_election_timeout r = 250 + r % 300

-- time.Now().Add(time.Duration(randomElectionTimeout()) * time.Millisecond)
abbrev pub deadline : Clock → ℕ
deadline t = t.now + random_election_timeout t.rand

pub data ServerState : Type 0 where
  follower leader candidate : ServerState

pub record LogEntry (C : Type 0) : Type 0 where
  pub term : ℕ
  pub index : ℕ
  pub command : C

pub data ApplyMsg (C : Type 0) : Type 0 where
  committed : (index : ℕ) → C → ApplyMsg C
  snapshot_msg : (index : ℕ) → Bytes → ApplyMsg C

pub record Persister : Type 0 where
  pub raftstate : Bytes
  pub snapshot : Bytes

pub record Raft (C : Type 0) : Type 0 where
  pub peers : ℕ
  pub me : ℕ
  pub persister : Persister
  pub dead : Bool
  pub current_term : ℕ
  pub voted_for : Option ℕ
  pub log : List (LogEntry C)
  pub commit_index : ℕ
  pub last_applied : ℕ
  pub last_included_index : ℕ
  pub last_included_term : ℕ
  pub server_state : ServerState
  pub next_index : List ℕ
  pub match_index : List ℕ
  pub election_deadline : Option ℕ
  pub votes_received : ℕ

pub record RequestVoteArgs : Type 0 where
  pub term : ℕ
  pub candidate_id : ℕ
  pub last_log_index : ℕ
  pub last_log_term : ℕ

pub record RequestVoteReply : Type 0 where
  pub term : ℕ
  pub vote_granted : Bool

-- The field Log of the source is never written or read, and is left out.
pub record AppendEntriesArgs (C : Type 0) : Type 0 where
  pub term : ℕ
  pub prev_log_index : ℕ
  pub prev_log_term : ℕ
  pub entries : List (LogEntry C)
  pub leader_commit : ℕ

pub record AppendEntriesReply : Type 0 where
  pub term : ℕ
  pub success : Bool
  pub x_term : Option ℕ
  pub x_index : ℕ
  pub x_len : ℕ

pub record InstallSnapshotArgs : Type 0 where
  pub term : ℕ
  pub leader_id : ℕ
  pub last_included_index : ℕ
  pub last_included_term : ℕ
  pub snapshot : Bytes

pub record InstallSnapshotReply : Type 0 where
  pub term : ℕ

-- What `persist` writes, in the order of the source.
pub record Persisted (C : Type 0) : Type 0 where
  pub voted_for : Option ℕ
  pub current_term : ℕ
  pub log : List (LogEntry C)
  pub last_included_index : ℕ
  pub last_included_term : ℕ

-- lastLogIndex and lastLogTerm.
module _ {C : Type 0} where
  abbrev pub last_log_index : Raft C → ℕ
  last_log_index rf = rf.last_included_index + length rf.log

  -- The indices of a peer are in order, and its slices have an entry for each peer.
  pub record InBounds (rf : Raft C) : Type 0 where
    pub compacted : rf.last_included_index ≤ rf.last_applied
    pub applied : rf.last_applied ≤ rf.commit_index
    pub committed : rf.commit_index ≤ last_log_index rf
    pub nexts : length rf.next_index ≡ rf.peers
    pub matches : length rf.match_index ≡ rf.peers
    pub member : rf.me < rf.peers
