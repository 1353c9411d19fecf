-- ===== src/LabRpc/Network.antt =====
-- src/labrpc/labrpc.go: Network, whose methods run under rn.mu. The names of ends and servers are
-- numbers, a *Server is the number of its object, and nil is `none`.
use distributed_systems_labs.Base.{
  ℕ, Bool, true, false, not, ◌||◌, Option, none, some, List, [], ◌==◌, Run, ok, panic,
}
use distributed_systems_labs.ShardMaster.Types.{find, put}

pub record Network : Type 0 where
  pub reliable : Bool
  pub long_delays : Bool
  pub long_reordering : Bool
  pub ends : List (ℕ × Unit {0})
  pub enabled : List (ℕ × Bool)
  pub servers : List (ℕ × Option ℕ)
  pub connections : List (ℕ × Option ℕ)

unfoldable pub make_network : Network
make_network = record {
  reliable = true;
  long_delays = false;
  long_reordering = false;
  ends = [];
  enabled = [];
  servers = [];
  connections = [];
}

unfoldable pub set_reliable : Network → Bool → Network
set_reliable rn on = record rn { reliable = on }

unfoldable pub set_long_reordering : Network → Bool → Network
set_long_reordering rn on = record rn { long_reordering = on }

unfoldable pub set_long_delays : Network → Bool → Network
set_long_delays rn on = record rn { long_delays = on }

-- rn.enabled[endname], which is false for a name without an entry.
unfoldable pub is_enabled : Network → ℕ → Bool
unfolding find
is_enabled rn endname = elim (find endname rn.enabled) [ none ↦ false | some on ↦ on ]

-- rn.connections[endname], which is nil for a name without an entry.
unfoldable pub server_name : Network → ℕ → Option ℕ
unfolding find
server_name rn endname = elim (find endname rn.connections) [ none ↦ none | some name ↦ name ]

-- rn.servers[servername], which is nil for a name without an entry.
unfoldable pub server_at : Network → ℕ → Option ℕ
unfolding find
server_at rn servername = elim (find servername rn.servers) [ none ↦ none | some server ↦ server ]

pub record EndnameInfo : Type 0 where
  pub enabled : Bool
  pub servername : Option ℕ
  pub server : Option ℕ
  pub reliable : Bool
  pub long_reordering : Bool

unfoldable pub read_endname_info : Network → ℕ → EndnameInfo
unfolding is_enabled server_name server_at
read_endname_info rn endname = record {
  enabled = is_enabled rn endname;
  servername = server_name rn endname;
  server = elim (server_name rn endname) [ none ↦ none | some name ↦ server_at rn name ];
  reliable = rn.reliable;
  long_reordering = rn.long_reordering;
}

-- Whether a *Server that may be nil is the server with this object.
abbrev pub is_server : Option ℕ → ℕ → Bool
is_server none server = false
is_server (some s) server = s == server

unfoldable pub is_server_dead : Network → ℕ → ℕ → ℕ → Bool
unfolding is_enabled server_at
is_server_dead rn endname servername server =
    not (is_enabled rn endname) || not (is_server (server_at rn servername) server)

-- A name that has been taken is fatal.
unfoldable pub make_end : Network → ℕ → Run Network
unfolding find put
make_end rn endname = elim (find endname rn.ends) [
  | some taken ↦ panic
  | none ↦ ok (record rn {
    ends = put endname tt rn.ends;
    enabled = put endname false rn.enabled;
    connections = put endname none rn.connections;
  })
]

unfoldable pub add_server : Network → ℕ → ℕ → Network
unfolding put
add_server rn servername server = record rn { servers = put servername (some server) rn.servers }

unfoldable pub delete_server : Network → ℕ → Network
unfolding put
delete_server rn servername = record rn { servers = put servername none rn.servers }

unfoldable pub connect : Network → ℕ → ℕ → Network
unfolding put
connect rn endname servername = record rn {
  connections = put endname (some servername) rn.connections;
}

unfoldable pub enable : Network → ℕ → Bool → Network
unfolding put
enable rn endname enabled = record rn { enabled = put endname enabled rn.enabled }
