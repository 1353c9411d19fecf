-- ===== src/LabRpc/Tests.antt =====
-- The simulated network at a concrete call: one end, one server, and a method that adds.
use distributed_systems_labs.Base.{
  ℕ, ◌+◌, ◌≡◌, refl, true, Option, none, some, [], ◌∷◌, Text, ok, arith,
}
use distributed_systems_labs.Raft.Types.{Bytes, Codec}
use distributed_systems_labs.ShardMaster.Types.{find}
use distributed_systems_labs.LabRpc.Network.{
  Network, make_network, delete_server, is_enabled, server_name, server_at,
}
use distributed_systems_labs.LabRpc.Server.{Service, Server, typed_method, split_last_dot, entry}
use distributed_systems_labs.LabRpc.Calls.{Chance, World, call}
use distributed_systems_labs.LabRpc.Calls.Outcomes.{Serves, call-deleted}

instance abbrev number_codec : Codec ℕ
number_codec = record {
  encode = λ n. n ∷ [];
  decode = first;
  decode-encode = λ n. refl;
  encode_nonempty = λ n. omega arith;
}
  where
    first : Bytes → Option ℕ
    first [] = none
    first (n ∷ bytes) = some n

-- The method adds its argument to the state and replies with the sum.
abbrev add : ℕ → ℕ → ℕ × ℕ
add total n = (total + n, total + n)

abbrev counter_service : Service ℕ
counter_service = record { name = 67 ∷ []; methods = (65 ∷ [], typed_method 0 add) ∷ [] }

abbrev counter_server : Server ℕ
counter_server = record { services = (67 ∷ [], counter_service) ∷ []; count = 0 }

abbrev world : World ℕ
world = record { objects = counter_server ∷ []; state = 5 }

-- "C.A"
abbrev add_name : Text
add_name = 67 ∷ 46 ∷ 65 ∷ []

abbrev network : Network
network = record make_network {
  ends = (7, tt) ∷ [];
  enabled = (7, true) ∷ [];
  servers = (9, some 0) ∷ [];
  connections = (7, some 9) ∷ [];
}

abbrev smooth : Chance
smooth = record { drop_request = 0; drop_reply = 0; time_outs = []; last = network }

abbrev crashed : Chance
crashed = record smooth { last = delete_server network 9 }

add-Serves : Serves world add_name 0 add 0 counter_server
unfolding split_last_dot entry
add-Serves = record {
  service_name = 67 ∷ [];
  method_name = 65 ∷ [];
  service = counter_service;
  object = refl;
  named = refl;
  offered = refl;
  method = refl;
}

call-deleted_example :
    (after : World ℕ) × (call {A = ℕ} {R = ℕ} crashed network 7 add_name 3 world ≡ ok (after, none))
unfolding is_enabled server_name server_at find make_network
call-deleted_example =
    call-deleted crashed network 7 add_name 0 add 3 world refl refl refl add-Serves network refl
