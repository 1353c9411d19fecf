-- ===== src/LabRpc/Calls/Cases.antt =====
-- src/labrpc/labrpc.go: every outcome of ClientEnd.Call, by what the network is at each moment.
use distributed_systems_labs.Base.{
  ℕ, ◌%◌, ◌≡◌, Option, ◌≤◌, ◌<◌, Run, ◌⊎◌, true, false, none, some, ok, Text,
}
use distributed_systems_labs.Raft.Types.{Codec}
use distributed_systems_labs.LabRpc.Network.{Network, is_enabled, server_name, server_at}
use distributed_systems_labs.LabRpc.Server.{Server}
use distributed_systems_labs.LabRpc.Calls.{Chance, World}
use distributed_systems_labs.LabRpc.Calls.Outcomes.{Serves, served}
use distributed_systems_labs.LabRpc.Calls.Fates.{StaysAlive, GoesAway}

module _ {W A R : Type 0} ⦃in' : Codec A⦄ ⦃out : Codec R⦄ (chance : Chance) (rn : Network)
    (endname : ℕ) (svc_meth : Text) (zero_value : A) (function : W → A → W × R) (a : A)
    (world : World W) where
  -- The end is enabled, and connected to server object `server`, which offers the method.
  pub record Reaches (name server : ℕ) (rs : Server W) : Type 0 where
    pub on : is_enabled rn endname ≡ true
    pub connected : server_name rn endname ≡ some name
    pub there : server_at rn name ≡ some server
    pub serves : Serves {R = R} world svc_meth zero_value function server rs

  -- What a call returns, with the world that it leaves.
  pub data Called : Run (World W × Option R) → Type 1 where
    unreached :
        (is_enabled rn endname ≡ false)
          ⊎ (server_name rn endname ≡ none)
          ⊎ ((name : ℕ) × (server_name rn endname ≡ some name) × (server_at rn name ≡ none))
        → Called (ok (world, none))
    request_dropped :
        (name server : ℕ) (rs : Server W)
        → Reaches name server rs
        → rn.reliable ≡ false
        → chance.drop_request % 1000 < 100
        → Called (ok (world, none))
    server_lost :
        (name server : ℕ) (rs : Server W)
        → Reaches name server rs
        → (rn.reliable ≡ true) ⊎ (100 ≤ chance.drop_request % 1000)
        → GoesAway chance endname name server
        → Called (ok (served {R = R} world server rs function a, none))
    reply_dropped :
        (name server : ℕ) (rs : Server W)
        → Reaches name server rs
        → 100 ≤ chance.drop_request % 1000
        → StaysAlive chance endname name server
        → rn.reliable ≡ false
        → chance.drop_reply % 1000 < 100
        → Called (ok (served {R = R} world server rs function a, none))
    replied :
        (name server : ℕ) (rs : Server W)
        → Reaches name server rs
        → (rn.reliable ≡ true) ⊎ (100 ≤ chance.drop_request % 1000)
        → StaysAlive chance endname name server
        → (rn.reliable ≡ true) ⊎ (100 ≤ chance.drop_reply % 1000)
        → Called (ok (served {R = R} world server rs function a, some (function world.state a).1))
