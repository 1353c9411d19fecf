-- ===== src/LabRpc/Calls.antt =====
-- src/labrpc/labrpc.go: ClientEnd.Call with Network.ProcessReq, for one request. The numbers of
-- math/rand and the states of the network at the moments when ProcessReq looks at it are arguments;
-- the pauses, which pick no branch, are left out.
pub mod Outcomes
pub mod Fates
pub mod Cases
use distributed_systems_labs.Base.{
  ℕ, zero, suc, ◌+◌, ◌%◌, Bool, true, false, not, ◌&&◌, ◌||◌, Option, none, some, List, [], ◌∷◌,
  ◌++◌, ◌==◌, ltb, if◌then◌else◌, Run, ok, panic, ◌>>=◌, or_panic, Text, get_elem?, set,
}
use distributed_systems_labs.Raft.Types.{Bytes, Codec}
use distributed_systems_labs.LabRpc.Network.{Network, server_at, read_endname_info, is_server_dead}
use distributed_systems_labs.LabRpc.Server.{Server, ReplyMsg, refused, dispatch, get_count}

-- What the outside decides in one run of ProcessReq: the two random numbers that may drop a
-- message, the network at each time-out before the handler's reply, and the network at the end.
pub record Chance : Type 0 where
  pub drop_request : ℕ
  pub drop_reply : ℕ
  pub time_outs : List Network
  pub last : Network

-- The loop that waits for the reply: whether there is one before the server is found dead.
unfoldable pub wait_reply : List Network → ℕ → ℕ → ℕ → Bool
unfolding is_server_dead
wait_reply [] endname servername server = true
wait_reply (rn ∷ time_outs) endname servername server =
    if is_server_dead rn endname servername server
    then false
    else wait_reply time_outs endname servername server

-- What becomes of the handler's reply.
unfoldable pub send_reply : Chance → Bool → ℕ → ℕ → ℕ → ReplyMsg → ReplyMsg
unfolding wait_reply is_server_dead
send_reply chance reliable endname servername server reply =
    if not (wait_reply chance.time_outs endname servername server)
      || is_server_dead chance.last endname servername server
    then refused
    else if not reliable && ltb (chance.drop_reply % 1000) 100
    then refused
    else reply

-- The Server objects, by number, and the state of the receivers.
pub record World (W : Type 0) : Type 0 where
  pub objects : List (Server W)
  pub state : W

module _ {W : Type 0} where
  -- The goroutine that runs the handler, in the thread of the RPC.
  unfoldable pub run_handler : World W → ℕ → Text → Bytes → Run (World W × ReplyMsg)
  unfolding dispatch
  run_handler world server svc_meth args = do
    rs ← or_panic (get_elem? world.objects server)
    (served, after, reply) ← dispatch rs svc_meth args world.state
    ok (record { objects = set world.objects server served; state = after }, reply)

  unfoldable pub process_req :
      Chance → Network → ℕ → Text → Bytes → World W → Run (World W × ReplyMsg)
  unfolding read_endname_info run_handler send_reply
  process_req chance rn endname svc_meth args world =
      let info = read_endname_info rn endname in
      if info.enabled
      then (elim info.servername [
        | none ↦ ok (world, refused)
        | some servername ↦ (elim info.server [
          | none ↦ ok (world, refused)
          | some server ↦
              if not info.reliable && ltb (chance.drop_request % 1000) 100
              then ok (world, refused)
              else (run_handler world server svc_meth args >>= λ out.
                  ok (out.0, send_reply chance info.reliable endname servername server out.1))
        ])
      ])
      else ok (world, refused)

  -- ClientEnd.Call: the reply if it returns true. A reply that does not decode is fatal.
  unfoldable pub call :
      {A R : Type 0}
      → ⦃in' : Codec A⦄ → ⦃out : Codec R⦄ → Chance
      → Network
      → ℕ
      → Text
      → A
      → World W
      → Run (World W × Option R)
  unfolding process_req
  call ⦃in'⦄ ⦃out⦄ chance rn endname svc_meth args world = do
    (after, rep) ← process_req chance rn endname svc_meth (in'.encode args) world
    (if rep.is_ok
        then (or_panic (out.decode rep.reply) >>= λ reply. ok (after, some reply))
        else ok (after, none))

  -- Network.GetCount: a server that is not there is a nil pointer.
  unfoldable pub count_at : Network → World W → ℕ → Run ℕ
  unfolding server_at get_count
  count_at rn world servername = do
    server ← or_panic (server_at rn servername)
    rs ← or_panic (get_elem? world.objects server)
    ok (get_count rs)
