-- ===== src/LabRpc/Calls/Outcomes.antt =====
-- What a call returns, and what it does at the server.
use distributed_systems_labs.Base.{
  ℕ, ◌+◌, ◌%◌, ◌≡◌, refl, ◌∙◌, ◌⊎◌, inl, inr, Bool, true, false, not, ◌&&◌, ◌||◌, none, some, ◌==◌,
  ltb, if◌then◌else◌, ok, Text, get_elem?, set, arith, Bool-cases,
}
use distributed_systems_labs.Raft.Types.{Codec}
use distributed_systems_labs.ShardMaster.Types.{find, put}
use distributed_systems_labs.ShardMaster.Maps.{find-put}
use distributed_systems_labs.LabRpc.Network.{
  Network, is_enabled, server_name, server_at, read_endname_info, is_server_dead, delete_server,
}
use distributed_systems_labs.LabRpc.Server.{
  Service, Server, ReplyMsg, refused, typed_method, split_last_dot, entry, dispatch_method,
  dispatch,
}
use distributed_systems_labs.LabRpc.Calls.{
  Chance, World, wait_reply, send_reply, run_handler, process_req, call,
}

info-server :
    (rn : Network) (endname : ℕ) {name : ℕ}
    → server_name rn endname ≡ some name
    → (read_endname_info rn endname).server ≡ server_at rn name
unfolding read_endname_info
info-server rn endname connected = rw (connected, read_endname_info) refl

info-enabled :
    (rn : Network) (endname : ℕ) → (read_endname_info rn endname).enabled ≡ is_enabled rn endname
unfolding read_endname_info
info-enabled rn endname = refl

info-servername :
    (rn : Network) (endname : ℕ)
    → (read_endname_info rn endname).servername ≡ server_name rn endname
unfolding read_endname_info
info-servername rn endname = refl

info-reliable : (rn : Network) (endname : ℕ) → (read_endname_info rn endname).reliable ≡ rn.reliable
unfolding read_endname_info
info-reliable rn endname = refl

-- Whether the handler's reply gets to the caller.
unfoldable pub delivered : Chance → Bool → ℕ → ℕ → ℕ → Bool
unfolding wait_reply is_server_dead
delivered chance reliable endname servername server =
    if not (wait_reply chance.time_outs endname servername server)
      || is_server_dead chance.last endname servername server
    then false
    else not (not reliable && ltb (chance.drop_reply % 1000) 100)

send_reply-delivered :
    (chance : Chance) (reliable : Bool) (endname servername server : ℕ) (reply : ReplyMsg)
    → send_reply chance reliable endname servername server reply
      ≡ (if delivered chance reliable endname servername server then reply else refused)
unfolding send_reply delivered
send_reply-delivered chance reliable endname servername server reply =
    elim (Bool-cases (
      not (wait_reply chance.time_outs endname servername server)
      || is_server_dead chance.last endname servername server)) [
        | inl gone ↦ rw gone refl
        | inr there ↦
            rw there (elim (Bool-cases (not reliable && ltb (chance.drop_reply % 1000) 100)) [
              | inl dropped ↦ rw dropped refl
              | inr kept' ↦ rw kept' refl
            ])
      ]

deleted-gone : (rn : Network) (name : ℕ) → server_at (delete_server rn name) name ≡ none
unfolding server_at delete_server
deleted-gone rn name =
    let self : (name == name) ≡ true = ground arith in
    let found : find name (put name none rn.servers) ≡ some none =
      find-put name none name rn.servers ∙ rw self refl in
    rw (found, server_at) refl

deleted-dead :
    (rn : Network) (endname name server : ℕ)
    → is_server_dead (delete_server rn name) endname name server ≡ true
unfolding is_server_dead
deleted-dead rn endname name server = rw (deleted-gone rn name, is_server_dead) (ground arith)

deleted-delivered :
    (chance : Chance) (reliable : Bool) (endname name server : ℕ) (later : Network)
    → chance.last ≡ delete_server later name
    → delivered chance reliable endname name server ≡ false
unfolding delivered
deleted-delivered chance reliable endname name server later e =
    let dead : is_server_dead chance.last endname name server ≡ true =
      rw e (deleted-dead later endname name server) in
    rw dead (ground arith)

module _ {W A R : Type 0} ⦃in' : Codec A⦄ ⦃out : Codec R⦄ where
  -- Server object `server` has the method `function` under the name `svc_meth`.
  pub record Serves (world : World W) (svc_meth : Text) (zero_value : A) (function : W → A → W × R)
      (server : ℕ) (rs : Server W) : Type 0 where
    pub service_name : Text
    pub method_name : Text
    pub service : Service W
    pub object : get_elem? world.objects server ≡ some rs
    pub named : split_last_dot svc_meth ≡ some (service_name, method_name)
    pub offered : entry service_name rs.services ≡ some service
    pub method : entry method_name service.methods ≡ some (typed_method zero_value function)

  -- The world after `function` has run for a call with these arguments.
  unfoldable pub served : World W → ℕ → Server W → (W → A → W × R) → A → World W
  served world server rs function a = record {
    objects = set world.objects server (record rs { count = rs.count + 1 });
    state = (function world.state a).0;
  }

  dispatch_method-served :
      (world : World W) (svc_meth : Text) (zero_value : A) (function : W → A → W × R) (server : ℕ)
      (a : A) {rs : Server W} (s : Serves world svc_meth zero_value function server rs)
      → dispatch_method s.service s.method_name (in'.encode a) world.state
        ≡ ok (
          (function world.state a).0,
          record { is_ok = true; reply = out.encode (function world.state a).1 },
        )
  unfolding typed_method dispatch_method
  dispatch_method-served world svc_meth zero_value function server a {rs} s =
      rw (s.method, dispatch_method) (rw (in'.decode-encode a) refl)

  run_handler-served :
      (world : World W) (svc_meth : Text) (zero_value : A) (function : W → A → W × R) (server : ℕ)
      (a : A) {rs : Server W} (s : Serves world svc_meth zero_value function server rs)
      → run_handler world server svc_meth (in'.encode a)
        ≡ ok (
          served world server rs function a,
          record { is_ok = true; reply = out.encode (function world.state a).1 },
        )
  unfolding run_handler dispatch served
  run_handler-served world svc_meth zero_value function server a {rs} s = rw s.object (
      rw s.named (
        rw s.offered
          (rw (dispatch_method-served world svc_meth zero_value function server a s) refl)))

  module _ (chance : Chance) (rn : Network) (endname : ℕ) (svc_meth : Text) (zero_value : A)
      (function : W → A → W × R) (a : A) (world : World W) where
    -- No handler runs if the end is disabled, has no server, or its server is not there.
    pub call-refused :
        (is_enabled rn endname ≡ false)
          ⊎ (server_name rn endname ≡ none)
          ⊎ ((name : ℕ) × (server_name rn endname ≡ some name) × (server_at rn name ≡ none))
        → call {R = R} chance rn endname svc_meth a world ≡ ok (world, none)
    unfolding call process_req
    call-refused (inl off) = rw (info-enabled rn endname ∙ off) refl
    call-refused (inr (inl unconnected)) = elim (Bool-cases (is_enabled rn endname)) [
      | inl on ↦
          rw (info-enabled rn endname ∙ on) (rw (info-servername rn endname ∙ unconnected) refl)
      | inr off ↦ rw (info-enabled rn endname ∙ off) refl
    ]
    call-refused (inr (inr (name, connected, gone))) = elim (Bool-cases (is_enabled rn endname)) [
      | inl on ↦ rw (info-enabled rn endname ∙ on) (
          rw (info-servername rn endname ∙ connected)
            (rw (info-server rn endname connected ∙ gone) refl))
      | inr off ↦ rw (info-enabled rn endname ∙ off) refl
    ]

    module _ {name server : ℕ} (on : is_enabled rn endname ≡ true)
        (connected : server_name rn endname ≡ some name) (there : server_at rn name ≡ some server)
        {rs : Server W} (s : Serves world svc_meth zero_value function server rs) where
      -- Call along the lookups, with the tests of the reply in `delivered`.
      pub call-runs : call chance rn endname svc_meth a world ≡ (
          if not rn.reliable && ltb (chance.drop_request % 1000) 100
          then ok (world, none)
          else ok (
            served world server rs function a,
            (if delivered chance rn.reliable endname name server
                then some (function world.state a).1
                else none),
          ))
      unfolding call process_req
      call-runs = rw (info-enabled rn endname ∙ on) (
          rw (info-servername rn endname ∙ connected) (
            rw (info-server rn endname connected ∙ there) (
              rw (info-reliable rn endname)
                (elim (Bool-cases (not rn.reliable && ltb (chance.drop_request % 1000) 100)) [
                  | inl dropped ↦ rw dropped refl
                  | inr kept' ↦ rw kept' (
                      rw (run_handler-served world svc_meth zero_value function server a s) (
                        rw
                          (send_reply-delivered chance rn.reliable endname name server (record {
                            is_ok = true;
                            reply = out.encode (function world.state a).1;
                          }))
                          (elim (Bool-cases (delivered chance rn.reliable endname name server)) [
                            | inl delivers ↦
                                rw delivers (rw (out.decode-encode (function world.state a).1) refl)
                            | inr loses ↦ rw loses refl
                          ])))
                ]))))

      -- On a reliable network on which the end stays enabled and connected to the same server object,
      -- a call runs the handler once and returns its reply.
      pub call-reliable :
          rn.reliable ≡ true
          → wait_reply chance.time_outs endname name server ≡ true
          → is_server_dead chance.last endname name server ≡ false
          → call chance rn endname svc_meth a world
            ≡ ok (served world server rs function a, some (function world.state a).1)
      unfolding delivered
      call-reliable reliable waits alive = call-runs ∙ rw reliable (rw (waits, alive) refl)

      -- If the server of a call has been deleted by the time the reply of the handler is there,
      -- Call returns false.
      pub call-deleted :
          (later : Network)
          → chance.last ≡ delete_server later name
          → (after : World W) × (call {R = R} chance rn endname svc_meth a world ≡ ok (after, none))
      call-deleted later deleted =
          let gone : delivered chance rn.reliable endname name server ≡ false =
            deleted-delivered chance rn.reliable endname name server later deleted in
          elim (Bool-cases (not rn.reliable && ltb (chance.drop_request % 1000) 100)) [
            | inl dropped ↦ (world, call-runs ∙ rw dropped refl)
            | inr sent ↦ (served world server rs function a, call-runs ∙ rw (sent, gone) refl)
          ]
