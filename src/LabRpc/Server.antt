-- ===== src/LabRpc/Server.antt =====
-- src/labrpc/labrpc.go: Server and Service. `W` is the state of all the receivers; a method turns
-- the bytes of the arguments into the bytes of the reply, by encoding/gob.
use distributed_systems_labs.Base.{
  ℕ, ◌+◌, Bool, true, false, Option, none, some, List, [], ◌∷◌, ◌==◌, if◌then◌else◌, Run, ok, panic,
  ◌>>=◌, or_panic, Text, same_text,
}
use distributed_systems_labs.Raft.Types.{Bytes, Codec}

abbrev pub Method : Type 0 → Type 0
Method W = W → Bytes → W × Bytes

pub record Service (W : Type 0) : Type 0 where
  pub name : Text
  pub methods : List (Text × Method W)

pub record Server (W : Type 0) : Type 0 where
  pub services : List (Text × Service W)
  pub count : ℕ

pub record ReplyMsg : Type 0 where
  pub is_ok : Bool
  pub reply : Bytes

abbrev pub refused : ReplyMsg
refused = record { is_ok = false; reply = [] }

-- Part of what reflection tells of a method of a receiver.
pub record Reflected (W : Type 0) : Type 0 where
  pub method_name : Text
  pub pkg_path : Text
  pub num_in : ℕ
  pub reply_is_ptr : Bool
  pub num_out : ℕ
  pub func : Method W

-- The method of a receiver with arguments of type `A` and a reply of type `R`, as Service.dispatch
-- calls it. The error of Decode is not looked at, so that arguments that do not decode are zero.
unfoldable pub typed_method :
    {W A R : Type 0} → ⦃in' : Codec A⦄ → ⦃out : Codec R⦄ → A → (W → A → W × R) → Method W
typed_method ⦃in'⦄ ⦃out⦄ zero_value function w args =
    let (after, r) = function w (elim (in'.decode args) [ none ↦ zero_value | some a ↦ a ]) in
    (after, out.encode r)

-- strings.LastIndex(s, ".") with what stands before and after it; a name without a dot makes the
-- slice expression panic.
unfoldable pub split_last_dot : Text → Option (Text × Text)
split_last_dot [] = none
split_last_dot (c ∷ s) =
    let rest = split_last_dot s in
    elim rest [
      | some (before, after) ↦ some (c ∷ before, after)
      | none ↦ (if c == 46 then some ([], s) else none)
    ]

-- m[key]
unfoldable pub entry : {V : Type 0} → Text → List (Text × V) → Option V
entry key [] = none
entry key ((k, v) ∷ m) = if same_text k key then some v else entry key m

-- m[key] = v
unfoldable pub put_entry : {V : Type 0} → Text → V → List (Text × V) → List (Text × V)
put_entry key v [] = (key, v) ∷ []
put_entry key v ((k, u) ∷ m) = if same_text k key then (k, v) ∷ m else (k, u) ∷ put_entry key v m

module _ {W : Type 0} where
  unfoldable pub make_server : Server W
  make_server = record { services = []; count = 0 }

  unfoldable pub add_service : Server W → Service W → Server W
  unfolding put_entry
  add_service rs svc = record rs { services = put_entry svc.name svc rs.services }

  unfoldable pub get_count : Server W → ℕ
  get_count rs = rs.count

  -- The methods that can be handlers: exported, with two arguments besides the receiver, of which
  -- the second is a pointer, and no result.
  unfoldable pub is_handler : Reflected W → Bool
  is_handler m = elim m.pkg_path [
    | [] ↦ (if m.num_in == 3 then (if m.reply_is_ptr then m.num_out == 0 else false) else false)
    | c ∷ path ↦ false
  ]

  unfoldable pub collect : List (Reflected W) → List (Text × Method W)
  unfolding put_entry is_handler
  collect [] = []
  collect (m ∷ methods) =
      let rest = collect methods in
      if is_handler m then put_entry m.method_name m.func rest else rest

  -- MakeService for a receiver of the type with this name and these methods.
  unfoldable pub make_service : Text → List (Reflected W) → Service W
  unfolding collect
  make_service name methods = record { name = name; methods = collect methods }

  -- Service.dispatch: an unknown method is fatal.
  unfoldable pub dispatch_method : Service W → Text → Bytes → W → Run (W × ReplyMsg)
  unfolding entry
  dispatch_method svc methname args w = elim (entry methname svc.methods) [
    | none ↦ panic
    | some method ↦
        let (after, reply) = method w args in ok (after, record { is_ok = true; reply = reply })
  ]

  -- Server.dispatch: an unknown service is fatal.
  unfoldable pub dispatch : Server W → Text → Bytes → W → Run (Server W × W × ReplyMsg)
  unfolding dispatch_method split_last_dot entry
  dispatch rs svc_meth args w = do
    (service_name, method_name) ← or_panic (split_last_dot svc_meth)
    service ← or_panic (entry service_name rs.services)
    (after, reply) ← dispatch_method service method_name args w
    ok (record rs { count = rs.count + 1 }, after, reply)
