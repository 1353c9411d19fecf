-- ===== src/KvRaft/Client/Rotation.antt =====
-- src/kvraft/client.go: the retry loop and the rotation over the servers.
use distributed_systems_labs.Base.{
  ℕ, zero, suc, ◌+◌, ◌-◌, ◌%◌, ◌≤◌, ◌<◌, ◌≡◌, refl, ◌≢◌, inl, inr, Bool, Option, none, some, arith,
  ltb, leb, if◌then◌else◌, ltb→lt, ltb→le, Bool-cases, Option-cases,
}
use native.Mathlib.Nat.{mod-eq_of_lt, mod_self}
use distributed_systems_labs.KvRaft.Client.{Clerk, rotate, accepts, retry}

-- How many rotations bring the clerk from a server to `l`.
abbrev distance : ℕ → ℕ → ℕ → ℕ
distance n at l = if leb at l then l - at else n - at + l

-- One rotation: the next server is a server, and one step nearer.
nearer :
    (n at l : ℕ)
    → at < n
    → l < n
    → at ≢ l
    → ((at + 1) % n < n) × (distance n ((at + 1) % n) l + 1 ≡ distance n at l)
nearer n at l inside valid apart = elim (Bool-cases (ltb (at + 1) n)) [
  | inl below ↦ rw (mod-eq_of_lt (ltb→lt _ _ below)) (ltb→lt _ _ below, grind arith)
  | inr end ↦
      let last : at + 1 ≡ n = omega (arith, ltb→le _ _ end) in
      rw (last, mod_self n) (omega arith, ground (arith, ltb→le _ _ end))
]

module _ {R : Type 0} (wrong_leader : R → Bool) where
  -- The clerk stopped at server `l`, with an accepted reply of it.
  pub record Found (call : ℕ → ℕ → Option R) (l : ℕ) (ck : Clerk) (out : Option (Clerk × R))
      : Type 0 where
    pub clerk : Clerk
    pub reply : R
    pub attempt : ℕ
    pub ended : out ≡ some (clerk, reply)
    pub accepted : accepts wrong_leader (call attempt clerk.leader) ≡ some reply
    pub same_client : (clerk.client_id ≡ ck.client_id) × (clerk.id ≡ ck.id)

  module _ (call : ℕ → ℕ → Option R) (l : ℕ) where
    retry-within :
        (d fuel attempt : ℕ) (ck : Clerk)
        → ck.leader < ck.servers
        → l < ck.servers
        → distance ck.servers ck.leader l ≡ d
        → d < fuel
        → ((k : ℕ) → accepts wrong_leader (call k l) ≢ none)
        → Found call l ck (retry wrong_leader fuel call attempt ck)
    unfolding retry rotate
    retry-within d zero attempt ck inside valid at enough answers = absurd (omega arith)
    retry-within d (suc fuel) attempt ck inside valid at enough answers =
        elim (Option-cases (accepts wrong_leader (call attempt ck.leader))) [
          | inr (reply, ok') ↦
              rw (ok', retry)
                (record {
                  clerk = ck;
                  reply = reply;
                  attempt = attempt;
                  ended = refl;
                  accepted = ok';
                  same_client = (refl, refl);
                })
          | inl refused ↦
              let apart : ck.leader ≢ l = λ same. answers attempt (rw same at refused) in
              let (next, step) = nearer ck.servers ck.leader l inside valid apart in
              rw (refused, retry)
                (moved_on (
                  retry-within (d - 1) fuel (suc attempt) (rotate ck) next valid (omega arith)
                    (omega arith) answers))
        ]
      where
        moved_on : {out : Option (Clerk × R)} → Found call l (rotate ck) out → Found call l ck out
        moved_on f = record {
          clerk = f.clerk;
          reply = f.reply;
          attempt = f.attempt;
          ended = f.ended;
          accepted = f.accepted;
          same_client = f.same_client;
        }

    -- If the clerk's leader is one of the servers, some server answers every attempt at it as the
    -- leader, and the fuel is at least the number of servers, the retry loop ends: with an
    -- accepted reply of the server that the clerk then holds for the leader, and with the client's
    -- number and operation number unchanged.
    pub retry-Found :
        (fuel : ℕ) (ck : Clerk)
        → ck.leader < ck.servers
        → l < ck.servers
        → ck.servers ≤ fuel
        → ((k : ℕ) → accepts wrong_leader (call k l) ≢ none)
        → Found call l ck (retry wrong_leader fuel call 0 ck)
    retry-Found fuel ck inside valid enough answers =
        retry-within (distance ck.servers ck.leader l) fuel 0 ck inside valid refl (ground arith)
          answers
