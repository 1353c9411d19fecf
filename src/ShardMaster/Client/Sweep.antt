-- ===== src/ShardMaster/Client/Sweep.antt =====
-- src/shardmaster/client.go: the loops of the clerk over the servers.
use distributed_systems_labs.Base.{
  ℕ, zero, suc, ◌+◌, ◌-◌, ◌≤◌, ◌<◌, ◌≡◌, refl, sym, ◌∙◌, ◌≢◌, inl, inr, Bool, Option, none, some,
  arith, ◌==◌, ==→eq, ==→ne, Bool-cases, Option-cases,
}
use distributed_systems_labs.ShardMaster.Client.{accepts, sweep, passes}

none-some : {R : Type 0} {r : R} → none ≡ some r → ⊥
none-some e = cc

module _ {R : Type 0} (wrong_leader : R → Bool) where
  -- The reply is that of server `j`, and no server from `i` to before `j` accepted.
  pub record First (call : ℕ → Option R) (i l : ℕ) (out : Option R) : Type 0 where
    pub server : ℕ
    pub reply : R
    pub ended : out ≡ some reply
    pub accepted : accepts wrong_leader (call server) ≡ some reply
    pub range : (i ≤ server) × (server ≤ l)
    pub none_before : (k : ℕ) → i ≤ k → k < server → accepts wrong_leader (call k) ≡ none

  sweep-First :
      (n i l : ℕ) (call : ℕ → Option R)
      → i ≤ l
      → l < i + n
      → accepts wrong_leader (call l) ≢ none
      → First call i l (sweep wrong_leader n i call)
  unfolding sweep
  sweep-First zero i l call low high answers = absurd (omega arith)
  sweep-First (suc n) i l call low high answers =
      elim (Option-cases (accepts wrong_leader (call i))) [
        | inr (reply, yes') ↦
            rw (yes', sweep)
              (record {
                server = i;
                reply = reply;
                ended = refl;
                accepted = yes';
                range = (omega arith, low);
                none_before = λ k above below. absurd (omega arith);
              })
        | inl no' ↦
            let apart : i ≢ l = λ same. answers (rw same at no') in
            let f = sweep-First n (suc i) l call (omega (arith, apart)) (omega arith) answers in
            rw (no', sweep)
              (record {
                server = f.server;
                reply = f.reply;
                ended = f.ended;
                accepted = f.accepted;
                range = (omega (arith, f.range.0), f.range.1);
                none_before = λ k above below. elim (Bool-cases (k == i)) [
                  | inl here ↦ rw (==→eq _ _ here) no'
                  | inr later ↦ f.none_before k (omega (arith, ==→ne _ _ later)) below
                ];
              })
      ]

  -- A sweep gives no reply but an accepted one of a server it asks.
  sweep-accepted :
      (n i : ℕ) (call : ℕ → Option R) (reply : R)
      → sweep wrong_leader n i call ≡ some reply
      → (j : ℕ) × (j < i + n) × (accepts wrong_leader (call j) ≡ some reply)
  unfolding sweep
  sweep-accepted zero i call reply e = absurd cc
  sweep-accepted (suc n) i call reply e = elim (Option-cases (accepts wrong_leader (call i))) [
    | inr (r, yes') ↦ (i, omega arith, yes' ∙ (rw (yes', sweep) at e))
    | inl no' ↦
        let (j, lt, at) = sweep-accepted n (suc i) call reply (rw (no', sweep) at e) in
        (j, omega arith, at)
  ]

  -- The loop ended in a pass with the accepted reply of a server.
  pub record Ended (call : ℕ → ℕ → Option R) (servers first last : ℕ) (out : Option R)
      : Type 0 where
    pub pass : ℕ
    pub server : ℕ
    pub reply : R
    pub ended : out ≡ some reply
    pub range : (first ≤ pass) × (pass ≤ last) × (server < servers)
    pub accepted : accepts wrong_leader (call pass server) ≡ some reply

  -- If in one of the passes that the fuel allows some server accepts, the loop of the shard
  -- master's clerk ends no later than in that pass, with a reply that a server accepted in the
  -- pass in which it ended.
  pub passes-Ended :
      (fuel pass servers l d : ℕ) (call : ℕ → ℕ → Option R)
      → d < fuel
      → l < servers
      → accepts wrong_leader (call (pass + d) l) ≢ none
      → Ended call servers pass (pass + d) (passes wrong_leader fuel pass servers call)
  unfolding passes
  passes-Ended zero pass servers l d call enough valid answers = absurd (omega arith)
  passes-Ended (suc fuel) pass servers l d call enough valid answers =
      elim (Option-cases (sweep wrong_leader servers 0 (call pass))) [
        | inr (reply, e) ↦
            let (j, lt, at) = sweep-accepted servers 0 (call pass) reply e in
            rw (e, passes)
              (record {
                pass = pass;
                server = j;
                reply = reply;
                ended = refl;
                range = (omega arith, omega arith, omega arith);
                accepted = at;
              })
        | inl e ↦ elim (Bool-cases (d == 0)) [
          | inl now ↦
              let z : pass + d ≡ pass = omega (arith, ==→eq _ _ now) in
              let f =
                sweep-First servers 0 l (call pass) (omega arith) (omega arith) (rw z at answers) in
              absurd (none-some (sym e ∙ f.ended))
          | inr later ↦
              let z : pass + d ≡ suc pass + (d - 1) = omega (arith, ==→ne _ _ later) in
              let r =
                passes-Ended fuel (suc pass) servers l (d - 1) call (omega (arith, ==→ne _ _ later))
                  valid (rw z at answers) in
              rw (e, passes)
                (record {
                  pass = r.pass;
                  server = r.server;
                  reply = r.reply;
                  ended = r.ended;
                  range = (omega (arith, r.range.0), omega (arith, r.range.1), r.range.2);
                  accepted = r.accepted;
                })
        ]
      ]
