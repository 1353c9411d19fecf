-- ===== src/LabRpc/Calls/Fates.antt =====
-- src/labrpc/labrpc.go: the moments at which ProcessReq looks whether the server is still there.
use mathlib.Core.Path.{subst}
use distributed_systems_labs.Base.{
  some-inj, ℕ, ◌%◌, ◌≡◌, ◌≢◌, Option-cases, List, [], ◌∷◌, zero, suc, ◌≤◌, ◌<◌, refl, ◌⊎◌, inl, inr,
  Bool, true, false, some, ◌==◌, ltb, ltb→lt, ltb→le, get_elem?, arith, Bool-cases,
}
use distributed_systems_labs.LabRpc.Network.{Network, is_enabled, server_at, is_server_dead}
use distributed_systems_labs.LabRpc.Calls.{Chance, wait_reply}
use distributed_systems_labs.LabRpc.Calls.Outcomes.{delivered}

-- The end is enabled, and the name still stands for the server object; and the contrary.
abbrev pub IsAlive : Network → ℕ → ℕ → ℕ → Type 0
IsAlive rn endname name server = (is_enabled rn endname ≡ true) × (server_at rn name ≡ some server)

abbrev pub IsGone : Network → ℕ → ℕ → ℕ → Type 0
IsGone rn endname name server = (is_enabled rn endname ≡ false) ⊎ (server_at rn name ≢ some server)

pub is_server_dead-cases :
    (rn : Network) (endname name server : ℕ)
    → ((is_server_dead rn endname name server ≡ false) × IsAlive rn endname name server)
      ⊎ ((is_server_dead rn endname name server ≡ true) × IsGone rn endname name server)
unfolding is_server_dead
is_server_dead-cases rn endname name server = elim (Bool-cases (is_enabled rn endname)) [
  | inr off ↦ inr (rw (off, is_server_dead) refl, inl off)
  | inl on ↦ elim (Option-cases (server_at rn name)) [
    | inl none' ↦ inr (rw (on, none', is_server_dead) refl, inr (λ e. absurd cc))
    | inr (other, at) ↦ elim (Bool-cases (other == server)) [
      | inl same ↦ inl (rw (on, at, same, is_server_dead) refl, (on, ground (arith, at, same)))
      | inr differs ↦ inr (
        rw (on, at, differs, is_server_dead) refl,
        inr (λ e. absurd (ground (arith, some-inj (rw at at e), differs))),
      )
    ]
  ]
]

-- At every time-out and at the end the server is there; and at one of these moments it is gone.
abbrev pub StaysAlive : Chance → ℕ → ℕ → ℕ → Type 0
StaysAlive chance endname name server =
    ((i : ℕ) (rn : Network)
      → get_elem? chance.time_outs i ≡ some rn
      → IsAlive rn endname name server)
    × IsAlive chance.last endname name server

abbrev pub GoesAway : Chance → ℕ → ℕ → ℕ → Type 0
GoesAway chance endname name server =
    ((i : ℕ) × (rn : Network) × (get_elem? chance.time_outs i ≡ some rn)
      × IsGone rn endname name server)
    ⊎ IsGone chance.last endname name server

IsAlive-cons :
    (r : Network) (networks : List Network) (endname name server : ℕ)
    → IsAlive r endname name server
    → ((i : ℕ) (rn : Network) → get_elem? networks i ≡ some rn → IsAlive rn endname name server)
    → (i : ℕ) (rn : Network) → get_elem? (r ∷ networks) i ≡ some rn
    → IsAlive rn endname name server
IsAlive-cons r networks endname name server alive all zero rn at =
    subst (λ n. IsAlive n endname name server) (some-inj at) alive
IsAlive-cons r networks endname name server alive all (suc i) rn at = all i rn at

wait_reply-cases :
    (networks : List Network) (endname name server : ℕ)
    → ((wait_reply networks endname name server ≡ true)
        × ((i : ℕ) (rn : Network)
            → get_elem? networks i ≡ some rn
            → IsAlive rn endname name server))
      ⊎ ((wait_reply networks endname name server ≡ false)
          × ((i : ℕ) × (rn : Network) × (get_elem? networks i ≡ some rn)
              × IsGone rn endname name server))
unfolding wait_reply
wait_reply-cases [] endname name server = inl (refl, λ i rn at. absurd cc)
wait_reply-cases (r ∷ networks) endname name server =
    elim (is_server_dead-cases r endname name server) [
      | inr (dead, gone) ↦ inr (rw dead refl, (0, r, refl, gone))
      | inl (live, alive) ↦ elim (wait_reply-cases networks endname name server) [
        | inr (stops, (i, rn, at, gone)) ↦ inr (rw live stops, (suc i, rn, at, gone))
        | inl (waits, all) ↦
            inl (rw live waits, IsAlive-cons r networks endname name server alive all)
      ]
    ]

-- Whether the handler's reply reaches the caller, by the fate of the server and of the reply.
pub delivered-cases :
    (chance : Chance) (reliable : Bool) (endname name server : ℕ)
    → ((delivered chance reliable endname name server ≡ true)
        × StaysAlive chance endname name server
        × ((reliable ≡ true) ⊎ (100 ≤ chance.drop_reply % 1000)))
      ⊎ ((delivered chance reliable endname name server ≡ false)
          × (GoesAway chance endname name server
              ⊎ (StaysAlive chance endname name server
                  × (reliable ≡ false)
                  × (chance.drop_reply % 1000 < 100))))
unfolding delivered
delivered-cases chance reliable endname name server =
    elim (wait_reply-cases chance.time_outs endname name server) [
      | inr (stops, gone) ↦ inr (rw (stops, delivered) refl, inl (inl gone))
      | inl (waits, all) ↦ elim (is_server_dead-cases chance.last endname name server) [
        | inr (dead, gone) ↦ inr (rw (waits, dead, delivered) refl, inl (inr gone))
        | inl (live, alive) ↦ elim (Bool-cases (reliable)) [
          | inl smooth ↦ inl (rw (waits, live, smooth, delivered) refl, (all, alive), inl smooth)
          | inr lossy ↦ elim (Bool-cases (ltb (chance.drop_reply % 1000) 100)) [
            | inl drops ↦ inr (
              rw (waits, live, lossy, drops, delivered) refl,
              inr ((all, alive), lossy, ltb→lt _ _ drops),
            )
            | inr keeps ↦ inl (
              rw (waits, live, lossy, keeps, delivered) refl,
              (all, alive),
              inr (ltb→le _ _ keeps),
            )
          ]
        ]
      ]
    ]
