-- ===== src/MapReduce/Schedule/Finish.antt =====
-- The calls of schedule, when it ends and on the way.
use distributed_systems_labs.Base.{
  ℕ, zero, suc, ◌+◌, ◌≡◌, ◌<◌, ◌≤◌, refl, sym, ap, ◌∙◌, Bool, true, false, ◌&&◌, some, List, [],
  ◌∷◌, ◌++◌, Text, same_text, if◌then◌else◌, ◌==◌, one, arith, ◌⊎◌, inl, inr, Bool-cases, ==→eq,
  length, get_elem?, get_elem?-set, get_elem?_total, get_elem?_bound, length-set, length-replicate,
  set, replicate,
}
use distributed_systems_labs.MapReduce.Schedule.{
  TaskState, waiting, calling, done, Schedule, begin, forward, receive, call_returns, forwards,
  receives, returns, Reach, started, further, is_done, all_done,
}

-- The calls for a task that came through.
abbrev pub successes : ℕ → List (ℕ × Text × Bool) → ℕ
successes task [] = 0
successes task ((t, worker, came_through) ∷ calls) =
    one (t == task && came_through) + successes task calls

-- The goroutines that wait for a call of this worker.
abbrev calls_worker : Text → TaskState → Bool
calls_worker worker (calling w) = same_text w worker
calls_worker worker _ = false

abbrev pub callers : Text → List TaskState → ℕ
callers worker [] = 0
callers worker (t ∷ tasks) = one (calls_worker worker t) + callers worker tasks

-- How often a name stands in a list.
abbrev pub copies : Text → List Text → ℕ
copies worker [] = 0
copies worker (w ∷ workers) = one (same_text w worker) + copies worker workers

callers-set :
    (worker : Text) (tasks : List TaskState) (i : ℕ) (v : TaskState) {x : TaskState}
    → get_elem? tasks i ≡ some x
    → callers worker (set tasks i v) + one (calls_worker worker x)
      ≡ callers worker tasks + one (calls_worker worker v)
callers-set worker [] i v h = absurd (ground arith)
callers-set worker (t ∷ tasks) zero v {x} h =
    let same : t ≡ x = ground arith in omega (arith, ap (λ y. one (calls_worker worker y)) same)
callers-set worker (t ∷ tasks) (suc i) v h = omega (arith, callers-set worker tasks i v h)

callers-replicate : (worker : Text) (n : ℕ) → callers worker (replicate n waiting) ≡ 0
callers-replicate worker zero = refl
callers-replicate worker (suc n) = omega (arith, callers-replicate worker n)

copies-middle :
    (worker w : Text) (before after : List Text)
    → copies worker (before ++ (w ∷ after))
      ≡ one (same_text w worker) + copies worker (before ++ after)
copies-middle worker w [] after = refl
copies-middle worker w (b ∷ before) after = omega (arith, copies-middle worker w before after)

-- Every registered worker is offered or called.
Reach-callers :
    {n : ℕ} {s : Schedule} (worker : Text)
    → Reach n s
    → callers worker s.tasks + copies worker s.offered ≡ copies worker s.registered
unfolding begin forward receive call_returns
Reach-callers {n} worker started = omega (arith, callers-replicate worker n)
Reach-callers worker (further {s} r (forwards w)) = omega (arith, Reach-callers worker r)
Reach-callers worker (further {s} r (receives task w before after idle e)) = omega (
  arith,
  Reach-callers worker r,
  ap (copies worker) e,
  copies-middle worker w before after,
  callers-set worker s.tasks task (calling w) idle,
)
Reach-callers worker (further {s} r (returns task w came_through e)) =
    omega (arith, Reach-callers worker r, ends came_through)
  where
    ends :
        (b : Bool)
        → callers worker (set s.tasks task (if b then done else waiting)) + one (same_text w worker)
          ≡ callers worker s.tasks
    ends true = omega (arith, callers-set worker s.tasks task done e)
    ends false = omega (arith, callers-set worker s.tasks task waiting e)

-- In every state of schedule, a worker that registered at most once is in at most one call.
pub Reach-one_call :
    {n : ℕ} {s : Schedule} (worker : Text)
    → Reach n s
    → copies worker s.registered ≤ 1
    → callers worker s.tasks ≤ 1
Reach-one_call worker r h = omega (arith, Reach-callers worker r)

-- A task has had as many successful calls as it is done.
pub record Counted (n : ℕ) (s : Schedule) : Type 0 where
  pub sized : length s.tasks ≡ n
  pub told :
      (task : ℕ) (t : TaskState)
      → get_elem? s.tasks task ≡ some t
      → successes task s.calls ≡ one (is_done t)

get_elem?-replicate :
    (n i : ℕ) (t : TaskState) → get_elem? (replicate n waiting) i ≡ some t → t ≡ waiting
get_elem?-replicate zero i t h = absurd (ground arith)
get_elem?-replicate (suc n) zero t h = ground arith
get_elem?-replicate (suc n) (suc i) t h = get_elem?-replicate n i t h

set-cases :
    (xs : List TaskState) (i j : ℕ) (v : TaskState) {t : TaskState}
    → i < length xs
    → get_elem? (set xs i v) j ≡ some t
    → ((i ≡ j) × (t ≡ v)) ⊎ (((i == j) ≡ false) × (get_elem? xs j ≡ some t))
set-cases xs i j v {t} lt h = elim (Bool-cases (i == j)) [
  | inl here ↦
      let at : get_elem? (set xs i v) j ≡ some v = get_elem?-set xs i j v lt ∙ rw here refl in
      inl (==→eq i j here, same_some (sym h ∙ at))
  | inr other ↦
      let at : get_elem? (set xs i v) j ≡ get_elem? xs j =
        get_elem?-set xs i j v lt ∙ rw other refl in
      inr (other, sym at ∙ h)
]
  where
    same_some : {a b : TaskState} → some a ≡ some b → a ≡ b
    same_some e = ground arith

next_done : (b : Bool) → is_done (if b then done else waiting) ≡ b
next_done true = refl
next_done false = refl

all_done-at :
    (tasks : List TaskState) (i : ℕ) (t : TaskState)
    → all_done tasks ≡ true
    → get_elem? tasks i ≡ some t
    → is_done t ≡ true
all_done-at [] i t h at = absurd (ground arith)
all_done-at (x ∷ tasks) zero t h at =
    let same : x ≡ t = ground arith in sym (ap is_done same) ∙ ground arith
all_done-at (x ∷ tasks) (suc i) t h at = all_done-at tasks i t (ground arith) at

pub Reach-Counted : {n : ℕ} {s : Schedule} → Reach n s → Counted n s
unfolding begin forward receive call_returns
Reach-Counted {n} started = record {
  sized = length-replicate n waiting;
  told = λ task t e. ap (λ t. one (is_done t)) (sym (get_elem?-replicate n task t e));
}
Reach-Counted (further r (forwards w)) =
    let c = Reach-Counted r in record { sized = c.sized; told = c.told }
Reach-Counted (further {s} r (receives task w before after idle e)) =
    let c = Reach-Counted r in
    record {
      sized = length-set s.tasks task (calling w) ∙ c.sized;
      told = λ i t at.
          elim (set-cases s.tasks task i (calling w) (get_elem?_bound s.tasks task idle) at) [
            | inl (here, now) ↦
                ap (λ k. successes k s.calls) (sym here)
                ∙ c.told task waiting idle
                ∙ ap (λ t. one (is_done t)) (sym now)
            | inr (other, old) ↦ c.told i t old
          ];
    }
Reach-Counted (further {s} r (returns task w came_through e)) =
    let c = Reach-Counted r in
    let next = if came_through then done else waiting in
    record {
      sized = length-set s.tasks task next ∙ c.sized;
      told = λ i t at. elim (set-cases s.tasks task i next (get_elem?_bound s.tasks task e) at) [
        | inl (here, now) ↦
            let before : successes i s.calls ≡ 0 =
              ap (λ k. successes k s.calls) (sym here) ∙ c.told task (calling w) e in
            let self : (task == i) ≡ true = ground arith in
            rw self (
              omega (arith, before, ap (λ t. one (is_done t)) now, ap one (next_done came_through)))
        | inr (other, old) ↦ rw other (omega (arith, c.told i t old))
      ];
    }

-- When the wait of schedule is over, whatever calls failed and whatever workers registered, each
-- task has had exactly one call that came through.
pub Reach-finished :
    {n : ℕ} {s : Schedule} (task : ℕ)
    → Reach n s
    → all_done s.tasks ≡ true
    → task < n
    → successes task s.calls ≡ 1
Reach-finished {n} {s} task r over lt =
    let c = Reach-Counted r in
    let (t, at) = get_elem?_total s.tasks task (omega (arith, c.sized)) in
    c.told task t at ∙ ap one (all_done-at s.tasks task t over at)
