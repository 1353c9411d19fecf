-- ===== src/Base/Results.antt =====
-- How a call of the program ends: with a value, or in a run-time panic (an index out of range).
use mathlib.Core.Path.{◌≡◌, refl}
use mathlib.Core.Bool.{Bool, true, false}
use mathlib.Core.Option.{Option, none, some}
use distributed_systems_labs.Base.Tests.{if◌then◌else◌}

pub data Run {ℓ} (V : Type ℓ) : Type ℓ where
  panic : Run V
  ok : V → Run V

-- A read of a slice: out of range it panics.
abbrev pub or_panic {ℓ} : {V : Type ℓ} → Option V → Run V
or_panic none = panic
or_panic (some v) = ok v

-- The rest of the code runs on the value; after a panic it does not run.
infixl 5 ◌>>=◌
abbrev pub ◌>>=◌ {ℓ ℓ'} : {V : Type ℓ} {W : Type ℓ'} → Run V → (V → Run W) → Run W
panic >>= rest = panic
ok v >>= rest = rest v

-- The call returns normally, with a value that satisfies `P`.
pub data Returns {ℓ m} {V : Type ℓ} (P : V → Type m) : Run V → Type (ℓ ⊔ m) where
  returns : {v : V} (good : P v) → Returns P (ok v)

pub Returns-inv {ℓ m} :
    {V : Type ℓ} {P : V → Type m} {run : Run V} → Returns P run → (v : V) × (run ≡ ok v) × P v
Returns-inv (returns good) = (_, refl, good)

pub Returns-if {ℓ m} :
    {V : Type ℓ} {P : V → Type m} {yes' no' : Run V} (test : Bool)
    → (test ≡ true → Returns P yes')
    → (test ≡ false → Returns P no')
    → Returns P (if test then yes' else no')
Returns-if false on_true on_false = on_false refl
Returns-if true on_true on_false = on_true refl

pub Returns-map {ℓ m m'} :
    {V : Type ℓ} {P : V → Type m} {Q : V → Type m'} {run : Run V}
    → Returns P run
    → ((v : V) → P v → Q v)
    → Returns Q run
Returns-map (returns good) weaken = returns (weaken _ good)

pub Returns-bind {ℓ m ℓ' m'} :
    {V : Type ℓ} {P : V → Type m} {W : Type ℓ'} {Q : W → Type m'} {run : Run V} {rest : V → Run W}
    → Returns P run
    → ((v : V) → P v → Returns Q (rest v))
    → Returns Q (run >>= rest)
Returns-bind (returns good) next' = next' _ good

-- If the call returns, its value satisfies `P`.
abbrev pub Yields {ℓ κ} : {A : Type ℓ} → (A → Type κ) → Run A → Type κ
Yields P (ok a) = P a
Yields P panic = Unit

pub Yields-bind {ℓ κ ℓ' κ'} :
    {A : Type ℓ} {B : Type ℓ'} (P : A → Type κ) (Q : B → Type κ') (r : Run A) (f : A → Run B)
    → Yields P r
    → ((a : A) → P a → Yields Q (f a))
    → Yields Q (r >>= f)
Yields-bind P Q (ok a) f p k = k a p
Yields-bind P Q panic f p k = tt

-- A step whose value carries no fact.
pub Yields-then {ℓ ℓ' κ'} :
    {A : Type ℓ} {B : Type ℓ'} (Q : B → Type κ') (r : Run A) (f : A → Run B)
    → ((a : A) → Yields Q (f a))
    → Yields Q (r >>= f)
Yields-then Q (ok a) f k = k a
Yields-then Q panic f k = tt

pub Yields-if {ℓ κ} :
    {A : Type ℓ} (P : A → Type κ) (b : Bool) (x y : Run A)
    → (b ≡ true → Yields P x)
    → (b ≡ false → Yields P y)
    → Yields P (if b then x else y)
Yields-if P true x y p q = p refl
Yields-if P false x y p q = q refl

pub Yields-eq {ℓ κ} :
    {A : Type ℓ} (P : A → Type κ) {r : Run A} {a : A} → Yields P r → r ≡ ok a → P a
Yields-eq P y e = rw e at y

pub Returns-Yields {ℓ κ κ'} :
    {A : Type ℓ} {P : A → Type κ} {Q : A → Type κ'} {r : Run A}
    → Returns P r
    → Yields Q r
    → Returns Q r
Returns-Yields (returns p) q = returns q

pub Yields-map {ℓ κ κ'} :
    {A : Type ℓ} (P : A → Type κ) (Q : A → Type κ') (r : Run A)
    → Yields P r
    → ((a : A) → P a → Q a)
    → Yields Q r
Yields-map P Q (ok a) p k = k a p
Yields-map P Q panic p k = tt

Returns-ok {ℓ κ} : {A : Type ℓ} (P : A → Type κ) {a : A} → Returns P (ok a) → P a
Returns-ok P (returns p) = p

pub Returns-eq {ℓ κ} :
    {A : Type ℓ} (P : A → Type κ) {r : Run A} {a : A} → Returns P r → r ≡ ok a → P a
Returns-eq P h e = Returns-ok P (rw e at h)
