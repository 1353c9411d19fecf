-- ===== src/Base/Counting.antt =====
-- Counting occurrences in lists of numbers, membership as a test, and the insertion sort that
-- stands for sort.Ints.
use distributed_systems_labs.Base.Tests.{◌==◌, leb, if◌then◌else◌, Bool-cases}
use distributed_systems_labs.Base.Lists.{length, get_elem?, set}
use Prim.Native.Nat.{ℕ, zero, suc, ◌+◌, ◌≤◌}
use mathlib.Core.Path.{◌≡◌, refl, ◌∙◌}
use mathlib.Core.Logic.{inl, inr}
use mathlib.Core.Bool.{Bool, true, false, ◌||◌}
use mathlib.Core.List.{List, [], ◌∷◌, ◌++◌}
use mathlib.Core.Option.{some}
use native.Mathlib.Omega.{arith}

-- 1 for true.
abbrev pub one : Bool → ℕ
one true = 1
one false = 0

abbrev pub occ : ℕ → List ℕ → ℕ
occ g [] = 0
occ g (x ∷ xs) = one (x == g) + occ g xs

abbrev pub elem : ℕ → List ℕ → Bool
elem g [] = false
elem g (x ∷ xs) = (x == g) || elem g xs

-- How many of the entries of `xs` are in `gs`.
abbrev pub count_in : List ℕ → List ℕ → ℕ
count_in gs [] = 0
count_in gs (x ∷ xs) = one (elem x gs) + count_in gs xs

abbrev pub sum_over : List ℕ → (ℕ → ℕ) → ℕ
sum_over [] f = 0
sum_over (g ∷ gs) f = f g + sum_over gs f

abbrev pub IsDistinct : List ℕ → Type 0
IsDistinct xs = (g : ℕ) → occ g xs ≤ 1

unfoldable pub insert : ℕ → List ℕ → List ℕ
insert x [] = x ∷ []
insert x (y ∷ ys) = if leb x y then x ∷ y ∷ ys else y ∷ insert x ys

unfoldable pub sort : List ℕ → List ℕ
unfolding insert
sort [] = []
sort (x ∷ xs) = insert x (sort xs)

pub occ-append : (g : ℕ) (xs ys : List ℕ) → occ g (xs ++ ys) ≡ occ g xs + occ g ys
occ-append g [] ys = omega arith
occ-append g (x ∷ xs) ys = omega (arith, occ-append g xs ys)

occ-insert : (g x : ℕ) (xs : List ℕ) → occ g (insert x xs) ≡ one (x == g) + occ g xs
unfolding insert
occ-insert g x [] = refl
occ-insert g x (y ∷ ys) = ground (arith, occ-insert g x ys)

pub occ-sort : (g : ℕ) (xs : List ℕ) → occ g (sort xs) ≡ occ g xs
unfolding sort
occ-sort g [] = refl
occ-sort g (x ∷ xs) = omega (arith, occ-insert g x (sort xs), occ-sort g xs)

length-insert : (x : ℕ) (xs : List ℕ) → length (insert x xs) ≡ suc (length xs)
unfolding insert
length-insert x [] = refl
length-insert x (y ∷ ys) = ground (arith, length-insert x ys)

pub length-sort : (xs : List ℕ) → length (sort xs) ≡ length xs
unfolding sort
length-sort [] = refl
length-sort (x ∷ xs) = omega (arith, length-insert x (sort xs), length-sort xs)

-- Membership is a positive count.
pub elem→occ : (g : ℕ) (xs : List ℕ) → elem g xs ≡ true → 1 ≤ occ g xs
elem→occ g [] h = ground arith
elem→occ g (x ∷ xs) h = ground (arith, elem→occ g xs)

pub occ→elem : (g : ℕ) (xs : List ℕ) → 1 ≤ occ g xs → elem g xs ≡ true
occ→elem g [] h = absurd (omega arith)
occ→elem g (x ∷ xs) h = ground (arith, occ→elem g xs)

pub elem-false : (g : ℕ) (xs : List ℕ) → elem g xs ≡ false → occ g xs ≡ 0
elem-false g [] h = refl
elem-false g (x ∷ xs) h = ground (arith, elem-false g xs)

pub elem-of_occ : (g : ℕ) (xs ys : List ℕ) → occ g xs ≡ occ g ys → elem g xs ≡ elem g ys
elem-of_occ g xs ys h = elim (Bool-cases (elem g xs)) [
  | inl yes' ↦ ground (arith, elem→occ g xs, occ→elem g ys)
  | inr no' ↦ elim (Bool-cases (elem g ys)) [
    | inl other ↦ absurd (omega (arith, elem-false g xs no', elem→occ g ys other))
    | inr same ↦ rw (no', same)
  ]
]

pub occ-set :
    (g : ℕ) (xs : List ℕ) (s v : ℕ) {x : ℕ}
    → get_elem? xs s ≡ some x
    → occ g (set xs s v) + one (x == g) ≡ occ g xs + one (v == g)
occ-set g [] s v h = ground arith
occ-set g (y ∷ xs) zero v h = ground arith
occ-set g (y ∷ xs) (suc s) v {x} h = omega (arith, occ-set g xs s v h)

pub count_in-set :
    (gs xs : List ℕ) (s v : ℕ) {x : ℕ}
    → get_elem? xs s ≡ some x
    → count_in gs (set xs s v) + one (elem x gs) ≡ count_in gs xs + one (elem v gs)
count_in-set gs [] s v h = ground arith
count_in-set gs (y ∷ xs) zero v h = ground arith
count_in-set gs (y ∷ xs) (suc s) v h = omega (arith, count_in-set gs xs s v h)

pub count_in-le : (gs xs : List ℕ) → count_in gs xs ≤ length xs
count_in-le gs [] = omega arith
count_in-le gs (x ∷ xs) = ground (arith, count_in-le gs xs)

sum_over-zero : (gs : List ℕ) → sum_over gs (λ g. 0) ≡ 0
sum_over-zero [] = refl
sum_over-zero (g ∷ gs) = omega (arith, sum_over-zero gs)

pub sum_over-add :
    (gs : List ℕ) (f h : ℕ → ℕ) → sum_over gs (λ g. f g + h g) ≡ sum_over gs f + sum_over gs h
sum_over-add [] f h = refl
sum_over-add (g ∷ gs) f h = omega (arith, sum_over-add gs f h)

sum_over-one : (gs : List ℕ) (x : ℕ) → sum_over gs (λ g. one (x == g)) ≡ occ x gs
sum_over-one [] x = refl
sum_over-one (g ∷ gs) x = ground (arith, sum_over-one gs x)

-- With distinct `gs`, the counts of each add up to the number of entries in `gs`.
pub sum_over-occ : (gs xs : List ℕ) → IsDistinct gs → sum_over gs (λ g. occ g xs) ≡ count_in gs xs
sum_over-occ gs [] d = sum_over-zero gs
sum_over-occ gs (x ∷ xs) d =
    sum_over-add gs (λ g. one (x == g)) (λ g. occ g xs) ∙ elim (Bool-cases (elem x gs)) [
      | inl inside ↦
          rw inside
            (omega (arith, sum_over-one gs x, sum_over-occ gs xs d, elem→occ x gs inside, d x))
      | inr outside ↦
          rw outside
            (omega (arith, sum_over-one gs x, sum_over-occ gs xs d, elem-false x gs outside))
    ]
