-- ===== src/MapReduce/Names/Distinct.antt =====
-- The names of the intermediate files of one job.
use mathlib.Core.Path.{subst}
use distributed_systems_labs.Base.{
  ℕ, zero, suc, ◌+◌, ◌-◌, ◌*◌, ◌/◌, ◌%◌, ◌<◌, ◌≤◌, ◌≡◌, ◌≢◌, refl, sym, ap, ◌∙◌, [], ◌∷◌, ◌++◌, ltb,
  Text, arith, Bool-cases, inl, inr,
}
use distributed_systems_labs.MapReduce.Names.{
  digits, itoa, mrtmp, dash, dash_res, reduce_name, merge_name,
}

-- The number that a list of digits, after `acc`, stands for.
abbrev value : ℕ → Text → ℕ
value acc [] = acc
value acc (d ∷ ds) = value (acc * 10 + (d - 48)) ds

value-append : (acc : ℕ) (xs ys : Text) → value acc (xs ++ ys) ≡ value (value acc xs) ys
value-append acc [] ys = refl
value-append acc (x ∷ xs) ys = value-append (acc * 10 + (x - 48)) xs ys

value-digits : (fuel n : ℕ) → n < fuel → value 0 (digits fuel n) ≡ n
unfolding digits
value-digits zero n h = absurd (omega arith)
value-digits (suc fuel) n h = elim (Bool-cases (ltb n 10)) [
  | inl small ↦ rw small (omega arith)
  | inr large ↦
      rw (large, value-append 0 (digits fuel (n / 10)) ((48 + n % 10) ∷ []))
        (omega (arith, value-digits fuel (n / 10) (ground arith)))
]

-- No character of the list is a dash.
abbrev NoDash : Text → Type 0
NoDash [] = Unit
NoDash (c ∷ cs) = (48 ≤ c) × NoDash cs

-- Every character of the list is a decimal digit.
abbrev Digits : Text → Type 0
Digits [] = Unit
Digits (c ∷ cs) = (48 ≤ c) × (c ≤ 57) × Digits cs

Digits-NoDash : (xs : Text) → Digits xs → NoDash xs
Digits-NoDash [] h = tt
Digits-NoDash (x ∷ xs) (a, _, h) = (a, Digits-NoDash xs h)

Digits-append : (xs ys : Text) → Digits xs → Digits ys → Digits (xs ++ ys)
Digits-append [] ys _ h = h
Digits-append (x ∷ xs) ys (a, b, g) h = (a, b, Digits-append xs ys g h)

digits-Digits : (fuel n : ℕ) → Digits (digits fuel n)
unfolding digits
digits-Digits zero n = tt
digits-Digits (suc fuel) n = elim (Bool-cases (ltb n 10)) [
  | inl small ↦ rw small (ground arith, ground arith, tt)
  | inr large ↦ rw large (
      Digits-append (digits fuel (n / 10)) _ (digits-Digits fuel (n / 10))
        (ground arith, ground arith, tt))
]

-- A list without dashes up to a dash is determined, and so is what comes after.
cons_eq : {a b : ℕ} {s t : Text} → a ≡ b → s ≡ t → (a ∷ s) ≡ (b ∷ t)
cons_eq e f = cc

split_at_dash :
    (xs ys : Text) {u v : Text}
    → NoDash xs
    → NoDash ys
    → (xs ++ (45 ∷ u)) ≡ (ys ++ (45 ∷ v))
    → (xs ≡ ys) × (u ≡ v)
split_at_dash [] [] a b e = (refl, cc)
split_at_dash [] (y ∷ ys) a (b, _) e = absurd (ground arith)
split_at_dash (x ∷ xs) [] (a, _) b e = absurd (ground arith)
split_at_dash (x ∷ xs) (y ∷ ys) (_, a) (_, b) e =
    let same_head : x ≡ y = ground arith in
    let rest : (xs ++ (45 ∷ _)) ≡ (ys ++ (45 ∷ _)) = ground arith in
    let (p, q) = split_at_dash xs ys a b rest in (cons_eq same_head p, q)

after_prefix : (p : Text) {u v : Text} → (p ++ u) ≡ (p ++ v) → u ≡ v
after_prefix [] e = e
after_prefix (c ∷ p) e = after_prefix p (ground arith)

itoa_injective : (m n : ℕ) → itoa m ≡ itoa n → m ≡ n
unfolding itoa
itoa_injective m n e =
    sym (value-digits (suc m) m (omega arith))
    ∙ ap (value 0) e
    ∙ value-digits (suc n) n (omega arith)

itoa-NoDash : (n : ℕ) → NoDash (itoa n)
unfolding itoa
itoa-NoDash n = Digits-NoDash _ (digits-Digits (suc n) n)

-- Different map tasks, or different reduce tasks, have different intermediate files.
pub reduce_name_injective :
    (job : Text) (m r m' r' : ℕ) → reduce_name job m r ≡ reduce_name job m' r' → (m ≡ m') × (r ≡ r')
unfolding reduce_name
reduce_name_injective job m r m' r' e =
    let names = after_prefix dash (after_prefix job (after_prefix mrtmp e)) in
    let (p, q) = split_at_dash (itoa m) (itoa m') (itoa-NoDash m) (itoa-NoDash m') names in
    (itoa_injective m m' p, itoa_injective r r' q)

pub merge_name_injective : (job : Text) (r r' : ℕ) → merge_name job r ≡ merge_name job r' → r ≡ r'
unfolding merge_name
merge_name_injective job r r' e =
    itoa_injective r r' (after_prefix dash_res (after_prefix job (after_prefix mrtmp e)))

itoa-Digits : (n : ℕ) → Digits (itoa n)
unfolding itoa
itoa-Digits n = digits-Digits (suc n) n

Digits-high : (c : ℕ) (cs : Text) → Digits (c ∷ cs) → c ≤ 57
Digits-high c cs (low, high, rest) = high

no_res : (m : ℕ) → (114 ∷ 101 ∷ 115 ∷ []) ≢ itoa m
no_res m e =
    let high = Digits-high 114 (101 ∷ 115 ∷ []) (subst Digits (sym e) (itoa-Digits m)) in
    absurd (omega arith)

pub merge_name≢reduce_name : (job : Text) (r m r' : ℕ) → merge_name job r ≢ reduce_name job m r'
unfolding merge_name reduce_name
merge_name≢reduce_name job r m r' e =
    let names = after_prefix job (after_prefix mrtmp e) in
    let (res, _) =
      split_at_dash (114 ∷ 101 ∷ 115 ∷ []) (itoa m) (omega arith, (omega arith, (omega arith, tt)))
        (itoa-NoDash m) (after_prefix dash names) in
    no_res m res
