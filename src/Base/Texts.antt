-- ===== src/Base/Texts.antt =====
-- Go strings as lists of numbers: equality and the order of `<`.
use distributed_systems_labs.Base.Tests.{◌==◌, ltb}
use Prim.Native.Nat.{ℕ}
use mathlib.Core.Path.{◌≡◌, refl}
use mathlib.Core.Bool.{Bool, true, false, ◌&&◌, ◌||◌}
use mathlib.Core.List.{List, [], ◌∷◌}
use native.Mathlib.Omega.{arith}

abbrev pub Text : Type 0
Text = List ℕ

abbrev pub same_text : Text → Text → Bool
same_text [] [] = true
same_text (a ∷ s) (b ∷ t) = (a == b) && same_text s t
same_text s t = false

-- s < t
abbrev pub less_text : Text → Text → Bool
less_text [] [] = false
less_text [] (b ∷ t) = true
less_text (a ∷ s) [] = false
less_text (a ∷ s) (b ∷ t) = ltb a b || ((a == b) && less_text s t)

cons_eq : {a b : ℕ} {s t : Text} → a ≡ b → s ≡ t → (a ∷ s) ≡ (b ∷ t)
cons_eq e f = cc

pub same_text→eq : (s t : Text) → same_text s t ≡ true → s ≡ t
same_text→eq [] [] h = refl
same_text→eq (a ∷ s) (b ∷ t) h = cons_eq (ground arith) (same_text→eq s t (ground arith))
same_text→eq [] (b ∷ t) h = absurd (ground arith)
same_text→eq (a ∷ s) [] h = absurd (ground arith)

pub same_text_refl : (s : Text) → same_text s s ≡ true
same_text_refl [] = refl
same_text_refl (a ∷ s) = ground (arith, same_text_refl s)

-- Two texts neither of which comes before the other are the same.
pub less_text_total :
    (s t : Text) → less_text s t ≡ false → less_text t s ≡ false → same_text s t ≡ true
less_text_total [] [] h k = refl
less_text_total (a ∷ s) (b ∷ t) h k = ground (arith, less_text_total s t)
less_text_total [] (b ∷ t) h k = absurd (ground arith)
less_text_total (a ∷ s) [] h k = absurd (ground arith)

pub less_text_trans :
    (s t u : Text) → less_text t s ≡ false → less_text u t ≡ false → less_text u s ≡ false
less_text_trans [] t [] h k = refl
less_text_trans [] t (c ∷ u) h k = refl
less_text_trans (a ∷ s) [] u h k = absurd (ground arith)
less_text_trans (a ∷ s) (b ∷ t) [] h k = absurd (ground arith)
less_text_trans (a ∷ s) (b ∷ t) (c ∷ u) h k = ground (arith, less_text_trans s t u)

pub less_text_asymmetric : (s t : Text) → less_text s t ≡ true → less_text t s ≡ false
less_text_asymmetric [] [] h = refl
less_text_asymmetric [] (b ∷ t) h = refl
less_text_asymmetric (a ∷ s) [] h = absurd (ground arith)
less_text_asymmetric (a ∷ s) (b ∷ t) h = ground (arith, less_text_asymmetric s t)
