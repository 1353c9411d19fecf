-- ===== src/ShardMaster/Maps.antt =====
-- Lemmas on association lists: what a write or a deletion does to the keys and to a lookup.
use distributed_systems_labs.Base.{
  ℕ, ◌+◌, ◌≡◌, refl, ◌≢◌, inl, inr, false, none, some, List, [], ◌∷◌, arith, ◌==◌, if◌then◌else◌,
  Bool-cases, one, occ, elem, IsDistinct, elem→occ, elem-false,
}
use distributed_systems_labs.ShardMaster.Types.{keys, put, remove, find}

module _ {ℓ} {V : Type ℓ} where
  pub find-put :
      (k : ℕ) (v : V) (j : ℕ) (m : List (ℕ × V))
      → find j (put k v m) ≡ (if k == j then some v else find j m)
  unfolding find put
  find-put k v j [] = refl
  find-put k v j ((i, w) ∷ m) = ground (arith, find-put k v j m)

  pub find-remove :
      (k j : ℕ) (m : List (ℕ × V)) → find j (remove k m) ≡ (if k == j then none else find j m)
  unfolding find remove
  find-remove k j [] = ground arith
  find-remove k j ((i, w) ∷ m) = ground (arith, find-remove k j m)

  pub occ-put :
      (k : ℕ) (v : V) (g : ℕ) (m : List (ℕ × V))
      → occ g (keys (put k v m)) ≡ occ g (keys m) + (if elem k (keys m) then 0 else one (k == g))
  unfolding put
  occ-put k v g [] = omega arith
  occ-put k v g ((i, w) ∷ m) = ground (arith, occ-put k v g m)

  pub occ-remove :
      (k g : ℕ) (m : List (ℕ × V))
      → occ g (keys (remove k m)) ≡ (if k == g then 0 else occ g (keys m))
  unfolding remove
  occ-remove k g [] = ground arith
  occ-remove k g ((i, w) ∷ m) = ground (arith, occ-remove k g m)

  pub put-IsDistinct :
      (k : ℕ) (v : V) (m : List (ℕ × V)) → IsDistinct (keys m) → IsDistinct (keys (put k v m))
  put-IsDistinct k v m d g = ground (arith, occ-put k v g m, d g, elem-false k (keys m))

  pub remove-IsDistinct :
      (k : ℕ) (m : List (ℕ × V)) → IsDistinct (keys m) → IsDistinct (keys (remove k m))
  remove-IsDistinct k m d g = ground (arith, occ-remove k g m, d g)

not_elem : (g : ℕ) (xs : List ℕ) → occ g xs ≡ 0 → elem g xs ≡ false
not_elem g xs h = elim (Bool-cases (elem g xs)) [
  | inl inside ↦ absurd (omega (arith, elem→occ g xs inside))
  | inr outside ↦ outside
]

-- The ids of a map are distinct, and none is 0.
pub record Ids {ℓ} {V : Type ℓ} (m : List (ℕ × V)) : Type 0 where
  pub distinct : IsDistinct (keys m)
  pub no_zero : elem 0 (keys m) ≡ false

pub put-Ids {ℓ} : {V : Type ℓ} (k : ℕ) (v : V) (m : List (ℕ × V)) → k ≢ 0 → Ids m → Ids (put k v m)
put-Ids k v m h ids = record {
  distinct = put-IsDistinct k v m ids.distinct;
  no_zero =
      not_elem 0 (keys (put k v m))
        (ground (arith, occ-put k v 0 m, elem-false 0 (keys m) ids.no_zero));
}

pub remove-Ids {ℓ} : {V : Type ℓ} (k : ℕ) (m : List (ℕ × V)) → Ids m → Ids (remove k m)
remove-Ids k m ids = record {
  distinct = remove-IsDistinct k m ids.distinct;
  no_zero =
      not_elem 0 (keys (remove k m))
        (ground (arith, occ-remove k 0 m, elem-false 0 (keys m) ids.no_zero));
}
