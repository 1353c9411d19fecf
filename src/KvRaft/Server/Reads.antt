-- ===== src/KvRaft/Server/Reads.antt =====
-- src/kvraft/server.go: the store as a map.
use distributed_systems_labs.Base.{
  ◌≡◌, refl, sym, ap, ◌∙◌, inl, inr, true, some, [], ◌∷◌, arith, if◌then◌else◌, Bool-cases,
}
use distributed_systems_labs.KvRaft.Types.{Text, same_text, Store, lookup, write}

pub same_text_refl : (s : Text) → same_text s s ≡ true
same_text_refl [] = refl
same_text_refl (a ∷ s) = ground (arith, same_text_refl s)

pub same_text→eq : (s t : Text) → same_text s t ≡ true → s ≡ t
same_text→eq [] [] h = refl
same_text→eq (a ∷ s) (b ∷ t) h =
    let head : a ≡ b = ground arith in
    let tail : same_text s t ≡ true = ground arith in rw (head, same_text→eq s t tail) refl
same_text→eq [] (b ∷ t) h = absurd (ground arith)
same_text→eq (a ∷ s) [] h = absurd (ground arith)

-- After a write of a value at a key, a lookup of that key gives the value, and a lookup of any
-- other key gives what it gave before.
pub lookup-write :
    (key value other : Text) (store : Store)
    → lookup other (write key value store)
      ≡ (if same_text key other then some value else lookup other store)
unfolding lookup write
lookup-write key value other [] = refl
lookup-write key value other ((k, v) ∷ store) = elim (Bool-cases (same_text k key)) [
  | inl hit ↦
      rw (hit, same_text→eq k key hit)
        (elim (Bool-cases (same_text key other)) [
          | inl mine ↦ rw mine refl
          | inr not_mine ↦ rw not_mine refl
        ])
  | inr miss ↦ elim (Bool-cases (same_text k other)) [
    | inr pass ↦ rw (miss, pass) (lookup-write key value other store)
    | inl stop ↦
        rw (miss, stop)
          (elim (Bool-cases (same_text key other)) [
            | inr apart ↦ rw apart refl
            | inl mine ↦
                let same = same_text→eq k other stop ∙ sym (same_text→eq key other mine) in
                absurd (ground (arith, same_text_refl key, ap (λ j. same_text j key) same))
          ])
  ]
]
