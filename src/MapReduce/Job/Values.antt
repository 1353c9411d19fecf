-- ===== src/MapReduce/Job/Values.antt =====
-- The values of a key through the maps, sorts and partitions of a job.
use mathlib.Core.List.{append-nil}
use distributed_systems_labs.Base.{
  ℕ, zero, suc, ◌%◌, ◌≡◌, ◌≢◌, refl, sym, ap, ◌∙◌, true, false, List, [], ◌∷◌, ◌++◌, Text,
  same_text, less_text, same_text→eq, same_text_refl, if◌then◌else◌, ◌==◌, arith, Bool-cases, inl,
  inr, ==→eq,
}
use distributed_systems_labs.MapReduce.Types.{KeyValue, Json}
use distributed_systems_labs.MapReduce.Map.{ihash}
use distributed_systems_labs.MapReduce.Map.Partition.{partition}
use distributed_systems_labs.MapReduce.Reduce.Groups.{values_of}
use distributed_systems_labs.MapReduce.Reduce.Task.{concat_below}
use distributed_systems_labs.MapReduce.Job.{put, put_all, insert_key, sort_keys}

values_of-put_same :
    (key value : Text) (kvs : List KeyValue)
    → values_of key kvs ≡ []
    → values_of key (put key value kvs) ≡ value ∷ []
unfolding put
values_of-put_same key value [] h = rw (same_text_refl key) refl
values_of-put_same key value (kv ∷ kvs) h = elim (Bool-cases (same_text kv.key key)) [
  | inl equal ↦ absurd (taken (rw equal at h))
  | inr other ↦ rw other (rw other (values_of-put_same key value kvs (rw other at h)))
]
  where
    taken : {v : Text} {vs : List Text} → (v ∷ vs) ≡ [] → ⊥
    taken e = ground arith

values_of-put_other :
    (key new value : Text) (kvs : List KeyValue)
    → same_text new key ≡ false
    → values_of key (put new value kvs) ≡ values_of key kvs
unfolding put
values_of-put_other key new value [] h = rw h refl
values_of-put_other key new value (kv ∷ kvs) h = elim (Bool-cases (same_text kv.key new)) [
  | inl equal ↦
      let e = same_text→eq kv.key new equal in
      rw equal (rw (h, ap (λ k. same_text k key) e ∙ h) refl)
  | inr other ↦ rw other (
      ap (λ vs. if same_text kv.key key then kv.value ∷ vs else vs)
        (values_of-put_other key new value kvs h))
]

pub values_of-put_none :
    (key : Text) (more kvs : List KeyValue)
    → values_of key more ≡ []
    → values_of key (put_all more kvs) ≡ values_of key kvs
unfolding put_all
values_of-put_none key [] kvs h = refl
values_of-put_none key (kv ∷ more) kvs h = elim (Bool-cases (same_text kv.key key)) [
  | inl equal ↦ absurd (taken (rw equal at h))
  | inr other ↦
      values_of-put_none key more (put kv.key kv.value kvs) (rw other at h)
      ∙ values_of-put_other key kv.key kv.value kvs other
]
  where
    taken : {v : Text} {vs : List Text} → (v ∷ vs) ≡ [] → ⊥
    taken e = ground arith

-- A key with one value, that the map does not have yet, gets that value.
pub values_of-put_one :
    (key value : Text) (more kvs : List KeyValue)
    → values_of key more ≡ value ∷ []
    → values_of key kvs ≡ []
    → values_of key (put_all more kvs) ≡ value ∷ []
unfolding put_all
values_of-put_one key value [] kvs h free = absurd (ground arith)
values_of-put_one key value (kv ∷ more) kvs h free = elim (Bool-cases (same_text kv.key key)) [
  | inl equal ↦
      let e = same_text→eq kv.key key equal in
      let h' : (kv.value ∷ values_of key more) ≡ (value ∷ []) = rw equal at h in
      let rest : values_of key more ≡ [] = ground arith in
      let same_value : kv.value ≡ value = ground arith in
      values_of-put_none key more (put kv.key kv.value kvs) rest
      ∙ ap (λ k. values_of key (put k kv.value kvs)) e
      ∙ values_of-put_same key kv.value kvs free
      ∙ ap (λ v. v ∷ []) same_value
  | inr other ↦
      values_of-put_one key value more (put kv.key kv.value kvs) (rw other at h)
        (values_of-put_other key kv.key kv.value kvs other ∙ free)
]

less_text_irreflexive : (s : Text) → less_text s s ≡ false
less_text_irreflexive [] = refl
less_text_irreflexive (a ∷ s) = ground (arith, less_text_irreflexive s)

not_before :
    (a b key : Text) → less_text a b ≡ true → same_text a key ≡ true → same_text b key ≡ false
not_before a b key less equal = elim (Bool-cases (same_text b key)) [
  | inl also ↦
      let e = same_text→eq a key equal in
      let e' = same_text→eq b key also in
      let itself : less_text key key ≡ true =
        sym (ap (λ x. less_text x b) e ∙ ap (less_text key) e') ∙ less in
      absurd (ground (arith, less_text_irreflexive key))
  | inr differs ↦ differs
]

values_of-insert_key :
    (key : Text) (kv : KeyValue) (kvs : List KeyValue)
    → values_of key (insert_key kv kvs) ≡ values_of key (kv ∷ kvs)
unfolding insert_key
values_of-insert_key key kv [] = refl
values_of-insert_key key kv (other ∷ kvs) = elim (Bool-cases (less_text other.key kv.key)) [
  | inl later ↦ rw later (elim (Bool-cases (same_text other.key key)) [
    | inl equal ↦
        let apart : same_text kv.key key ≡ false = not_before other.key kv.key key later equal in
        rw (equal, apart)
          (ap (λ vs. other.value ∷ vs) (values_of-insert_key key kv kvs ∙ rw apart refl))
    | inr differs ↦ rw (differs, values_of-insert_key key kv kvs) refl
  ])
  | inr first ↦ rw first refl
]

pub values_of-sort_keys :
    (key : Text) (kvs : List KeyValue) → values_of key (sort_keys kvs) ≡ values_of key kvs
unfolding sort_keys
values_of-sort_keys key [] = refl
values_of-sort_keys key (kv ∷ kvs) =
    values_of-insert_key key kv (sort_keys kvs)
    ∙ ap (λ vs. if same_text kv.key key then kv.value ∷ vs else vs) (values_of-sort_keys key kvs)

test_refl : (n : ℕ) → (n == n) ≡ true
test_refl n = ground arith

values_of-append :
    (key : Text) (xs ys : List KeyValue)
    → values_of key (xs ++ ys) ≡ values_of key xs ++ values_of key ys
values_of-append key [] ys = refl
values_of-append key (x ∷ xs) ys = elim (Bool-cases (same_text x.key key)) [
  | inl equal ↦ rw equal (ap (λ vs. x.value ∷ vs) (values_of-append key xs ys))
  | inr other ↦ rw other (values_of-append key xs ys)
]

-- Lists that agree on a key, task by task, agree on it.
pub values_of-concat :
    (key : Text) (n : ℕ) (f g : ℕ → List KeyValue)
    → ((m : ℕ) → values_of key (f m) ≡ values_of key (g m))
    → values_of key (concat_below n f) ≡ values_of key (concat_below n g)
values_of-concat key zero f g h = refl
values_of-concat key (suc n) f g h =
    values_of-append key (concat_below n f) (f n)
    ∙ appended (values_of-concat key n f g h) (h n)
    ∙ sym (values_of-append key (concat_below n g) (g n))
  where
    appended : {a b c d : List Text} → a ≡ b → c ≡ d → a ++ c ≡ b ++ d
    appended p q = cc

pub concat-none : (key : Text) (n : ℕ) → values_of key (concat_below n (λ m. [])) ≡ []
concat-none key zero = refl
concat-none key (suc n) =
    values_of-append key (concat_below n (λ m. [])) [] ∙ append-nil _ ∙ concat-none key n

module _ (json : Json) (sum32 : Text → ℕ) where
  pub values_of-partition :
      (key : Text) (n : ℕ) (kvs : List KeyValue)
      → values_of key (partition json sum32 n (ihash sum32 key % n) kvs) ≡ values_of key kvs
  values_of-partition key n [] = refl
  values_of-partition key n (kv ∷ kvs) = elim (Bool-cases (same_text kv.key key)) [
    | inl equal ↦
        let e = same_text→eq kv.key key equal in
        let mine : (ihash sum32 kv.key % n == ihash sum32 key % n) ≡ true =
          ap (λ k. ihash sum32 k % n == ihash sum32 key % n) e ∙ test_refl (ihash sum32 key % n) in
        rw mine (rw equal (ap (λ vs. kv.value ∷ vs) (values_of-partition key n kvs)))
    | inr other ↦ elim (Bool-cases (ihash sum32 kv.key % n == ihash sum32 key % n)) [
      | inl mine ↦ rw (mine, other) (values_of-partition key n kvs)
      | inr theirs ↦ rw (theirs, other) (values_of-partition key n kvs)
    ]
  ]

  pub values_of-elsewhere :
      (key : Text) (n r : ℕ) (kvs : List KeyValue)
      → ihash sum32 key % n ≢ r
      → values_of key (partition json sum32 n r kvs) ≡ []
  values_of-elsewhere key n r [] h = refl
  values_of-elsewhere key n r (kv ∷ kvs) h = elim (Bool-cases (ihash sum32 kv.key % n == r)) [
    | inl here ↦
        let other : same_text kv.key key ≡ false = elim (Bool-cases (same_text kv.key key)) [
          | inl equal ↦ absurd (
              h (
                ap (λ k. ihash sum32 k % n) (sym (same_text→eq kv.key key equal)) ∙ ==→eq _ _ here))
          | inr differs ↦ differs
        ] in
        rw here (rw other (values_of-elsewhere key n r kvs h))
    | inr away ↦ rw away (values_of-elsewhere key n r kvs h)
  ]
