-- ===== src/MapReduce/Reduce/Groups.antt =====
-- The loop of doReduce over sorted pairs, and the values of each key.
use distributed_systems_labs.Base.{
  ℕ, zero, suc, ◌≤◌, ◌≡◌, refl, sym, ap, ◌∙◌, false, List, [], ◌∷◌, Text, same_text, less_text,
  same_text→eq, less_text_total, if◌then◌else◌, arith, Bool-cases, inl, inr, length,
}
use distributed_systems_labs.MapReduce.Types.{KeyValue, NoneBefore, Sorted}
use distributed_systems_labs.MapReduce.Reduce.{take_run, reduce_loop}

-- The values of the pairs with this key, in order.
abbrev pub values_of : Text → List KeyValue → List Text
values_of key [] = []
values_of key (kv ∷ kvs) =
    if same_text kv.key key then kv.value ∷ values_of key kvs else values_of key kvs

-- The results for a key that has these values: none, or the one that reduceF gives.
abbrev pub result_of : (Text → List Text → Text) → Text → List Text → List Text
result_of reduce_f key [] = []
result_of reduce_f key (v ∷ vs) = reduce_f key (v ∷ vs) ∷ []

-- What follows a greater key has no pair with this one.
values_of_later :
    (key first : Text) (kvs : List KeyValue)
    → NoneBefore first kvs
    → less_text first key ≡ false
    → same_text first key ≡ false
    → values_of key kvs ≡ []
values_of_later key first [] h low differ = refl
values_of_later key first (kv ∷ kvs) (a, h) low differ = elim (Bool-cases (same_text kv.key key)) [
  | inl equal ↦
      let e = same_text→eq kv.key key equal in
      let back : less_text key first ≡ false = rw e at a in
      absurd (ground (arith, less_text_total first key low back))
  | inr other ↦ rw other (values_of_later key first kvs h low differ)
]

record Taken (key : Text) (kvs : List KeyValue) (run : List Text × List KeyValue) : Type 0 where
  all_of : run.0 ≡ values_of key kvs
  gone : values_of key run.1 ≡ []
  others : (k : Text) → same_text key k ≡ false → values_of k run.1 ≡ values_of k kvs
  ordered : Sorted run.1
  shorter : length run.1 ≤ length kvs

take_run-Taken :
    (key : Text) (kvs : List KeyValue)
    → NoneBefore key kvs
    → Sorted kvs
    → Taken key kvs (take_run key kvs)
unfolding take_run
take_run-Taken key [] h s = record {
  all_of = refl;
  gone = refl;
  others = λ k d. refl;
  ordered = tt;
  shorter = omega arith;
}
take_run-Taken key (kv ∷ kvs) (low, h) (first, s) = elim (Bool-cases (same_text kv.key key)) [
  | inl equal ↦
      let t = take_run-Taken key kvs h s in
      rw equal (record {
        all_of = rw equal (ap (λ vs. kv.value ∷ vs) t.all_of);
        gone = t.gone;
        others =
            λ k d. rw (ap (λ x. same_text x k) (same_text→eq kv.key key equal) ∙ d) (t.others k d);
        ordered = t.ordered;
        shorter = omega (arith, t.shorter);
      })
  | inr other ↦ rw other (record {
    all_of = rw other (sym (values_of_later key kv.key kvs first low other));
    gone = rw other (values_of_later key kv.key kvs first low other);
    others = λ k d. refl;
    ordered = (first, s);
    shorter = omega arith;
  })
]

one_result : {a b : Text} {vs : List Text} → a ≡ b → vs ≡ [] → (a ∷ vs) ≡ (b ∷ [])
one_result e f = cc

-- If no pair comes before a pair of a lesser key, the loop of doReduce gives one pair for each key
-- that occurs, with what reduceF makes of all values of that key in their order, and no other pair.
pub reduce_loop-values :
    (reduce_f : Text → List Text → Text) (fuel : ℕ) (kvs : List KeyValue)
    → length kvs ≤ fuel
    → Sorted kvs
    → (key : Text)
    → values_of key (reduce_loop reduce_f fuel kvs) ≡ result_of reduce_f key (values_of key kvs)
unfolding reduce_loop
reduce_loop-values reduce_f zero [] h s key = refl
reduce_loop-values reduce_f zero (kv ∷ kvs) h s key = absurd (omega arith)
reduce_loop-values reduce_f (suc fuel) [] h s key = refl
reduce_loop-values reduce_f (suc fuel) (kv ∷ kvs) h (first, s) key =
    let t = take_run-Taken kv.key kvs first s in
    let rest =
      reduce_loop-values reduce_f fuel (take_run kv.key kvs).1 (omega (arith, t.shorter)) t.ordered
        key in
    elim (Bool-cases (same_text kv.key key)) [
      | inl equal ↦
          let e = same_text→eq kv.key key equal in
          let run = take_run kv.key kvs in
          let after : values_of key run.1 ≡ [] = ap (λ k. values_of k run.1) (sym e) ∙ t.gone in
          let now : reduce_f kv.key (kv.value ∷ run.0)
              ≡ reduce_f key (kv.value ∷ values_of key kvs) =
            ap (λ k. reduce_f k (kv.value ∷ run.0)) e
            ∙ ap (λ vs. reduce_f key (kv.value ∷ vs)) (t.all_of ∙ ap (λ k. values_of k kvs) e) in
          rw equal (one_result now (rest ∙ ap (result_of reduce_f key) after))
      | inr other ↦ rw other (rest ∙ ap (result_of reduce_f key) (t.others key other))
    ]
