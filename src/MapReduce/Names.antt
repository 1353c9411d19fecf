-- ===== src/MapReduce/Names.antt =====
-- src/mapreduce/common.go: reduceName and mergeName, with strconv.Itoa.
pub mod Distinct
use distributed_systems_labs.Base.{
  ℕ, zero, suc, ◌+◌, ◌/◌, ◌%◌, List, [], ◌∷◌, ◌++◌, ltb, if◌then◌else◌, Text,
}

-- The decimal digits of a number; `fuel` is at least their number.
unfoldable pub digits : ℕ → ℕ → Text
digits zero n = []
digits (suc fuel) n =
    let rest = digits fuel (n / 10) in
    if ltb n 10 then (48 + n) ∷ [] else rest ++ (48 + n % 10) ∷ []

-- strconv.Itoa
unfoldable pub itoa : ℕ → Text
unfolding digits
itoa n = digits (suc n) n

-- "mrtmp."
abbrev pub mrtmp : Text
mrtmp = 109 ∷ 114 ∷ 116 ∷ 109 ∷ 112 ∷ 46 ∷ []

abbrev pub dash : Text
dash = 45 ∷ []

-- "-res-"
abbrev pub dash_res : Text
dash_res = 45 ∷ 114 ∷ 101 ∷ 115 ∷ 45 ∷ []

unfoldable pub reduce_name : Text → ℕ → ℕ → Text
unfolding itoa
reduce_name job_name map_task reduce_task =
    mrtmp ++ (job_name ++ (dash ++ (itoa map_task ++ (dash ++ itoa reduce_task))))

unfoldable pub merge_name : Text → ℕ → Text
unfolding itoa
merge_name job_name reduce_task = mrtmp ++ (job_name ++ (dash_res ++ itoa reduce_task))

-- The file that merge writes.
unfoldable pub result_name : Text → Text
result_name job_name = mrtmp ++ job_name
