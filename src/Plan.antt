-- ===== src/Plan.antt =====
-- internal/plan/plan.go: the split of a file into parts.
-- A `Plan` holds its sizes as numbers, since `New` refuses negative ones; the arithmetic on them
-- is int64 and wraps. A part keeps int64 fields, as `part` computes them.
pub mod Count
pub mod Tiling
pub mod Smallest
use bigoci.Prelude.{
  ltb, ◌==◌, if◌then◌else◌, add64, sub64, mul64, ℤ, pos, negsuc, pos_part, min_ℤ, ℕ, zero, suc, ◌+◌,
  ◌/◌, ◌%◌, ◌||◌, Option, none, some, List, [], ◌∷◌,
}

-- const MaxParts
abbrev pub max_parts : ℕ
max_parts = 4096

-- The errors of `New`; the last carries the part size that its message names.
pub data PlanError : Type 0 where
  negative_file_size : PlanError
  part_size_not_positive : PlanError
  too_many_parts : ℕ → PlanError

pub record Part : Type 0 where
  pub index : ℕ
  pub offset : ℤ
  pub size : ℤ

pub record Plan : Type 0 where
  pub file_size : ℕ
  pub part_size : ℕ
  pub num_parts : ℕ

pub data PlanResult : Type 0 where
  ok : Plan → PlanResult
  err : PlanError → PlanResult

-- int64 division, remainder and increment on numbers that are not negative
unfoldable pub count_parts : ℕ → ℕ → ℤ
count_parts file_size part_size =
    let parts = file_size / part_size in
    if parts == 0 || ltb 0 (file_size % part_size) then add64 (pos parts) (pos 1) else pos parts

unfoldable pub smallest_part_size : ℕ → ℤ
smallest_part_size file_size =
    let size = file_size / max_parts in
    if ltb 0 (file_size % max_parts) then add64 (pos size) (pos 1) else pos size

-- the two cases of `New` behind its argument checks
unfoldable pub new_checked : ℕ → ℕ → PlanResult
new_checked file_size part_size =
    let n = count_parts file_size part_size in
    if ltb max_parts (pos_part n)
    then err (too_many_parts (pos_part (smallest_part_size file_size)))
    else ok (record { file_size = file_size; part_size = part_size; num_parts = pos_part n })

unfoldable pub new : ℤ → ℤ → PlanResult
new (negsuc f) _ = err negative_file_size
new (pos f) (negsuc p) = err part_size_not_positive
new (pos f) (pos p) = if p == 0 then err part_size_not_positive else new_checked f p

-- `p.part(i)`, which checks nothing
unfoldable pub part : Plan → ℕ → Part
part p i =
    let offset = mul64 (pos i) (pos p.part_size) in
    record {
      index = i;
      offset = offset;
      size = min_ℤ (pos p.part_size) (sub64 (pos p.file_size) offset);
    }

-- `p.Part(i)`; `none` is the panic on an index out of range
unfoldable pub part_at : Plan → ℤ → Option Part
part_at p (negsuc i) = none
part_at p (pos i) = if ltb i p.num_parts then some (part p i) else none

-- the rounds of `for i := range p.numParts` that start at `i`
unfoldable pub parts_from : Plan → ℕ → ℕ → List Part
parts_from p i zero = []
parts_from p i (suc left) = part p i ∷ parts_from p (i + 1) left

-- `p.Parts()`, ranged over to its end
unfoldable pub parts : Plan → List Part
parts p = parts_from p 0 p.num_parts
