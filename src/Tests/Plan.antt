-- ===== src/Tests/Plan.antt =====
-- internal/plan/plan.go on small files.
use bigoci.Prelude.{
  add64, sub64, mul64, pos, negsuc, max_int64, ◌≤◌, ◌<◌, ◌≡◌, refl, ◌⊎◌, none, some, arith,
}
use bigoci.Plan.{
  Plan, ok, err, too_many_parts, negative_file_size, part_size_not_positive, count_parts,
  smallest_part_size, new, new_checked, part, part_at, parts,
}
use bigoci.Plan.Count.{NewSpec, new-NewSpec}
use bigoci.Plan.Tiling.{Tiles, parts-Tiles}
use bigoci.Plan.Smallest.{too_many_parts-smallest}

abbrev ten_by_four : Plan
ten_by_four = record { file_size = 10; part_size = 4; num_parts = 3 }

new_ten : new (pos 10) (pos 4) ≡ ok ten_by_four
unfolding new new_checked count_parts add64
new_ten = refl

new_empty : new (pos 0) (pos 4) ≡ ok (record { file_size = 0; part_size = 4; num_parts = 1 })
unfolding new new_checked count_parts add64
new_empty = refl

new_negative : new (negsuc 0) (pos 4) ≡ err negative_file_size
unfolding new
new_negative = refl

new_no_part_size : new (pos 10) (negsuc 3) ≡ err part_size_not_positive
unfolding new
new_no_part_size = refl

new_too_many : new (pos 10000) (pos 1) ≡ err (too_many_parts 3)
unfolding new new_checked count_parts smallest_part_size add64
new_too_many = refl

-- The whole int64 range: one part more than rounding up could compute without overflow.
new_largest :
    new (pos max_int64) (pos max_int64)
    ≡ ok (record { file_size = max_int64; part_size = max_int64; num_parts = 1 })
unfolding new new_checked count_parts add64
new_largest = refl

last_part : part_at ten_by_four (pos 2) ≡ some (record { index = 2; offset = pos 8; size = pos 2 })
unfolding part_at part mul64 sub64
last_part = refl

part_out_of_range : part_at ten_by_four (pos 3) ≡ none
unfolding part_at
part_out_of_range = refl

new-NewSpec_example : NewSpec (pos 10000) (pos 1) (new (pos 10000) (pos 1))
new-NewSpec_example = new-NewSpec (pos 10000) (pos 1) (omega arith)

parts-Tiles_example : (pos 10 ≡ pos 10) × Tiles 4 10 0 0 (parts ten_by_four)
parts-Tiles_example = parts-Tiles (pos 10) (pos 4) ten_by_four (omega arith) (omega arith) new_ten

too_many_parts-smallest_example :
    (0 < 3)
    × ((q : Plan) × (new (pos 10000) (pos 3) ≡ ok q))
    × ((3 ≤ 2) ⊎ (new (pos 10000) (pos 2) ≡ err (too_many_parts 3)))
too_many_parts-smallest_example =
    too_many_parts-smallest 10000 1 3 2 (omega arith) (omega arith) new_too_many (omega arith)
