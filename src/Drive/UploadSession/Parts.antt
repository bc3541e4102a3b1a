-- ===== src/Drive/UploadSession/Parts.antt =====
-- How many parts the server counts for a file.
use terab.Base.{ℕ, ◌-◌, ◌*◌, ◌≤◌, ◌<◌, arith}
use terab.Drive.UploadSession.{
  part_size_for, part_count_for, ceil_div, default_part_size, max_file_size,
}

-- `ceil_div a b` is the least number of pieces of size `b` that hold `a`.
pub ceil_div_lem : (a b : ℕ) → 0 < a → 0 < b → (a ≤ ceil_div a b * b) × ((ceil_div a b - 1) * b < a)
ceil_div_lem a b ha hb = grind arith

pub ceil_div_pos : (a b : ℕ) → 0 < a → 0 < b → 0 < ceil_div a b
ceil_div_pos a b ha hb = grind arith

pub ceil_div-le : (a b k : ℕ) → 0 < b → a ≤ k * b → ceil_div a b ≤ k
ceil_div-le a b k hb h = grind arith

part_size-le : (size : ℕ) → size ≤ 9000 * part_size_for size
unfolding part_size_for
part_size-le size = omega arith

part_size_pos : (size : ℕ) → 0 < part_size_for size
unfolding part_size_for
part_size_pos size = omega arith

pub part_size_min : (size : ℕ) → default_part_size ≤ part_size_for size
unfolding part_size_for
part_size_min size = omega arith

pub part_size_max : (size : ℕ) → size ≤ max_file_size → part_size_for size ≤ default_part_size
unfolding part_size_for
part_size_max size h = omega arith

-- The count is the least that holds a file that is not empty at the counted size, and at most 9000,
-- so that the limit of 10000 parts refuses none.
pub part_count_lem :
    (size : ℕ)
    → 0 < size
    → (0 < part_count_for size)
      × (part_count_for size ≤ 9000)
      × (size ≤ part_count_for size * part_size_for size)
      × ((part_count_for size - 1) * part_size_for size < size)
unfolding part_count_for
part_count_lem size h =
    let few = ceil_div-le size (part_size_for size) 9000 (part_size_pos size) (part_size-le size) in
    let (holds, no_more) = ceil_div_lem size (part_size_for size) h (part_size_pos size) in
    (some_part, few, holds, no_more)
  where
    some_part : 0 < ceil_div size (part_size_for size)
    some_part = ceil_div_pos size (part_size_for size) h (part_size_pos size)
