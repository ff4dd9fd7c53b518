-- ===== src/Transfer/Rect.antt =====
-- `do_copy` of src/queue.cpp moves each row of the region to its place.
use clvk.Common.{ℕ, ◌+◌, ◌*◌, ◌^◌, ◌<◌, ◌≤◌}
use clvk.Transfer.{Rectangle, Copier, Direction, source, target, row_target, row_source}
use clvk.Transfer.Jobs.{Job, Disjoint}

-- Where a row starts, in arithmetic that does not wrap.
abbrev pub place : Rectangle → ℕ → ℕ → ℕ → ℕ
place r base slice row =
    base
    + (r.slice_pitch * (r.origin.z + slice)
        + r.row_pitch * (r.origin.y + row)
        + r.origin.x * r.elem_size)

module _ (dir : Direction) (c : Copier) (src_base dst_base : ℕ) where
  -- The bytes of a row, and where it is read and written.
  abbrev pub width : ℕ
  width = c.region.x * c.elem_size

  abbrev pub from_row : ℕ → ℕ → ℕ
  from_row slice row = place (source dir c) src_base slice row

  abbrev pub to_row : ℕ → ℕ → ℕ
  to_row slice row = place (target dir c) dst_base slice row

  -- The rows lie in memory, those that are written do not overlap, and none that is written
  -- overlaps one that is read.
  pub record Fits : Type 0 where
    pub width_small : width < 2 ^ 64
    pub source_inside : (s r : ℕ) → s < c.region.z → r < c.region.y → from_row s r + width < 2 ^ 64
    pub target_inside : (s r : ℕ) → s < c.region.z → r < c.region.y → to_row s r + width < 2 ^ 64
    pub rows_apart : width ≤ (target dir c).row_pitch
    pub slices_apart : (target dir c).row_pitch * c.region.y ≤ (target dir c).slice_pitch
    pub source_apart :
        (s r t k : ℕ)
        → s < c.region.z
        → r < c.region.y
        → t < c.region.z
        → k < c.region.y
        → Disjoint width (to_row s r) (from_row t k)

  job : ℕ → ℕ → Job
  job slice row =
      (row_target dir c src_base dst_base slice row, row_source dir c src_base dst_base slice row)
