-- ===== src/Transfer.antt =====
-- Commands that move bytes on the host: `cvk_rectangle_copier` of src/queue.hpp and
-- src/queue.cpp, and the `do_action` of the commands that copy rectangles and fill buffers.
pub mod Jobs
pub mod Grid
pub mod Rect
pub mod Roundtrip
pub mod Fill
mod Tests
use clvk.Common.{
  ℕ, zero, suc, ◌+◌, ◌-◌, ◌*◌, ◌<◌, ◌≤◌, Bool, true, false, ◌&&◌, not, List, [], ◌∷◌, Option, none,
  some, ◌==◌, if◌then◌else◌, ltb, leb, u64,
}
use clvk.Codes.{Code, out_of_resources, invalid_operation, success}

-- The bytes of the host's memory, by address.
abbrev pub Memory : Type 0
Memory = ℕ → ℕ

-- `memcpy(dst, src, n)`.
unfoldable pub memcpy : ℕ → ℕ → ℕ → Memory → Memory
memcpy dst src n m i = if leb dst i && ltb i (dst + n) then m (src + (i - dst)) else m i

-- A `const size_t*` of three numbers.
pub record Triple : Type 0 where
  pub x : ℕ
  pub y : ℕ
  pub z : ℕ

-- `rectangle`.
pub record Rectangle : Type 0 where
  pub origin : Triple
  pub slice_pitch : ℕ
  pub row_pitch : ℕ
  pub elem_size : ℕ

unfoldable pub get_row_offset : Rectangle → ℕ → ℕ → ℕ
get_row_offset r slice row = u64 (
    r.slice_pitch * (r.origin.z + slice)
    + r.row_pitch * (r.origin.y + row)
    + r.origin.x * r.elem_size)

-- `cvk_rectangle_copier`.
pub record Copier : Type 0 where
  pub a_origin : Triple
  pub a_row_pitch : ℕ
  pub a_slice_pitch : ℕ
  pub b_origin : Triple
  pub b_row_pitch : ℕ
  pub b_slice_pitch : ℕ
  pub region : Triple
  pub elem_size : ℕ

unfoldable pub initialize_pitch : ℕ → ℕ → ℕ
initialize_pitch default_pitch region_pitch =
    if default_pitch == 0 then region_pitch else default_pitch

-- The constructor of `cvk_rectangle_copier`.
unfoldable pub new_copier : Triple → Triple → Triple → ℕ → ℕ → ℕ → ℕ → ℕ → Copier
new_copier a_origin b_origin region a_row_pitch a_slice_pitch b_row_pitch b_slice_pitch elem_size =
    let a_row = initialize_pitch a_row_pitch region.x in
    let b_row = initialize_pitch b_row_pitch region.x in
    record {
      a_origin = a_origin;
      a_row_pitch = a_row;
      a_slice_pitch = initialize_pitch a_slice_pitch (u64 (a_row * region.y));
      b_origin = b_origin;
      b_row_pitch = b_row;
      b_slice_pitch = initialize_pitch b_slice_pitch (u64 (b_row * region.y));
      region = region;
      elem_size = elem_size;
    }

pub data Direction : Type 0 where
  a_to_b b_to_a : Direction

abbrev pub rectangle_a : Copier → Rectangle
rectangle_a c = record {
  origin = c.a_origin;
  slice_pitch = c.a_slice_pitch;
  row_pitch = c.a_row_pitch;
  elem_size = c.elem_size;
}

abbrev pub rectangle_b : Copier → Rectangle
rectangle_b c = record {
  origin = c.b_origin;
  slice_pitch = c.b_slice_pitch;
  row_pitch = c.b_row_pitch;
  elem_size = c.elem_size;
}

abbrev pub source : Direction → Copier → Rectangle
source a_to_b c = rectangle_a c
source b_to_a c = rectangle_b c

abbrev pub target : Direction → Copier → Rectangle
target a_to_b c = rectangle_b c
target b_to_a c = rectangle_a c

abbrev pub pointer_offset : ℕ → ℕ → ℕ
pointer_offset p n = u64 (p + n)

-- The bytes of a row.
abbrev pub row_width : Copier → ℕ
row_width c = u64 (c.region.x * c.elem_size)

module _ (dir : Direction) (c : Copier) (src_base dst_base : ℕ) where
  abbrev pub row_target : ℕ → ℕ → ℕ
  row_target slice row = pointer_offset dst_base (get_row_offset (target dir c) slice row)

  abbrev pub row_source : ℕ → ℕ → ℕ
  row_source slice row = pointer_offset src_base (get_row_offset (source dir c) slice row)

  -- The inner loop: `n` rows from `row` on.
  unfoldable pub copy_rows : ℕ → ℕ → ℕ → Memory → Memory
  copy_rows zero slice row m = m
  copy_rows (suc n) slice row m =
      copy_rows n slice (row + 1)
        (memcpy (row_target slice row) (row_source slice row) (row_width c) m)

  -- The outer loop: `n` slices from `slice` on.
  unfoldable pub copy_slices : ℕ → ℕ → Memory → Memory
  copy_slices zero slice m = m
  copy_slices (suc n) slice m = copy_slices n (slice + 1) (copy_rows c.region.y slice 0 m)

  unfoldable pub do_copy : Memory → Memory
  do_copy m = copy_slices c.region.z 0 m

-- The types of command that `cvk_command_copy_host_buffer_rect` is made for, and any other.
pub data CommandType : Type 0 where
  read_buffer_rect write_buffer_rect read_image write_image other_command : CommandType

-- `cvk_command_copy_host_buffer_rect::do_action`, with `success` for CL_COMPLETE, which is the same
-- number: the buffer, if it can be mapped, is at `host_va`.
unfoldable pub copy_host_buffer_rect : Option ℕ → CommandType → Copier → ℕ → Memory → Code × Memory
copy_host_buffer_rect none type c hostptr m = (out_of_resources, m)
copy_host_buffer_rect (some host_va) read_buffer_rect c hostptr m =
    (success, do_copy a_to_b c host_va hostptr m)
copy_host_buffer_rect (some host_va) read_image c hostptr m =
    (success, do_copy a_to_b c host_va hostptr m)
copy_host_buffer_rect (some host_va) write_buffer_rect c hostptr m =
    (success, do_copy b_to_a c hostptr host_va m)
copy_host_buffer_rect (some host_va) write_image c hostptr m =
    (success, do_copy b_to_a c hostptr host_va m)
copy_host_buffer_rect (some host_va) other_command c hostptr m = (invalid_operation, m)

-- `cvk_command_copy_buffer_rect::do_action`.
unfoldable pub copy_buffer_rect : Option ℕ → Option ℕ → Copier → Memory → Code × Memory
copy_buffer_rect none dst c m = (out_of_resources, m)
copy_buffer_rect (some s) none c m = (out_of_resources, m)
copy_buffer_rect (some s) (some d) c m = (success, do_copy a_to_b c s d m)

-- `memset(dst, b, n)`.
unfoldable pub memset : ℕ → ℕ → ℕ → Memory → Memory
memset dst b n m i = if leb dst i && ltb i (dst + n) then b else m i

-- A pattern of `n` bytes, written at `dst`.
unfoldable pub put_pattern : ℕ → Memory → ℕ → Memory → Memory
put_pattern dst pattern n m i = if leb dst i && ltb i (dst + n) then pattern (i - dst) else m i

-- The loop of `memset_multi`, and that over the other sizes of pattern. Each turn but one of a
-- pattern of no bytes takes the address up, so the number of bytes is fuel enough.
unfoldable pub fill_loop : ℕ → ℕ → ℕ → Memory → ℕ → Memory → Memory
fill_loop zero dst end pattern n m = m
fill_loop (suc fuel) dst end pattern n m =
    let rest = fill_loop fuel (dst + n) end pattern n (put_pattern dst pattern n m) in
    if ltb dst end then rest else m

-- `cvk_command_fill_buffer::do_action`. The pattern is the bytes of `m_pattern`.
unfoldable pub fill_buffer : Option ℕ → ℕ → ℕ → Memory → ℕ → Memory → Code × Memory
fill_buffer none offset size pattern pattern_size m = (out_of_resources, m)
fill_buffer (some host_va) offset size pattern pattern_size m =
    let begin = pointer_offset host_va offset in
    let end = pointer_offset begin size in
    if pattern_size == 1
    then (success, memset begin (pattern 0) size m)
    else (success, fill_loop size begin end pattern pattern_size m)
