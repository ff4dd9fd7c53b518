-- ===== src/Dispatch.antt =====
-- The kernel dispatch of src/queue.cpp and `cvk_ndrange` of src/queue.hpp. Effects on the command
-- buffer are a trace: the regions handed to `dispatch_uniform_region_within_vklimits`, in order.
pub mod Region
pub mod Split
pub mod Pieces
pub mod Iterate
pub mod Total
mod Tests
use clvk.Common.{
  ℕ, zero, suc, ◌+◌, ◌-◌, ◌*◌, ◌/◌, ◌%◌, ◌^◌, Bool, true, false, ◌&&◌, ◌||◌, not, List, [], ◌∷◌,
  ◌++◌, Option, none, some, ltb, ◌==◌, if◌then◌else◌, u32, u64, sub64, ceil_div, min,
}
use clvk.Codes.{Code, success, invalid_work_group_size, invalid_work_item_size}

-- A `std::array<uint32_t, 3>`, and a `size_t[3]`.
pub record Dim3 : Type 0 where
  pub x : ℕ
  pub y : ℕ
  pub z : ℕ

abbrev pub get : Dim3 → ℕ → ℕ
get v zero = v.x
get v (suc zero) = v.y
get v (suc (suc d)) = v.z

abbrev pub put : Dim3 → ℕ → ℕ → Dim3
put v zero n = record v { x = n }
put v (suc zero) n = record v { y = n }
put v (suc (suc d)) n = record v { z = n }

-- `cvk_ndrange`.
pub record NdRange : Type 0 where
  pub offset : Dim3
  pub gws : Dim3
  pub lws : Dim3

abbrev pub narrow : Dim3 → Dim3
narrow v = record { x = u32 v.x; y = u32 v.y; z = u32 v.z }

-- The constructor at three dimensions: `size_t` values are narrowed to `uint32_t`.
pub ndrange : Dim3 → Dim3 → Dim3 → NdRange
ndrange offset gws lws = record { offset = narrow offset; gws = narrow gws; lws = narrow lws }

unfoldable pub is_uniform : NdRange → Bool
is_uniform r = (r.gws.x % r.lws.x == 0) && ((r.gws.y % r.lws.y == 0) && (r.gws.z % r.lws.z == 0))

-- The two parts of a region whose global size is not a multiple of its local size.
abbrev pub lowered : ℕ → NdRange → NdRange
lowered dim r = record r { gws = put r.gws dim (get r.gws dim - get r.gws dim % get r.lws dim) }

abbrev pub split_out : ℕ → NdRange → NdRange
split_out dim r =
    let rem = get r.gws dim % get r.lws dim in
    record r {
      gws = put r.gws dim rem;
      lws = put r.lws dim rem;
      offset = put r.offset dim (get r.gws dim - rem);
    }

-- The body of the loop over the dimensions: the region, and the regions split out of it.
pub split_dim : ℕ → NdRange → NdRange × List NdRange
split_dim dim region =
    if get region.gws dim % get region.lws dim == 0
    then (region, [])
    else (lowered dim region, split_out dim region ∷ [])

-- The loop from dimension `dim` on, with `k` dimensions to go.
pub split_dims : ℕ → ℕ → NdRange → NdRange × List NdRange
split_dims zero dim region = (region, [])
split_dims (suc k) dim region =
    let (region', out) = split_dim dim region in
    let (last, outs) = split_dims k (suc dim) region' in (last, out ++ outs)

-- The `do … while` loop over the array of regions: `done` are the regions below `stackpos`, and
-- `pending` those from `stackpos` up to `num_regions`. `none` means that the fuel ran out.
pub split_loop : ℕ → ℕ → List NdRange → List NdRange → Option (List NdRange)
split_loop fuel dims done [] = some done
split_loop zero dims done (region ∷ pending) = none
split_loop (suc fuel) dims done (region ∷ pending) =
    let (last, outs) = split_dims dims 0 region in
    split_loop fuel dims (done ++ (last ∷ [])) (pending ++ outs)

-- The first region of `build_and_dispatch_regions`.
abbrev pub whole : NdRange → NdRange
whole r = record r { offset = record { x = 0; y = 0; z = 0 } }

-- The array has room for eight regions.
abbrev pub max_regions : ℕ
max_regions = 8

pub split_regions : ℕ → NdRange → Option (List NdRange)
split_regions dims r = split_loop max_regions dims [] (whole r ∷ [])

-- Whether a group is cut off in one of the `k` dimensions from `d` on.
abbrev pub any_partial : ℕ → ℕ → NdRange → Bool
any_partial zero d r = false
any_partial (suc k) d r = not (get r.gws d % get r.lws d == 0) || any_partial k (suc d) r

-- The device limits of `VkPhysicalDeviceLimits` that the dispatch reads.
pub record DeviceLimits : Type 0 where
  pub max_count : Dim3
  pub max_size : Dim3
  pub max_invocations : ℕ

-- What was dispatched, and the code that was returned.
abbrev pub Trace : Type 0
Trace = List NdRange × Code

-- `if (err != CL_SUCCESS) return err;` between two parts.
abbrev pub then_trace : Trace → Trace → Trace
then_trace (rs, success) (ss, e) = (rs ++ ss, e)
then_trace (rs, e) _ = (rs, e)

-- The loop over the pieces from piece `i`, with `k` to go.
pub for_pieces : (ℕ → Trace) → ℕ → ℕ → Trace
for_pieces body zero i = ([], success)
for_pieces body (suc k) i = then_trace (body i) (for_pieces body k (i + 1))

-- Piece `i` of a region in the dimension `d`. The products and sums are of `size_t`.
module _ (limits : DeviceLimits) where
  abbrev pub piece : NdRange → ℕ → ℕ → ℕ
  piece region d i = u64 (i * u64 (get limits.max_count d * get region.lws d))

  abbrev pub piece_offset : NdRange → ℕ → ℕ → ℕ
  piece_offset region d i = u64 (piece region d i + get region.offset d)

  abbrev pub piece_gws : NdRange → ℕ → ℕ → ℕ
  piece_gws region d i =
      min (u64 (get limits.max_count d * get region.lws d))
        (sub64 (get region.gws d) (piece region d i))

  -- The number of pieces in dimension `d`.
  abbrev pub num_pieces : NdRange → ℕ → ℕ
  num_pieces region d = ceil_div (get region.gws d / get region.lws d) (get limits.max_count d)

  abbrev pub over_count : NdRange → ℕ → Bool
  over_count region d = ltb (get limits.max_count d) (get region.gws d / get region.lws d)

abbrev zeros : Dim3
zeros = record { x = 0; y = 0; z = 0 }

-- `within` is the code of `dispatch_uniform_region_within_vklimits`, which creates a pipeline.
module _ (within : NdRange → Code) (limits : DeviceLimits) where
  -- `dispatch_uniform_region_iterate` at the dimension `d`; at dimension 0 the piece is dispatched.
  pub iterate : NdRange → ℕ → Dim3 → Dim3 → Trace
  iterate region zero gws offset =
      for_pieces
        (λ i.
          let r =
            ndrange (put offset 0 (piece_offset limits region 0 i))
              (put gws 0 (piece_gws limits region 0 i)) region.lws in
          (r ∷ [], within r))
        (num_pieces limits region 0) 0
  iterate region (suc d) gws offset =
      for_pieces
        (λ i.
          iterate region d (put gws (suc d) (piece_gws limits region (suc d) i))
            (put offset (suc d) (piece_offset limits region (suc d) i)))
        (num_pieces limits region (suc d)) 0

  -- `dispatch_uniform_region`. The two arrays start uninitialised and are written before they are
  -- read. The product of the local sizes wraps.
  pub dispatch_uniform_region : Bool → NdRange → Trace
  dispatch_uniform_region can_split region =
      if not can_split
        && (over_count limits region 0 || over_count limits region 1 || over_count limits region 2)
      then ([], invalid_work_group_size)
      else if ltb limits.max_invocations (u32 (region.lws.x * region.lws.y * region.lws.z))
      then ([], invalid_work_group_size)
      else if ltb limits.max_size.x region.lws.x
          || ltb limits.max_size.y region.lws.y
          || ltb limits.max_size.z region.lws.z
      then ([], invalid_work_item_size)
      else iterate region 2 zeros zeros

  -- The loop that dispatches the regions.
  pub dispatch_all : Bool → List NdRange → Trace
  dispatch_all can_split [] = ([], success)
  dispatch_all can_split (r ∷ rs) =
      then_trace (dispatch_uniform_region can_split r) (dispatch_all can_split rs)

  -- `build_and_dispatch_regions`; `none` is the case that the fuel of the split ran out.
  pub build_and_dispatch_regions : Bool → ℕ → NdRange → Option Trace
  build_and_dispatch_regions can_split dims r =
      if not can_split && any_partial dims 0 r
      then some ([], invalid_work_group_size)
      else elim (split_regions dims r) [ none ↦ none | some rs ↦ some (dispatch_all can_split rs) ]
