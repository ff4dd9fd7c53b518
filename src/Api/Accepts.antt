-- ===== src/Api/Accepts.antt =====
-- What a call that src/api.cpp accepts may be relied on to satisfy.
use clvk.Common.{
  zero, suc, List, [], ◌∷◌, get_or, none, ℕ, ◌+◌, ◌^◌, ◌≤◌, ◌<◌, ◌≡◌, ◌⊎◌, Bool, true, false, ◌||◌,
  some, arith, u64, u64-id,
}
use clvk.Dispatch.{NdRange, is_uniform}
use clvk.Api.{
  all_valid, is_valid_event, EventObject, is_valid_event_wait_list, elements, MemFlags, MemObject,
  QueueObject, Handle, WaitList, accepted,
}
use clvk.Api.Buffers.{MapFlags, enqueue_map_buffer, check_range, buffer_flags_valid, inherit_flags}
use clvk.Api.Commands.{wait_for_events, KernelObject, enqueue_ndrange_kernel, check_kernel}

-- A map that clEnqueueMapBuffer accepts is not empty, and lies inside its buffer when its end is
-- a `size_t`.
map_buffer_in_bounds :
    (q : Handle QueueObject) (b : MemObject) (f : MapFlags) (offset size : ℕ) (w : WaitList)
    → enqueue_map_buffer q (some b) f offset size w ≡ accepted
    → offset + size < 2 ^ 64
    → (0 < size) × (offset + size ≤ b.size)
unfolding enqueue_map_buffer check_range
map_buffer_in_bounds q b f offset zero w h small = ground arith
map_buffer_in_bounds q b f offset (suc n) w h small =
    let same : u64 (offset + suc n) ≡ offset + suc n = u64-id small in ground arith

-- A kernel that is accepted has a number of dimensions that the device supports, and a range of
-- whole work-groups unless the device supports others.
pub ndrange_kernel_supported :
    (max_dims : ℕ) (non_uniform : Bool) (q : Handle QueueObject) (k : KernelObject) (dims : ℕ)
    (r : NdRange) (w : WaitList)
    → enqueue_ndrange_kernel max_dims non_uniform q (some k) dims r w ≡ accepted
    → ((1 ≤ dims) × (dims ≤ max_dims)) × ((non_uniform ≡ true) ⊎ (is_uniform r ≡ true))
unfolding enqueue_ndrange_kernel check_kernel
ndrange_kernel_supported m u q k dims r w h = ground arith

all_valid_at :
    (n : ℕ) (es : List (Handle EventObject)) (i : ℕ)
    → all_valid n es ≡ true
    → i < n
    → is_valid_event (get_or es i none) ≡ true
unfolding all_valid
all_valid_at zero es i h lt = absurd (omega arith)
all_valid_at (suc n) [] i h lt = ground arith
all_valid_at (suc n) (e ∷ es) zero h lt = ground arith
all_valid_at (suc n) (e ∷ es) (suc i) h lt = all_valid_at n es i (ground arith) (omega arith)

-- A list of events that clWaitForEvents accepts, or that is valid as a wait list of another call,
-- has as many events as it says, and each of them is valid; the former is not empty.
pub wait_list_valid :
    (w : WaitList)
    → (wait_for_events w ≡ accepted) ⊎ (is_valid_event_wait_list w ≡ true)
    → ((i : ℕ) → i < w.num → is_valid_event (get_or (elements w.events) i none) ≡ true)
      × (wait_for_events w ≡ accepted → 0 < w.num)
unfolding wait_for_events is_valid_event_wait_list
wait_list_valid w h =
    let valid : all_valid w.num (elements w.events) ≡ true = ground arith in
    ((λ i lt. all_valid_at w.num (elements w.events) i valid lt), ground arith)

-- The flags of a sub-buffer are valid when its parent's and those that it is created with are,
-- and the latter have no flag on host memory.
pub inherit_flags_valid :
    (parent f : MemFlags)
    → buffer_flags_valid parent ≡ true
    → buffer_flags_valid f ≡ true
    → (f.use_host_ptr || (f.alloc_host_ptr || f.copy_host_ptr)) ≡ false
    → buffer_flags_valid (inherit_flags parent f) ≡ true
unfolding buffer_flags_valid inherit_flags
inherit_flags_valid parent f hp hf hh = ground arith
