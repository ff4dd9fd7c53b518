-- ===== src/KernelArgs/Tests.antt =====
-- The theorems on kernel arguments for a kernel with a number, a pointer and an image.
use clvk.Common.{ℕ, ◌≢◌, refl, true, false, List, [], ◌∷◌, none, some, arith, All}
use clvk.Codes.{success}
use clvk.Api.{MemFlags}
use clvk.KernelArgs.{
  Arg, Entry, Mem, Value, Kind, Access, create, set_arg, is_pod, is_pod_pointer, is_sampler,
  wants_image, set_pod_arg, pod_size_matches, copy, mark_enqueued,
}
use clvk.KernelArgs.Layout.{
  FitsPod, InSlots, pod_buffer_size, num_resource_slots, highest_binding, layout_fits, skips,
  is_pod_buffer,
}
use clvk.KernelArgs.Kernel.{Kernel, kernel_set_arg, set_own_arg, own_values, set_metadata}
use clvk.KernelArgs.Sets.{Call}
use clvk.KernelArgs.Isolation.{Used, kernel_set_arg_isolates}
use clvk.KernelArgs.Lifetime.{Step, InFlight, run_steps, commands, next_count, run_steps-InFlight}

abbrev arg : ℕ → ℕ → ℕ → ℕ → Kind → Arg
arg pos binding offset size kind = record {
  pos = pos;
  binding = binding;
  offset = offset;
  size = size;
  kind = kind;
  local_spec_id = 0;
  local_elem_size = 4;
  is_vec3 = false;
  access = Access.no_access;
}

abbrev number : Arg
number = arg 0 0 0 4 Kind.pod

abbrev pointer : Arg
pointer = arg 1 0 8 8 Kind.pointer_ubo

abbrev picture : Arg
picture = arg 2 3 0 0 Kind.sampled_image

abbrev entry : Entry
entry = record {
  args = number ∷ pointer ∷ picture ∷ [];
  has_pod_arguments = true;
  has_image_metadata = false;
  has_sampler_metadata = false;
  pod_buffer_size = 16;
  num_resource_slots = 4;
}

abbrev no_flags : MemFlags
no_flags = record {
  read_write = false;
  write_only = false;
  read_only = false;
  use_host_ptr = false;
  alloc_host_ptr = false;
  copy_host_ptr = false;
  host_write_only = false;
  host_read_only = false;
  host_no_access = false;
}

abbrev page : Mem
page = record {
  id = 1;
  valid = true;
  is_image = false;
  is_buffer = true;
  flags = no_flags;
  device_address = 4096;
  channel_order = 0;
  channel_data_type = 0;
}

abbrev seven : Value
seven = record { bytes = 7 ∷ 0 ∷ 0 ∷ 0 ∷ []; mem = none; sampler = none }

abbrev to_page : Value
to_page = record { bytes = []; mem = some page; sampler = none }

abbrev calls : List Call
calls =
    record { arg = number; size = 4; value = seven }
    ∷ record { arg = pointer; size = 8; value = to_page }
    ∷ []

layout_fits_example :
    All (FitsPod (pod_buffer_size none entry.args)) entry.args
    × All (InSlots (num_resource_slots entry.args)) entry.args
unfolding highest_binding skips is_pod_buffer
layout_fits_example = layout_fits none entry.args (omega arith)

-- A kernel whose values a command uses.
abbrev busy : Kernel
busy = record {
  entry = entry;
  image_metadata = [];
  sampler_metadata = [];
  current = 0;
  store = mark_enqueued (create entry) ∷ [];
}

-- The kernel after its number is set: it has values of its own.
abbrev busy_after : Kernel
busy_after = record busy {
  current = 1;
  store =
      mark_enqueued (create entry)
      ∷ (set_arg number 4 seven (copy entry (mark_enqueued (create entry)))).1
      ∷ [];
}

kernel_set_arg_isolates_example :
    Used busy_after 0 (mark_enqueued (create entry)) × (busy_after.current ≢ 0)
unfolding kernel_set_arg own_values set_own_arg set_metadata mark_enqueued copy is_sampler
    wants_image set_arg set_pod_arg pod_size_matches is_pod is_pod_pointer
kernel_set_arg_isolates_example =
    kernel_set_arg_isolates 0 4 seven busy success busy_after refl 0 (mark_enqueued (create entry))
      (refl, refl)

-- A kernel whose image has metadata.
abbrev described : Kernel
described = record busy {
  image_metadata = (2, record { order_offset = some 8; data_type_offset = none }) ∷ [];
}

abbrev no_image : Value
no_image = record { bytes = []; mem = none; sampler = none }

abbrev steps : List Step
steps = Step.builds true ∷ Step.builds false ∷ Step.ends ∷ Step.ends ∷ Step.builds false ∷ []

run_steps-InFlight_example : InFlight 0 (run_steps steps (create entry))
unfolding create commands next_count
run_steps-InFlight_example =
    run_steps-InFlight steps 0 0 (create entry) refl (omega arith) (refl, refl)
