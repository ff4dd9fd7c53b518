-- ===== src/Api/Tests.antt =====
-- The theorems on the entry points at concrete arguments.
use clvk.Common.{[], ◌∷◌, ◌≡◌, refl, true, false, none, some}
use clvk.Dispatch.{NdRange, is_uniform}
use clvk.Api.{
  is_valid_event, MemFlags, MemObject, QueueObject, Handle, WaitList, buffer, accepted,
  is_valid_command_queue, is_valid_buffer, is_valid_event_wait_list, same_context, all_valid,
  check_wait_list, same_context_events, same_context_from,
}
use clvk.Api.Buffers.{check_range, MapFlags, enqueue_map_buffer, map_flags_are_valid}
use clvk.Api.Commands.{
  wait_for_events, is_valid_kernel, same_context_kernel, check_kernel, KernelObject,
  enqueue_ndrange_kernel,
}

abbrev plain : MemFlags
plain = record {
  read_write = true;
  write_only = false;
  read_only = false;
  use_host_ptr = false;
  alloc_host_ptr = false;
  copy_host_ptr = false;
  host_write_only = false;
  host_read_only = true;
  host_no_access = false;
}

abbrev reading : MemFlags
reading = record plain { read_write = false; read_only = true; host_read_only = false }

abbrev page : MemObject
page = record { valid = true; type = buffer; context = 7; flags = plain; size = 4096 }

abbrev live : QueueObject
live = record { valid = true; context = 7 }

abbrev no_events : WaitList
no_events = record { num = 0; events = none }

abbrev read_only_map : MapFlags
read_only_map = record { map_read = true; map_write = false; map_write_invalidate_region = false }

abbrev no_buffer : Handle MemObject
no_buffer = none

abbrev no_queue : Handle QueueObject
no_queue = none

map_accepted :
    enqueue_map_buffer (some live) (some page) read_only_map 1024 2048 no_events ≡ accepted
unfolding enqueue_map_buffer check_range check_wait_list is_valid_command_queue is_valid_buffer
    is_valid_event_wait_list same_context map_flags_are_valid all_valid
map_accepted = refl

-- A map whose end wraps around a `size_t` is accepted too.
map_wraps :
    enqueue_map_buffer (some live) (some page) read_only_map 18446744073709551600 32 no_events
    ≡ accepted
unfolding enqueue_map_buffer check_range check_wait_list is_valid_command_queue is_valid_buffer
    is_valid_event_wait_list same_context map_flags_are_valid all_valid
map_wraps = refl

abbrev kernel : KernelObject
kernel = record {
  valid = true;
  context = 7;
  executable = true;
  args_valid = true;
  required_work_group_size = record { x = 0; y = 0; z = 0 };
}

abbrev range : NdRange
range = record {
  offset = record { x = 0; y = 0; z = 0 };
  gws = record { x = 64; y = 4; z = 1 };
  lws = record { x = 16; y = 2; z = 1 };
}

ndrange_accepted :
    enqueue_ndrange_kernel 3 false (some live) (some kernel) 2 range no_events ≡ accepted
unfolding enqueue_ndrange_kernel check_wait_list check_kernel is_valid_kernel same_context_kernel
    same_context_events same_context_from is_valid_command_queue is_valid_event_wait_list is_uniform
    all_valid
ndrange_accepted = refl

abbrev two_events : WaitList
two_events = record {
  num = 2;
  events = some (
      some (record { valid = true; context = 7 })
      ∷ some (record { valid = true; context = 7 })
      ∷ []);
}

wait_accepted : wait_for_events two_events ≡ accepted
unfolding wait_for_events all_valid is_valid_event
wait_accepted = refl
