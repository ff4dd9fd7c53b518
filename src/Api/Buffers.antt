-- ===== src/Api/Buffers.antt =====
-- The entry points of src/api.cpp on buffers. The host pointer of a read or a write is only stored
-- in the command, so it is left out here.
use clvk.Common.{
  ℕ, zero, suc, ◌+◌, ◌%◌, Bool, true, false, ◌&&◌, ◌||◌, not, none, some, ltb, ◌==◌, u64,
}
use clvk.Codes.{invalid_command_queue, invalid_mem_object, invalid_operation, invalid_value}
use clvk.Api.{
  MemFlags, MemObject, QueueObject, Handle, WaitList, Verdict, rejected, crashed, accepted, check,
  ◌then_check◌, is_valid_command_queue, is_valid_buffer, same_context, same_context_events,
  check_wait_list, create_command,
}

abbrev pub check_queue : Handle QueueObject → Verdict
check_queue q = check (is_valid_command_queue q) invalid_command_queue

abbrev pub check_buffer : Handle MemObject → Verdict
check_buffer b = check (is_valid_buffer b) invalid_mem_object

-- `buffer->has_any_flag(CL_MEM_HOST_WRITE_ONLY | CL_MEM_HOST_NO_ACCESS)`.
abbrev pub hidden_from_reads : MemFlags → Bool
hidden_from_reads f = f.host_write_only || f.host_no_access

-- `buffer->has_any_flag(CL_MEM_HOST_READ_ONLY | CL_MEM_HOST_NO_ACCESS)`.
abbrev pub hidden_from_writes : MemFlags → Bool
hidden_from_writes f = f.host_read_only || f.host_no_access

-- A test of a buffer's flags reads the buffer.
abbrev pub check_flags : (MemFlags → Bool) → Handle MemObject → Verdict
check_flags hidden none = crashed
check_flags hidden (some m) = check (not (hidden m.flags)) invalid_operation

-- `size == 0 || offset + size > buffer->size()`: the buffer is read when the size is not 0. The sum
-- is of `size_t`.
unfoldable pub check_range : Handle MemObject → ℕ → ℕ → Verdict
check_range b offset zero = rejected invalid_value
check_range none offset (suc n) = crashed
check_range (some m) offset (suc n) = check (not (ltb m.size (u64 (offset + suc n)))) invalid_value

-- The right of an `&&` whose left is `asked`.
abbrev pub check_if : Bool → Verdict → Verdict
check_if true v = v
check_if false v = accepted

-- `clEnqueueReadBuffer`, and the same checks of `clEnqueueReadBufferRect`.
unfoldable pub enqueue_read_buffer : Handle QueueObject → Handle MemObject → WaitList → Verdict
enqueue_read_buffer q b w =
    check_queue q
    then_check check_buffer b
    then_check check_flags hidden_from_reads b
    then_check check_wait_list w
    then_check create_command q

-- `clEnqueueWriteBuffer`, and the same checks of `clEnqueueWriteBufferRect`.
unfoldable pub enqueue_write_buffer : Handle QueueObject → Handle MemObject → WaitList → Verdict
enqueue_write_buffer q b w =
    check_queue q
    then_check check_buffer b
    then_check check_flags hidden_from_writes b
    then_check check_wait_list w
    then_check create_command q

-- The loop over `valid_pattern_sizes`.
unfoldable pub pattern_size_valid : ℕ → Bool
pattern_size_valid n =
    n == 1 || (n == 2 || (n == 4 || (n == 8 || (n == 16 || (n == 32 || (n == 64 || n == 128))))))

-- `clEnqueueFillBuffer`; `has_pattern` is `pattern != nullptr`.
unfoldable pub enqueue_fill_buffer :
    Handle QueueObject → Handle MemObject → Bool → ℕ → ℕ → ℕ → WaitList → Verdict
enqueue_fill_buffer q b has_pattern pattern_size offset size w =
    check_queue q
    then_check check_buffer b
    then_check check has_pattern invalid_value
    then_check check (pattern_size_valid pattern_size) invalid_value
    then_check check (offset % pattern_size == 0 && size % pattern_size == 0) invalid_value
    then_check check_wait_list w
    then_check create_command q

-- `clEnqueueCopyBuffer`: the contexts are compared before the buffers are validated.
unfoldable pub enqueue_copy_buffer :
    Handle QueueObject → Handle MemObject → Handle MemObject → WaitList → Verdict
enqueue_copy_buffer q src dst w =
    check_queue q
    then_check same_context q src
    then_check same_context q dst
    then_check same_context_events q w
    then_check check (is_valid_buffer src && is_valid_buffer dst) invalid_mem_object
    then_check check_wait_list w

-- `clEnqueueCopyBufferRect`: the queue is not validated.
unfoldable pub enqueue_copy_buffer_rect :
    Handle QueueObject → Handle MemObject → Handle MemObject → WaitList → Verdict
enqueue_copy_buffer_rect q src dst w =
    check (is_valid_buffer src && is_valid_buffer dst) invalid_mem_object
    then_check check_wait_list w
    then_check same_context q src
    then_check same_context q dst
    then_check same_context_events q w

-- The bits of a `cl_map_flags`.
pub record MapFlags : Type 0 where
  pub map_read : Bool
  pub map_write : Bool
  pub map_write_invalidate_region : Bool

unfoldable pub map_flags_are_valid : MapFlags → Bool
map_flags_are_valid f = not (f.map_write_invalidate_region && (f.map_read || f.map_write))

-- `clEnqueueMapBuffer`, up to the command that `cvk_enqueue_map_buffer` creates.
unfoldable pub enqueue_map_buffer :
    Handle QueueObject → Handle MemObject → MapFlags → ℕ → ℕ → WaitList → Verdict
enqueue_map_buffer q b f offset size w =
    check_queue q
    then_check check_buffer b
    then_check check_wait_list w
    then_check same_context q b
    then_check check_range b offset size
    then_check check (map_flags_are_valid f) invalid_value
    then_check check_if f.map_read (check_flags hidden_from_reads b)
    then_check check_if (f.map_write || f.map_write_invalidate_region)
        (check_flags hidden_from_writes b)
    then_check create_command q

-- The tests of `cvk_create_buffer_with_properties` on the flags.
unfoldable pub buffer_flags_valid : MemFlags → Bool
buffer_flags_valid f =
    not (f.read_write && f.write_only)
    && (not (f.read_only && (f.write_only || f.read_write))
        && (not ((f.alloc_host_ptr || f.copy_host_ptr) && f.use_host_ptr)
            && (not (f.host_read_only && f.host_write_only)
                && not (f.host_no_access && (f.host_read_only || f.host_write_only)))))

-- The flags of a sub-buffer in the constructor of `cvk_mem`.
unfoldable pub inherit_flags : MemFlags → MemFlags → MemFlags
inherit_flags parent f =
    let own_access = f.read_write || f.read_only || f.write_only in
    let own_host = f.host_write_only || f.host_read_only || f.host_no_access in
    record {
      read_write = f.read_write || (not own_access && parent.read_write);
      write_only = f.write_only || (not own_access && parent.write_only);
      read_only = f.read_only || (not own_access && parent.read_only);
      use_host_ptr = f.use_host_ptr || parent.use_host_ptr;
      alloc_host_ptr = f.alloc_host_ptr || parent.alloc_host_ptr;
      copy_host_ptr = f.copy_host_ptr || parent.copy_host_ptr;
      host_write_only = f.host_write_only || (not own_host && parent.host_write_only);
      host_read_only = f.host_read_only || (not own_host && parent.host_read_only);
      host_no_access = f.host_no_access || (not own_host && parent.host_no_access);
    }
