-- ===== src/Api/Commands.antt =====
-- The entry points of src/api.cpp on events, markers, barriers and kernels.
use clvk.Common.{ℕ, Bool, false, ◌&&◌, ◌||◌, not, none, some, ltb, ◌==◌}
use clvk.Codes.{
  invalid_command_queue, invalid_value, invalid_context, invalid_event, invalid_kernel,
  invalid_work_dimension, invalid_program_executable, invalid_kernel_args, invalid_work_group_size,
}
use clvk.Dispatch.{Dim3, NdRange, is_uniform}
use clvk.Api.{
  QueueObject, Handle, WaitList, Verdict, crashed, check, ◌then_check◌, is_valid_command_queue,
  all_valid, same_context_events, check_wait_list, elements, is_null, create_command,
}

abbrev check_queue : Handle QueueObject → Verdict
check_queue q = check (is_valid_command_queue q) invalid_command_queue

-- `clWaitForEvents`, up to the wait.
unfoldable pub wait_for_events : WaitList → Verdict
wait_for_events w =
    check (not (w.num == 0 || is_null w.events)) invalid_value
    then_check check (all_valid w.num (elements w.events)) invalid_event

-- `cvk_enqueue_marker_with_wait_list`.
unfoldable pub enqueue_marker : Handle QueueObject → WaitList → Verdict
enqueue_marker q w =
    check_queue q
    then_check check_wait_list w
    then_check same_context_events q w
    then_check create_command q

-- `cvk_enqueue_barrier_with_wait_list`.
unfoldable pub enqueue_barrier : Handle QueueObject → WaitList → Verdict
enqueue_barrier q w = check_queue q then_check check_wait_list w then_check create_command q

-- A kernel, as the checks read it.
pub record KernelObject : Type 0 where
  pub valid : Bool
  pub context : ℕ
  pub executable : Bool
  pub args_valid : Bool
  pub required_work_group_size : Dim3

unfoldable pub is_valid_kernel : Handle KernelObject → Bool
is_valid_kernel none = false
is_valid_kernel (some k) = k.valid

unfoldable pub same_context_kernel : Handle QueueObject → Handle KernelObject → Verdict
same_context_kernel (some q) (some k) = check (q.context == k.context) invalid_context
same_context_kernel (some q) none = crashed
same_context_kernel none k = crashed

abbrev same_size : Dim3 → Dim3 → Bool
same_size a b = a.x == b.x && (a.y == b.y && a.z == b.z)

-- The checks that read the kernel.
unfoldable pub check_kernel : Bool → NdRange → Handle KernelObject → Verdict
check_kernel non_uniform r none = crashed
check_kernel non_uniform r (some k) =
    check k.executable invalid_program_executable
    then_check check k.args_valid invalid_kernel_args
    then_check check
        (k.required_work_group_size.x == 0 || same_size k.required_work_group_size r.lws)
        invalid_work_group_size
    then_check check (non_uniform || is_uniform r) invalid_work_group_size

-- `cvk_enqueue_ndrange_kernel`; `max_dims` and `non_uniform` are what the device supports.
unfoldable pub enqueue_ndrange_kernel :
    ℕ → Bool → Handle QueueObject → Handle KernelObject → ℕ → NdRange → WaitList → Verdict
enqueue_ndrange_kernel max_dims non_uniform q k dims r w =
    check_queue q
    then_check check (is_valid_kernel k) invalid_kernel
    then_check check_wait_list w
    then_check same_context_kernel q k
    then_check same_context_events q w
    then_check check (not (ltb dims 1 || ltb max_dims dims)) invalid_work_dimension
    then_check check_kernel non_uniform r k
