-- ===== src/Codes.antt =====
-- The error codes of the OpenCL API that the modelled code returns (`cl_int` results).
pub data Code : Type 0 where
  success : Code
  out_of_resources out_of_host_memory map_failure mem_object_allocation_failure : Code
  invalid_value invalid_context invalid_queue_properties invalid_command_queue : Code
  invalid_mem_object invalid_event_wait_list invalid_event invalid_operation : Code
  invalid_work_group_size invalid_work_item_size invalid_work_dimension : Code
  invalid_global_work_size invalid_global_offset invalid_kernel invalid_kernel_args : Code
  invalid_program_executable invalid_buffer_size image_format_not_supported : Code
  misaligned_sub_buffer_offset mem_copy_overlap exec_status_error_in_wait_list : Code
  invalid_arg_size invalid_arg_value invalid_arg_index invalid_sampler invalid_program : Code
  invalid_device invalid_binary compiler_not_available linker_not_available : Code
  build_program_failure compile_program_failure link_program_failure invalid_kernel_name : Code
