-- ===== src/Lib.antt =====
-- clvk: OpenCL on Vulkan. A verification library for the parts of the program that decide what
-- is run, in which order, and which calls are accepted.
--
-- An application calls the entry points of src/api.cpp, which validate their arguments and then
-- create a command and enqueue it. A command queue (src/queue.cpp, src/queue.hpp) collects
-- commands that can share a Vulkan command buffer in a batch, collects batches and other
-- commands in a group, and sends a group to an executor thread on a flush. A controller
-- (src/queue_controller.cpp) is there to tune the sizes at which a batch is ended. A kernel's
-- range is cut into uniform regions, and these into what the device can dispatch at once, when
-- the kernel's command is built. Each command has an event (src/event.cpp, src/event.hpp), whose
-- status the application reads and to which it attaches callbacks.
--
-- The files:
-- Common: lists, bytes, tests on numbers, and the wrap of `uint32_t` (`u32`) and `size_t`
--   (`u64`). Codes: the error codes.
-- Dispatch: `cvk_ndrange` and `cvk_command_kernel::build_and_dispatch_regions`,
--   `dispatch_uniform_region` and `dispatch_uniform_region_iterate` of src/queue.cpp. A range is
--   a record of three vectors. A dispatch is the list of the regions that reach
--   `dispatch_uniform_region_within_vklimits`, with the code that is returned; that function,
--   which creates a pipeline, is the parameter `within`. `split_loop` has fuel 8, the size of
--   the program's array of regions, which is enough for three dimensions.
-- Controller: `cvk_queue_controller_batch_parameters`. `Load` is what it reads of its queue. The
--   two sizes that it tunes are fields of the queue in the program, and of the controller here.
-- Queue: `cvk_command_queue::enqueue_command`, `end_current_command_batch` and `flush_no_lock`,
--   and `cvk_command_batch::add_command`. A command is known by its number, and a batch is a
--   command with members. What Vulkan and the executor answer are arguments (`Answers`). `sent`
--   is the groups that the executors got. The queue's lock is held throughout, so a call is one
--   step; between calls the counts in flight may be any.
-- Api: the checks of the entry points of src/api.cpp on buffers, markers, barriers, events and
--   kernels, and the creation of the command, which reads the queue. A handle is `none` for the
--   null pointer, and an access through it is the verdict `crashed`. The host pointer of a read
--   or a write is only stored, and left out. Api/Queries is the clGet…Info of contexts, events,
--   queues, samplers, kernels, memory objects and images; the caller's memory is the list of its
--   bytes from its pointer on.
-- Event: `cvk_event_command` and `cvk_event_combine`, `clSetUserEventStatus` and
--   `clSetEventCallback`. The callbacks that have run are a list in the event.
-- ImageFormat: `FormatMaps` and `cl_image_format_to_vulkan_format` of src/image_format.cpp. The
--   channels and numbers of a Vulkan format, and what OpenCL reads, are what the two documents
--   say.
-- Executor: `cvk_executor_thread::extract_cmds_required_by` of src/queue.cpp, and the pool of
--   threads of src/queue.hpp. The loops from the back of a deque are right folds. The pool's map
--   is a list in its order of iteration. Both run under a lock, so each is one step.
-- KernelArgs: the arguments of src/program.hpp, their values in src/kernel.hpp and
--   src/kernel.cpp, clSetKernelArg of src/api.cpp, and the sizes that an entry point of
--   src/program.cpp works out. What a `void*` points to is its bytes, with the handle that the
--   code reads from there. Values are shared with commands, so a kernel has a place in a list of
--   values. A read of an object that is null or of another type is `none`, and so is an index
--   out of range. The writes of descriptor sets are the driver's; the bits of a sampler's
--   metadata are clspv's.
-- Transfer: `cvk_rectangle_copier` of src/queue.hpp and src/queue.cpp, and the `do_action` of
--   the commands that copy rectangles on the host and fill buffers. The memory is a function
--   from addresses to bytes. The loop of a fill has the number of its bytes as fuel, which is
--   enough, since each turn takes the address up by the size of the pattern.
-- PrintfText, Printf: src/printf.cpp. Text is a list of character codes and the buffer a list of
--   bytes; `snprintf` is a parameter, which gives the text that it would write if there were
--   room. The loops have as fuel the length of the format and of the text, and the end of the
--   data: each turn shortens the format, makes the buffer longer or takes the data up. An
--   exception and a read out of bounds of the sizes are faults, and a loop whose fuel is used up
--   is `out_of_fuel`. Reads of the data beyond its end, which the code makes where an argument
--   is wider than its size, give what there is.
-- Mapping: the counts of maps of `cvk_mem` in src/memory.cpp and `cvk_memory_allocation` in
--   src/memory.hpp. A memory object is a chain up to the one that has the memory; what others do
--   to the objects of the chain are calls at a place of it. Whether the driver maps is a
--   parameter; an allocation is taken to be mapped at the same address, `base`, each time.
--   Flushes and invalidations are the driver's, and the counts of references are not modelled.
--   The table of mappings of a buffer is a list, and a map command goes from its construction to
--   its destruction at once. A copy to or from the host pointer leaves the maps as they are.
-- Execution: `cvk_command::execute` of src/queue.hpp, `execute_cmds` and `wait_for_events` of
--   src/queue.cpp, as steps of any number of threads on the statuses of the events. A thread
--   that waits blocks until the event is complete or has failed, unless the schedule wakes it
--   early, as the one wait on the condition variable in `cvk_event_command::wait` may be: it
--   then goes on with a status that is not final. In a `calm` schedule no wait is woken early.
--   `do_action` is a parameter, and the error that profiling can put for the status of an event
--   is left out.
-- Device: `cvk_device::select_work_group_size` of src/device.cpp (Device/WorkGroup), whose loop
--   has fuel 7, enough since a turn doubles a dimension and the size is at most 64; and the
--   choice of a memory type of src/device.hpp (Device/MemoryType).
-- Program: `cvk_program` of src/program.hpp and src/program.cpp. Program/Options is
--   `cvk_preserved_options`, on lists of character codes. Program/Binary is the format of the
--   binaries, as lists of bytes; a read that writes past its buffer is `none`. Program/Build is
--   `build`, `do_build` and `do_build_inner`, with what the compiler, the validator and the
--   driver answer as arguments (`Answers`), and with the compiler that is called as a program;
--   the saved headers are copies of texts to which the source keeps pointers. A build with a
--   callback is a start and, later, three steps of a thread: `do_build` up to the status, the
--   call of the callback and the release, since `complete_operation` has no lock. Calls of
--   callbacks are counted; which callback is called is not kept. Program/Entry is
--   clCreateProgramWithBinary, clBuildProgram, clCompileProgram and clLinkProgram of
--   src/api.cpp. Program/PushConstants is `prepare_push_constant_range`.
-- Not modelled: the mappings of images, the compilation itself and the reflection of SPIR-V,
--   which are clspv's and LLVM's; the other device queries and the configuration, which mostly
--   forward to Vulkan and the environment; logging, tracing and timing, which only write; and in
--   the modelled parts `satisfy_data_dependencies`, the retry of an enqueue, `finish`,
--   profiling, the creation of buffers and images, and the counts of references of
--   src/objects.hpp.
pub mod Common
pub mod Codes
pub mod Dispatch
pub mod Controller
pub mod Queue
pub mod Api
pub mod Event
pub mod ImageFormat
pub mod KernelArgs
pub mod Transfer
pub mod PrintfText
pub mod Printf
pub mod Mapping
pub mod Executor
pub mod Program
pub mod Device
pub mod Execution
