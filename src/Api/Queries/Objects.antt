-- ===== src/Api/Queries/Objects.antt =====
-- The queries of contexts, events, command queues, samplers and kernels.
use clvk.Common.{ℕ, ◌-◌, ◌++◌, Bool, List, [], ◌∷◌, none, some, if◌then◌else◌}
use clvk.Codes.{
  success, invalid_context, invalid_event, invalid_command_queue, invalid_sampler, invalid_kernel,
}
use clvk.Event.{ℤ, pos, negsuc}
use clvk.PrintfText.{Text}
use clvk.Api.{Handle}
use clvk.Api.Queries.{
  Request, Found, Outcome, answer, answer_or_return, refuse, value, unknown, cl_uint, size_t,
  cl_bool, elements_of,
}

pub data ContextInfo : Type 0 where
  context_reference_count context_devices context_num_devices : ContextInfo
  context_properties other_context_info : ContextInfo

pub record ContextState : Type 0 where
  pub valid : Bool
  pub refcount : ℕ
  pub device : ℕ
  pub num_devices : ℕ
  pub properties : List ℕ

pub context_info : ContextState → ContextInfo → Found
context_info c context_reference_count = value (cl_uint c.refcount)
context_info c context_devices = value (size_t c.device)
context_info c context_num_devices = value (cl_uint c.num_devices)
context_info c context_properties = elim c.properties [
  | [] ↦ record { ret = success; bytes = none }
  | p ∷ ps ↦ value (elements_of c.properties)
]
context_info c other_context_info = unknown

unfoldable pub get_context_info : Handle ContextState → ContextInfo → Request → Outcome
get_context_info none i r = refuse invalid_context r
get_context_info (some c) i r =
    if c.valid then answer_or_return (context_info c i) r else refuse invalid_context r

pub data EventInfo : Type 0 where
  event_reference_count event_command_execution_status event_command_queue : EventInfo
  event_command_type event_context other_event_info : EventInfo

-- `queue` and `command_type` are those of an event that is not a user event.
pub record EventState : Type 0 where
  pub valid : Bool
  pub refcount : ℕ
  pub status : ℤ
  pub is_user_event : Bool
  pub queue : ℕ
  pub command_type : ℕ
  pub context : ℕ

-- `CL_COMMAND_USER`.
abbrev pub command_user : ℕ
command_user = 0x1204

-- A `cl_int`, in two's complement.
abbrev pub cl_int : ℤ → List ℕ
cl_int (pos n) = cl_uint n
cl_int (negsuc n) = cl_uint (4294967295 - n)

pub event_info : EventState → EventInfo → Found
event_info e event_reference_count = value (cl_uint e.refcount)
event_info e event_command_execution_status = value (cl_int e.status)
event_info e event_command_queue = value (size_t (if e.is_user_event then 0 else e.queue))
event_info e event_command_type =
    value (cl_uint (if e.is_user_event then command_user else e.command_type))
event_info e event_context = value (size_t e.context)
event_info e other_event_info = unknown

unfoldable pub get_event_info : Handle EventState → EventInfo → Request → Outcome
get_event_info none i r = refuse invalid_event r
get_event_info (some e) i r = if e.valid then answer (event_info e i) r else refuse invalid_event r

pub data QueueInfo : Type 0 where
  queue_reference_count queue_context queue_device queue_properties queue_size : QueueInfo
  queue_device_default queue_properties_array other_queue_info : QueueInfo

pub record QueueState : Type 0 where
  pub valid : Bool
  pub refcount : ℕ
  pub context : ℕ
  pub device : ℕ
  pub properties : ℕ
  pub properties_array : List ℕ

pub queue_info : QueueState → QueueInfo → Found
queue_info q queue_reference_count = value (cl_uint q.refcount)
queue_info q queue_context = value (size_t q.context)
queue_info q queue_device = value (size_t q.device)
queue_info q queue_properties = value (size_t q.properties)
queue_info q queue_size = record { ret = invalid_command_queue; bytes = some (cl_uint 0) }
queue_info q queue_device_default = value (size_t 0)
queue_info q queue_properties_array = value (elements_of q.properties_array)
queue_info q other_queue_info = unknown

unfoldable pub get_command_queue_info : Handle QueueState → QueueInfo → Request → Outcome
get_command_queue_info none i r = refuse invalid_command_queue r
get_command_queue_info (some q) i r =
    if q.valid then answer (queue_info q i) r else refuse invalid_command_queue r

pub data SamplerInfo : Type 0 where
  sampler_reference_count sampler_context sampler_normalized_coords : SamplerInfo
  sampler_addressing_mode sampler_filter_mode sampler_properties : SamplerInfo
  other_sampler_info : SamplerInfo

pub record SamplerState : Type 0 where
  pub valid : Bool
  pub refcount : ℕ
  pub context : ℕ
  pub normalized_coords : Bool
  pub addressing_mode : ℕ
  pub filter_mode : ℕ
  pub properties : List ℕ

unfoldable pub sampler_info : SamplerState → SamplerInfo → Found
sampler_info s sampler_reference_count = value (cl_uint s.refcount)
sampler_info s sampler_context = value (size_t s.context)
sampler_info s sampler_normalized_coords = value (cl_bool s.normalized_coords)
sampler_info s sampler_addressing_mode = value (cl_uint s.addressing_mode)
sampler_info s sampler_filter_mode = value (cl_uint s.filter_mode)
sampler_info s sampler_properties = value (elements_of s.properties)
sampler_info s other_sampler_info = unknown

unfoldable pub get_sampler_info : Handle SamplerState → SamplerInfo → Request → Outcome
get_sampler_info none i r = refuse invalid_sampler r
get_sampler_info (some s) i r =
    if s.valid then answer (sampler_info s i) r else refuse invalid_sampler r

pub data KernelInfo : Type 0 where
  kernel_reference_count kernel_context kernel_function_name kernel_num_args : KernelInfo
  kernel_program kernel_attributes other_kernel_info : KernelInfo

pub record KernelState : Type 0 where
  pub valid : Bool
  pub refcount : ℕ
  pub context : ℕ
  pub name : Text
  pub num_args : ℕ
  pub program : ℕ
  pub attributes : Text

-- A text with the zero that ends it.
abbrev c_str : Text → List ℕ
c_str t = t ++ (0 ∷ [])

pub kernel_info : KernelState → KernelInfo → Found
kernel_info k kernel_reference_count = value (cl_uint k.refcount)
kernel_info k kernel_context = value (size_t k.context)
kernel_info k kernel_function_name = value (c_str k.name)
kernel_info k kernel_num_args = value (cl_uint k.num_args)
kernel_info k kernel_program = value (size_t k.program)
kernel_info k kernel_attributes = value (c_str k.attributes)
kernel_info k other_kernel_info = unknown

unfoldable pub get_kernel_info : Handle KernelState → KernelInfo → Request → Outcome
get_kernel_info none i r = refuse invalid_kernel r
get_kernel_info (some k) i r =
    if k.valid then answer (kernel_info k i) r else refuse invalid_kernel r
