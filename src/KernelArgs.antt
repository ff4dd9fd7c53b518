-- ===== src/KernelArgs.antt =====
-- The argument values of a kernel: `kernel_argument` of src/program.hpp and
-- `cvk_kernel_argument_values` of src/kernel.hpp.
pub mod Layout
pub mod Pod
pub mod Sets
pub mod Kernel
pub mod Isolation
pub mod Faults
pub mod Lifetime
mod Tests
use clvk.Common.{
  ℕ, ◌+◌, ◌-◌, ◌*◌, ◌/◌, ◌%◌, ◌^◌, Bool, true, false, ◌&&◌, ◌||◌, not, List, [], ◌∷◌, Option, none,
  some, ◌==◌, if◌then◌else◌, length, set, get_elem?, take, replicate, write_at, le_bytes, u64, u32,
  sub32,
}
use clvk.Codes.{
  Code, success, invalid_mem_object, invalid_arg_size, invalid_arg_value, invalid_sampler,
}
use clvk.Api.{MemFlags}

-- `kernel_argument_kind`.
pub data Kind : Type 0 where
  buffer buffer_ubo pod pod_ubo pod_pushconstant pointer_ubo pointer_pushconstant : Kind
  sampled_image storage_image storage_texel_buffer uniform_texel_buffer sampler local unused : Kind

-- `CL_KERNEL_ARG_ACCESS_*`.
pub data Access : Type 0 where
  no_access read_only write_only read_write : Access

pub record Arg : Type 0 where
  pub pos : ℕ
  pub binding : ℕ
  pub offset : ℕ
  pub size : ℕ
  pub kind : Kind
  pub local_spec_id : ℕ
  pub local_elem_size : ℕ
  pub is_vec3 : Bool
  pub access : Access

unfoldable pub is_pod : Kind → Bool
is_pod pod = true
is_pod pod_ubo = true
is_pod pod_pushconstant = true
is_pod pointer_ubo = true
is_pod pointer_pushconstant = true
is_pod k = false

unfoldable pub is_pod_pointer : Kind → Bool
is_pod_pointer pointer_pushconstant = true
is_pod_pointer pointer_ubo = true
is_pod_pointer k = false

-- The four kinds of arguments that want an image.
unfoldable pub wants_image : Kind → Bool
wants_image sampled_image = true
wants_image storage_image = true
wants_image storage_texel_buffer = true
wants_image uniform_texel_buffer = true
wants_image k = false

unfoldable pub wants_buffer : Kind → Bool
wants_buffer buffer = true
wants_buffer buffer_ubo = true
wants_buffer k = false

unfoldable pub is_sampler : Kind → Bool
is_sampler sampler = true
is_sampler k = false

unfoldable pub is_local : Kind → Bool
is_local local = true
is_local k = false

unfoldable pub is_unused : Kind → Bool
is_unused unused = true
is_unused k = false

-- A memory object, as an argument's checks read it. An image has a channel order and a data type.
pub record Mem : Type 0 where
  pub id : ℕ
  pub valid : Bool
  pub is_image : Bool
  pub is_buffer : Bool
  pub flags : MemFlags
  pub device_address : ℕ
  pub channel_order : ℕ
  pub channel_data_type : ℕ

-- `mask` is the sampler's word of metadata, which is built of clspv's constants.
pub record Sampler : Type 0 where
  pub id : ℕ
  pub valid : Bool
  pub mask : ℕ

-- What `const void* value` points to: its bytes, and the handle that is read from there for an
-- argument that is a memory object or a sampler; `none` is the null handle.
pub record Value : Type 0 where
  pub bytes : List ℕ
  pub mem : Option Mem
  pub sampler : Option Sampler

-- `refcounted*`.
pub data Resource : Type 0 where
  null : Resource
  mem_object : Mem → Resource
  sampler_object : Sampler → Resource

-- What the values read of their entry point.
pub record Entry : Type 0 where
  pub args : List Arg
  pub has_pod_arguments : Bool
  pub has_image_metadata : Bool
  pub has_sampler_metadata : Bool
  pub pod_buffer_size : ℕ
  pub num_resource_slots : ℕ

-- `pod_data` is `none` where the vector was not created.
pub record Values : Type 0 where
  pub is_enqueued : Bool
  pub resources : List Resource
  pub local_args_size : List ℕ
  pub specialization_constants : List (ℕ × ℕ)
  pub args_set : List Bool
  pub pod_data : Option (List ℕ)
  pub descriptor_sets_refcount : ℕ

-- `init`: zeroed bytes, if there is anything to put there.
unfoldable pub init_pod_data : Entry → Option (List ℕ)
init_pod_data e =
    if e.has_pod_arguments || (e.has_image_metadata || e.has_sampler_metadata)
    then some (replicate e.pod_buffer_size 0)
    else none

-- `create` for an entry point.
unfoldable pub create : Entry → Values
create e = record {
  is_enqueued = false;
  resources = replicate e.num_resource_slots null;
  local_args_size = replicate (length e.args) 0;
  specialization_constants = [];
  args_set = replicate (length e.args) false;
  pod_data = init_pod_data e;
  descriptor_sets_refcount = 0;
}

-- `create` for other values: the copy constructor, `init` and `init_copy`.
unfoldable pub copy : Entry → Values → Values
copy e v = record v {
  is_enqueued = false;
  pod_data = if e.has_pod_arguments then v.pod_data else init_pod_data e;
  descriptor_sets_refcount = 0;
}

-- `memcpy(&pod_data()[offset], value, size)`.
abbrev pub write_pod : ℕ → List ℕ → Option (List ℕ) → Option (List ℕ)
write_pod o bs none = none
write_pod o bs (some d) = some (write_at o bs d)

unfoldable pub set_pod_data : ℕ → ℕ → List ℕ → Values → Values
set_pod_data offset size bs v = record v { pod_data = write_pod offset (take size bs) v.pod_data }

-- `m_specialization_constants[id] = n`.
unfoldable pub set_constant : ℕ → ℕ → List (ℕ × ℕ) → List (ℕ × ℕ)
set_constant k n [] = (k, n) ∷ []
set_constant k n ((j, m) ∷ cs) = if j == k then (k, n) ∷ cs else (j, m) ∷ set_constant k n cs

-- The end of `set_arg`.
abbrev pub done : Arg → Values → Code × Values
done a v = (success, record v { args_set = set v.args_set a.pos true })

unfoldable pub set_pointer_arg : Arg → ℕ → Value → Values → Code × Values
set_pointer_arg a size x v = elim x.mem [
  | none ↦ done a (set_pod_data a.offset a.size (le_bytes 8 0) v)
  | some m ↦
      if not m.valid || not m.is_buffer
      then (invalid_mem_object, v)
      else if not (size == 8)
      then (invalid_arg_size, v)
      else done a (set_pod_data a.offset a.size (le_bytes 8 m.device_address) v)
]

-- The sizes are `uint32_t`, and so is their product.
unfoldable pub pod_size_matches : Arg → ℕ → Bool
pod_size_matches a size = size == a.size || a.is_vec3 && size == u32 (a.size * 4) / 3

unfoldable pub set_pod_arg : Arg → ℕ → Value → Values → Code × Values
set_pod_arg a size x v =
    if not (pod_size_matches a size)
    then (invalid_arg_size, v)
    else done a (set_pod_data a.offset a.size x.bytes v)

-- The constant is a `uint32_t`.
unfoldable pub set_local_arg : Arg → ℕ → Values → Code × Values
set_local_arg a size v = done a (record v {
  local_args_size = set v.local_args_size a.pos size;
  specialization_constants =
      set_constant a.local_spec_id (u32 (size / a.local_elem_size)) v.specialization_constants;
})

unfoldable pub set_sampler_arg : Arg → Value → Values → Code × Values
set_sampler_arg a x v = elim x.sampler [
  | none ↦ (invalid_sampler, v)
  | some s ↦
      if not s.valid
      then (invalid_sampler, v)
      else done a (record v { resources = set v.resources a.binding (sampler_object s) })
]

-- Whether the object's flags forbid the access that the argument declares.
unfoldable pub access_denied : Access → MemFlags → Bool
access_denied no_access f = false
access_denied read_only f = f.write_only
access_denied write_only f = f.read_only
access_denied read_write f = not f.read_write

unfoldable pub set_mem_arg : Arg → Value → Values → Code × Values
set_mem_arg a x v = elim x.mem [
  | none ↦ (invalid_mem_object, v)
  | some m ↦
      if not m.valid
        || (wants_image a.kind && not m.is_image || wants_buffer a.kind && not m.is_buffer)
      then (invalid_mem_object, v)
      else if access_denied a.access m.flags
      then (invalid_arg_value, v)
      else done a (record v { resources = set v.resources a.binding (mem_object m) })
]

-- `cvk_kernel_argument_values::set_arg`.
unfoldable pub set_arg : Arg → ℕ → Value → Values → Code × Values
set_arg a size x v =
    if is_pod_pointer a.kind
    then set_pointer_arg a size x v
    else if is_pod a.kind
    then set_pod_arg a size x v
    else if is_local a.kind
    then set_local_arg a size v
    else if is_unused a.kind
    then done a v
    else if not (size == 8)
    then (invalid_arg_size, v)
    else if is_sampler a.kind
    then set_sampler_arg a x v
    else set_mem_arg a x v

unfoldable pub all_true : List Bool → Bool
all_true [] = true
all_true (b ∷ bs) = b && all_true bs

unfoldable pub args_valid : Values → Bool
args_valid v = all_true v.args_set

-- `setup_descriptor_sets` where the driver gives what it is asked for.
unfoldable pub mark_enqueued : Values → Values
mark_enqueued v = record v { is_enqueued = true }

-- The counts are `uint32_t`. The resources' own counts are kept by the objects.
unfoldable pub retain_resources : Values → Values
retain_resources v = record v { descriptor_sets_refcount = u32 (v.descriptor_sets_refcount + 1) }

unfoldable pub release_resources : Values → Values
release_resources v =
    let n = sub32 v.descriptor_sets_refcount 1 in
    if n == 0
    then record v { descriptor_sets_refcount = n; is_enqueued = false }
    else record v { descriptor_sets_refcount = n }
