-- ===== src/Api/Queries/Memory.antt =====
-- The queries of memory objects and images.
use clvk.Common.{ℕ, ◌++◌, Bool, false, List, Option, none, some, if◌then◌else◌}
use clvk.Codes.{invalid_mem_object}
use clvk.Api.{Handle}
use clvk.Api.Queries.{
  Request, Found, Outcome, answer, refuse, value, unknown, cl_uint, size_t, cl_bool, elements_of,
}

pub data MemInfo : Type 0 where
  mem_reference_count mem_context mem_type mem_flags mem_size mem_map_count : MemInfo
  mem_associated_memobject mem_offset mem_host_ptr mem_uses_svm_pointer : MemInfo
  mem_properties other_mem_info : MemInfo

-- An image's own fields.
pub record ImageState : Type 0 where
  pub channel_order : ℕ
  pub channel_data_type : ℕ
  pub element_size : ℕ
  pub row_pitch : ℕ
  pub slice_pitch : ℕ
  pub width : ℕ
  pub height : ℕ
  pub depth : ℕ
  pub array_size : ℕ
  pub buffer : ℕ
  pub num_mip_levels : ℕ
  pub num_samples : ℕ

-- A `cvk_mem`, with `image` for a `cvk_image`.
pub record MemState : Type 0 where
  pub valid : Bool
  pub refcount : ℕ
  pub context : ℕ
  pub type : ℕ
  pub flags : ℕ
  pub use_host_ptr : Bool
  pub size : ℕ
  pub map_count : ℕ
  pub parent : ℕ
  pub parent_offset : ℕ
  pub host_ptr : ℕ
  pub properties : List ℕ
  pub image : Option ImageState

pub associated_memobject : MemState → ℕ
associated_memobject m = elim m.image [ none ↦ m.parent | some i ↦ i.buffer ]

pub mem_info : MemState → MemInfo → Found
mem_info m mem_reference_count = value (cl_uint m.refcount)
mem_info m mem_context = value (size_t m.context)
mem_info m mem_type = value (cl_uint m.type)
mem_info m mem_flags = value (size_t m.flags)
mem_info m mem_size = value (size_t m.size)
mem_info m mem_map_count = value (cl_uint m.map_count)
mem_info m mem_associated_memobject = value (size_t (associated_memobject m))
mem_info m mem_offset = value (size_t m.parent_offset)
mem_info m mem_host_ptr = value (size_t (if m.use_host_ptr then m.host_ptr else 0))
mem_info m mem_uses_svm_pointer = value (cl_bool false)
mem_info m mem_properties = value (elements_of m.properties)
mem_info m other_mem_info = unknown

unfoldable pub get_mem_object_info : Handle MemState → MemInfo → Request → Outcome
get_mem_object_info none i r = refuse invalid_mem_object r
get_mem_object_info (some m) i r =
    if m.valid then answer (mem_info m i) r else refuse invalid_mem_object r

pub data ImageInfo : Type 0 where
  image_format image_element_size image_row_pitch image_slice_pitch image_width : ImageInfo
  image_height image_depth image_array_size image_buffer image_num_mip_levels : ImageInfo
  image_num_samples other_image_info : ImageInfo

pub image_info : ImageState → ImageInfo → Found
image_info i image_format = value (cl_uint i.channel_order ++ cl_uint i.channel_data_type)
image_info i image_element_size = value (size_t i.element_size)
image_info i image_row_pitch = value (size_t i.row_pitch)
image_info i image_slice_pitch = value (size_t i.slice_pitch)
image_info i image_width = value (size_t i.width)
image_info i image_height = value (size_t i.height)
image_info i image_depth = value (size_t i.depth)
image_info i image_array_size = value (size_t i.array_size)
image_info i image_buffer = value (size_t i.buffer)
image_info i image_num_mip_levels = value (cl_uint i.num_mip_levels)
image_info i image_num_samples = value (cl_uint i.num_samples)
image_info i other_image_info = unknown

-- `is_valid_image` and the cast to `cvk_image`.
abbrev valid_image : MemState → Option ImageState
valid_image m = if m.valid then m.image else none

unfoldable pub get_image_info : Handle MemState → ImageInfo → Request → Outcome
get_image_info none i r = refuse invalid_mem_object r
get_image_info (some m) i r = elim (valid_image m) [
  | none ↦ refuse invalid_mem_object r
  | some image ↦ answer (image_info image i) r
]
