-- ===== src/ImageFormat.antt =====
-- Image formats: src/image_format.cpp.
pub mod Table
pub mod Texels
pub mod Cases
pub mod Reads
pub mod Numbers
mod Tests
use clvk.Common.{ℕ, Bool, true, false, ◌&&◌, Option, none, some, if◌then◌else◌}
use clvk.ImageFormat.Table.{
  ChannelOrder, order_luminance, order_intensity, order_bgra, ChannelType, VkFormat,
  vk_b8g8r8a8_unorm, vk_r8g8b8a8_unorm, Support, format_maps,
}

pub data Swizzle : Type 0 where
  identity from_r from_g from_b from_a : Swizzle

-- `VkComponentMapping`.
pub record Mapping : Type 0 where
  pub r : Swizzle
  pub g : Swizzle
  pub b : Swizzle
  pub a : Swizzle

abbrev pub identities : Mapping
identities = record { r = identity; g = identity; b = identity; a = identity }

-- What the conversion writes through its three pointers.
pub record Conversion : Type 0 where
  pub support : Support
  pub sampled : Mapping
  pub storage : Mapping

abbrev pub bgra_mapping : Mapping
bgra_mapping = record { r = from_b; g = identity; b = from_r; a = identity }

-- `get_equivalent_bgra_format_for_image1d_buffer`.
pub get_equivalent_bgra_format : Conversion → Conversion
get_equivalent_bgra_format c = elim c.support.vkfmt [
  | vk_b8g8r8a8_unorm ↦ record {
    support = record c.support { vkfmt = vk_r8g8b8a8_unorm };
    sampled = bgra_mapping;
    storage = bgra_mapping;
  }
  | _ ↦ c
]

-- `get_component_mappings_for_channel_order`, the mapping of sampled images; that of storage
-- images is `identities`.
pub sampled_mapping : ChannelOrder → Mapping
sampled_mapping order_luminance = record { r = from_r; g = from_r; b = from_r; a = from_a }
sampled_mapping order_intensity = record { r = from_r; g = from_r; b = from_r; a = from_r }
sampled_mapping o = identities

-- What the conversion asks of the device.
pub record Device : Type 0 where
  pub is_image_format_disabled : ChannelOrder → ChannelType → Bool
  pub is_bgra_format_not_supported_for_image1d_buffer : Bool

abbrev pub is_bgra : ChannelOrder → Bool
is_bgra order_bgra = true
is_bgra o = false

-- `is_1d_buffer` is whether the image is of type CL_MEM_OBJECT_IMAGE1D_BUFFER. `none` is `false`.
pub cl_image_format_to_vulkan_format :
    Device → Bool → ChannelOrder → ChannelType → Option Conversion
cl_image_format_to_vulkan_format d is_1d_buffer o t =
    if d.is_image_format_disabled o t then none else elim (format_maps o t) [
      | none ↦ none
      | some s ↦
          let c : Conversion = record {
            support = s;
            sampled = sampled_mapping o;
            storage = identities;
          } in
          if is_1d_buffer && (is_bgra o && d.is_bgra_format_not_supported_for_image1d_buffer)
          then some (get_equivalent_bgra_format c)
          else some c
    ]
