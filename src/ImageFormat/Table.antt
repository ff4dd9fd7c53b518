-- ===== src/ImageFormat/Table.antt =====
-- The table of image formats: `FormatMaps` of src/image_format.cpp, and what it is made of.
use clvk.Common.{ℕ, Option, none, some}

pub data ChannelOrder : Type 0 where
  order_r order_luminance order_intensity order_rg order_rgb order_rgba order_bgra : ChannelOrder
  other_order : ℕ → ChannelOrder

pub data ChannelType : Type 0 where
  unorm_int8 snorm_int8 unsigned_int8 signed_int8 unorm_int16 snorm_int16 : ChannelType
  unsigned_int16 signed_int16 half_float unsigned_int32 signed_int32 float : ChannelType
  unorm_short_565 : ChannelType
  other_type : ℕ → ChannelType

pub data VkFormat : Type 0 where
  vk_r8_unorm vk_r8_snorm vk_r8_uint vk_r8_sint vk_r16_unorm vk_r16_snorm vk_r16_uint : VkFormat
  vk_r16_sint vk_r16_sfloat vk_r32_uint vk_r32_sint vk_r32_sfloat vk_r8g8_unorm : VkFormat
  vk_r8g8_snorm vk_r8g8_uint vk_r8g8_sint vk_r16g16_unorm vk_r16g16_snorm : VkFormat
  vk_r16g16_uint vk_r16g16_sint vk_r16g16_sfloat vk_r32g32_uint vk_r32g32_sint : VkFormat
  vk_r32g32_sfloat vk_r8g8b8_unorm vk_r8g8b8_snorm vk_r8g8b8_uint vk_r8g8b8_sint : VkFormat
  vk_r16g16b16_unorm vk_r16g16b16_snorm vk_r16g16b16_uint vk_r16g16b16_sint : VkFormat
  vk_r16g16b16_sfloat vk_r32g32b32_uint vk_r32g32b32_sint vk_r32g32b32_sfloat : VkFormat
  vk_r5g6b5_unorm_pack16 vk_r8g8b8a8_unorm vk_r8g8b8a8_snorm vk_r8g8b8a8_uint : VkFormat
  vk_r8g8b8a8_sint vk_r16g16b16a16_unorm vk_r16g16b16a16_snorm vk_r16g16b16a16_uint : VkFormat
  vk_r16g16b16a16_sint vk_r16g16b16a16_sfloat vk_r32g32b32a32_uint vk_r32g32b32a32_sint : VkFormat
  vk_r32g32b32a32_sfloat vk_b8g8r8a8_unorm vk_b8g8r8a8_snorm vk_b8g8r8a8_uint : VkFormat
  vk_b8g8r8a8_sint : VkFormat

-- `image_format_support`: what a kernel may do with an image of the format.
pub data Access : Type 0 where
  read_or_write all_access : Access

pub record Support : Type 0 where
  pub access : Access
  pub vkfmt : VkFormat

abbrev all_of : VkFormat → Option Support
all_of f = some (record { access = all_access; vkfmt = f })

abbrev rowo : VkFormat → Option Support
rowo f = some (record { access = read_or_write; vkfmt = f })

unfoldable pub format_maps : ChannelOrder → ChannelType → Option Support
format_maps order_r unorm_int8 = all_of vk_r8_unorm
format_maps order_r snorm_int8 = all_of vk_r8_snorm
format_maps order_r unsigned_int8 = all_of vk_r8_uint
format_maps order_r signed_int8 = all_of vk_r8_sint
format_maps order_r unorm_int16 = all_of vk_r16_unorm
format_maps order_r snorm_int16 = all_of vk_r16_snorm
format_maps order_r unsigned_int16 = all_of vk_r16_uint
format_maps order_r signed_int16 = all_of vk_r16_sint
format_maps order_r half_float = all_of vk_r16_sfloat
format_maps order_r unsigned_int32 = all_of vk_r32_uint
format_maps order_r signed_int32 = all_of vk_r32_sint
format_maps order_r float = all_of vk_r32_sfloat
format_maps order_luminance unorm_int8 = rowo vk_r8_unorm
format_maps order_luminance snorm_int8 = rowo vk_r8_snorm
format_maps order_luminance unsigned_int8 = rowo vk_r8_uint
format_maps order_luminance signed_int8 = rowo vk_r8_sint
format_maps order_luminance unorm_int16 = rowo vk_r16_unorm
format_maps order_luminance snorm_int16 = rowo vk_r16_snorm
format_maps order_luminance unsigned_int16 = rowo vk_r16_uint
format_maps order_luminance signed_int16 = rowo vk_r16_sint
format_maps order_luminance half_float = rowo vk_r16_sfloat
format_maps order_luminance unsigned_int32 = rowo vk_r32_uint
format_maps order_luminance signed_int32 = rowo vk_r32_sint
format_maps order_luminance float = rowo vk_r32_sfloat
format_maps order_intensity unorm_int8 = rowo vk_r8_unorm
format_maps order_intensity snorm_int8 = rowo vk_r8_snorm
format_maps order_intensity unsigned_int8 = rowo vk_r8_uint
format_maps order_intensity signed_int8 = rowo vk_r8_sint
format_maps order_intensity unorm_int16 = rowo vk_r16_unorm
format_maps order_intensity snorm_int16 = rowo vk_r16_snorm
format_maps order_intensity unsigned_int16 = rowo vk_r16_uint
format_maps order_intensity signed_int16 = rowo vk_r16_sint
format_maps order_intensity half_float = rowo vk_r16_sfloat
format_maps order_intensity unsigned_int32 = rowo vk_r32_uint
format_maps order_intensity signed_int32 = rowo vk_r32_sint
format_maps order_intensity float = rowo vk_r32_sfloat
format_maps order_rg unorm_int8 = all_of vk_r8g8_unorm
format_maps order_rg snorm_int8 = all_of vk_r8g8_snorm
format_maps order_rg unsigned_int8 = all_of vk_r8g8_uint
format_maps order_rg signed_int8 = all_of vk_r8g8_sint
format_maps order_rg unorm_int16 = all_of vk_r16g16_unorm
format_maps order_rg snorm_int16 = all_of vk_r16g16_snorm
format_maps order_rg unsigned_int16 = all_of vk_r16g16_uint
format_maps order_rg signed_int16 = all_of vk_r16g16_sint
format_maps order_rg half_float = all_of vk_r16g16_sfloat
format_maps order_rg unsigned_int32 = all_of vk_r32g32_uint
format_maps order_rg signed_int32 = all_of vk_r32g32_sint
format_maps order_rg float = all_of vk_r32g32_sfloat
format_maps order_rgb unorm_int8 = all_of vk_r8g8b8_unorm
format_maps order_rgb snorm_int8 = all_of vk_r8g8b8_snorm
format_maps order_rgb unsigned_int8 = all_of vk_r8g8b8_uint
format_maps order_rgb signed_int8 = all_of vk_r8g8b8_sint
format_maps order_rgb unorm_int16 = all_of vk_r16g16b16_unorm
format_maps order_rgb snorm_int16 = all_of vk_r16g16b16_snorm
format_maps order_rgb unsigned_int16 = all_of vk_r16g16b16_uint
format_maps order_rgb signed_int16 = all_of vk_r16g16b16_sint
format_maps order_rgb half_float = all_of vk_r16g16b16_sfloat
format_maps order_rgb unsigned_int32 = all_of vk_r32g32b32_uint
format_maps order_rgb signed_int32 = all_of vk_r32g32b32_sint
format_maps order_rgb float = all_of vk_r32g32b32_sfloat
format_maps order_rgb unorm_short_565 = all_of vk_r5g6b5_unorm_pack16
format_maps order_rgba unorm_int8 = all_of vk_r8g8b8a8_unorm
format_maps order_rgba snorm_int8 = all_of vk_r8g8b8a8_snorm
format_maps order_rgba unsigned_int8 = all_of vk_r8g8b8a8_uint
format_maps order_rgba signed_int8 = all_of vk_r8g8b8a8_sint
format_maps order_rgba unorm_int16 = all_of vk_r16g16b16a16_unorm
format_maps order_rgba snorm_int16 = all_of vk_r16g16b16a16_snorm
format_maps order_rgba unsigned_int16 = all_of vk_r16g16b16a16_uint
format_maps order_rgba signed_int16 = all_of vk_r16g16b16a16_sint
format_maps order_rgba half_float = all_of vk_r16g16b16a16_sfloat
format_maps order_rgba unsigned_int32 = all_of vk_r32g32b32a32_uint
format_maps order_rgba signed_int32 = all_of vk_r32g32b32a32_sint
format_maps order_rgba float = all_of vk_r32g32b32a32_sfloat
format_maps order_bgra unorm_int8 = all_of vk_b8g8r8a8_unorm
format_maps order_bgra snorm_int8 = all_of vk_b8g8r8a8_snorm
format_maps order_bgra unsigned_int8 = all_of vk_b8g8r8a8_uint
format_maps order_bgra signed_int8 = all_of vk_b8g8r8a8_sint
format_maps o t = none
