-- ===== src/ImageFormat/Texels.antt =====
-- What Vulkan documents of the formats in the table: the channels of a texel in the order in which
-- they are stored, and the numbers that they hold.
use clvk.Common.{ℕ, List, [], ◌∷◌}
use clvk.ImageFormat.Table.{
  VkFormat, vk_r8_unorm, vk_r8_snorm, vk_r8_uint, vk_r8_sint, vk_r16_unorm, vk_r16_snorm,
  vk_r16_uint, vk_r16_sint, vk_r16_sfloat, vk_r32_uint, vk_r32_sint, vk_r32_sfloat, vk_r8g8_unorm,
  vk_r8g8_snorm, vk_r8g8_uint, vk_r8g8_sint, vk_r16g16_unorm, vk_r16g16_snorm, vk_r16g16_uint,
  vk_r16g16_sint, vk_r16g16_sfloat, vk_r32g32_uint, vk_r32g32_sint, vk_r32g32_sfloat,
  vk_r8g8b8_unorm, vk_r8g8b8_snorm, vk_r8g8b8_uint, vk_r8g8b8_sint, vk_r16g16b16_unorm,
  vk_r16g16b16_snorm, vk_r16g16b16_uint, vk_r16g16b16_sint, vk_r16g16b16_sfloat, vk_r32g32b32_uint,
  vk_r32g32b32_sint, vk_r32g32b32_sfloat, vk_r5g6b5_unorm_pack16, vk_r8g8b8a8_unorm,
  vk_r8g8b8a8_snorm, vk_r8g8b8a8_uint, vk_r8g8b8a8_sint, vk_r16g16b16a16_unorm,
  vk_r16g16b16a16_snorm, vk_r16g16b16a16_uint, vk_r16g16b16a16_sint, vk_r16g16b16a16_sfloat,
  vk_r32g32b32a32_uint, vk_r32g32b32a32_sint, vk_r32g32b32a32_sfloat, vk_b8g8r8a8_unorm,
  vk_b8g8r8a8_snorm, vk_b8g8r8a8_uint, vk_b8g8r8a8_sint,
}

pub data Channel : Type 0 where
  red green blue alpha : Channel

unfoldable pub stored_channels : VkFormat → List Channel
stored_channels vk_r8_unorm = red ∷ []
stored_channels vk_r8_snorm = red ∷ []
stored_channels vk_r8_uint = red ∷ []
stored_channels vk_r8_sint = red ∷ []
stored_channels vk_r16_unorm = red ∷ []
stored_channels vk_r16_snorm = red ∷ []
stored_channels vk_r16_uint = red ∷ []
stored_channels vk_r16_sint = red ∷ []
stored_channels vk_r16_sfloat = red ∷ []
stored_channels vk_r32_uint = red ∷ []
stored_channels vk_r32_sint = red ∷ []
stored_channels vk_r32_sfloat = red ∷ []
stored_channels vk_r8g8_unorm = red ∷ green ∷ []
stored_channels vk_r8g8_snorm = red ∷ green ∷ []
stored_channels vk_r8g8_uint = red ∷ green ∷ []
stored_channels vk_r8g8_sint = red ∷ green ∷ []
stored_channels vk_r16g16_unorm = red ∷ green ∷ []
stored_channels vk_r16g16_snorm = red ∷ green ∷ []
stored_channels vk_r16g16_uint = red ∷ green ∷ []
stored_channels vk_r16g16_sint = red ∷ green ∷ []
stored_channels vk_r16g16_sfloat = red ∷ green ∷ []
stored_channels vk_r32g32_uint = red ∷ green ∷ []
stored_channels vk_r32g32_sint = red ∷ green ∷ []
stored_channels vk_r32g32_sfloat = red ∷ green ∷ []
stored_channels vk_r8g8b8_unorm = red ∷ green ∷ blue ∷ []
stored_channels vk_r8g8b8_snorm = red ∷ green ∷ blue ∷ []
stored_channels vk_r8g8b8_uint = red ∷ green ∷ blue ∷ []
stored_channels vk_r8g8b8_sint = red ∷ green ∷ blue ∷ []
stored_channels vk_r16g16b16_unorm = red ∷ green ∷ blue ∷ []
stored_channels vk_r16g16b16_snorm = red ∷ green ∷ blue ∷ []
stored_channels vk_r16g16b16_uint = red ∷ green ∷ blue ∷ []
stored_channels vk_r16g16b16_sint = red ∷ green ∷ blue ∷ []
stored_channels vk_r16g16b16_sfloat = red ∷ green ∷ blue ∷ []
stored_channels vk_r32g32b32_uint = red ∷ green ∷ blue ∷ []
stored_channels vk_r32g32b32_sint = red ∷ green ∷ blue ∷ []
stored_channels vk_r32g32b32_sfloat = red ∷ green ∷ blue ∷ []
stored_channels vk_r5g6b5_unorm_pack16 = red ∷ green ∷ blue ∷ []
stored_channels vk_r8g8b8a8_unorm = red ∷ green ∷ blue ∷ alpha ∷ []
stored_channels vk_r8g8b8a8_snorm = red ∷ green ∷ blue ∷ alpha ∷ []
stored_channels vk_r8g8b8a8_uint = red ∷ green ∷ blue ∷ alpha ∷ []
stored_channels vk_r8g8b8a8_sint = red ∷ green ∷ blue ∷ alpha ∷ []
stored_channels vk_r16g16b16a16_unorm = red ∷ green ∷ blue ∷ alpha ∷ []
stored_channels vk_r16g16b16a16_snorm = red ∷ green ∷ blue ∷ alpha ∷ []
stored_channels vk_r16g16b16a16_uint = red ∷ green ∷ blue ∷ alpha ∷ []
stored_channels vk_r16g16b16a16_sint = red ∷ green ∷ blue ∷ alpha ∷ []
stored_channels vk_r16g16b16a16_sfloat = red ∷ green ∷ blue ∷ alpha ∷ []
stored_channels vk_r32g32b32a32_uint = red ∷ green ∷ blue ∷ alpha ∷ []
stored_channels vk_r32g32b32a32_sint = red ∷ green ∷ blue ∷ alpha ∷ []
stored_channels vk_r32g32b32a32_sfloat = red ∷ green ∷ blue ∷ alpha ∷ []
stored_channels vk_b8g8r8a8_unorm = blue ∷ green ∷ red ∷ alpha ∷ []
stored_channels vk_b8g8r8a8_snorm = blue ∷ green ∷ red ∷ alpha ∷ []
stored_channels vk_b8g8r8a8_uint = blue ∷ green ∷ red ∷ alpha ∷ []
stored_channels vk_b8g8r8a8_sint = blue ∷ green ∷ red ∷ alpha ∷ []

pub data Kind : Type 0 where
  unorm snorm uint sint sfloat : Kind

-- `each k n`: each channel has `n` bits.
pub data Numbers : Type 0 where
  each : Kind → ℕ → Numbers
  packed_565 : Numbers

unfoldable pub stored_numbers : VkFormat → Numbers
stored_numbers vk_r8_unorm = each unorm 8
stored_numbers vk_r8_snorm = each snorm 8
stored_numbers vk_r8_uint = each uint 8
stored_numbers vk_r8_sint = each sint 8
stored_numbers vk_r16_unorm = each unorm 16
stored_numbers vk_r16_snorm = each snorm 16
stored_numbers vk_r16_uint = each uint 16
stored_numbers vk_r16_sint = each sint 16
stored_numbers vk_r16_sfloat = each sfloat 16
stored_numbers vk_r32_uint = each uint 32
stored_numbers vk_r32_sint = each sint 32
stored_numbers vk_r32_sfloat = each sfloat 32
stored_numbers vk_r8g8_unorm = each unorm 8
stored_numbers vk_r8g8_snorm = each snorm 8
stored_numbers vk_r8g8_uint = each uint 8
stored_numbers vk_r8g8_sint = each sint 8
stored_numbers vk_r16g16_unorm = each unorm 16
stored_numbers vk_r16g16_snorm = each snorm 16
stored_numbers vk_r16g16_uint = each uint 16
stored_numbers vk_r16g16_sint = each sint 16
stored_numbers vk_r16g16_sfloat = each sfloat 16
stored_numbers vk_r32g32_uint = each uint 32
stored_numbers vk_r32g32_sint = each sint 32
stored_numbers vk_r32g32_sfloat = each sfloat 32
stored_numbers vk_r8g8b8_unorm = each unorm 8
stored_numbers vk_r8g8b8_snorm = each snorm 8
stored_numbers vk_r8g8b8_uint = each uint 8
stored_numbers vk_r8g8b8_sint = each sint 8
stored_numbers vk_r16g16b16_unorm = each unorm 16
stored_numbers vk_r16g16b16_snorm = each snorm 16
stored_numbers vk_r16g16b16_uint = each uint 16
stored_numbers vk_r16g16b16_sint = each sint 16
stored_numbers vk_r16g16b16_sfloat = each sfloat 16
stored_numbers vk_r32g32b32_uint = each uint 32
stored_numbers vk_r32g32b32_sint = each sint 32
stored_numbers vk_r32g32b32_sfloat = each sfloat 32
stored_numbers vk_r5g6b5_unorm_pack16 = packed_565
stored_numbers vk_r8g8b8a8_unorm = each unorm 8
stored_numbers vk_r8g8b8a8_snorm = each snorm 8
stored_numbers vk_r8g8b8a8_uint = each uint 8
stored_numbers vk_r8g8b8a8_sint = each sint 8
stored_numbers vk_r16g16b16a16_unorm = each unorm 16
stored_numbers vk_r16g16b16a16_snorm = each snorm 16
stored_numbers vk_r16g16b16a16_uint = each uint 16
stored_numbers vk_r16g16b16a16_sint = each sint 16
stored_numbers vk_r16g16b16a16_sfloat = each sfloat 16
stored_numbers vk_r32g32b32a32_uint = each uint 32
stored_numbers vk_r32g32b32a32_sint = each sint 32
stored_numbers vk_r32g32b32a32_sfloat = each sfloat 32
stored_numbers vk_b8g8r8a8_unorm = each unorm 8
stored_numbers vk_b8g8r8a8_snorm = each snorm 8
stored_numbers vk_b8g8r8a8_uint = each uint 8
stored_numbers vk_b8g8r8a8_sint = each sint 8
