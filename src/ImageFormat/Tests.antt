-- ===== src/ImageFormat/Tests.antt =====
-- The theorems on image formats for one format that the device does not support as it is.
use clvk.Common.{ℕ, ◌≡◌, refl, true, false, some}
use clvk.ImageFormat.Table.{all_access, vk_r8g8b8a8_unorm, order_bgra, unorm_int8, format_maps}
use clvk.ImageFormat.{
  Conversion, Device, bgra_mapping, cl_image_format_to_vulkan_format, get_equivalent_bgra_format,
}
use clvk.ImageFormat.Reads.{Texel, sampled_read, cl_read, conversion_reads}

abbrev device : Device
device = record {
  is_image_format_disabled = λ o t. false;
  is_bgra_format_not_supported_for_image1d_buffer = true;
}

abbrev texel : Texel ℕ
texel = record { first = 1; second = 2; third = 3; fourth = 4; nought = 0; unit = 255 }

abbrev replaced : Conversion
replaced = record {
  support = record { access = all_access; vkfmt = vk_r8g8b8a8_unorm };
  sampled = bgra_mapping;
  storage = bgra_mapping;
}

converts : cl_image_format_to_vulkan_format device true order_bgra unorm_int8 ≡ some replaced
unfolding cl_image_format_to_vulkan_format get_equivalent_bgra_format format_maps
converts = refl

conversion_reads_example : sampled_read texel replaced ≡ cl_read texel order_bgra
conversion_reads_example =
    conversion_reads texel device true order_bgra unorm_int8 replaced converts
