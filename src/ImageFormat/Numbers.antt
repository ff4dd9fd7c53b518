-- ===== src/ImageFormat/Numbers.antt =====
-- The numbers that a converted image holds.
use clvk.Common.{◌≡◌, inl, inr, ap, ◌∙◌, Bool, Option, none, some, arith}
use clvk.ImageFormat.Table.{
  ChannelOrder, ChannelType, Support, format_maps, unorm_int8, snorm_int8, unsigned_int8,
  signed_int8, unorm_int16, snorm_int16, unsigned_int16, signed_int16, half_float, unsigned_int32,
  signed_int32, float, unorm_short_565, other_type,
}
use clvk.ImageFormat.Texels.{
  Numbers, each, packed_565, unorm, snorm, uint, sint, sfloat, stored_numbers,
}
use clvk.ImageFormat.{
  Conversion, Device, get_equivalent_bgra_format, cl_image_format_to_vulkan_format,
}
use clvk.ImageFormat.Cases.{plain, conversion-cases}

-- What OpenCL documents of a channel type.
pub cl_numbers : ChannelType → Option Numbers
cl_numbers unorm_int8 = some (each unorm 8)
cl_numbers snorm_int8 = some (each snorm 8)
cl_numbers unsigned_int8 = some (each uint 8)
cl_numbers signed_int8 = some (each sint 8)
cl_numbers unorm_int16 = some (each unorm 16)
cl_numbers snorm_int16 = some (each snorm 16)
cl_numbers unsigned_int16 = some (each uint 16)
cl_numbers signed_int16 = some (each sint 16)
cl_numbers half_float = some (each sfloat 16)
cl_numbers unsigned_int32 = some (each uint 32)
cl_numbers signed_int32 = some (each sint 32)
cl_numbers float = some (each sfloat 32)
cl_numbers unorm_short_565 = some packed_565
cl_numbers (other_type n) = none

table_numbers :
    (o : ChannelOrder) (t : ChannelType) (s : Support)
    → format_maps o t ≡ some s
    → some (stored_numbers s.vkfmt) ≡ cl_numbers t
unfolding format_maps cl_numbers stored_numbers
table_numbers o t s h = ground arith

replaced_numbers :
    (c : Conversion)
    → stored_numbers (get_equivalent_bgra_format c).support.vkfmt ≡ stored_numbers c.support.vkfmt
unfolding get_equivalent_bgra_format stored_numbers
replaced_numbers c = ground arith

-- For each image format that is converted, on any device and for any type of image, the Vulkan
-- format holds the kind and the width of numbers that OpenCL documents for the channel type.
pub conversion_numbers :
    (d : Device) (is_1d_buffer : Bool) (o : ChannelOrder) (t : ChannelType) (c : Conversion)
    → cl_image_format_to_vulkan_format d is_1d_buffer o t ≡ some c
    → some (stored_numbers c.support.vkfmt) ≡ cl_numbers t
conversion_numbers d b o t c h =
    let (s, (m, e)) = conversion-cases d b o t c h in
    elim e [
      | inl p ↦
          ap (λ (x : Conversion). some (stored_numbers x.support.vkfmt)) p ∙ table_numbers o t s m
      | inr (k, p) ↦
          ap (λ (x : Conversion). some (stored_numbers x.support.vkfmt)) p
          ∙ ap some (replaced_numbers (plain o s))
          ∙ table_numbers o t s m
    ]
