-- ===== src/ImageFormat/Reads.antt =====
-- What a kernel reads from an image whose format was converted.
use clvk.Common.{
  ◌≡◌, inl, inr, ap, ◌∙◌, Bool, true, false, List, [], ◌∷◌, some, arith, if◌then◌else◌,
}
use clvk.ImageFormat.Table.{
  ChannelOrder, order_r, order_luminance, order_intensity, order_rg, order_rgb, order_rgba,
  order_bgra, other_order, ChannelType, VkFormat, Support, format_maps,
}
use clvk.ImageFormat.Texels.{Channel, red, green, blue, alpha, stored_channels}
use clvk.ImageFormat.{
  Swizzle, identity, from_r, from_g, from_b, from_a, Conversion, Device, get_equivalent_bgra_format,
  sampled_mapping, is_bgra, cl_image_format_to_vulkan_format,
}
use clvk.ImageFormat.Cases.{plain, conversion-cases}

abbrev same_channel : Channel → Channel → Bool
same_channel red red = true
same_channel green green = true
same_channel blue blue = true
same_channel alpha alpha = true
same_channel c d = false

-- The values of a texel: at most four stored channels, and the constants for missing ones.
pub record Texel {ℓ} (A : Type ℓ) : Type ℓ where
  pub first : A
  pub second : A
  pub third : A
  pub fourth : A
  pub nought : A
  pub unit : A

module _ {ℓ} {A : Type ℓ} (x : Texel A) where
  -- A channel that is not stored is 0, and alpha is 1.
  abbrev absent_value : Channel → A
  absent_value alpha = x.unit
  absent_value c = x.nought

  abbrev find_from : List A → List Channel → Channel → A
  find_from (v ∷ vs) (c ∷ cs) d = if same_channel c d then v else find_from vs cs d
  find_from vs cs d = absent_value d

  -- The value of a channel before the mapping.
  abbrev pub fetched : VkFormat → Channel → A
  fetched f d = find_from (x.first ∷ x.second ∷ x.third ∷ x.fourth ∷ []) (stored_channels f) d

  abbrev pub swizzled : VkFormat → Swizzle → Channel → A
  swizzled f identity c = fetched f c
  swizzled f from_r c = fetched f red
  swizzled f from_g c = fetched f green
  swizzled f from_b c = fetched f blue
  swizzled f from_a c = fetched f alpha

  -- What a read of a sampled image gives.
  abbrev pub sampled_read : Conversion → A × A × A × A
  sampled_read c = (
    swizzled c.support.vkfmt c.sampled.r red,
    swizzled c.support.vkfmt c.sampled.g green,
    swizzled c.support.vkfmt c.sampled.b blue,
    swizzled c.support.vkfmt c.sampled.a alpha,
  )

  -- What OpenCL documents that a read gives, for the channel order.
  pub cl_read : ChannelOrder → A × A × A × A
  cl_read order_r = (x.first, x.nought, x.nought, x.unit)
  cl_read order_luminance = (x.first, x.first, x.first, x.unit)
  cl_read order_intensity = (x.first, x.first, x.first, x.first)
  cl_read order_rg = (x.first, x.second, x.nought, x.unit)
  cl_read order_rgb = (x.first, x.second, x.third, x.unit)
  cl_read order_rgba = (x.first, x.second, x.third, x.fourth)
  cl_read order_bgra = (x.third, x.second, x.first, x.fourth)
  cl_read (other_order n) = (x.nought, x.nought, x.nought, x.unit)

  mapped_read :
      (o : ChannelOrder) (t : ChannelType) (s : Support)
      → format_maps o t ≡ some s
      → sampled_read (plain o s) ≡ cl_read o
  unfolding format_maps sampled_mapping cl_read stored_channels
  mapped_read o t s h = ground arith

  replaced_read :
      (o : ChannelOrder) (t : ChannelType) (s : Support)
      → format_maps o t ≡ some s
      → is_bgra o ≡ true
      → sampled_read (get_equivalent_bgra_format (plain o s)) ≡ cl_read o
  unfolding get_equivalent_bgra_format format_maps sampled_mapping cl_read stored_channels
  replaced_read o t s h k = ground arith

  -- For each image format that is converted, on any device and for any type of image, what
  -- Vulkan reads from a sampled image through the mapping is what OpenCL documents for the
  -- channel order.
  pub conversion_reads :
      (d : Device) (is_1d_buffer : Bool) (o : ChannelOrder) (t : ChannelType) (c : Conversion)
      → cl_image_format_to_vulkan_format d is_1d_buffer o t ≡ some c
      → sampled_read c ≡ cl_read o
  conversion_reads d b o t c h =
      let (s, (m, e)) = conversion-cases d b o t c h in
      elim e [
        | inl p ↦ ap sampled_read p ∙ mapped_read o t s m
        | inr (k, p) ↦ ap sampled_read p ∙ replaced_read o t s m k
      ]
