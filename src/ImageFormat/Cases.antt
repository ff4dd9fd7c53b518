-- ===== src/ImageFormat/Cases.antt =====
-- When an image format is converted, and to what.
use clvk.Common.{
  ◌≡◌, ◌↔◌, ◌⊎◌, inl, inr, sym, Bool-cases, ◌∙◌, Option-cases, refl, Bool, true, false, none, some,
  arith, if◌then◌else◌, ◌&&◌,
}
use clvk.ImageFormat.Table.{ChannelOrder, ChannelType, Support, format_maps}
use clvk.ImageFormat.{
  Conversion, Device, get_equivalent_bgra_format, sampled_mapping, is_bgra, identities,
  cl_image_format_to_vulkan_format,
}

abbrev pub plain : ChannelOrder → Support → Conversion
plain o s = record { support = s; sampled = sampled_mapping o; storage = identities }

if-cases {ℓ} :
    {A : Type ℓ} (b : Bool) (x y z : A)
    → (if b then some x else some y) ≡ some z
    → (z ≡ y) ⊎ ((b ≡ true) × (z ≡ x))
if-cases true x y z h = inr (refl, ground arith)
if-cases false x y z h = inl (ground arith)

abbrev replaces : Device → Bool → ChannelOrder → Bool
replaces d b o = b && (is_bgra o && d.is_bgra_format_not_supported_for_image1d_buffer)

conversion_of :
    (d : Device) (b : Bool) (o : ChannelOrder) (t : ChannelType) (s : Support)
    → d.is_image_format_disabled o t ≡ false
    → format_maps o t ≡ some s
    → cl_image_format_to_vulkan_format d b o t
      ≡ (if replaces d b o then some (get_equivalent_bgra_format (plain o s)) else some (plain o s))
unfolding cl_image_format_to_vulkan_format
conversion_of d b o t s q p = rw (q, p)

-- A conversion succeeds exactly for the formats of the table that the device has not disabled.
pub converts_iff :
    (d : Device) (is_1d_buffer : Bool) (o : ChannelOrder) (t : ChannelType)
    → (cl_image_format_to_vulkan_format d is_1d_buffer o t ≡ none)
      ↔ ((d.is_image_format_disabled o t ≡ true) ⊎ (format_maps o t ≡ none))
unfolding cl_image_format_to_vulkan_format
converts_iff d b o t = ground arith

-- A conversion succeeds for a format of the table that is not disabled, and may be replaced.
pub conversion-cases :
    (d : Device) (is_1d_buffer : Bool) (o : ChannelOrder) (t : ChannelType) (c : Conversion)
    → cl_image_format_to_vulkan_format d is_1d_buffer o t ≡ some c
    → (s : Support) × ((format_maps o t ≡ some s)
        × ((c ≡ plain o s) ⊎ ((is_bgra o ≡ true) × (c ≡ get_equivalent_bgra_format (plain o s)))))
conversion-cases d b o t c h = elim (Bool-cases (d.is_image_format_disabled o t)) [
  | inl q ↦ let n = (converts_iff d b o t).1 (inl q) in ground arith
  | inr q ↦ elim (Option-cases (format_maps o t)) [
    | inl p ↦ let n = (converts_iff d b o t).1 (inr p) in ground arith
    | inr (s, p) ↦ elim (if-cases (replaces d b o) _ _ c (sym (conversion_of d b o t s q p) ∙ h)) [
      | inl e ↦ (s, (p, inl e))
      | inr (k, e) ↦ (s, (p, inr (ground arith, e)))
    ]
  ]
]
