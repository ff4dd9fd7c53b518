-- ===== src/Program/PushConstants.antt =====
-- `prepare_push_constant_range` of src/program.cpp: the range of push constants of a program's
-- pipelines.
pub mod Bounds
pub mod Used
use clvk.Common.{
  ℕ, ◌+◌, ◌-◌, ◌*◌, ◌%◌, ◌≤◌, ◌<◌, ◌≡◌, refl, sym, ap, ◌∙◌, ◌⊎◌, inl, inr, Bool-cases,
  some-injective, subst, Bool, true, false, List, [], ◌∷◌, ◌++◌, Option, none, some, arith, ◌==◌,
  if◌then◌else◌, u32, u32-id, sub32, min, max, ceil_div, All,
}
use clvk.KernelArgs.{Kind, pod_pushconstant, pointer_pushconstant, Arg}
use clvk.KernelArgs.Kernel.{ImageMetadata}

-- A range of bytes: its offset and its size.
abbrev pub Range : Type 0
Range = ℕ × ℕ

abbrev pub uint32_max : ℕ
uint32_max = 4294967295

-- `is_pushconstant`.
unfoldable pub is_pushconstant : Kind → Bool
is_pushconstant pod_pushconstant = true
is_pushconstant pointer_pushconstant = true
is_pushconstant k = false

-- The loop over the arguments of a kernel.
unfoldable pub argument_ranges : List Arg → List Range
argument_ranges [] = []
argument_ranges (a ∷ later) =
    let rest = argument_ranges later in
    if is_pushconstant a.kind then (a.offset, a.size) ∷ rest else rest

-- A word of metadata at an offset, if it has one.
abbrev pub word_range : Option ℕ → List Range
word_range none = []
word_range (some o) = (o, 4) ∷ []

-- The loop over the image metadata of a kernel.
unfoldable pub image_ranges : List (ℕ × ImageMetadata) → List Range
image_ranges [] = []
image_ranges ((i, m) ∷ ms) =
    word_range m.order_offset ++ (word_range m.data_type_offset ++ image_ranges ms)

-- The loop over the sampler metadata of a kernel.
unfoldable pub sampler_ranges : List (ℕ × ℕ) → List Range
sampler_ranges [] = []
sampler_ranges ((i, o) ∷ ms) = (o, 4) ∷ sampler_ranges ms

-- A kernel of the program, as the function reads it.
pub record KernelRanges : Type 0 where
  pub args : List Arg
  pub image_metadata : List (ℕ × ImageMetadata)
  pub sampler_metadata : List (ℕ × ℕ)

abbrev pub each {ℓ} : {A : Type ℓ} → (A → List Range) → List A → List Range
each f [] = []
each f (x ∷ xs) = f x ++ each f xs

-- The ranges that are added, in their order.
unfoldable pub all_ranges : List Range → List KernelRanges → List Range
all_ranges pcs ks =
    pcs
    ++ (each (λ k. argument_ranges k.args) ks
        ++ (each (λ k. image_ranges k.image_metadata) ks
            ++ each (λ k. sampler_ranges k.sampler_metadata) ks))

-- `add_pc_range`, for all of them: `min_offset` and `max_end`.
pub add_ranges : List Range → ℕ × ℕ → ℕ × ℕ
add_ranges [] (low, high) = (low, high)
add_ranges ((offset, size) ∷ rs) (low, high) =
    add_ranges rs (min low offset, max high (u32 (offset + size)))

-- `round_up` of src/utils.hpp.
pub round_up : ℕ → ℕ → ℕ
round_up num multiple = u32 (ceil_div num multiple * multiple)

-- What follows the loops.
pub rounded_range : ℕ × ℕ → Range
rounded_range (low, high) =
    if low == uint32_max then (low, 0) else (low - low % 4, sub32 (round_up high 4) (low - low % 4))

-- `prepare_push_constant_range`.
pub prepare_push_constant_range : List Range → List KernelRanges → Range
prepare_push_constant_range pcs ks = rounded_range (add_ranges (all_ranges pcs ks) (uint32_max, 0))
