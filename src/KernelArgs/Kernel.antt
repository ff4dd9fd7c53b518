-- ===== src/KernelArgs/Kernel.antt =====
-- `cvk_kernel` of src/kernel.hpp and src/kernel.cpp: its shared argument values, and the metadata
-- of images and samplers.
use clvk.Common.{
  ℕ, Bool, ◌&&◌, ◌||◌, not, List, [], ◌∷◌, ◌++◌, Option, none, some, ◌==◌, if◌then◌else◌, length,
  set, get_elem?, le_bytes,
}
use clvk.Codes.{
  Code, invalid_kernel, invalid_arg_index, invalid_sampler, invalid_arg_value, invalid_arg_size,
}
use clvk.KernelArgs.{
  Arg, Entry, Value, Values, copy, set_pod_data, set_arg, wants_image, is_sampler, is_local,
  is_unused,
}

-- The offsets of an image's channel order and data type, if they are valid.
pub record ImageMetadata : Type 0 where
  pub order_offset : Option ℕ
  pub data_type_offset : Option ℕ

-- A kernel. The argument values are shared with the commands that use them: `current` is the place
-- of the kernel's own in the list of all.
pub record Kernel : Type 0 where
  pub entry : Entry
  pub image_metadata : List (ℕ × ImageMetadata)
  pub sampler_metadata : List (ℕ × ℕ)
  pub current : ℕ
  pub store : List Values

unfoldable pub find_key {ℓ} : {A : Type ℓ} → ℕ → List (ℕ × A) → Option A
find_key k [] = none
find_key k ((j, a) ∷ m) = if j == k then some a else find_key k m

-- An optional word of metadata.
abbrev pub put_word : Option ℕ → ℕ → Values → Values
put_word none w v = v
put_word (some o) w v = set_pod_data o 4 (le_bytes 4 w) v

-- `set_image_metadata`: `none` is a read of an object that is null or no image.
unfoldable pub set_image_metadata : Kernel → ℕ → Value → Values → Option Values
set_image_metadata k index x v = elim (find_key index k.image_metadata) [
  | none ↦ some v
  | some md ↦ elim x.mem [
    | none ↦ none
    | some m ↦
        if not m.is_image
        then none
        else some (
            put_word md.data_type_offset m.channel_data_type
              (put_word md.order_offset m.channel_order v))
  ]
]

-- `set_sampler_metadata`: `none` is a read of a null object.
unfoldable pub set_sampler_metadata : Kernel → ℕ → Value → Values → Option Values
set_sampler_metadata k index x v = elim (find_key index k.sampler_metadata) [
  | none ↦ some v
  | some o ↦ elim x.sampler [ none ↦ none | some s ↦ some (set_pod_data o 4 (le_bytes 4 s.mask) v) ]
]

-- The two calls after the argument is set, whatever that returned.
unfoldable pub set_metadata : Kernel → Arg → ℕ → Value → Values → Option Values
set_metadata k a index x v =
    if wants_image a.kind
    then set_image_metadata k index x v
    else if is_sampler a.kind
    then set_sampler_metadata k index x v
    else some v

-- The kernel's own values are cloned if a command uses them.
unfoldable pub own_values : Kernel → Option Kernel
own_values k = elim (get_elem? k.store k.current) [
  | none ↦ none
  | some v ↦
      if v.is_enqueued
      then some (record k { current = length k.store; store = k.store ++ (copy k.entry v ∷ []) })
      else some k
]

abbrev pub put_values : Kernel → Values → Kernel
put_values k v = record k { store = set k.store k.current v }

unfoldable pub set_own_arg : ℕ → ℕ → Value → Kernel → Option (Code × Kernel)
set_own_arg index size x k = elim (get_elem? k.entry.args index) [
  | none ↦ none
  | some a ↦ elim (get_elem? k.store k.current) [
    | none ↦ none
    | some v ↦
        let r = set_arg a size x v in
        elim (set_metadata k a index x r.1) [ none ↦ none | some w ↦ some (r.0, put_values k w) ]
  ]
]

-- `cvk_kernel::set_arg`.
unfoldable pub kernel_set_arg : ℕ → ℕ → Value → Kernel → Option (Code × Kernel)
kernel_set_arg index size x k = elim (own_values k) [
  | none ↦ none
  | some k' ↦ set_own_arg index size x k'
]

abbrev pub nothing : Value
nothing = record { bytes = []; mem = none; sampler = none }

-- `clSetKernelArg`; the value is `none` for a null pointer, which only an argument that reads
-- nothing from it is let through with.
unfoldable pub cl_set_kernel_arg : Bool → ℕ → ℕ → Option Value → Kernel → Option (Code × Kernel)
cl_set_kernel_arg valid index size x k =
    if not valid then some (invalid_kernel, k) else elim (get_elem? k.entry.args index) [
      | none ↦ some (invalid_arg_index, k)
      | some a ↦ elim x [
        | none ↦
            if not (is_local a.kind || is_unused a.kind)
            then some (if is_sampler a.kind then invalid_sampler else invalid_arg_value, k)
            else if size == 0 && is_local a.kind
            then some (invalid_arg_size, k)
            else kernel_set_arg index size nothing k
        | some y ↦
            if size == 0 && is_local a.kind
            then some (invalid_arg_size, k)
            else kernel_set_arg index size y k
      ]
    ]
