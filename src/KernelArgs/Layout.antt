-- ===== src/KernelArgs/Layout.antt =====
-- The sizes that an entry point works out for its arguments: `cvk_entry_point::init` and
-- `build_descriptor_sets_layout_bindings_for_arguments` of src/program.cpp.
use clvk.Common.{
  ℕ, ◌+◌, ◌^◌, ◌≤◌, ◌<◌, ◌≡◌, Bool, true, false, ◌||◌, List, [], ◌∷◌, Option, none, some, arith,
  max, if◌then◌else◌, u32, u32-id, All,
}
use clvk.KernelArgs.{Arg, Kind, is_pod, is_local, is_unused}

-- The loop over the arguments; the sum is of `uint32_t`.
pub pod_size_from : ℕ → List Arg → ℕ
pod_size_from n [] = n
pod_size_from n (a ∷ as') =
    pod_size_from (if is_pod a.kind then max n (u32 (a.offset + a.size)) else n) as'

-- The range of push constants: `none` if the program has none.
pub record PushConstants : Type 0 where
  pub offset : ℕ
  pub size : ℕ

pub pod_buffer_size : Option PushConstants → List Arg → ℕ
pod_buffer_size r as' =
    let n = pod_size_from 0 as' in elim r [ none ↦ n | some p ↦ max n (u32 (p.offset + p.size)) ]

-- Whether the loop over the arguments gives an argument a binding. `found` is `pod_found`: of the
-- arguments in a buffer only the first does.
unfoldable pub skips : Bool → Kind → Bool
skips found Kind.local = true
skips found Kind.pod = found
skips found Kind.pod_ubo = found
skips found Kind.pointer_ubo = found
skips found Kind.pod_pushconstant = true
skips found Kind.pointer_pushconstant = true
skips found Kind.unused = true
skips found k = false

unfoldable pub is_pod_buffer : Kind → Bool
is_pod_buffer Kind.pod = true
is_pod_buffer Kind.pod_ubo = true
is_pod_buffer Kind.pointer_ubo = true
is_pod_buffer k = false

unfoldable pub highest_binding : Bool → ℕ → List Arg → ℕ
highest_binding found n [] = n
highest_binding found n (a ∷ as') =
    highest_binding (found || is_pod_buffer a.kind)
      (if skips found a.kind then n else max a.binding n) as'

-- The number of slots is a `uint32_t`.
pub num_resource_slots : List Arg → ℕ
num_resource_slots as' = u32 (highest_binding false 0 as' + 1)

pod_size_from-le : (n : ℕ) (as' : List Arg) → n ≤ pod_size_from n as'
unfolding pod_size_from
pod_size_from-le n [] = omega arith
pod_size_from-le n (a ∷ as') =
    ground (arith, pod_size_from-le (max n (u32 (a.offset + a.size))) as', pod_size_from-le n as')

highest_binding-le : (found : Bool) (n : ℕ) (as' : List Arg) → n ≤ highest_binding found n as'
unfolding highest_binding
highest_binding-le found n [] = omega arith
highest_binding-le found n (a ∷ as') = ground (
  arith,
  highest_binding-le (found || is_pod_buffer a.kind) n as',
  highest_binding-le (found || is_pod_buffer a.kind) (max a.binding n) as',
)

-- An argument that is plain data lies inside the bytes, when its end is a `uint32_t`.
abbrev pub FitsPod : ℕ → Arg → Type 0
FitsPod n a = is_pod a.kind ≡ true → a.offset + a.size < 2 ^ 32 → a.offset + a.size ≤ n

-- An argument that is a memory object or a sampler has a slot.
abbrev pub HasSlot : ℕ → Arg → Type 0
HasSlot n a =
    is_pod a.kind ≡ false → is_local a.kind ≡ false → is_unused a.kind ≡ false → a.binding ≤ n

abbrev pub InSlots : ℕ → Arg → Type 0
InSlots n a =
    is_pod a.kind ≡ false → is_local a.kind ≡ false → is_unused a.kind ≡ false → a.binding < n

grown : (r : Option PushConstants) (as' : List Arg) → pod_size_from 0 as' ≤ pod_buffer_size r as'
unfolding pod_buffer_size
grown none as' = omega arith
grown (some p) as' = omega arith

kind_counts :
    (found : Bool) (k : Kind)
    → is_pod k ≡ false
    → is_local k ≡ false
    → is_unused k ≡ false
    → skips found k ≡ false
unfolding skips is_pod is_local is_unused
kind_counts found k p l u = ground arith

pod_size_from-All : (n : ℕ) (as' : List Arg) → All (FitsPod (pod_size_from n as')) as'
unfolding pod_size_from
pod_size_from-All n [] = tt
pod_size_from-All n (a ∷ as') =
    let m = if is_pod a.kind then max n (u32 (a.offset + a.size)) else n in
    let grows = pod_size_from-le m as' in
    ((λ p small. let e = u32-id small in ground arith), pod_size_from-All m as')

All-map {ℓ κ μ} :
    {A : Type ℓ} (P : A → Type κ) (Q : A → Type μ) (xs : List A)
    → ((a : A) → P a → Q a)
    → All P xs
    → All Q xs
All-map P Q [] f h = tt
All-map P Q (x ∷ xs) f (p, h) = (f x p, All-map P Q xs f h)

-- An argument that wants a slot is not skipped.
binding_counts :
    (found : Bool) (a : Arg)
    → is_pod a.kind ≡ false
    → is_local a.kind ≡ false
    → is_unused a.kind ≡ false
    → skips found a.kind ≡ false
unfolding skips
binding_counts found a p l u = kind_counts found a.kind p l u

highest_binding-All :
    (found : Bool) (n : ℕ) (as' : List Arg) → All (HasSlot (highest_binding found n as')) as'
unfolding highest_binding
highest_binding-All found n [] = tt
highest_binding-All found n (a ∷ as') =
    let m = if skips found a.kind then n else max a.binding n in
    let grows = highest_binding-le (found || is_pod_buffer a.kind) m as' in
    (
      (λ p l u. let s = binding_counts found a p l u in ground arith),
      highest_binding-All (found || is_pod_buffer a.kind) m as',
    )

-- The bytes for plain data hold every such argument whose end is a `uint32_t`, and the slots every
-- memory object and sampler, when the bindings leave room in a `uint32_t`.
pub layout_fits :
    (r : Option PushConstants) (as' : List Arg)
    → highest_binding false 0 as' + 1 < 2 ^ 32
    → All (FitsPod (pod_buffer_size r as')) as' × All (InSlots (num_resource_slots as')) as'
unfolding pod_buffer_size num_resource_slots
layout_fits r as' room =
    let size = pod_buffer_size r as' in
    let grows : pod_size_from 0 as' ≤ size = grown r as' in
    let slots = u32-id room in
    (
      All-map (FitsPod (pod_size_from 0 as')) (FitsPod size) as'
          (λ a h p small. let inside = h p small in omega arith) (pod_size_from-All 0 as'),
      All-map (HasSlot (highest_binding false 0 as')) (InSlots (num_resource_slots as')) as'
          (λ a h p l u. let inside = h p l u in omega (arith, slots))
          (highest_binding-All false 0 as'),
    )
