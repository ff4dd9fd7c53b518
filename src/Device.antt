-- ===== src/Device.antt =====
-- `cvk_device` of src/device.cpp and src/device.hpp: the work-group size that is chosen for a
-- kernel that asks for none, and the memory type that is chosen for a resource.
pub mod WorkGroup
pub mod MemoryType
mod Tests
use Prim.Native.Nat.{bit_and}
use clvk.Common.{
  ℕ, zero, suc, ◌+◌, ◌*◌, ◌%◌, ◌^◌, Bool, true, false, ◌&&◌, not, List, [], ◌∷◌, Option, none, some,
  leb, ◌==◌, if◌then◌else◌, u32, min,
}
use clvk.Dispatch.{Dim3, get, put}

-- The limits of the Vulkan device that are read.
pub record Limits : Type 0 where
  pub max_invocations : ℕ
  pub max_work_group_count : Dim3

-- `max_size`.
abbrev pub max_size : Limits → ℕ
max_size l = min l.max_invocations 64

-- The array with dimension `i` doubled.
abbrev pub doubled : ℕ → Dim3 → Dim3
doubled i local = put local i (u32 (get local i * 2))

-- The condition under which dimension `i` is doubled.
pub can_double : Limits → Dim3 → ℕ → Dim3 → Bool
can_double l global i local =
    let new = doubled i local in
    (get global i % get new i == 0)
    && (leb (get new i) (get l.max_work_group_count i)
        && leb (u32 (u32 (new.x * new.y) * new.z)) (max_size l))

-- The body of the `for` loop: the size, and whether it changed.
pub try_double : Limits → Dim3 → ℕ → Dim3 × Bool → Dim3 × Bool
try_double l global i (local, changed) =
    if can_double l global i local then (doubled i local, true) else (local, changed)

-- The body of the `do` loop.
pub double_both : Limits → Dim3 → Dim3 → Dim3 × Bool
double_both l global local = try_double l global 1 (try_double l global 0 (local, false))

-- The `do … while` loop; `none` means that the fuel ran out.
pub double_while_changed : ℕ → Limits → Dim3 → Dim3 → Option Dim3
double_while_changed zero l global local = none
double_while_changed (suc n) l global local =
    let (new, changed) = double_both l global local in
    let rest = double_while_changed n l global new in if changed then rest else some new

abbrev pub ones : Dim3
ones = record { x = 1; y = 1; z = 1 }

-- `select_work_group_size`. Seven turns are enough.
pub select_work_group_size : Limits → Dim3 → Dim3 → Option Dim3
select_work_group_size l required global =
    if not (required.x == 0) then some required else double_while_changed 7 l global ones

-- The property flags of the memory types.
abbrev pub MemoryTypes : Type 0
MemoryTypes = List ℕ

-- `VK_MAX_MEMORY_TYPES`.
abbrev pub max_memory_types : ℕ
max_memory_types = 32

-- Memory type `k` with these flags is valid, has the required flags, and none to avoid.
pub is_suitable : ℕ → ℕ → ℕ → ℕ → ℕ → Bool
is_suitable valid_bits required avoid k flags =
    (bit_and flags required == required)
    && (not (bit_and (2 ^ k) valid_bits == 0) && (bit_and flags avoid == 0))

-- The loop of the first `memory_type_index_for_resource`, from type `k` on.
pub first_suitable : ℕ → ℕ → ℕ → ℕ → MemoryTypes → ℕ
first_suitable valid_bits required avoid k [] = max_memory_types
first_suitable valid_bits required avoid k (flags ∷ types) =
    let rest = first_suitable valid_bits required avoid (suc k) types in
    if is_suitable valid_bits required avoid k flags then k else rest

pub memory_type_index : MemoryTypes → ℕ → ℕ → ℕ → ℕ
memory_type_index types valid_bits required avoid = first_suitable valid_bits required avoid 0 types

-- The second and the third overload try the sets of flags in turn; the third does so a second time
-- with no flags to avoid.
pub index_among : MemoryTypes → ℕ → ℕ → List ℕ → ℕ
index_among types valid_bits avoid [] = max_memory_types
index_among types valid_bits avoid (required ∷ supported) =
    let k = memory_type_index types valid_bits required avoid in
    let rest = index_among types valid_bits avoid supported in
    if not (k == max_memory_types) then k else rest

pub index_avoiding : MemoryTypes → ℕ → ℕ → List ℕ → ℕ
index_avoiding types valid_bits avoid supported =
    let k = index_among types valid_bits avoid supported in
    if not (k == max_memory_types) then k else index_among types valid_bits 0 supported
