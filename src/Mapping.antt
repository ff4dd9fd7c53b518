-- ===== src/Mapping.antt =====
-- How memory objects are mapped to the host: `map_memory` and `unmap_memory` of `cvk_mem` in
-- src/memory.cpp, and `map` and `unmap` of `cvk_memory_allocation` in src/memory.hpp.
pub mod Counts
pub mod Users
pub mod Runs
pub mod Copies
pub mod Table
pub mod Entries
pub mod Commands
mod Tests
use clvk.Common.{
  ℕ, zero, suc, ◌+◌, ◌-◌, Bool, true, false, ◌&&◌, ◌||◌, not, List, [], ◌∷◌, Option, none, some,
  ◌==◌, if◌then◌else◌, get_or, set, u32, sub32, u64,
}

-- `cvk_memory_allocation`. `base` is where the driver maps it, taken to be the same each time, and
-- `mapped` whether it is mapped.
pub record Allocation : Type 0 where
  pub keep_mapping : Bool
  pub base : ℕ
  pub map_ptr : Option ℕ
  pub mapped : Bool

-- What a `cvk_mem` keeps of its maps.
pub record Level : Type 0 where
  pub map_count : ℕ
  pub map_ptr : Option ℕ

-- A memory object with its memory, or with its offset in its parent and the parent.
pub data Chain : Type 0 where
  root : Allocation → Level → Chain
  sub : ℕ → Level → Chain → Chain

-- `cvk_memory_allocation::map`; `ok` is whether the driver maps the memory.
unfoldable pub map_allocation : Bool → Allocation → Bool × Allocation
map_allocation ok a = elim a.map_ptr [
  | none ↦ if ok then (true, record a { map_ptr = some a.base; mapped = true }) else (false, a)
  | some p ↦
      if a.keep_mapping
      then (true, a)
      else if ok
      then (true, record a { map_ptr = some a.base; mapped = true })
      else (false, a)
]

-- `cvk_memory_allocation::unmap`.
unfoldable pub unmap_allocation : Allocation → Allocation
unmap_allocation a = if a.keep_mapping then a else record a { mapped = false }

-- `host_va`.
unfoldable pub host_va : Chain → Option ℕ
host_va (root a l) = l.map_ptr
host_va (sub o l p) = l.map_ptr

abbrev pub offset_ptr : Option ℕ → ℕ → Option ℕ
offset_ptr none o = none
offset_ptr (some p) o = some (u64 (p + o))

abbrev pub count_up : Level → Level
count_up l = record l { map_count = u32 (l.map_count + 1) }

-- `map_memory`: whether it succeeds. A failure of the driver leaves the count at zero.
unfoldable pub map_memory : Bool → Chain → Bool × Chain
map_memory ok (root a l) =
    let r = map_allocation ok a in
    if not (l.map_count == 0)
    then (true, root a (count_up l))
    else if r.0
    then (true, root r.1 (count_up (record l { map_ptr = r.1.map_ptr })))
    else (false, root r.1 (record l { map_ptr = r.1.map_ptr }))
map_memory ok (sub o l p) =
    let r = map_memory ok p in
    if not (l.map_count == 0)
    then (true, sub o (count_up l) p)
    else if r.0
    then (true, sub o (count_up (record l { map_ptr = offset_ptr (host_va r.1) o })) r.1)
    else (false, sub o l r.1)

-- `unmap_memory`.
unfoldable pub unmap_memory : Chain → Chain
unmap_memory (root a l) =
    let n = sub32 l.map_count 1 in
    if n == 0
    then root (unmap_allocation a) (record { map_count = n; map_ptr = none })
    else root a (record l { map_count = n })
unmap_memory (sub o l p) =
    let n = sub32 l.map_count 1 in
    let q = unmap_memory p in
    if n == 0 then sub o (record l { map_count = n }) q else sub o (record l { map_count = n }) p

-- The calls for the object `k` places up the chain.
unfoldable pub map_at : ℕ → Bool → Chain → Bool × Chain
map_at zero ok c = map_memory ok c
map_at (suc k) ok (root a l) = (false, root a l)
map_at (suc k) ok (sub o l p) = let r = map_at k ok p in (r.0, sub o l r.1)

unfoldable pub unmap_at : ℕ → Chain → Chain
unmap_at zero c = unmap_memory c
unmap_at (suc k) (root a l) = root a l
unmap_at (suc k) (sub o l p) = sub o l (unmap_at k p)

-- `copy_to` of another object that shares no memory object with this one: whether it succeeds, and
-- the maps of both. The bytes are moved while both are mapped.
unfoldable pub copy_to : Bool → Bool → Chain → Chain → Bool × (Chain × Chain)
copy_to source_ok target_ok c d =
    let r = map_memory source_ok c in
    let q = map_memory target_ok d in
    if not r.0
    then (false, (r.1, d))
    else if not q.0
    then (false, (r.1, q.1))
    else (true, (unmap_memory r.1, unmap_memory q.1))
