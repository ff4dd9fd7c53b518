-- ===== src/Mapping/Table.antt =====
-- The mappings of a buffer, in src/memory.hpp, and the commands that map and unmap it, in
-- src/queue.hpp and src/queue.cpp.
use clvk.Common.{
  ℕ, ◌+◌, Bool, true, false, not, List, [], ◌∷◌, Option, none, some, ◌==◌, if◌then◌else◌, u64,
}
use clvk.Codes.{Code, success, out_of_resources}
use clvk.Mapping.{Chain, host_va, map_memory, unmap_memory, offset_ptr}

-- `cvk_buffer_mapping`.
pub record BufferMapping : Type 0 where
  pub ptr : ℕ
  pub offset : ℕ
  pub size : ℕ

-- `cvk_buffer`: its maps, its host pointer if it has CL_MEM_USE_HOST_PTR, and its mappings.
pub record Buffer : Type 0 where
  pub chain : Chain
  pub use_host_ptr : Option ℕ
  pub mappings : List BufferMapping

-- `m_mappings.count`, `at` and `erase`.
unfoldable pub find_mapping : ℕ → List BufferMapping → Option BufferMapping
find_mapping p [] = none
find_mapping p (m ∷ ms) = if m.ptr == p then some m else find_mapping p ms

unfoldable pub erase_mapping : ℕ → List BufferMapping → List BufferMapping
erase_mapping p [] = []
erase_mapping p (m ∷ ms) = let rest = erase_mapping p ms in if m.ptr == p then rest else m ∷ rest

-- `cvk_buffer::map_ptr`.
unfoldable pub map_ptr : ℕ → Buffer → Option ℕ
map_ptr offset b = elim b.use_host_ptr [
  | none ↦ offset_ptr (host_va b.chain) offset
  | some p ↦ some (u64 (p + offset))
]

unfoldable pub map_buffer : Bool → Buffer → Bool × Buffer
map_buffer ok b = let r = map_memory ok b.chain in (r.0, record b { chain = r.1 })

unfoldable pub unmap_buffer : Buffer → Buffer
unmap_buffer b = record b { chain = unmap_memory b.chain }

-- `find_or_create_mapping`.
unfoldable pub find_or_create_mapping : Bool → ℕ → ℕ → Buffer → Option BufferMapping × Buffer
find_or_create_mapping ok offset size b =
    let r = map_buffer ok b in
    if not r.0 then (none, r.1) else elim (map_ptr offset r.1) [
      | none ↦ (none, r.1)
      | some p ↦ (some (record { ptr = p; offset = offset; size = size }), r.1)
    ]

unfoldable pub insert_mapping : BufferMapping → Buffer → Bool × Buffer
insert_mapping m b = elim (find_mapping m.ptr b.mappings) [
  | none ↦ (true, record b { mappings = m ∷ b.mappings })
  | some n ↦ (false, b)
]

-- `none` is the exception of `at`.
unfoldable pub remove_mapping : ℕ → Buffer → Option (BufferMapping × Buffer)
remove_mapping p b = elim (find_mapping p b.mappings) [
  | none ↦ none
  | some m ↦ some (m, unmap_buffer (record b { mappings = erase_mapping p b.mappings }))
]

unfoldable pub cleanup_mapping : BufferMapping → Buffer → Buffer
cleanup_mapping m b = unmap_buffer (record b { mappings = erase_mapping m.ptr b.mappings })

-- `cvk_command_map_buffer`; the mapping is `none` until `build` has made it.
pub record MapCommand : Type 0 where
  pub offset : ℕ
  pub size : ℕ
  pub mapping : Option BufferMapping
  pub needs_releasing : Bool

-- What `build` does with the mapping, if it is made.
abbrev pub keep_mapping : MapCommand → Option BufferMapping × Buffer → Code × (MapCommand × Buffer)
keep_mapping c (none, b) = (out_of_resources, (c, b))
keep_mapping c (some m, b) = (success, (record c { mapping = some m; needs_releasing = true }, b))

-- `cvk_command_map_buffer::build`.
unfoldable pub build_map : Bool → MapCommand → Buffer → Code × (MapCommand × Buffer)
build_map ok c b = keep_mapping c (find_or_create_mapping ok c.offset c.size b)

-- `cvk_command_map_buffer::do_action`, with `success` for CL_COMPLETE and for the `false` that is
-- returned where the mapping is not inserted, which both are zero. `copied` is whether the bytes
-- reach the host pointer of a buffer that has one; that copy leaves the maps as they are.
unfoldable pub do_map : Bool → BufferMapping → MapCommand → Buffer → Code × (MapCommand × Buffer)
do_map copied m c b =
    let r = insert_mapping m b in
    let ok : Bool = elim b.use_host_ptr [ none ↦ true | some p ↦ copied ] in
    if not r.0
    then (success, (c, b))
    else if ok
    then (success, (record c { needs_releasing = false }, r.1))
    else (out_of_resources, (c, r.1))

-- The destructor of `cvk_command_map_buffer`.
unfoldable pub destroy_map : BufferMapping → MapCommand → Buffer → Buffer
destroy_map m c b = if c.needs_releasing then cleanup_mapping m b else b

-- `cvk_command_unmap_buffer::do_action`: `none` is an exception.
unfoldable pub do_unmap : Bool → ℕ → Buffer → Option (Code × Buffer)
do_unmap copied p b = elim (remove_mapping p b) [
  | none ↦ none
  | some (m, b') ↦ some (
    elim b.use_host_ptr [ none ↦ success | some q ↦ if copied then success else out_of_resources ],
    b',
  )
]

abbrev pub new_map : ℕ → ℕ → MapCommand
new_map offset size = record {
  offset = offset;
  size = size;
  mapping = none;
  needs_releasing = false;
}

-- A map that was built, as a queue goes on with it: done and destroyed, if there is a mapping.
unfoldable pub run_map :
    Bool → Option BufferMapping → Code → MapCommand → Buffer → Code × (Option ℕ × Buffer)
run_map copied none e c b = (e, (none, b))
run_map copied (some m) e c b =
    let r = do_map copied m c b in (r.0, (some m.ptr, destroy_map m r.1.0 r.1.1))

-- A map from its construction to its destruction; what is handed out is the pointer.
unfoldable pub map_command : Bool → Bool → ℕ → ℕ → Buffer → Code × (Option ℕ × Buffer)
map_command ok copied offset size b =
    let r = build_map ok (new_map offset size) b in run_map copied r.1.0.mapping r.0 r.1.0 r.1.1
