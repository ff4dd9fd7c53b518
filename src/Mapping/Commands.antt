-- ===== src/Mapping/Commands.antt =====
-- What commands that map and unmap a buffer do to its mappings.
use clvk.Common.{
  ℕ, ◌+◌, ◌≡◌, Bool, true, List, ◌∷◌, Option, none, some, arith, Option-cases, inl, inr, refl, u64,
  ap, ◌∙◌,
}
use clvk.Codes.{Code, success}
use clvk.Mapping.{Chain, map_memory, unmap_memory}
use clvk.Mapping.Counts.{
  Holds, Small, address, Holds-host_va, map_memory-Holds, map_memory-address, unmap_memory-Holds,
}
use clvk.Mapping.Table.{
  Buffer, BufferMapping, MapCommand, find_mapping, erase_mapping, map_ptr, map_buffer, unmap_buffer,
  find_or_create_mapping, cleanup_mapping, build_map, destroy_map, do_unmap, map_command,
  keep_mapping, new_map, run_map,
}
use clvk.Mapping.Entries.{find_erased, do_map_fresh, do_map_again, unmap_first, unmap_absent}

-- Where a map of a buffer at an offset is.
abbrev pub pointer : Buffer → ℕ → ℕ
pointer b offset = elim b.use_host_ptr [
  | none ↦ u64 (address b.chain + offset)
  | some p ↦ u64 (p + offset)
]

abbrev pub mapping_at : Buffer → ℕ → ℕ → BufferMapping
mapping_at b offset size = record { ptr = pointer b offset; offset = offset; size = size }

-- What is left of `run_map` once the command is done.
abbrev destroyed : BufferMapping → Code × (MapCommand × Buffer) → Code × (Option ℕ × Buffer)
destroyed m r = (r.0, (some m.ptr, destroy_map m r.1.0 r.1.1))

-- The chain of a buffer after a map that succeeds.
abbrev pub up : Buffer → Chain
up b = (map_memory true b.chain).1

module _ (offset size u : ℕ) (us : List ℕ) (b : Buffer) (s : Small (u ∷ us))
    (held : Holds 0 (u ∷ us) b.chain) (works : (map_memory true b.chain).0 ≡ true) where
  held_once : Holds 1 (u ∷ us) (up b)
  held_once = rw works at (map_memory-Holds true 0 (u ∷ us) b.chain (omega arith) s held)

  map_ptr_lem : map_ptr offset (record b { chain = up b }) ≡ some (pointer b offset)
  unfolding map_ptr
  map_ptr_lem =
      let there = Holds-host_va 1 (u ∷ us) (up b) (omega arith) held_once in
      let same = map_memory-address true b.chain in
      elim (Option-cases b.use_host_ptr) [
        | inl n ↦ rw (n, there, same) refl
        | inr (q, n) ↦ rw n refl
      ]

  found :
      find_or_create_mapping true offset size b
      ≡ (some (mapping_at b offset size), record b { chain = up b })
  unfolding find_or_create_mapping map_buffer
  found = rw (works, map_ptr_lem) refl

  -- What is left of a map when the mapping is made.
  ran :
      (copied : Bool)
      → map_command true copied offset size b
        ≡ run_map copied
            (some (mapping_at b offset size))
            success
            (record (new_map offset size) {
              mapping = some (mapping_at b offset size);
              needs_releasing = true;
            })
            (record b { chain = up b })
  unfolding map_command build_map
  ran copied =
      ap
        (λ (x : Option BufferMapping × Buffer).
          let r = keep_mapping (new_map offset size) x in
          run_map copied r.1.0.mapping r.0 r.1.0 r.1.1)
        found

  map_fresh :
      find_mapping (pointer b offset) b.mappings ≡ none
      → map_command true true offset size b ≡ (
        success,
        (
          some (pointer b offset),
          record b { chain = up b; mappings = mapping_at b offset size ∷ b.mappings },
        ),
      )
  unfolding run_map destroy_map
  map_fresh fresh =
      ran true
      ∙ ap (destroyed (mapping_at b offset size))
          (do_map_fresh (mapping_at b offset size) _ (record b { chain = up b }) fresh)

  map_again :
      (copied : Bool) (n : BufferMapping)
      → find_mapping (pointer b offset) b.mappings ≡ some n
      → map_command true copied offset size b ≡ (
        success,
        (
          some (pointer b offset),
          record b {
            chain = unmap_memory (up b);
            mappings = erase_mapping (pointer b offset) b.mappings;
          },
        ),
      )
  unfolding run_map destroy_map cleanup_mapping unmap_buffer
  map_again copied n there =
      ran copied
      ∙ ap (destroyed (mapping_at b offset size))
          (do_map_again copied (mapping_at b offset size) n _ (record b { chain = up b }) there)

-- A map of a buffer at a pointer without a mapping, when the driver maps and the bytes are copied,
-- hands out that pointer, at which an unmap then succeeds; together they leave the mappings and
-- the users of the buffer as they were.
pub map_unmap_roundtrip :
    (offset size u : ℕ) (us : List ℕ) (b : Buffer)
    → Small (u ∷ us)
    → Holds 0 (u ∷ us) b.chain
    → (map_memory true b.chain).0 ≡ true
    → find_mapping (pointer b offset) b.mappings ≡ none
    → let (e, (p, b')) = map_command true true offset size b in
      (e ≡ success)
      × ((p ≡ some (pointer b offset))
          × ((b'' : Buffer) × ((do_unmap true (pointer b offset) b' ≡ some (success, b''))
                × ((b''.mappings ≡ b.mappings) × Holds 0 (u ∷ us) b''.chain))))
map_unmap_roundtrip offset size u us b s held works fresh =
    let mapped = map_fresh offset size u us b s held works fresh in
    let once = held_once offset size u us b s held works in
    rw mapped (
      refl,
      (
        refl,
        (
          record b { chain = unmap_memory (up b) },
          (
            unmap_first (mapping_at b offset size) b.mappings _ refl fresh,
            (refl, unmap_memory-Holds 0 (u ∷ us) (up b) (omega arith) s once),
          ),
        ),
      ),
    )

-- A second map at a pointer that has a mapping completes with success, but the destruction of its
-- command takes the mapping of the first map away: an unmap at the pointer is then an exception.
pub second_map_erases :
    (copied copied' : Bool) (offset size u : ℕ) (us : List ℕ) (b : Buffer) (n : BufferMapping)
    → Small (u ∷ us)
    → Holds 0 (u ∷ us) b.chain
    → (map_memory true b.chain).0 ≡ true
    → find_mapping (pointer b offset) b.mappings ≡ some n
    → let (e, (p, b')) = map_command true copied offset size b in
      (e ≡ success)
      × ((p ≡ some (pointer b offset)) × (do_unmap copied' (pointer b offset) b' ≡ none))
second_map_erases copied copied' offset size u us b n s held works there =
    rw (map_again offset size u us b s held works copied n there) (
      refl,
      (refl, unmap_absent copied' (pointer b offset) _ (find_erased (pointer b offset) b.mappings)),
    )
