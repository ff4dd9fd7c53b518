-- ===== src/Mapping/Tests.antt =====
-- The theorems on maps for a sub-buffer and its buffer.
use clvk.Common.{ℕ, ◌<◌, ◌≡◌, inl, refl, true, false, List, [], ◌∷◌, none, some, arith, get_or}
use clvk.Mapping.{Allocation, Level, Chain, map_memory, map_allocation}
use clvk.Mapping.Counts.{Holds, address}
use clvk.Mapping.Users.{MapStep, run_maps}
use clvk.Mapping.Runs.{Usable, run_maps-Holds}
use clvk.Codes.{success}
use clvk.Mapping.Table.{Buffer, BufferMapping, find_mapping, map_command, do_unmap}
use clvk.Mapping.Commands.{map_unmap_roundtrip}

abbrev memory : Allocation
memory = record { keep_mapping = false; base = 4096; map_ptr = none; mapped = false }

abbrev unmapped : Level
unmapped = record { map_count = 0; map_ptr = none }

abbrev sub_buffer : Chain
sub_buffer = Chain.sub 16 unmapped (Chain.root memory unmapped)

unmapped-Holds : Holds 0 (0 ∷ 0 ∷ []) sub_buffer
unfolding Holds
unmapped-Holds = (
  (refl, λ h. absurd (omega arith)),
  (
    refl,
    ((refl, λ h. absurd (omega arith)), (inl refl, ((λ h. absurd (omega arith)), λ _ _. refl))),
  ),
)

abbrev steps : List MapStep
steps = MapStep.maps 0 true ∷ MapStep.maps 1 false ∷ MapStep.unmaps 0 ∷ []

run_maps-Holds_example :
    let (us', c') = run_maps steps (0 ∷ 0 ∷ [], sub_buffer) in
    Holds 0 us' c' × ((k : ℕ) → 0 < get_or us' k 0 → Usable k c')
run_maps-Holds_example =
    run_maps-Holds steps (0 ∷ 0 ∷ []) sub_buffer (omega arith, (omega arith, tt)) unmapped-Holds

-- The sub-buffer with no mapping, and after a map of its first bytes.
abbrev buffer : Buffer
buffer = record { chain = sub_buffer; use_host_ptr = none; mappings = [] }

abbrev first_map : BufferMapping
first_map = record { ptr = 4112; offset = 0; size = 8 }

abbrev mapped_buffer : Buffer
mapped_buffer = record buffer { mappings = first_map ∷ [] }

map_unmap_roundtrip_example :
    let (e, (p, b')) = map_command true true 0 8 buffer in
    (e ≡ success)
    × ((p ≡ some 4112)
        × ((b'' : Buffer) × ((do_unmap true 4112 b' ≡ some (success, b''))
              × ((b''.mappings ≡ []) × Holds 0 (0 ∷ 0 ∷ []) b''.chain))))
unfolding address map_memory map_allocation find_mapping
map_unmap_roundtrip_example =
    map_unmap_roundtrip 0 8 0 (0 ∷ []) buffer (omega arith, (omega arith, tt)) unmapped-Holds refl
      refl
