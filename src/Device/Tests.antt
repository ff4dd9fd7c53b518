-- ===== src/Device/Tests.antt =====
-- The choices of a device at concrete limits.
use clvk.Common.{ℕ, ◌≡◌, refl, ◌⊎◌, arith, List, [], ◌∷◌, some}
use clvk.Dispatch.{Dim3}
use clvk.Device.{
  Limits, max_memory_types, try_double, can_double, double_both, double_while_changed,
  select_work_group_size, is_suitable, first_suitable, memory_type_index, index_among,
  index_avoiding,
}
use clvk.Device.MemoryType.{IsIn, NoneFits, TypeFits, index_avoiding_chooses}

abbrev limits : Limits
limits = record {
  max_invocations = 128;
  max_work_group_count = record { x = 65535; y = 65535; z = 65535 };
}

abbrev none_required : Dim3
none_required = record { x = 0; y = 0; z = 0 }

abbrev image : Dim3
image = record { x = 640; y = 48; z = 1 }

chosen_for_image :
    select_work_group_size limits none_required image ≡ some (record { x = 8; y = 8; z = 1 })
unfolding select_work_group_size double_while_changed double_both try_double can_double
chosen_for_image = refl

-- Types that are device-local, host-visible and coherent, and all of these and cached.
abbrev types : List ℕ
types = 1 ∷ 6 ∷ 15 ∷ []

avoids_cached : index_avoiding types 7 8 (7 ∷ 6 ∷ []) ≡ 1
unfolding index_avoiding index_among memory_type_index first_suitable is_suitable
avoids_cached = refl

cached_after_all : index_avoiding types 7 8 (7 ∷ []) ≡ 2
unfolding index_avoiding index_among memory_type_index first_suitable is_suitable
cached_after_all = refl

index_avoiding_chooses_example :
    ((index_avoiding types 7 8 (7 ∷ []) ≡ max_memory_types)
      × ((required : ℕ) → IsIn required (7 ∷ []) → NoneFits types 7 0 required))
    ⊎ ((required : ℕ) × IsIn required (7 ∷ [])
        × (TypeFits types 7 8 required (index_avoiding types 7 8 (7 ∷ []))
            ⊎ (TypeFits types 7 0 required (index_avoiding types 7 8 (7 ∷ []))
                × ((q : ℕ) → IsIn q (7 ∷ []) → NoneFits types 7 8 q))))
index_avoiding_chooses_example = index_avoiding_chooses types 7 8 (7 ∷ []) (omega arith)
