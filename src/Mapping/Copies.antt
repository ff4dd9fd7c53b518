-- ===== src/Mapping/Copies.antt =====
-- The maps that `copy_to` of src/memory.hpp leaves.
use clvk.Common.{ℕ, suc, ◌≡◌, Bool, true, false, List, ◌∷◌, arith, Bool-cases, inl, inr, refl}
use clvk.Mapping.{Chain, map_memory, copy_to}
use clvk.Mapping.Counts.{Holds, Small, map_memory-Holds, unmap_memory-Holds}
use clvk.Mapping.Users.{shift}

-- A copy whose two objects can be mapped leaves the maps of both as they were. If only the
-- target cannot be mapped, the copy fails and the source is left with a map that no user has.
pub copy_to_leaks :
    (source_ok target_ok : Bool) (u v : ℕ) (us vs : List ℕ) (c d : Chain)
    → Small (u ∷ us)
    → Small (v ∷ vs)
    → Holds 0 (u ∷ us) c
    → Holds 0 (v ∷ vs) d
    → let (done, (c', d')) = copy_to source_ok target_ok c d in
      (done ≡ true → Holds 0 (u ∷ us) c' × Holds 0 (v ∷ vs) d')
      × ((map_memory source_ok c).0 ≡ true
          → (map_memory target_ok d).0 ≡ false
          → (done ≡ false) × Holds 0 (suc u ∷ us) c')
unfolding copy_to
copy_to_leaks source_ok target_ok u v us vs c d s t held held' =
    let mapped = map_memory-Holds source_ok 0 (u ∷ us) c (omega arith) s held in
    let mapped' = map_memory-Holds target_ok 0 (v ∷ vs) d (omega arith) t held' in
    elim (Bool-cases (map_memory source_ok c).0) [
      | inl e ↦ elim (Bool-cases (map_memory target_ok d).0) [
        | inl e' ↦
            let one : Holds 1 (u ∷ us) (map_memory source_ok c).1 = rw e at mapped in
            let one' : Holds 1 (v ∷ vs) (map_memory target_ok d).1 = rw e' at mapped' in
            rw (e, e')
              (
                (λ _. (
                  unmap_memory-Holds 0 (u ∷ us) _ (omega arith) s one,
                  unmap_memory-Holds 0 (v ∷ vs) _ (omega arith) t one',
                )),
                λ _ n. absurd (ground arith),
              )
        | inr e' ↦
            let one : Holds 1 (u ∷ us) (map_memory source_ok c).1 = rw e at mapped in
            rw (e, e') ((λ n. absurd (ground arith)), λ _ _. (refl, shift 0 u us _ one))
      ]
      | inr e ↦ rw e ((λ n. absurd (ground arith)), λ n. absurd (ground arith))
    ]
