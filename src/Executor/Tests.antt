-- ===== src/Executor/Tests.antt =====
-- The theorems on executors at concrete groups and pools.
use clvk.Common.{ℕ, ◌≡◌, refl, true, false, [], ◌∷◌}
use clvk.Executor.{
  Cmd, Executor, extract, extract_from, walk_groups, walk_group, visit, is_required, leave,
}
use clvk.Executor.Extract.{Split, flat, extract-Split}

abbrev kernel : ℕ → Cmd
kernel e = record { event = e; is_batch = false }

abbrev batch : ℕ → Cmd
batch e = record { event = e; is_batch = true }

abbrev thread : Executor
thread = record {
  groups = (kernel 1 ∷ batch 2 ∷ []) ∷ (kernel 3 ∷ kernel 4 ∷ []) ∷ [];
  nb_group_in_flight = 3;
}

taken_of_thread : (extract true (3 ∷ []) thread).0 ≡ kernel 1 ∷ kernel 3 ∷ []
unfolding extract extract_from walk_groups walk_group visit is_required
taken_of_thread = refl

left_of_thread : flat (extract true (3 ∷ []) thread).1.groups ≡ batch 2 ∷ kernel 4 ∷ []
unfolding extract extract_from walk_groups walk_group visit is_required leave
left_of_thread = refl

extract-Split_example :
    Split true
      (3 ∷ [])
      (flat thread.groups)
      (extract true (3 ∷ []) thread).0
      (flat (extract true (3 ∷ []) thread).1.groups)
extract-Split_example = extract-Split true (3 ∷ []) thread
