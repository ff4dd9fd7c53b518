-- ===== src/Dispatch/Tests.antt =====
-- Runs of the dispatch, and the theorems at concrete inputs.
use clvk.Common.{ℕ, ◌≡◌, ◌≤◌, refl, true, List, [], ◌∷◌, some, arith, length, ceil_div, All}
use clvk.Codes.{success}
use clvk.Dispatch.{
  Dim3, NdRange, DeviceLimits, Trace, whole, build_and_dispatch_regions, split_regions, split_loop,
  split_dims, split_dim, dispatch_all, dispatch_uniform_region, iterate, for_pieces, ndrange,
  max_regions,
}
use clvk.Dispatch.Region.{covers, covers_all, IsPart}
use clvk.Dispatch.Split.{IsUniform, split_regions_partition}
use clvk.Dispatch.Total.{build_and_dispatch_regions_exact}

abbrev dim3 : ℕ → ℕ → ℕ → Dim3
dim3 x y z = record { x = x; y = y; z = z }

-- 10 by 7 work-items in groups of 4 by 7, at an offset that the split does not read.
abbrev range : NdRange
range = record { offset = dim3 5 5 0; gws = dim3 10 7 1; lws = dim3 4 7 1 }

abbrev one_group : DeviceLimits
one_group = record { max_count = dim3 1 1 1; max_size = dim3 64 64 64; max_invocations = 64 }

abbrev parts : List NdRange
parts =
    record { offset = dim3 0 0 0; gws = dim3 8 7 1; lws = dim3 4 7 1 }
    ∷ record { offset = dim3 8 0 0; gws = dim3 2 7 1; lws = dim3 2 7 1 }
    ∷ []

splits_in_two : split_regions 2 range ≡ some parts
unfolding split_regions split_loop split_dims split_dim
splits_in_two = refl

abbrev groups : List NdRange
groups =
    record { offset = dim3 0 0 0; gws = dim3 4 7 1; lws = dim3 4 7 1 }
    ∷ record { offset = dim3 4 0 0; gws = dim3 4 7 1; lws = dim3 4 7 1 }
    ∷ record { offset = dim3 8 0 0; gws = dim3 2 7 1; lws = dim3 2 7 1 }
    ∷ []

dispatches_three :
    build_and_dispatch_regions (λ _. success) one_group true 2 range ≡ some (groups, success)
unfolding build_and_dispatch_regions split_regions split_loop split_dims split_dim dispatch_all
    dispatch_uniform_region iterate for_pieces ndrange ceil_div
dispatches_three = refl

split_regions_partition_example :
    (rs : List NdRange) × (split_regions 2 range ≡ some rs)
    × (length rs ≤ max_regions)
    × All (λ s. IsPart range.gws range.lws s × IsUniform s) rs
    × ((p : Dim3) → (covers_all rs p ≡ covers (whole range) p) × (covers_all rs p ≤ 1))
split_regions_partition_example = split_regions_partition 2 range (omega arith)

build_and_dispatch_regions_exact_example :
    (t : Trace) × (build_and_dispatch_regions (λ _. success) one_group true 2 range ≡ some t)
    × (t.1 ≡ success
        → (p : Dim3) → (covers_all t.0 p ≡ covers (whole range) p) × (covers_all t.0 p ≤ 1))
build_and_dispatch_regions_exact_example =
    build_and_dispatch_regions_exact (λ _. success) one_group true 2 range (omega arith)
      (omega arith)
