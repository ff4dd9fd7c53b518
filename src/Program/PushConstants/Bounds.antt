-- ===== src/Program/PushConstants/Bounds.antt =====
-- The range of push constants against the ranges that are added to it.
use clvk.Common.{
  ℕ, ◌+◌, ◌*◌, ◌%◌, ◌≤◌, ◌<◌, ◌≡◌, subst, false, List, [], ◌∷◌, arith, ◌==◌, u32, u32-id, min, max,
  ceil_div, All,
}
use clvk.Program.PushConstants.{
  Range, uint32_max, KernelRanges, all_ranges, add_ranges, round_up, rounded_range,
  prepare_push_constant_range,
}

-- A range ends before the last word of the 32-bit numbers.
abbrev pub IsSmall : Range → Type 0
IsSmall (offset, size) = offset + size + 4 ≤ uint32_max

-- The range has the bytes of another one.
abbrev pub Covers : Range → Range → Type 0
Covers (base, length) (offset, size) = (base ≤ offset) × (offset + size ≤ base + length)

abbrev Bounds : ℕ × ℕ → ℕ × ℕ → List Range → Type 0
Bounds (low, high) (low', high') rs =
    (low' ≤ low)
    × (high ≤ high')
    × All (λ r. (low' ≤ r.0) × (r.0 + r.1 ≤ high')) rs
    × (high' + 4 ≤ uint32_max)

add_ranges-Bounds :
    (rs : List Range) (low high : ℕ)
    → All IsSmall rs
    → high + 4 ≤ uint32_max
    → Bounds (low, high) (add_ranges rs (low, high)) rs
unfolding add_ranges
add_ranges-Bounds [] low high h k = (omega arith, omega arith, tt, k)
add_ranges-Bounds ((offset, size) ∷ rs) low high (h, hs) k =
    let same : u32 (offset + size) ≡ offset + size = u32-id (omega arith) in
    let ih =
      add_ranges-Bounds rs (min low offset) (max high (u32 (offset + size))) hs
        (omega (arith, same)) in
    (
      omega (arith, ih),
      omega (arith, ih),
      ((omega (arith, ih), omega (arith, ih, same)), ih.2),
      ih.3,
    )

ceil_div_four :
    (n : ℕ) → (n ≤ ceil_div n 4 * 4) × (ceil_div n 4 * 4 ≤ n + 3) × ((ceil_div n 4 * 4) % 4 ≡ 0)
unfolding ceil_div
ceil_div_four n = (ground arith, ground arith, omega arith)

rounded_lem :
    (low high : ℕ)
    → low < uint32_max
    → low ≤ high
    → high + 4 ≤ uint32_max
    → let r = rounded_range (low, high) in
      (r.0 ≤ low) × (high ≤ r.0 + r.1) × (r.0 % 4 ≡ 0) × (r.1 % 4 ≡ 0)
unfolding rounded_range round_up
rounded_lem low high h k room =
    let up = ceil_div_four high in
    let same : u32 (ceil_div high 4 * 4) ≡ ceil_div high 4 * 4 = u32-id (omega (arith, up)) in
    let not_max : (low == uint32_max) ≡ false = ground arith in
    rw not_max (omega arith, omega (arith, up, same), omega arith, omega (arith, up, same))

covered :
    (base size low high : ℕ) (rs : List Range)
    → base ≤ low
    → high ≤ base + size
    → All (λ r. (low ≤ r.0) × (r.0 + r.1 ≤ high)) rs
    → All (Covers (base, size)) rs
covered base size low high [] h k b = tt
covered base size low high ((o, n) ∷ rs) h k b =
    ((omega arith, omega arith), covered base size low high rs h k b.1)

pub each_covered :
    (pcs : List Range) (ks : List KernelRanges) (r : Range) (rs : List Range)
    → all_ranges pcs ks ≡ r ∷ rs
    → All IsSmall (all_ranges pcs ks)
    → All (Covers (prepare_push_constant_range pcs ks)) (all_ranges pcs ks)
      × ((prepare_push_constant_range pcs ks).0 % 4 ≡ 0)
      × ((prepare_push_constant_range pcs ks).1 % 4 ≡ 0)
unfolding prepare_push_constant_range
each_covered pcs ks r rs e small =
    let (low, high) = add_ranges (all_ranges pcs ks) (uint32_max, 0) in
    let b = add_ranges-Bounds (all_ranges pcs ks) uint32_max 0 small (omega arith) in
    let first = subst (All (λ x. (low ≤ x.0) × (x.0 + x.1 ≤ high))) e b.2 in
    let fits = subst (All IsSmall) e small in
    let rounded =
      rounded_lem low high (omega (arith, first.0, fits.0)) (omega (arith, first.0)) b.3 in
    (covered _ _ low high (all_ranges pcs ks) rounded.0 rounded.1 b.2, rounded.2, rounded.3)
