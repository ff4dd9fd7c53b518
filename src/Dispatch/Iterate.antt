-- ===== src/Dispatch/Iterate.antt =====
-- The split of a uniform region along the device's limits: the three nested loops.
use clvk.Common.{
  ℕ, ◌+◌, ◌-◌, ◌*◌, ◌/◌, ◌^◌, ◌≤◌, ◌<◌, ◌≡◌, ◌∙◌, ap, arith, min, u32, u32-id, u64, u64-id,
}
use clvk.Codes.{Code, success}
use clvk.Dispatch.{
  Dim3, get, put, NdRange, DeviceLimits, ndrange, iterate, num_pieces, piece, piece_offset,
  piece_gws,
}
use clvk.Dispatch.Region.{inside, covers, covers_all, IsUniformAt}
use clvk.Dispatch.Pieces.{
  sum_from, sum_from-mul, sum_from-inside, pieces_reach, piece_starts, for_pieces-total,
}

-- What holds in a dimension of a region that is dispatched: 32-bit sizes, and whole groups.
pub record Fits (limits : DeviceLimits) (r : NdRange) (d : ℕ) : Type 0 where
  pub some : 0 < get r.lws d
  pub some_count : 0 < get limits.max_count d
  pub small : get r.lws d < 2 ^ 32
  pub small_count : get limits.max_count d < 2 ^ 32
  pub ends : get r.offset d + get r.gws d < 2 ^ 32
  pub uniform : IsUniformAt d r

product_below : (a b : ℕ) → a < 2 ^ 32 → b < 2 ^ 32 → a * b < 2 ^ 64
product_below a b h k = grind arith

module _ (limits : DeviceLimits) (r : NdRange) (d : ℕ) where
  -- The size of a piece that is not cut off.
  abbrev stride : ℕ
  stride = get limits.max_count d * get r.lws d

  -- 1 if the number lies in piece `i`.
  abbrev inside_piece : ℕ → ℕ → ℕ
  inside_piece p i = inside (i * stride + get r.offset d) (min stride (get r.gws d - i * stride)) p

module _ (limits : DeviceLimits) (r : NdRange) (d : ℕ) (v : Fits limits r d) where
  abbrev s : ℕ
  s = stride limits r d

  stride_fits : u64 s ≡ s
  stride_fits = u64-id (product_below (get limits.max_count d) (get r.lws d) v.small_count v.small)

  groups_times : get r.gws d / get r.lws d * get r.lws d ≡ get r.gws d
  groups_times = omega (arith, v.uniform)

  mul_mono : (a b c : ℕ) → 0 < c → a < b → a * c < b * c
  mul_mono a b c h k = grind arith

  mul_le : (a b c : ℕ) → a ≤ b → a * c ≤ b * c
  mul_le a b c k = grind arith

  starts_below : (i : ℕ) → i < num_pieces limits r d → i * s < get r.gws d
  starts_below i h = omega (
    arith,
    groups_times,
    mul_mono (i * get limits.max_count d) (get r.gws d / get r.lws d) (get r.lws d) v.some
        (piece_starts _ _ i v.some_count h),
  )

  reach : get r.gws d ≤ num_pieces limits r d * s
  reach = omega (
    arith,
    groups_times,
    mul_le (get r.gws d / get r.lws d) (num_pieces limits r d * get limits.max_count d)
        (get r.lws d) (pieces_reach _ _ v.some_count),
  )

  piece-eq : (i : ℕ) → i < num_pieces limits r d → piece limits r d i ≡ i * s
  piece-eq i h = rw stride_fits (u64-id (omega (arith, starts_below i h, v.ends)))

  piece_offset-eq :
      (i : ℕ) → i < num_pieces limits r d → piece_offset limits r d i ≡ i * s + get r.offset d
  piece_offset-eq i h = rw (piece-eq i h) (u64-id (omega (arith, starts_below i h, v.ends)))

  piece_gws-eq :
      (i : ℕ) → i < num_pieces limits r d → piece_gws limits r d i ≡ min s (get r.gws d - i * s)
  piece_gws-eq i h =
      rw (piece-eq i h, stride_fits) (ap (min s) (omega (arith, starts_below i h, v.ends)))

  inside_piece-eq :
      (p i : ℕ)
      → i < num_pieces limits r d
      → inside (u32 (piece_offset limits r d i)) (u32 (piece_gws limits r d i)) p
        ≡ inside_piece limits r d p i
  inside_piece-eq p i h = rw (
    piece_offset-eq i h,
    piece_gws-eq i h,
    u32-id {n = i * s + get r.offset d} (omega (arith, starts_below i h, v.ends)),
    u32-id {n = min s (get r.gws d - i * s)} (omega (arith, starts_below i h, v.ends)),
  )

  inside_piece_wide :
      (p i : ℕ)
      → i < num_pieces limits r d
      → inside (piece_offset limits r d i) (piece_gws limits r d i) p ≡ inside_piece limits r d p i
  inside_piece_wide p i h = rw (piece_offset-eq i h, piece_gws-eq i h)

  -- The pieces of the dimension make up the region.
  inside_pieces :
      (p c : ℕ)
      → sum_from (λ i. inside_piece limits r d p i * c) (num_pieces limits r d) 0
        ≡ inside (get r.offset d) (get r.gws d) p * c
  inside_pieces p c = rw (
    sum_from-mul (inside_piece limits r d p) c (num_pieces limits r d) 0,
    sum_from-inside (get r.offset d) (get r.gws d) s p (num_pieces limits r d) 0
        (omega (arith, reach)),
    offset_zero,
    size_zero,
  )
    where
      offset_zero : 0 * s + get r.offset d ≡ get r.offset d
      offset_zero = omega arith

      size_zero : get r.gws d - 0 * s ≡ get r.gws d
      size_zero = omega arith

  -- A piece stays in the region.
  piece_ends :
      (i : ℕ)
      → i < num_pieces limits r d
      → piece_offset limits r d i + piece_gws limits r d i < 2 ^ 32
  piece_ends i h =
      rw (piece_offset-eq i h, piece_gws-eq i h) (omega (arith, starts_below i h, v.ends))

abbrev inside_at : ℕ → Dim3 → Dim3 → Dim3 → ℕ
inside_at d offset gws p = inside (get offset d) (get gws d) (get p d)

-- The outer dimensions of a piece are 32-bit.
abbrev FitsAt : ℕ → Dim3 → Dim3 → Type 0
FitsAt d offset gws = get offset d + get gws d < 2 ^ 32

module _ (within : NdRange → Code) (limits : DeviceLimits) (r : NdRange) (p : Dim3) where
  piece_x-covers :
      (gws offset : Dim3) (i : ℕ)
      → Fits limits r 0
      → FitsAt 1 offset gws
      → FitsAt 2 offset gws
      → i < num_pieces limits r 0
      → covers
          (ndrange
            (put offset 0 (piece_offset limits r 0 i))
            (put gws 0 (piece_gws limits r 0 i))
            r.lws)
          p
        ≡ inside_piece limits r 0 p.x i * (inside_at 1 offset gws p * inside_at 2 offset gws p)
  unfolding ndrange
  piece_x-covers gws offset i v fy fz h =
      rw
        (
          inside_piece-eq limits r 0 v p.x i h,
          u32-id {n = offset.y} (omega arith),
          u32-id {n = offset.z} (omega arith),
          u32-id {n = gws.y} (omega arith),
          u32-id {n = gws.z} (omega arith),
        )
        (omega arith)

  iterate_x :
      (gws offset : Dim3)
      → Fits limits r 0
      → FitsAt 1 offset gws
      → FitsAt 2 offset gws
      → (iterate within limits r 0 gws offset).1 ≡ success
      → covers_all (iterate within limits r 0 gws offset).0 p
        ≡ inside_at 0 r.offset r.gws p * (inside_at 1 offset gws p * inside_at 2 offset gws p)
  unfolding iterate
  iterate_x gws offset v fy fz ok =
      for_pieces-total _ (λ s. covers s p)
        (λ i. inside_piece limits r 0 p.x i * (inside_at 1 offset gws p * inside_at 2 offset gws p))
        (num_pieces limits r 0) (λ i h _. omega (arith, piece_x-covers gws offset i v fy fz h))
        (num_pieces limits r 0) 0 (omega arith) ok
      ∙ inside_pieces limits r 0 v p.x (inside_at 1 offset gws p * inside_at 2 offset gws p)

  iterate_y :
      (gws offset : Dim3)
      → Fits limits r 0
      → Fits limits r 1
      → FitsAt 2 offset gws
      → (iterate within limits r 1 gws offset).1 ≡ success
      → covers_all (iterate within limits r 1 gws offset).0 p
        ≡ inside_at 1 r.offset r.gws p * (inside_at 0 r.offset r.gws p * inside_at 2 offset gws p)
  unfolding iterate
  iterate_y gws offset v w fz ok =
      for_pieces-total _ (λ s. covers s p)
        (λ i.
          inside_piece limits r 1 p.y i * (inside_at 0 r.offset r.gws p * inside_at 2 offset gws p))
        (num_pieces limits r 1)
        (λ i h here.
          iterate_x (put gws 1 (piece_gws limits r 1 i)) (put offset 1 (piece_offset limits r 1 i))
            v (piece_ends limits r 1 w i h) fz here
          ∙ rw (inside_piece_wide limits r 1 w p.y i h) (omega arith))
        (num_pieces limits r 1) 0 (omega arith) ok
      ∙ inside_pieces limits r 1 w p.y (inside_at 0 r.offset r.gws p * inside_at 2 offset gws p)

  pub iterate_z :
      (gws offset : Dim3)
      → Fits limits r 0
      → Fits limits r 1
      → Fits limits r 2
      → (iterate within limits r 2 gws offset).1 ≡ success
      → covers_all (iterate within limits r 2 gws offset).0 p ≡ covers r p
  unfolding iterate
  iterate_z gws offset v w u ok =
      for_pieces-total _ (λ s. covers s p)
        (λ i.
          inside_piece limits r 2 p.z i
          * (inside_at 1 r.offset r.gws p * inside_at 0 r.offset r.gws p))
        (num_pieces limits r 2)
        (λ i h here.
          iterate_y (put gws 2 (piece_gws limits r 2 i)) (put offset 2 (piece_offset limits r 2 i))
            v w (piece_ends limits r 2 u i h) here
          ∙ rw (inside_piece_wide limits r 2 u p.z i h) (omega arith))
        (num_pieces limits r 2) 0 (omega arith) ok
      ∙ inside_pieces limits r 2 u p.z (inside_at 1 r.offset r.gws p * inside_at 0 r.offset r.gws p)
      ∙ omega arith
