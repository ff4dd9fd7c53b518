-- ===== src/Dispatch/Split.antt =====
-- The split of a non-uniform range into uniform regions: the loops.
use native.Mathlib.Decide.{ℕ_discrete, dec_lt}
use clvk.Common.{
  ℕ, zero, suc, ◌+◌, ◌≤◌, ◌<◌, ◌≡◌, refl, ◌∙◌, subst, List, [], ◌∷◌, ◌++◌, some, arith, length,
  length-append, All, All-append,
}
use clvk.Dispatch.{
  Dim3, NdRange, split_dim, split_dims, split_loop, split_regions, whole, max_regions,
}
use clvk.Dispatch.Region.{
  covers, covers_all, total, total-append, IsUniformAt, IsPart, weight, split_dim-covers,
  split_dim-IsPart, split_dim-weight, split_dim_makes-IsUniformAt, split_dim_keeps-IsUniformAt,
  split_dim_outs-IsUniformAt, weight_of_uniform, weight-le, weight-pos, covers-le,
}

-- The loop over the dimensions.
split_dims-covers :
    (k d : ℕ) (n l : Dim3) (r : NdRange) (p : Dim3)
    → IsPart n l r
    → covers r p ≡ covers (split_dims k d r).0 p + covers_all (split_dims k d r).1 p
unfolding split_dims
split_dims-covers zero d n l r p h = omega arith
split_dims-covers (suc k) d n l r p h = omega (
  arith,
  split_dim-covers d n l r p h,
  split_dims-covers k (suc d) n l (split_dim d r).0 p (split_dim-IsPart d n l r h).0,
  total-append (λ s. covers s p) (split_dim d r).1 (split_dims k (suc d) (split_dim d r).0).1,
)

split_dims-IsPart :
    (k d : ℕ) (n l : Dim3) (r : NdRange)
    → IsPart n l r
    → IsPart n l (split_dims k d r).0 × All (IsPart n l) (split_dims k d r).1
unfolding split_dims
split_dims-IsPart zero d n l r h = (h, tt)
split_dims-IsPart (suc k) d n l r h =
    let here = split_dim-IsPart d n l r h in
    let rest = split_dims-IsPart k (suc d) n l (split_dim d r).0 here.0 in
    (rest.0, All-append (IsPart n l) _ _ here.1 rest.1)

split_dims-weight :
    (k d : ℕ) (r : NdRange)
    → weight r ≡ weight (split_dims k d r).0 + total weight (split_dims k d r).1
unfolding split_dims
split_dims-weight zero d r = omega arith
split_dims-weight (suc k) d r = omega (
  arith,
  split_dim-weight d r,
  split_dims-weight k (suc d) (split_dim d r).0,
  total-append weight (split_dim d r).1 (split_dims k (suc d) (split_dim d r).0).1,
)

split_dims_keeps-IsUniformAt :
    (k d e : ℕ) (r : NdRange) → IsUniformAt e r → IsUniformAt e (split_dims k d r).0
unfolding split_dims
split_dims_keeps-IsUniformAt zero d e r h = h
split_dims_keeps-IsUniformAt (suc k) d e r h =
    split_dims_keeps-IsUniformAt k (suc d) e (split_dim d r).0 (split_dim_keeps-IsUniformAt d e r h)

-- The region that stays is uniform in the dimensions that the loop has gone through.
split_dims_makes-IsUniformAt :
    (k d e : ℕ) (r : NdRange) → d ≤ e → e < d + k → IsUniformAt e (split_dims k d r).0
unfolding split_dims
split_dims_makes-IsUniformAt zero d e r lo hi = absurd (omega arith)
split_dims_makes-IsUniformAt (suc k) d e r lo hi = elim (ℕ_discrete d e) [
  | yes q ↦
      split_dims_keeps-IsUniformAt k (suc d) e (split_dim d r).0
        (subst (λ t. IsUniformAt t (split_dim d r).0) q (split_dim_makes-IsUniformAt d r))
  | no q ↦ split_dims_makes-IsUniformAt k (suc d) e (split_dim d r).0 (omega arith) (omega arith)
]

split_dims_outs-IsUniformAt :
    (k d e : ℕ) (r : NdRange) → IsUniformAt e r → All (IsUniformAt e) (split_dims k d r).1
unfolding split_dims
split_dims_outs-IsUniformAt zero d e r h = tt
split_dims_outs-IsUniformAt (suc k) d e r h =
    All-append (IsUniformAt e) _ _ (split_dim_outs-IsUniformAt d e r h) (
      split_dims_outs-IsUniformAt k (suc d) e (split_dim d r).0
        (split_dim_keeps-IsUniformAt d e r h))

-- Uniform in the dimensions that the loop does not visit.
abbrev pub IsFlat : ℕ → NdRange → Type 0
IsFlat dims r =
    (dims ≤ 0 → IsUniformAt 0 r) × (dims ≤ 1 → IsUniformAt 1 r) × (dims ≤ 2 → IsUniformAt 2 r)

-- Uniform in all three dimensions.
abbrev pub IsUniform : NdRange → Type 0
IsUniform r = IsUniformAt 0 r × IsUniformAt 1 r × IsUniformAt 2 r

module _ (dims : ℕ) (n l : Dim3) where
  split_dims-IsUniform : (r : NdRange) → IsFlat dims r → IsUniform (split_dims dims 0 r).0
  split_dims-IsUniform r h = (at 0 h.0, at 1 h.1, at 2 h.2)
    where
      at : (e : ℕ) → (dims ≤ e → IsUniformAt e r) → IsUniformAt e (split_dims dims 0 r).0
      at e k = elim (dec_lt e dims) [
        | yes q ↦ split_dims_makes-IsUniformAt dims 0 e r (omega arith) (omega arith)
        | no q ↦ split_dims_keeps-IsUniformAt dims 0 e r (k (omega arith))
      ]

  -- What the pending regions are, and what the finished ones are.
  abbrev Pending : NdRange → Type 0
  Pending r = IsPart n l r × IsFlat dims r

  abbrev Finished : NdRange → Type 0
  Finished r = IsPart n l r × IsUniform r

  flat-All :
      (rs : List NdRange)
      → All (IsPart n l) rs
      → (dims ≤ 0 → All (IsUniformAt 0) rs)
      → (dims ≤ 1 → All (IsUniformAt 1) rs)
      → (dims ≤ 2 → All (IsUniformAt 2) rs)
      → All Pending rs
  flat-All [] h x y z = tt
  flat-All (r ∷ rs) h x y z = (
    (h.0, (λ q. (x q).0, λ q. (y q).0, λ q. (z q).0)),
    flat-All rs h.1 (λ q. (x q).1) (λ q. (y q).1) (λ q. (z q).1),
  )

  split_dims-Pending : (r : NdRange) → Pending r → All Pending (split_dims dims 0 r).1
  split_dims-Pending r h =
      flat-All _ (split_dims-IsPart dims 0 n l r h.0).1
        (λ q. split_dims_outs-IsUniformAt dims 0 0 r (h.1.0 q))
        (λ q. split_dims_outs-IsUniformAt dims 0 1 r (h.1.1 q))
        (λ q. split_dims_outs-IsUniformAt dims 0 2 r (h.1.2 q))

  -- What the loop makes of its regions.
  pub record IsSplit (done pending rs : List NdRange) : Type 0 where
    pub covered : (p : Dim3) → covers_all rs p ≡ covers_all done p + covers_all pending p
    pub counted : length rs ≡ length done + total weight pending
    pub finished : All Finished rs

  module _ (done rest : List NdRange) (r : NdRange) (g : Pending r) where
    abbrev next_done : List NdRange
    next_done = done ++ ((split_dims dims 0 r).0 ∷ [])

    abbrev next_pending : List NdRange
    next_pending = rest ++ (split_dims dims 0 r).1

    next-covers :
        (p : Dim3)
        → covers_all next_done p + covers_all next_pending p
          ≡ covers_all done p + covers_all (r ∷ rest) p
    next-covers p = omega (
      arith,
      total-append (λ s. covers s p) done ((split_dims dims 0 r).0 ∷ []),
      total-append (λ s. covers s p) rest (split_dims dims 0 r).1,
      split_dims-covers dims 0 n l r p g.0,
    )

    last_weight : weight (split_dims dims 0 r).0 ≡ 1
    last_weight =
        let u = split_dims-IsUniform r g.1 in weight_of_uniform (split_dims dims 0 r).0 u.0 u.1 u.2

    next-weight : 1 + total weight next_pending ≡ total weight (r ∷ rest)
    next-weight = omega (
      arith,
      total-append weight rest (split_dims dims 0 r).1,
      split_dims-weight dims 0 r,
      last_weight,
    )

    next-Finished : All Finished done → All Finished next_done
    next-Finished f =
        All-append Finished done _ f
          (((split_dims-IsPart dims 0 n l r g.0).0, split_dims-IsUniform r g.1), tt)

    next-Pending : All Pending rest → All Pending next_pending
    next-Pending h = All-append Pending rest _ h (split_dims-Pending r g)

    next-IsSplit :
        (rs : List NdRange) → IsSplit next_done next_pending rs → IsSplit done (r ∷ rest) rs
    next-IsSplit rs s = record {
      covered = λ p. s.covered p ∙ next-covers p;
      counted =
          omega (arith, s.counted, next-weight, length-append done ((split_dims dims 0 r).0 ∷ []));
      finished = s.finished;
    }

  split_loop-IsSplit :
      (fuel : ℕ) (done pending : List NdRange)
      → total weight pending ≤ fuel
      → All Finished done
      → All Pending pending
      → (rs : List NdRange) × (split_loop fuel dims done pending ≡ some rs)
        × IsSplit done pending rs
  unfolding split_loop
  split_loop-IsSplit fuel done [] h f g =
      (done, refl, record { covered = λ p. omega arith; counted = omega arith; finished = f })
  split_loop-IsSplit zero done (r ∷ rest) h f g = absurd (omega (arith, weight-pos r))
  split_loop-IsSplit (suc fuel) done (r ∷ rest) h f g =
      let (rs, e, s) =
        split_loop-IsSplit fuel (next_done done rest r g.0) (next_pending done rest r g.0)
          (omega (arith, next-weight done rest r g.0)) (next-Finished done rest r g.0 f)
          (next-Pending done rest r g.0 g.1) in
      (rs, e, next-IsSplit done rest r g.0 rs s)

-- A range that the API accepts: no group is empty, and the unused dimensions are uniform.
pub record IsRange (dims : ℕ) (r : NdRange) : Type 0 where
  pub some_x : 0 < r.lws.x
  pub some_y : 0 < r.lws.y
  pub some_z : 0 < r.lws.z
  pub flat : IsFlat dims r

whole-IsPart : {dims : ℕ} (r : NdRange) → IsRange dims r → IsPart r.gws r.lws (whole r)
whole-IsPart r h = ground arith

-- For a range with no empty group, in whose unused dimensions the global size is a multiple of
-- the local size: the split ends within its fuel, and so within the eight regions of the array;
-- each region is uniform, lies in the range, and has groups that are not empty and at most the
-- range's; and each work-item is in as many regions as in the range, in one or in none.
pub split_regions_partition :
    (dims : ℕ) (r : NdRange)
    → IsRange dims r
    → (rs : List NdRange) × (split_regions dims r ≡ some rs)
      × (length rs ≤ max_regions)
      × All (λ s. IsPart r.gws r.lws s × IsUniform s) rs
      × ((p : Dim3) → (covers_all rs p ≡ covers (whole r) p) × (covers_all rs p ≤ 1))
unfolding split_regions
split_regions_partition dims r h =
    let (rs, e, s) =
      split_loop-IsSplit dims r.gws r.lws max_regions [] (whole r ∷ [])
        (omega (arith, weight-le (whole r))) tt ((whole-IsPart r h, h.flat), tt) in
    (
      rs,
      e,
      omega (arith, s.counted, weight-le (whole r)),
      s.finished,
      λ p. omega (arith, s.covered p, covers-le (whole r) p),
    )
